-- ===== src/Cache/Refine/Runs.antt =====
-- The operations on the whole cache and the model.
use assignments_for_csf.Base.{
  ℕ, ◌+◌, ◌^◌, ◌<◌, ◌≡◌, refl, ap, subst, ◌∙◌, sym, List, [], Option, none, some, Bool-cases, inl,
  inr, length, get_elem?, get_or, set, length-set, length-replicate, get_elem?-get_or,
  get_or-set_self, get_or-set_ne, get_or-replicate, if◌then◌else◌,
}
use native.Mathlib.Decide.{ℕ_discrete}
use assignments_for_csf.Cache.{
  Config, Stats, Cache, Entry, SetStep, create, access, is_hit, index_of, tag_of, in_range, checked,
  load, store, count_load_hit, count_load_miss, count_store_hit, count_store_miss,
}
use assignments_for_csf.Cache.Address.{
  IsValid, HasLengths, create-HasLengths, index_of-eq, index_of-lt, tag_of-eq,
}
use assignments_for_csf.Cache.Spec.{
  Line, Model, model_index, model_tag, model_create, step_set, model_load, model_store, spec_load,
  spec_store,
}
use assignments_for_csf.Cache.Refine.{Represents, Represents-empty}
use assignments_for_csf.Cache.Refine.Steps.{Does, load-Does, store-Does}

-- The cache `c` stands for the model `m`.
pub record Refines (config : Config) (v : IsValid config) (c : Cache) (m : Model) : Type 0 where
  pub lengths : HasLengths config v c
  pub same : c.config ≡ config
  pub model_same : m.config ≡ config
  pub stats_same : c.stats ≡ m.stats
  pub all_sets : length c.sets ≡ config.set_num
  pub all_lists : length m.sets ≡ config.set_num
  pub each : (j : ℕ) → Represents (get_or c.sets j []) (get_or m.sets j [])

-- With a valid configuration the constructor makes a cache that stands for the empty model.
pub create-Refines :
    (config : Config) (v : IsValid config) → Refines config v (create config) (model_create config)
unfolding create model_create
create-Refines config v = record {
  lengths = create-HasLengths config v;
  same = refl;
  model_same = refl;
  stats_same = refl;
  all_sets = length-replicate config.set_num [];
  all_lists = length-replicate config.set_num [];
  each = λ j.
      rw
        (
          get_or-replicate {A = List Entry} [] config.set_num j,
          get_or-replicate {A = List Line} [] config.set_num j,
        )
        Represents-empty;
}

module _ (config : Config) (v : IsValid config) (c : Cache) (m : Model) (r : Refines config v c m)
    (address : ℕ) (small : address < 2 ^ 32) where
  abbrev index : ℕ
  index = model_index config address

  abbrev tag : ℕ
  tag = model_tag config address

  index-lt : index < config.set_num
  index-lt =
      subst (λ i. i < config.set_num) (index_of-eq config v c r.lengths address)
        (index_of-lt config v c r.lengths address)

  read : get_elem? c.sets (index_of c address) ≡ some (get_or c.sets index [])
  read =
      rw (index_of-eq config v c r.lengths address)
        (get_elem?-get_or [] c.sets index (rw r.all_sets index-lt))

  -- The sets after one of them has been replaced on both sides.
  replaced :
      (entries : List Entry) (lines : List Line)
      → Represents entries lines
      → (j : ℕ)
      → Represents (get_or (set c.sets index entries) j []) (get_or (set m.sets index lines) j [])
  replaced entries lines e j = elim (ℕ_discrete index j) [
    | yes here ↦
        subst
          (λ k.
            Represents (get_or (set c.sets index entries) k [])
              (get_or (set m.sets index lines) k []))
          here
          (rw
            (
              get_or-set_self [] c.sets index entries (rw r.all_sets index-lt),
              get_or-set_self [] m.sets index lines (rw r.all_lists index-lt),
            )
            e)
    | no there ↦
        rw
          (
            get_or-set_ne [] c.sets index j entries there,
            get_or-set_ne [] m.sets index j lines there,
          )
          (r.each j)
  ]

  abbrev Reached : Option Cache → Model → Type 0
  Reached step m' = (c' : Cache) × (step ≡ some c') × Refines config v c' m'

  module _ (on_hit on_miss : Config → ℕ → List Entry → Stats → SetStep)
      (spec : Config → ℕ → List Line → Stats → List Line × Stats)
      (does : (entries : List Entry) (lines : List Line)
        → Represents entries lines
        → Does
            (if is_hit entries tag
              then on_hit config tag entries m.stats
              else on_miss config tag entries m.stats)
            (spec config tag lines m.stats).0
            (spec config tag lines m.stats).1) where
    entries : List Entry
    entries = get_or c.sets index []

    lines : List Line
    lines = get_or m.sets index []

    -- The step on the set of the address, in the terms of the program.
    step-Does :
        Does
          (if is_hit entries (tag_of c address)
            then on_hit c.config (tag_of c address) entries c.stats
            else on_miss c.config (tag_of c address) entries c.stats)
          (spec config tag lines m.stats).0
          (spec config tag lines m.stats).1
    unfolding entries lines
    step-Does =
        rw (tag_of-eq config v c r.lengths address small, r.same, r.stats_same)
          (does entries lines (r.each index))

    -- The cache after the step.
    stepped : Cache
    stepped = record c {
      sets = set c.sets index (step-Does.after);
      stats = (spec config tag lines m.stats).1;
    }

    access-some : access on_hit on_miss c address ≡ some stepped
    unfolding access stepped entries
    access-some = rw (read, step-Does.returns, index_of-eq config v c r.lengths address) refl

    -- What the model does, at the configuration that both have.
    at_config : Config → Model
    at_config g = record m {
      sets =
          set m.sets (model_index g address)
            (spec g (model_tag g address) (get_or m.sets (model_index g address) []) m.stats).0;
      stats = (spec g (model_tag g address) (get_or m.sets (model_index g address) []) m.stats).1;
    }

    stepped-Refines : Refines config v stepped (at_config config)
    unfolding stepped lines at_config
    stepped-Refines = record {
      lengths = record {
        index_is = r.lengths.index_is;
        offset_is = r.lengths.offset_is;
        tag_is = r.lengths.tag_is;
      };
      same = r.same;
      model_same = r.model_same;
      stats_same = refl;
      all_sets = length-set c.sets index (step-Does.after) ∙ r.all_sets;
      all_lists =
          length-set m.sets index (spec config tag (get_or m.sets index []) m.stats).0
          ∙ r.all_lists;
      each =
          replaced (step-Does.after) (spec config tag (get_or m.sets index []) m.stats).0
            (step-Does.represents);
    }

    access-Refines : Reached (access on_hit on_miss c address) (step_set spec m address)
    unfolding at_config
    access-Refines = (
      stepped,
      access-some,
      subst (λ g. Refines config v stepped (at_config g)) (sym r.model_same) stepped-Refines,
    )

-- Counting an access changes no more than a total.
counted :
    (config : Config) (v : IsValid config) (c : Cache) (m : Model) (f : Stats → Stats)
    → Refines config v c m
    → Refines config v (record c { stats = f c.stats }) (record m { stats = f m.stats })
counted config v c m f r = record {
  lengths = record {
    index_is = r.lengths.index_is;
    offset_is = r.lengths.offset_is;
    tag_is = r.lengths.tag_is;
  };
  same = r.same;
  model_same = r.model_same;
  stats_same = ap f r.stats_same;
  all_sets = r.all_sets;
  all_lists = r.all_lists;
  each = r.each;
}

-- How an operation ends next to the model after it: in a cache that stands for that model, if the
-- statistics are in the range of ints, and in undefined behaviour if they are not.
unfoldable pub Ends : (config : Config) → IsValid config → Option Cache → Model → Type 0
Ends config v result m =
    if in_range m.stats
    then ((c : Cache) × (result ≡ some c) × Refines config v c m)
    else (result ≡ none)

checked-Ends :
    (config : Config) (v : IsValid config) (c : Cache) (m : Model)
    → Refines config v c m
    → Ends config v (checked c) m
unfolding Ends checked
checked-Ends config v c m r = elim (Bool-cases (in_range m.stats)) [
  | inl b ↦ rw (b, ap in_range r.stats_same ∙ b) (c, refl, r)
  | inr b ↦ rw (b, ap in_range r.stats_same ∙ b) refl
]

-- In a cache that stands for a model, with a valid configuration, and at an address of 32 bits: if
-- the statistics of the model after its load are in the range of ints, `load` ends in a cache that
-- stands for that model, statistics included; if they are not, it has no result, since an int
-- overflows.
pub load-Refines :
    (config : Config) (v : IsValid config) (c : Cache) (m : Model) (address : ℕ)
    → Refines config v c m
    → address < 2 ^ 32
    → Ends config v (load c address) (model_load m address)
unfolding load model_load
load-Refines config v c m address r small =
    let (c', e, r') =
      access-Refines config v c m r address small count_load_hit count_load_miss spec_load
        (λ s l p. load-Does config s l p v.blocks (model_tag config address) m.stats) in
    rw e (
      checked-Ends config v _ _
        (counted config v c' _ (λ st. record st { total_load = st.total_load + 1 }) r'))

-- In a cache that stands for a model, with a valid configuration, and at an address of 32 bits: if
-- the statistics of the model after its store are in the range of ints, `store` ends in a cache that
-- stands for that model, statistics included; if they are not, it has no result, since an int
-- overflows.
pub store-Refines :
    (config : Config) (v : IsValid config) (c : Cache) (m : Model) (address : ℕ)
    → Refines config v c m
    → address < 2 ^ 32
    → Ends config v (store c address) (model_store m address)
unfolding store model_store
store-Refines config v c m address r small =
    let (c', e, r') =
      access-Refines config v c m r address small count_store_hit count_store_miss spec_store
        (λ s l p. store-Does config s l p v.blocks (model_tag config address) m.stats) in
    rw e (
      checked-Ends config v _ _
        (counted config v c' _ (λ st. record st { total_store = st.total_store + 1 }) r'))
