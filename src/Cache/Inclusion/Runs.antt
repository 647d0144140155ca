-- ===== src/Cache/Inclusion/Runs.antt =====
-- Two caches under LRU that differ in the number of blocks of a set.
use assignments_for_csf.Base.{
  ℕ, suc, ◌≡◌, refl, subst, arith, List, [], ◌∷◌, get_or, set, replicate, zero,
}
use assignments_for_csf.Cache.{Config, Stats}
use assignments_for_csf.Cache.Spec.{
  Line, spec_load, spec_store, Model, model_index, model_tag, model_create, model_load, model_store,
}
use assignments_for_csf.Cache.Inclusion.{empty}
use assignments_for_csf.Cache.Inclusion.Sets.{Within}
use assignments_for_csf.Cache.Inclusion.Accesses.{
  Fewer, Beside, After, spec_load-After, spec_store-After,
}

unfoldable pub AllWithin : ℕ → List (List Line) → List (List Line) → Type 0
AllWithin k [] [] = Unit
AllWithin k [] (s' ∷ sets') = ⊥
AllWithin k (s ∷ sets) [] = ⊥
AllWithin k (s ∷ sets) (s' ∷ sets') = Within k s s' × AllWithin k sets sets'

AllWithin-get :
    (k i : ℕ) (sets sets' : List (List Line))
    → AllWithin k sets sets'
    → Within k (get_or sets i []) (get_or sets' i [])
unfolding AllWithin
AllWithin-get k i [] [] h = record { sub = empty []; bounded = omega arith; small = λ _. refl }
AllWithin-get k i [] (s' ∷ sets') h = absurd h
AllWithin-get k i (s ∷ sets) [] h = absurd h
AllWithin-get k zero (s ∷ sets) (s' ∷ sets') (w, h) = w
AllWithin-get k (suc i) (s ∷ sets) (s' ∷ sets') (w, h) = AllWithin-get k i sets sets' h

AllWithin-set :
    (k i : ℕ) (sets sets' : List (List Line)) (s s' : List Line)
    → AllWithin k sets sets'
    → Within k s s'
    → AllWithin k (set sets i s) (set sets' i s')
unfolding AllWithin
AllWithin-set k i [] [] s s' h w = h
AllWithin-set k i [] (x' ∷ sets') s s' h w = absurd h
AllWithin-set k i (x ∷ sets) [] s s' h w = absurd h
AllWithin-set k zero (x ∷ sets) (x' ∷ sets') s s' (v, h) w = (w, h)
AllWithin-set k (suc i) (x ∷ sets) (x' ∷ sets') s s' (v, h) w =
    (v, AllWithin-set k i sets sets' s s' h w)

AllWithin-create : (k n : ℕ) → AllWithin k (replicate n []) (replicate n [])
unfolding AllWithin
AllWithin-create k zero = tt
AllWithin-create k (suc n) =
    (record { sub = empty []; bounded = omega arith; small = λ _. refl }, AllWithin-create k n)

pub record Includes (m m' : Model) : Type 0 where
  pub configs : Beside m.config m'.config
  pub sets : AllWithin m.config.block_num m.sets m'.sets
  pub fewer : Fewer m.stats m'.stats

pub create-Includes : (c c' : Config) → Beside c c' → Includes (model_create c) (model_create c')
unfolding model_create
create-Includes c c' b = record {
  configs = b;
  sets =
      subst (λ n. AllWithin c.block_num (replicate c.set_num []) (replicate n [])) b.same_sets
        (AllWithin-create c.block_num c.set_num);
  fewer = record { load_hits = omega arith; store_hits = omega arith };
}

same_index : (c c' : Config) (a : ℕ) → Beside c c' → model_index c a ≡ model_index c' a
same_index c c' a b = rw (b.same_sets, b.same_bytes) refl

same_tag : (c c' : Config) (a : ℕ) → Beside c c' → model_tag c a ≡ model_tag c' a
same_tag c c' a b = rw (b.same_sets, b.same_bytes) refl

abbrev SetSpec : Type 0
SetSpec = Config → ℕ → List Line → Stats → List Line × Stats

-- An access to the tag `t` of the set `i`.
abbrev put : SetSpec → ℕ → ℕ → Model → Model
put spec i t m =
    let r = spec m.config t (get_or m.sets i []) m.stats in
    record m { sets = set m.sets i r.0; stats = r.1 }

KeepsAhead : SetSpec → Type 0
KeepsAhead spec =
    (c c' : Config) (b : Beside c c') (t : ℕ) (s s' : List Line) (st st' : Stats)
    → Within c.block_num s s'
    → Fewer st st'
    → After c.block_num (spec c t s st) (spec c' t s' st')

put-Includes :
    (spec : SetSpec) (i t : ℕ) (m m' : Model)
    → KeepsAhead spec
    → Includes m m'
    → Includes (put spec i t m) (put spec i t m')
unfolding KeepsAhead
put-Includes spec i t m m' ahead h =
    let after =
      ahead m.config m'.config h.configs t (get_or m.sets i []) (get_or m'.sets i []) m.stats
        m'.stats (AllWithin-get m.config.block_num i m.sets m'.sets h.sets) h.fewer in
    record {
      configs = h.configs;
      sets = AllWithin-set m.config.block_num i m.sets m'.sets _ _ h.sets after.sets;
      fewer = after.fewer;
    }

access-Includes :
    (spec : SetSpec) (a : ℕ) (m m' : Model)
    → KeepsAhead spec
    → Includes m m'
    → Includes
        (put spec (model_index m.config a) (model_tag m.config a) m)
        (put spec (model_index m'.config a) (model_tag m'.config a) m')
access-Includes spec a m m' ahead h =
    let first : Model = put spec (model_index m.config a) (model_tag m.config a) m in
    subst (λ i. Includes first (put spec i (model_tag m'.config a) m'))
      (same_index m.config m'.config a h.configs)
      (subst (λ t. Includes first (put spec (model_index m.config a) t m'))
        (same_tag m.config m'.config a h.configs)
        (put-Includes spec (model_index m.config a) (model_tag m.config a) m m' ahead h))

-- An access by either cache keeps the larger one ahead.
pub model_load-Includes :
    (m m' : Model) (a : ℕ) → Includes m m' → Includes (model_load m a) (model_load m' a)
unfolding model_load KeepsAhead
model_load-Includes m m' a h =
    let r = access-Includes spec_load a m m' spec_load-After h in
    record {
      configs = r.configs;
      sets = r.sets;
      fewer = record { load_hits = r.fewer.load_hits; store_hits = r.fewer.store_hits };
    }

pub model_store-Includes :
    (m m' : Model) (a : ℕ) → Includes m m' → Includes (model_store m a) (model_store m' a)
unfolding model_store KeepsAhead
model_store-Includes m m' a h =
    let r = access-Includes spec_store a m m' spec_store-After h in
    record {
      configs = r.configs;
      sets = r.sets;
      fewer = record { load_hits = r.fewer.load_hits; store_hits = r.fewer.store_hits };
    }
