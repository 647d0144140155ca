-- ===== src/Cache/Earlier/Agreement.antt =====
-- One access in cache.cpp with LRU and in the earlier version, another.cpp.
pub mod Stores
pub mod Runs
use assignments_for_csf.Base.{
  ℕ, ◌+◌, ◌-◌, ◌*◌, ◌≤◌, ◌≡◌, refl, sym, ap, ◌∙◌, inl, inr, arith, Bool, true, false, List, [], map,
  Option, none, some, length, ◌==◌, if◌then◌else◌, Bool-cases, Option-cases,
}
use assignments_for_csf.Cache.{
  Entry, Config, Stats, SetStep, ◌>>=◌, find_victim, evict, upsert, is_set_full, age, age_below,
  counter_of, to_front, refresh, bring_in, count_load_hit, count_load_miss,
}
use assignments_for_csf.Cache.Earlier
use assignments_for_csf.Cache.Earlier.Blocks.{
  Cleaner, length-Cleaner, counter_of-Cleaner, map-Cleaner, upsert-Cleaner, erase-Cleaner,
  find_victim-Cleaner, age-Keeping, age_below-Keeping,
}

-- Two results that are both missing, or both there and related.
pub data Both {ℓ κ} {A : Type ℓ} (R : A → A → Type κ) : Option A → Option A → Type (ℓ ⊔ κ) where
  neither : Both R none none
  both : (a b : A) → R a b → Both R (some a) (some b)

pub Both-bind {ℓ κ μ ν} :
    {A : Type ℓ} {B : Type μ} {R : A → A → Type κ} {S : B → B → Type ν} {o o' : Option A}
    {k k' : A → Option B}
    → Both R o o'
    → ((a b : A) → R a b → Both S (k a) (k' b))
    → Both S (o >>= k) (o' >>= k')
Both-bind neither h = neither
Both-bind (both a b r) h = h a b r

pub Both-if {ℓ κ} :
    {A : Type ℓ} {R : A → A → Type κ} {a a' b b' : Option A} (test : Bool)
    → Both R a a'
    → Both R b b'
    → Both R (if test then a else b) (if test then a' else b')
Both-if true h k = h
Both-if false h k = k

-- A set with the cycles so far.
abbrev pub Cheaper : List Entry × ℕ → List Entry × ℕ → Type 0
Cheaper (s, cycles) (s', cycles') = Cleaner s s' × (cycles' ≤ cycles)

evict-Both :
    (config : Config) (s s' : List Entry) (cycles cycles' : ℕ)
    → Cleaner s s'
    → cycles' ≤ cycles
    → Both Cheaper (evict config s cycles) (evict config s' cycles')
unfolding evict
evict-Both config s s' cycles cycles' c le =
    let (same, cheaper) = find_victim-Cleaner config s s' none none cycles cycles' c refl le in
    elim (Option-cases (find_victim config s none cycles).0) [
      | inl n ↦ rw (evict, n, sym same ∙ n) neither
      | inr (t, e) ↦ rw (evict, e, sym same ∙ e) (both _ _ (erase-Cleaner t s s' c, cheaper))
    ]

bring_in-Both :
    (config : Config) (t : ℕ) (dirty : Bool) (s s' : List Entry) (cycles cycles' : ℕ)
    → Cleaner s s'
    → cycles' ≤ cycles
    → Both Cheaper (bring_in config t dirty s cycles) (Earlier.bring_in config t s' cycles')
unfolding bring_in Earlier.bring_in is_set_full
bring_in-Both config t dirty s s' cycles cycles' c le = Both-bind made arrives
  where
    made :
        Both Cheaper
          (if is_set_full config s then evict config s cycles else some (s, cycles))
          (if is_set_full config s' then evict config s' cycles' else some (s', cycles'))
    made = elim (Bool-cases (length s' == config.block_num)) [
      | inl e ↦
          rw (ap (λ n. n == config.block_num) (length-Cleaner s s' c) ∙ e, e)
            (evict-Both config s s' cycles cycles' c le)
      | inr e ↦
          rw (ap (λ n. n == config.block_num) (length-Cleaner s s' c) ∙ e, e) (both _ _ (c, le))
    ]

    arrives :
        (a b : List Entry × ℕ)
        → Cheaper a b
        → Both Cheaper
            (some (upsert t (λ e. record e { counter = 0; dirty = dirty }) (map age a.0), a.1))
            (some (upsert t (λ e. record e { counter = 0; dirty = false }) (map age b.0), b.1))
    arrives (a, spent) (b, spent') (c, le) = both _ _ (
      upsert-Cleaner _ _ t (map age a) (map age b)
          (λ e e' f. record {
            same_tag = f.same_tag;
            same_counter = refl;
            dirtier = λ d. absurd (ground arith);
          })
          (map-Cleaner age age a b age-Keeping c),
      le,
    )

-- The same counts, but every store miss counted twice, and at most as many cycles.
pub record Counted (st st' : Stats) : Type 0 where
  pub loads : st'.total_load ≡ st.total_load
  pub stores : st'.total_store ≡ st.total_store
  pub load_hits : st'.load_hit ≡ st.load_hit
  pub load_misses : st'.load_miss ≡ st.load_miss
  pub store_hits : st'.store_hit ≡ st.store_hit
  pub store_misses : st'.store_miss ≡ 2 * st.store_miss
  pub fewer_cycles : st'.cycles ≤ st.cycles

abbrev pub Ahead : List Entry × Stats → List Entry × Stats → Type 0
Ahead (s, st) (s', st') = Cleaner s s' × Counted st st'

-- An access of cache.cpp, which counts at most one more store miss, with that of the earlier
-- version.
abbrev pub Matches :
    (Config → ℕ → List Entry → Stats → SetStep)
    → (Config → ℕ → List Entry → Stats → SetStep)
    → Type 0
Matches access access' =
    (config : Config) (t : ℕ) (s s' : List Entry) (st st' : Stats)
    → config.lru ≡ true
    → Cleaner s s'
    → Counted st st'
    → Both (λ r r'. Ahead r r' × (r.1.store_miss ≤ st.store_miss + 1)) (access config t s st)
        (access' config t s' st')

refresh-Cleaner :
    (t : ℕ) (s s' : List Entry)
    → Cleaner s s'
    → Cleaner (refresh t s) (upsert t to_front (map (age_below (counter_of t s')) s'))
unfolding refresh
refresh-Cleaner t s s' c = rw (counter_of-Cleaner t s s' c) (
    upsert-Cleaner to_front to_front t _ _
      (λ e e' f. record { same_tag = f.same_tag; same_counter = refl; dirtier = f.dirtier })
      (map-Cleaner _ _ s s' (age_below-Keeping (counter_of t s')) c))

pub load_hit-Matches : Matches count_load_hit Earlier.count_load_hit
unfolding count_load_hit Earlier.count_load_hit
load_hit-Matches config t s s' st st' lru c h = rw lru (
    both _ _ (
      (
        refresh-Cleaner t s s' c,
        record {
          loads = h.loads;
          stores = h.stores;
          load_hits = ap (λ n. n + 1) h.load_hits;
          load_misses = h.load_misses;
          store_hits = h.store_hits;
          store_misses = h.store_misses;
          fewer_cycles = omega (arith, h.fewer_cycles);
        },
      ),
      omega arith,
    ))

pub load_miss-Matches : Matches count_load_miss Earlier.count_load_miss
unfolding count_load_miss Earlier.count_load_miss
load_miss-Matches config t s s' st st' lru c h =
    Both-bind (bring_in-Both config t false s s' st.cycles st'.cycles c h.fewer_cycles) λ a b r.
      both _ _ (
        (
          r.0,
          record {
            loads = h.loads;
            stores = h.stores;
            load_hits = h.load_hits;
            load_misses = ap (λ n. n + 1) h.load_misses;
            store_hits = h.store_hits;
            store_misses = h.store_misses;
            fewer_cycles = omega (arith, r.1);
          },
        ),
        omega arith,
      )
