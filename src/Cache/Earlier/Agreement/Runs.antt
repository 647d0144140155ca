-- ===== src/Cache/Earlier/Agreement/Runs.antt =====
-- Runs of cache.cpp with LRU and of the earlier version, another.cpp.
use assignments_for_csf.Base.{
  ℕ, zero, suc, ◌+◌, ◌*◌, ◌^◌, ◌≤◌, ◌<◌, ◌≡◌, inl, inr, Bool-cases, Option, none, some, refl, ap,
  sym, arith, Bool, true, List, [], ◌∷◌, get_elem?, set, replicate, subst, if◌then◌else◌,
}
use mathlib.Core.Option.{some-injective}
use assignments_for_csf.Cache.{
  Entry, Config, Stats, Cache, SetStep, access, load, store, create, is_hit, checked, in_range,
  ◌>>=◌, index_of, tag_of,
}
use assignments_for_csf.Cache.Earlier
use assignments_for_csf.Cache.Range.{in_range-Grown, with_misses-in_range, checked-in_range}
use assignments_for_csf.Cache.Earlier.Blocks.{Cleaner, no_block, is_hit-Cleaner}
use assignments_for_csf.Cache.Earlier.Agreement.{
  Both, neither, both, Both-bind, Both-if, Counted, Matches, Ahead, load_hit-Matches,
  load_miss-Matches,
}
use assignments_for_csf.Cache.Earlier.Agreement.Stores.{store_hit-Matches, store_miss-Matches}

pub data AllCleaner : List (List Entry) → List (List Entry) → Type 0 where
  no_set : AllCleaner [] []
  a_set :
      (s s' : List Entry) (sets sets' : List (List Entry))
      → Cleaner s s'
      → AllCleaner sets sets'
      → AllCleaner (s ∷ sets) (s' ∷ sets')

AllCleaner-get :
    (i : ℕ) (sets sets' : List (List Entry))
    → AllCleaner sets sets'
    → Both Cleaner (get_elem? sets i) (get_elem? sets' i)
AllCleaner-get i _ _ no_set = neither
AllCleaner-get zero _ _ (a_set s s' sets sets' c h) = both s s' c
AllCleaner-get (suc i) _ _ (a_set s s' sets sets' c h) = AllCleaner-get i sets sets' h

AllCleaner-set :
    (i : ℕ) (t t' : List Entry) (sets sets' : List (List Entry))
    → AllCleaner sets sets'
    → Cleaner t t'
    → AllCleaner (set sets i t) (set sets' i t')
AllCleaner-set i t t' _ _ no_set c = no_set
AllCleaner-set zero t t' _ _ (a_set s s' sets sets' d h) c = a_set t t' sets sets' c h
AllCleaner-set (suc i) t t' _ _ (a_set s s' sets sets' d h) c =
    a_set s s' _ _ d (AllCleaner-set i t t' sets sets' h c)

AllCleaner-replicate : (n : ℕ) → AllCleaner (replicate n []) (replicate n [])
AllCleaner-replicate zero = no_set
AllCleaner-replicate (suc n) = a_set [] [] _ _ no_block (AllCleaner-replicate n)

-- The cache of cache.cpp under LRU, and that of the earlier version in its place.
pub record Agrees (c c' : Cache) : Type 0 where
  pub lru : c.config.lru ≡ true
  pub shape : c' ≡ record c { sets = c'.sets; stats = c'.stats }
  pub sets : AllCleaner c.sets c'.sets
  pub counted : Counted c.stats c'.stats

-- The two caches after one access, which counts at most one store miss in cache.cpp.
abbrev pub Nearly : Cache → Cache → Cache → Type 0
Nearly c d d' = Agrees d d' × (d.stats.store_miss ≤ c.stats.store_miss + 1)

module _ (on_hit on_hit' on_miss on_miss' : Config → ℕ → List Entry → Stats → SetStep)
    (hits : Matches on_hit on_hit') (misses : Matches on_miss on_miss') where
  in_place :
      (c : Cache) (sets' : List (List Entry)) (stats' : Stats) (address : ℕ)
      → c.config.lru ≡ true
      → AllCleaner c.sets sets'
      → Counted c.stats stats'
      → Both
          (Nearly c)
          (access on_hit on_miss c address)
          (access on_hit' on_miss' (record c { sets = sets'; stats = stats' }) address)
  unfolding access index_of tag_of
  in_place c sets' stats' address lru ok h =
      let t = tag_of c address in
      Both-bind (AllCleaner-get (index_of c address) c.sets sets' ok) λ s s' r.
        let chosen : Both (λ q q'. Ahead q q' × (q.1.store_miss ≤ c.stats.store_miss + 1))
            (if is_hit s t then on_hit c.config t s c.stats else on_miss c.config t s c.stats)
            (if is_hit s' t then on_hit' c.config t s' stats' else on_miss' c.config t s' stats') =
          rw (is_hit-Cleaner t s s' r) (
            Both-if (is_hit s' t) (hits c.config t s s' c.stats stats' lru r h)
              (misses c.config t s s' c.stats stats' lru r h)) in
        Both-bind chosen λ a b q. both _ _ (
          record {
            lru = lru;
            shape = refl;
            sets = AllCleaner-set (index_of c address) a.0 b.0 c.sets sets' ok q.0.0;
            counted = q.0.1;
          },
          q.1,
        )

  access-Agrees :
      (c c' : Cache) (address : ℕ)
      → Agrees c c'
      → Both (Nearly c) (access on_hit on_miss c address) (access on_hit' on_miss' c' address)
  access-Agrees c c' address r =
      subst
        (λ d. Both (Nearly c) (access on_hit on_miss c address) (access on_hit' on_miss' d address))
        (sym r.shape) (in_place c c'.sets c'.stats address r.lru r.sets r.counted)

one_more_load :
    (st st' : Stats)
    → Counted st st'
    → Counted
        (record st { total_load = st.total_load + 1 })
        (record st' { total_load = st'.total_load + 1 })
one_more_load st st' h = record {
  loads = ap (λ n. n + 1) h.loads;
  stores = h.stores;
  load_hits = h.load_hits;
  load_misses = h.load_misses;
  store_hits = h.store_hits;
  store_misses = h.store_misses;
  fewer_cycles = h.fewer_cycles;
}

one_more_store :
    (st st' : Stats)
    → Counted st st'
    → Counted
        (record st { total_store = st.total_store + 1 })
        (record st' { total_store = st'.total_store + 1 })
one_more_store st st' h = record {
  loads = h.loads;
  stores = ap (λ n. n + 1) h.stores;
  load_hits = h.load_hits;
  load_misses = h.load_misses;
  store_hits = h.store_hits;
  store_misses = h.store_misses;
  fewer_cycles = h.fewer_cycles;
}

with_stats-Agrees :
    (c c' : Cache) (f f' : Stats)
    → Agrees c c'
    → Counted f f'
    → Agrees (record c { stats = f }) (record c' { stats = f' })
with_stats-Agrees c c' f f' r h = record {
  lru = r.lru;
  shape = ap (λ (d : Cache). record d { stats = f' }) r.shape;
  sets = r.sets;
  counted = h;
}

-- What is in range in cache.cpp is so in the earlier version, if twice the store misses are.
Counted-in_range :
    (st st' : Stats)
    → Counted st st'
    → 2 * st.store_miss < 2 ^ 31
    → in_range st ≡ true
    → in_range st' ≡ true
Counted-in_range st st' h twice ok =
    in_range-Grown st' (record st { store_miss = st'.store_miss })
      (record {
        total_loads = omega (arith, h.loads);
        total_stores = omega (arith, h.stores);
        load_hits = omega (arith, h.load_hits);
        load_misses = omega (arith, h.load_misses);
        store_hits = omega (arith, h.store_hits);
        store_misses = omega arith;
        cycles = h.fewer_cycles;
      })
      (with_misses-in_range st st'.store_miss ok (omega (arith, h.store_misses)))

checked-some : (c d : Cache) → checked c ≡ some d → (in_range c.stats ≡ true) × (c ≡ d)
unfolding checked
checked-some c d h = elim (Bool-cases (in_range c.stats)) [
  | inl e ↦ (e, some-injective _ _ (subst (λ b. (if b then some c else none) ≡ some d) e h))
  | inr e ↦
      let lost = subst (λ b. (if b then some c else none) ≡ some d) e h in absurd (ground arith)
]

module _ (c : Cache) (f f' : Stats → Stats)
    (keeps : (st st' : Stats) → Counted st st' → Counted (f st) (f' st'))
    (misses : (st : Stats) → (f st).store_miss ≡ st.store_miss)
    (few : 2 * (c.stats.store_miss + 1) < 2 ^ 31) where
  finish :
      (o o' : Option Cache) (d : Cache)
      → Both (Nearly c) o o'
      → (o >>= λ a. checked (record a { stats = f a.stats })) ≡ some d
      → (d' : Cache) × ((o' >>= λ a. checked (record a { stats = f' a.stats })) ≡ some d')
        × Nearly c d d'
  finish _ _ d neither h = absurd (ground arith)
  finish _ _ d (both a b (q, le)) h =
      let (ok, same) = checked-some (record a { stats = f a.stats }) d h in
      let near = with_stats-Agrees a b (f a.stats) (f' b.stats) q (keeps _ _ q.counted) in
      let le' : (f a.stats).store_miss ≤ c.stats.store_miss + 1 = omega (arith, misses a.stats) in
      let ok' = Counted-in_range _ _ near.counted (omega arith) ok in
      (
        record b { stats = f' b.stats },
        checked-in_range _ ok',
        subst (λ x. Nearly c x (record b { stats = f' b.stats })) same (near, le'),
      )

pub load-Agrees :
    (c c' d : Cache) (address : ℕ)
    → Agrees c c'
    → 2 * (c.stats.store_miss + 1) < 2 ^ 31
    → load c address ≡ some d
    → (d' : Cache) × (Earlier.load c' address ≡ some d') × Nearly c d d'
unfolding load Earlier.load
load-Agrees c c' d address r few h =
    finish c _ _ one_more_load (λ st. refl) few _ _ d
      (access-Agrees _ _ _ _ load_hit-Matches load_miss-Matches c c' address r) h

pub store-Agrees :
    (c c' d : Cache) (address : ℕ)
    → Agrees c c'
    → 2 * (c.stats.store_miss + 1) < 2 ^ 31
    → store c address ≡ some d
    → (d' : Cache) × (Earlier.store c' address ≡ some d') × Nearly c d d'
unfolding store Earlier.store
store-Agrees c c' d address r few h =
    finish c _ _ one_more_store (λ st. refl) few _ _ d
      (access-Agrees _ _ _ _ store_hit-Matches store_miss-Matches c c' address r) h

pub create-Agrees :
    (set_num block_num byte_num : ℕ) (write_allocate write_through : Bool)
    → Agrees
        (create (Earlier.settings set_num block_num byte_num write_allocate write_through))
        (Earlier.create set_num block_num byte_num write_allocate write_through)
unfolding create Earlier.create Earlier.settings
create-Agrees set_num block_num byte_num write_allocate write_through = record {
  lru = refl;
  shape = refl;
  sets = AllCleaner-replicate set_num;
  counted = record {
    loads = refl;
    stores = refl;
    load_hits = refl;
    load_misses = refl;
    store_hits = refl;
    store_misses = refl;
    fewer_cycles = omega arith;
  };
}
