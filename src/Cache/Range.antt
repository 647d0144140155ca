-- ===== src/Cache/Range.antt =====
-- The range of the statistics, which are ints in csf_assign03/cache.h.
use assignments_for_csf.Base.{
  ℕ, ◌+◌, ◌*◌, ◌^◌, ◌≤◌, ◌<◌, ◌≡◌, arith, Bool, true, false, ◌&&◌, List, [], refl, inl, inr,
  Bool-cases, lt→ltb, ltb→lt, get_or, some,
}
use assignments_for_csf.Cache.{Config, Stats, Cache, fits_int, in_range, checked}
use assignments_for_csf.Cache.Spec.{
  Line, spec_load, spec_store, write_back, Model, model_load, model_store, model_index, model_tag,
}

-- No number of the statistics gets smaller.
pub record Grown (before after : Stats) : Type 0 where
  pub total_loads : before.total_load ≤ after.total_load
  pub total_stores : before.total_store ≤ after.total_store
  pub load_hits : before.load_hit ≤ after.load_hit
  pub load_misses : before.load_miss ≤ after.load_miss
  pub store_hits : before.store_hit ≤ after.store_hit
  pub store_misses : before.store_miss ≤ after.store_miss
  pub cycles : before.cycles ≤ after.cycles

fits_int-le : (a b : ℕ) → a ≤ b → fits_int b ≡ true → fits_int a ≡ true
fits_int-le a b le h = lt→ltb a (2 ^ 31) (omega (arith, ltb→lt b (2 ^ 31) h))

and_map :
    (x y x' y' : Bool)
    → (x ≡ true → x' ≡ true)
    → (y ≡ true → y' ≡ true)
    → (x && y) ≡ true
    → (x' && y') ≡ true
and_map true y x' y' f g h = ground (arith, f, g)
and_map false y x' y' f g h = ground (arith, f, g)

-- What is in range at the end was in range before.
pub in_range-Grown :
    (before after : Stats) → Grown before after → in_range after ≡ true → in_range before ≡ true
unfolding in_range
in_range-Grown before after g = and_map _ _ _ _ (fits_int-le _ _ g.total_loads) (
    and_map _ _ _ _ (fits_int-le _ _ g.total_stores) (
      and_map _ _ _ _ (fits_int-le _ _ g.load_hits) (
        and_map _ _ _ _ (fits_int-le _ _ g.load_misses) (
          and_map _ _ _ _ (fits_int-le _ _ g.store_hits)
            (and_map _ _ _ _ (fits_int-le _ _ g.store_misses) (fits_int-le _ _ g.cycles))))))

besides : (x y y' : Bool) → (y ≡ true → y' ≡ true) → (x && y) ≡ true → (x && y') ≡ true
besides x y y' = and_map x y x y' (λ h. h)

pub with_misses-in_range :
    (stats : Stats) (misses : ℕ)
    → in_range stats ≡ true
    → misses < 2 ^ 31
    → in_range (record stats { store_miss = misses }) ≡ true
unfolding in_range
with_misses-in_range stats misses ok small =
    besides (fits_int stats.total_load) _ _
      (besides (fits_int stats.total_store) _ _ (
        besides (fits_int stats.load_hit) _ _ (
          besides (fits_int stats.load_miss) _ _ (
            besides (fits_int stats.store_hit) _ _ (
              and_map (fits_int stats.store_miss) (fits_int stats.cycles) _ _
                (λ _. lt→ltb misses (2 ^ 31) small) (λ x. x))))))
      ok

pub checked-in_range : (c : Cache) → in_range c.stats ≡ true → checked c ≡ some c
unfolding checked
checked-in_range c ok = rw ok refl

pub in_range-false :
    (before after : Stats) → Grown before after → in_range before ≡ false → in_range after ≡ false
in_range-false before after g h = elim (Bool-cases (in_range after)) [
  | inl t ↦ let e = in_range-Grown before after g t in absurd (ground arith)
  | inr f ↦ f
]

-- The numbers that bound all the others.
pub bounded-in_range :
    (stats : Stats)
    → stats.load_hit + stats.load_miss ≤ stats.total_load
    → stats.store_hit + stats.store_miss ≤ stats.total_store
    → stats.total_load + stats.total_store < 2 ^ 31
    → stats.cycles < 2 ^ 31
    → in_range stats ≡ true
unfolding in_range
bounded-in_range stats loads stores totals cycles =
    rw
      (
        lt→ltb stats.total_load (2 ^ 31) (omega arith),
        lt→ltb stats.total_store (2 ^ 31) (omega arith),
        lt→ltb stats.load_hit (2 ^ 31) (omega arith),
        lt→ltb stats.load_miss (2 ^ 31) (omega arith),
        lt→ltb stats.store_hit (2 ^ 31) (omega arith),
        lt→ltb stats.store_miss (2 ^ 31) (omega arith),
        lt→ltb stats.cycles (2 ^ 31) (omega arith),
      )
      refl

module _ (config : Config) (tag : ℕ) (lines : List Line) (before : Stats) where
  spec_load-Grown : Grown before (spec_load config tag lines before).1
  unfolding spec_load
  spec_load-Grown = record {
    total_loads = ground arith;
    total_stores = ground arith;
    load_hits = ground arith;
    load_misses = ground arith;
    store_hits = ground arith;
    store_misses = ground arith;
    cycles = ground arith;
  }

  spec_store-Grown : Grown before (spec_store config tag lines before).1
  unfolding spec_store
  spec_store-Grown = record {
    total_loads = ground arith;
    total_stores = ground arith;
    load_hits = ground arith;
    load_misses = ground arith;
    store_hits = ground arith;
    store_misses = ground arith;
    cycles = ground arith;
  }

  -- An access pays for at most two transfers of a block, and 101 cycles more.
  spec_load-cycles :
      (spec_load config tag lines before).1.cycles ≤ before.cycles + (config.byte_num * 50 + 101)
  unfolding spec_load write_back
  spec_load-cycles = ground arith

  spec_store-cycles :
      (spec_store config tag lines before).1.cycles ≤ before.cycles + (config.byte_num * 50 + 101)
  unfolding spec_store write_back
  spec_store-cycles = ground arith

pub model_load-Grown : (m : Model) (a : ℕ) → Grown m.stats (model_load m a).stats
unfolding model_load
model_load-Grown m a =
    let g =
      spec_load-Grown m.config (model_tag m.config a) (get_or m.sets (model_index m.config a) [])
        m.stats in
    record {
      total_loads = omega (arith, g.total_loads);
      total_stores = g.total_stores;
      load_hits = g.load_hits;
      load_misses = g.load_misses;
      store_hits = g.store_hits;
      store_misses = g.store_misses;
      cycles = g.cycles;
    }

pub model_store-Grown : (m : Model) (a : ℕ) → Grown m.stats (model_store m a).stats
unfolding model_store
model_store-Grown m a =
    let g =
      spec_store-Grown m.config (model_tag m.config a) (get_or m.sets (model_index m.config a) [])
        m.stats in
    record {
      total_loads = g.total_loads;
      total_stores = omega (arith, g.total_stores);
      load_hits = g.load_hits;
      load_misses = g.load_misses;
      store_hits = g.store_hits;
      store_misses = g.store_misses;
      cycles = g.cycles;
    }

pub model_load-cycles :
    (m : Model) (a : ℕ)
    → (model_load m a).stats.cycles ≤ m.stats.cycles + (m.config.byte_num * 50 + 101)
unfolding model_load
model_load-cycles m a =
    spec_load-cycles m.config (model_tag m.config a) (get_or m.sets (model_index m.config a) [])
      m.stats

pub model_store-cycles :
    (m : Model) (a : ℕ)
    → (model_store m a).stats.cycles ≤ m.stats.cycles + (m.config.byte_num * 50 + 101)
unfolding model_store
model_store-cycles m a =
    spec_store-cycles m.config (model_tag m.config a) (get_or m.sets (model_index m.config a) [])
      m.stats
