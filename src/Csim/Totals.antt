-- ===== src/Csim/Totals.antt =====
-- The totals that the simulator prints.
use assignments_for_csf.Base.{
  ℕ, ◌+◌, ◌*◌, ◌^◌, ◌<◌, ◌≤◌, ◌≡◌, refl, ◌∙◌, arith, true, List, [], ◌∷◌, some, get_or,
}
use assignments_for_csf.Csim.{printed, main, parse_arguments}
use assignments_for_csf.Cache.{Config, Stats, no_stats, in_range}
use assignments_for_csf.Cache.Address.{IsValid}
use assignments_for_csf.Cache.Range.{bounded-in_range, model_load-cycles, model_store-cycles}
use assignments_for_csf.Cache.Spec.{
  Line, spec_load, spec_store, model_tag, model_index, Model, model_create, model_load, model_store,
}
use assignments_for_csf.Csim.Trace.{
  Access, reads, writes, neither, to_accesses, model_access, model_run, main-prints,
}

-- Accesses of a kind.
abbrev pub loads : List Access → ℕ
loads [] = 0
loads (reads a ∷ accesses) = loads accesses + 1
loads (writes a ∷ accesses) = loads accesses
loads (neither ∷ accesses) = loads accesses

abbrev pub stores : List Access → ℕ
stores [] = 0
stores (reads a ∷ accesses) = stores accesses
stores (writes a ∷ accesses) = stores accesses + 1
stores (neither ∷ accesses) = stores accesses

-- Every load and every store counts as a hit or a miss.
pub record AddsUp (before after : Stats) (n k : ℕ) : Type 0 where
  pub total_loads : after.total_load ≡ before.total_load + n
  pub total_stores : after.total_store ≡ before.total_store + k
  pub load_parts : after.load_hit + after.load_miss ≡ before.load_hit + before.load_miss + n
  pub store_parts : after.store_hit + after.store_miss ≡ before.store_hit + before.store_miss + k

module _ (config : Config) (tag : ℕ) (lines : List Line) (before : Stats) where
  loaded : Stats
  loaded =
      let after = (spec_load config tag lines before).1 in
      record after { total_load = after.total_load + 1 }

  stored : Stats
  stored =
      let after = (spec_store config tag lines before).1 in
      record after { total_store = after.total_store + 1 }

  loaded-AddsUp : AddsUp before loaded 1 0
  unfolding loaded spec_load
  loaded-AddsUp = record {
    total_loads = ground arith;
    total_stores = ground arith;
    load_parts = ground arith;
    store_parts = ground arith;
  }

  stored-AddsUp : AddsUp before stored 0 1
  unfolding stored spec_store
  stored-AddsUp = record {
    total_loads = ground arith;
    total_stores = ground arith;
    load_parts = ground arith;
    store_parts = ground arith;
  }

model_load-AddsUp : (m : Model) (a : ℕ) → AddsUp m.stats (model_load m a).stats 1 0
unfolding model_load loaded
model_load-AddsUp m a =
    loaded-AddsUp m.config (model_tag m.config a) (get_or m.sets (model_index m.config a) [])
      m.stats

model_store-AddsUp : (m : Model) (a : ℕ) → AddsUp m.stats (model_store m a).stats 0 1
unfolding model_store stored
model_store-AddsUp m a =
    stored-AddsUp m.config (model_tag m.config a) (get_or m.sets (model_index m.config a) [])
      m.stats

pub model_run-AddsUp :
    (m : Model) (accesses : List Access)
    → AddsUp m.stats (model_run m accesses).stats (loads accesses) (stores accesses)
unfolding model_run model_access
model_run-AddsUp m [] = record {
  total_loads = omega arith;
  total_stores = omega arith;
  load_parts = omega arith;
  store_parts = omega arith;
}
model_run-AddsUp m (reads a ∷ accesses) =
    let one = model_load-AddsUp m a in
    let rest = model_run-AddsUp (model_load m a) accesses in
    record {
      total_loads = omega (arith, one.total_loads, rest.total_loads);
      total_stores = omega (arith, one.total_stores, rest.total_stores);
      load_parts = omega (arith, one.load_parts, rest.load_parts);
      store_parts = omega (arith, one.store_parts, rest.store_parts);
    }
model_run-AddsUp m (writes a ∷ accesses) =
    let one = model_store-AddsUp m a in
    let rest = model_run-AddsUp (model_store m a) accesses in
    record {
      total_loads = omega (arith, one.total_loads, rest.total_loads);
      total_stores = omega (arith, one.total_stores, rest.total_stores);
      load_parts = omega (arith, one.load_parts, rest.load_parts);
      store_parts = omega (arith, one.store_parts, rest.store_parts);
    }
model_run-AddsUp m (neither ∷ accesses) = model_run-AddsUp m accesses

-- A bound on the cycles: each access pays for at most two transfers of a block, and 101 more.
unfoldable pub most_cycles : Config → List Access → ℕ
most_cycles config [] = 0
most_cycles config (a ∷ accesses) = config.byte_num * 50 + 101 + most_cycles config accesses

model_run-cycles :
    (m : Model) (accesses : List Access)
    → (model_run m accesses).stats.cycles ≤ m.stats.cycles + most_cycles m.config accesses
unfolding model_run model_access most_cycles model_load model_store
model_run-cycles m [] = omega arith
model_run-cycles m (reads a ∷ accesses) =
    let rest = model_run-cycles (model_load m a) accesses in
    omega (arith, model_load-cycles m a, rest)
model_run-cycles m (writes a ∷ accesses) =
    let rest = model_run-cycles (model_store m a) accesses in
    omega (arith, model_store-cycles m a, rest)
model_run-cycles m (neither ∷ accesses) = omega (arith, model_run-cycles m accesses)

loads-le :
    (config : Config) (accesses : List Access)
    → loads accesses + stores accesses ≤ most_cycles config accesses
unfolding most_cycles
loads-le config [] = omega arith
loads-le config (reads a ∷ accesses) = omega (arith, loads-le config accesses)
loads-le config (writes a ∷ accesses) = omega (arith, loads-le config accesses)
loads-le config (neither ∷ accesses) = omega (arith, loads-le config accesses)

-- With that bound in the range of an int, the simulator prints.
pub main-bounded :
    (arguments trace : List (List ℕ)) (config : Config) (v : IsValid config)
    (accesses : List Access)
    → parse_arguments arguments ≡ some config
    → to_accesses trace ≡ some accesses
    → most_cycles config accesses < 2 ^ 31
    → main arguments trace ≡ printed (model_run (model_create config) accesses).stats
unfolding model_create
main-bounded arguments trace config v accesses parsed read small =
    let end = model_run (model_create config) accesses in
    let sums = model_run-AddsUp (model_create config) accesses in
    let few = loads-le config accesses in
    let cycles = model_run-cycles (model_create config) accesses in
    let fits : in_range end.stats ≡ true =
      bounded-in_range end.stats (omega (arith, sums.total_loads, sums.load_parts))
        (omega (arith, sums.total_stores, sums.store_parts))
        (omega (arith, sums.total_loads, sums.total_stores, few)) (omega (arith, cycles)) in
    main-prints arguments trace config v accesses parsed read ∙ rw fits refl

-- With a valid configuration, a trace whose addresses parse, and a number of accesses with which
-- the cycles stay in the range of an int, the simulator prints, the printed totals are the numbers
-- of loads and stores of the trace, and each is the sum of its hits and misses.
pub main-AddsUp :
    (arguments trace : List (List ℕ)) (config : Config) (v : IsValid config)
    (accesses : List Access)
    → parse_arguments arguments ≡ some config
    → to_accesses trace ≡ some accesses
    → most_cycles config accesses < 2 ^ 31
    → (stats : Stats) × (main arguments trace ≡ printed stats)
      × AddsUp no_stats stats (loads accesses) (stores accesses)
unfolding model_create
main-AddsUp arguments trace config v accesses parsed read small = (
  (model_run (model_create config) accesses).stats,
  main-bounded arguments trace config v accesses parsed read small,
  model_run-AddsUp (model_create config) accesses,
)
