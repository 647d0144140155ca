-- ===== src/Csim/Inclusion.antt =====
-- The simulator on one trace with more and with fewer blocks in a set.
use assignments_for_csf.Base.{
  ℕ, ◌+◌, ◌*◌, ◌^◌, ◌<◌, subst, ap₂, ◌≤◌, ◌≡◌, refl, arith, true, List, [], ◌∷◌, some,
}
use assignments_for_csf.Csim.{printed, main, parse_arguments}
use assignments_for_csf.Cache.{Config, Stats}
use assignments_for_csf.Cache.Address.{IsValid}
use assignments_for_csf.Cache.Spec.{Model, model_create}
use assignments_for_csf.Cache.Inclusion.Accesses.{Beside}
use assignments_for_csf.Cache.Inclusion.Runs.{
  Includes, create-Includes, model_load-Includes, model_store-Includes,
}
use assignments_for_csf.Csim.Totals.{most_cycles, main-bounded, model_run-AddsUp}
use assignments_for_csf.Csim.Trace.{
  Access, reads, writes, neither, to_accesses, model_access, model_run,
}

model_run-Includes :
    (m m' : Model) (accesses : List Access)
    → Includes m m'
    → Includes (model_run m accesses) (model_run m' accesses)
unfolding model_run model_access
model_run-Includes m m' [] h = h
model_run-Includes m m' (reads a ∷ accesses) h =
    model_run-Includes (model_access m (reads a)) (model_access m' (reads a)) accesses
      (model_load-Includes m m' a h)
model_run-Includes m m' (writes a ∷ accesses) h =
    model_run-Includes (model_access m (writes a)) (model_access m' (writes a)) accesses
      (model_store-Includes m m' a h)
model_run-Includes m m' (neither ∷ accesses) h = model_run-Includes m m' accesses h

same_bound :
    (c c' : Config) (accesses : List Access)
    → c.byte_num ≡ c'.byte_num
    → most_cycles c accesses ≡ most_cycles c' accesses
unfolding most_cycles
same_bound c c' [] e = refl
same_bound c c' (a ∷ accesses) e = ap₂ (λ b n. b * 50 + 101 + n) e (same_bound c c' accesses e)

larger-IsValid :
    (config : Config) (more : ℕ)
    → IsValid config
    → config.block_num ≤ more
    → IsValid (record config { block_num = more })
larger-IsValid config more v le = record {
  index_bits = v.index_bits;
  offset_bits = v.offset_bits;
  sets = v.sets;
  bytes = v.bytes;
  room = v.room;
  wide = v.wide;
  blocks = omega (arith, v.blocks);
}

-- Under LRU, with a valid configuration, a trace whose addresses parse, and a number of accesses
-- with which the cycles stay in the range of an int: if two runs differ only in the number of blocks of a set, then the run with more blocks prints at least as many load
-- hits and at least as many store hits, and at most as many misses of either kind.
pub main-monotone :
    (arguments arguments' trace : List (List ℕ)) (config : Config) (more : ℕ)
    (accesses : List Access)
    → IsValid config
    → config.lru ≡ true
    → config.block_num ≤ more
    → parse_arguments arguments ≡ some config
    → parse_arguments arguments' ≡ some (record config { block_num = more })
    → to_accesses trace ≡ some accesses
    → most_cycles config accesses < 2 ^ 31
    → (stats stats' : Stats) × (main arguments trace ≡ printed stats)
      × (main arguments' trace ≡ printed stats')
      × (stats.load_hit ≤ stats'.load_hit)
      × (stats.store_hit ≤ stats'.store_hit)
      × (stats'.load_miss ≤ stats.load_miss)
      × (stats'.store_miss ≤ stats.store_miss)
unfolding model_create
main-monotone arguments arguments' trace config more accesses v lru le parsed parsed' read small =
    let larger : Config = record config { block_num = more } in
    let run = model_run (model_create config) accesses in
    let run' = model_run (model_create larger) accesses in
    let beside : Beside config larger = record {
      first_lru = lru;
      second_lru = lru;
      positive = v.blocks;
      more = le;
      same_sets = refl;
      same_bytes = refl;
      same_allocate = refl;
    } in
    let ahead =
      model_run-Includes (model_create config) (model_create larger) accesses
        (create-Includes config larger beside) in
    let sums = model_run-AddsUp (model_create config) accesses in
    let sums' = model_run-AddsUp (model_create larger) accesses in
    (
      run.stats,
      run'.stats,
      main-bounded arguments trace config v accesses parsed read small,
      main-bounded arguments' trace larger (larger-IsValid config more v le) accesses parsed' read
          (subst (λ n. n < 2 ^ 31) (same_bound config larger accesses refl) small),
      ahead.fewer.load_hits,
      ahead.fewer.store_hits,
      omega (arith, ahead.fewer.load_hits, sums.load_parts, sums'.load_parts),
      omega (arith, ahead.fewer.store_hits, sums.store_parts, sums'.store_parts),
    )
