-- ===== src/Cache/Tests.antt =====
-- The theorems on the cache at a small configuration: two sets of one block of four bytes.
use assignments_for_csf.Base.{List, [], ◌∷◌, ◌<◌, ◌≡◌, refl, arith, true, false, some}
use assignments_for_csf.Cache.{
  Config, Cache, create, load, store, access, index_of, tag_of, get_low_sig, get_least_sig_n,
  highest_bit_set, bit_loop, is_hit, find, count_load_hit, count_load_miss, count_store_hit,
  count_store_miss, bring_in, is_set_full, evict, find_victim, erase, refresh, upsert, checked,
  in_range,
}
use assignments_for_csf.Cache.Earlier
use assignments_for_csf.Cache.Earlier.Agreement.Runs.{Agrees}
use assignments_for_csf.Csim.Earlier.{perform, earlier-Agrees}
use assignments_for_csf.Csim.Trace.{Access, reads, writes}
use assignments_for_csf.Cache.Address.{IsValid, create-HasLengths, index_of-lt}
use assignments_for_csf.Cache.Spec.{model_create, model_load, model_store}
use assignments_for_csf.Cache.Refine.Runs.{Ends, create-Refines, load-Refines, store-Refines}

abbrev config : Config
config = record {
  set_num = 2;
  block_num = 1;
  byte_num = 4;
  write_allocate = true;
  write_through = false;
  lru = true;
}

config-IsValid : IsValid config
config-IsValid = record {
  index_bits = 1;
  offset_bits = 2;
  sets = refl;
  bytes = refl;
  room = omega arith;
  wide = omega arith;
  blocks = omega arith;
}

load-Refines_example :
    Ends config config-IsValid (load (create config) 12) (model_load (model_create config) 12)
load-Refines_example =
    load-Refines config config-IsValid (create config) (model_create config) 12
      (create-Refines config config-IsValid) (omega arith)

store-Refines_example :
    Ends config config-IsValid (store (create config) 12) (model_store (model_create config) 12)
store-Refines_example =
    store-Refines config config-IsValid (create config) (model_create config) 12
      (create-Refines config config-IsValid) (omega arith)

index_of-lt_example : index_of (create config) 12 < 2
index_of-lt_example =
    index_of-lt config config-IsValid (create config) (create-HasLengths config config-IsValid) 12

abbrev accesses : List Access
accesses = reads 28 ∷ writes 12 ∷ []

abbrev start : Cache
start = create (Earlier.settings 2 1 4 true false)

-- The store finds the set full and evicts the block that the load has brought in.
abbrev end : Cache
end = record start {
  stats = record {
    total_load = 1;
    total_store = 1;
    load_hit = 0;
    load_miss = 1;
    store_hit = 0;
    store_miss = 1;
    cycles = 201;
  };
  sets = [] ∷ (record { tag = 1; counter = 0; dirty = true } ∷ []) ∷ [];
}

ended : perform load store start accesses ≡ some end
unfolding perform load store create Earlier.settings access index_of tag_of get_low_sig
    get_least_sig_n highest_bit_set bit_loop is_hit find count_load_hit count_load_miss
    count_store_hit count_store_miss bring_in is_set_full evict find_victim erase refresh upsert
    checked in_range
ended = refl

earlier-Agrees_example :
    (d' : Cache) × (perform Earlier.load Earlier.store (Earlier.create 2 1 4 true false) accesses
      ≡ some d')
    × Agrees end d'
earlier-Agrees_example = earlier-Agrees 2 1 4 true false accesses end (omega arith) ended
