-- ===== src/Cache/Earlier.antt =====
-- csf_assign03/another.cpp: an earlier version of the cache, with LRU only. What it has in common
-- with cache.cpp, word for word, is not repeated: the helpers on addresses, `is_set_full`,
-- `is_hit`, the search for the block to evict, the range of the statistics, and the choice between
-- a hit and a miss. It changes a copy of the set and puts it back.
pub mod Blocks
pub mod Agreement
use assignments_for_csf.Base.{
  ℕ, ◌+◌, ◌-◌, ◌*◌, Bool, true, false, List, [], map, Option, some, replicate, if◌then◌else◌,
}
use assignments_for_csf.Cache.{
  Entry, Config, Stats, Cache, no_stats, highest_bit_set, upsert, is_set_full, counter_of,
  age_below, age, to_front, evict, SetStep, access, ◌>>=◌, checked,
}

-- The constructor has no argument for the policy.
unfoldable pub settings : ℕ → ℕ → ℕ → Bool → Bool → Config
settings set_num block_num byte_num write_allocate write_through = record {
  set_num = set_num;
  block_num = block_num;
  byte_num = byte_num;
  write_allocate = write_allocate;
  write_through = write_through;
  lru = true;
}

unfoldable pub create : ℕ → ℕ → ℕ → Bool → Bool → Cache
create set_num block_num byte_num write_allocate write_through = record {
  config = settings set_num block_num byte_num write_allocate write_through;
  index_len = highest_bit_set set_num;
  offset_len = highest_bit_set byte_num;
  tag_len = 32 - highest_bit_set set_num - highest_bit_set byte_num;
  stats = no_stats;
  sets = replicate set_num [];
}

-- The blocks used since the one that is hit age, and that one comes to the front.
unfoldable pub count_load_hit : Config → ℕ → List Entry → Stats → SetStep
count_load_hit config tag entries stats = some (
  upsert tag to_front (map (age_below (counter_of tag entries)) entries),
  record stats { load_hit = stats.load_hit + 1; cycles = stats.cycles + 1 },
)

-- The new block is clean, whichever access brings it in.
unfoldable pub bring_in : Config → ℕ → List Entry → ℕ → Option (List Entry × ℕ)
bring_in config tag entries cycles = do
  (room, spent) ←
      (if is_set_full config entries then evict config entries cycles else some (entries, cycles))
  some (upsert tag (λ e. record e { counter = 0; dirty = false }) (map age room), spent)

unfoldable pub count_load_miss : Config → ℕ → List Entry → Stats → SetStep
count_load_miss config tag entries stats = do
  (entries', spent) ← bring_in config tag entries stats.cycles
  some (
    entries',
    record stats { load_miss = stats.load_miss + 1; cycles = spent + config.byte_num * 25 },
  )

unfoldable pub count_store_hit : Config → ℕ → List Entry → Stats → SetStep
count_store_hit config tag entries stats =
    let aged = upsert tag to_front (map (age_below (counter_of tag entries)) entries) in
    let spent = stats.cycles + 1 in
    some (
      (if config.write_through then aged else upsert tag (λ e. record e { dirty = true }) aged),
      record stats {
        store_hit = stats.store_hit + 1;
        cycles = if config.write_through then spent + 100 else spent;
      },
    )

-- The miss is counted at the start and again at the end.
unfoldable pub count_store_miss : Config → ℕ → List Entry → Stats → SetStep
count_store_miss config tag entries stats =
    if config.write_allocate
    then (do
      (entries', spent) ← bring_in config tag entries (stats.cycles + 25 * config.byte_num)
      some (
        (if config.write_through
            then upsert tag (λ e. record e { dirty = false }) entries'
            else entries'),
        record stats {
          store_miss = stats.store_miss + 1 + 1;
          cycles = if config.write_through then spent + 1 + 100 else spent + 1;
        },
      ))
    else some (
      entries,
      record stats { store_miss = stats.store_miss + 1 + 1; cycles = stats.cycles + 100 },
    )

unfoldable pub load : Cache → ℕ → Option Cache
load c address = do
  c' ← access count_load_hit count_load_miss c address
  checked (record c' { stats = record (c'.stats) { total_load = c'.stats.total_load + 1 } })

unfoldable pub store : Cache → ℕ → Option Cache
store c address = do
  c' ← access count_store_hit count_store_miss c address
  checked (record c' { stats = record (c'.stats) { total_store = c'.stats.total_store + 1 } })
