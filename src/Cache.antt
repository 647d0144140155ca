-- ===== src/Cache.antt =====
-- csf_assign03/cache.h and cache.cpp: a set-associative cache simulator. An operation that would
-- read past the vector of sets or erase an uninitialised key returns `none`. A set is a hash map
-- in C++; here it is a list of entries whose order stands for the unspecified iteration order.
-- The statistics are C++ ints: an operation whose additions would leave their range, which is
-- undefined behaviour, returns `none` too. Since an operation only adds, and adds every product it
-- makes, the range is looked at once, after the last addition.
pub mod Address
pub mod Range
pub mod Map
pub mod Order
pub mod Spec
pub mod Refine
pub mod Inclusion
pub mod Earlier
mod Tests
use mathlib.Core.Option
use assignments_for_csf.Base.{
  ℕ, zero, suc, ◌+◌, ◌-◌, ◌*◌, ◌/◌, ◌%◌, ◌^◌, bit_and, Bool, true, false, List, [], ◌∷◌, map, ◌&&◌,
  Option, none, some, length, get_elem?, set, replicate, ltb, ◌==◌, if◌then◌else◌,
}

-- Operations on `uint32_t`; the shift is C's for counts below 32.
abbrev pub not32 : ℕ → ℕ
not32 x = 2 ^ 32 - 1 - x

abbrev pub shl32 : ℕ → ℕ → ℕ
shl32 x k = x * 2 ^ k % 2 ^ 32

unfoldable pub get_least_sig_n : ℕ → ℕ → ℕ
get_least_sig_n num n = bit_and num (not32 (shl32 (not32 0) n))

unfoldable pub get_low_sig : ℕ → ℕ → ℕ → ℕ
get_low_sig num n m = let temp = num / 2 ^ n in get_least_sig_n temp m

-- `while (num >>= 1) highest++`; a number of 32 bits ends the loop within 32 rounds.
pub bit_loop : ℕ → ℕ → ℕ → ℕ
bit_loop zero num highest = highest
bit_loop (suc fuel) num highest =
    let more = bit_loop fuel (num / 2) (highest + 1) in if num / 2 == 0 then highest else more

unfoldable pub highest_bit_set : ℕ → ℕ
highest_bit_set num = bit_loop 32 num 0

-- A key of the map with its `Block`.
pub record Entry : Type 0 where
  pub tag : ℕ
  pub counter : ℕ
  pub dirty : Bool

-- What `operator[]` puts in for a missing key.
abbrev pub fresh : ℕ → Entry
fresh tag = record { tag = tag; counter = 0; dirty = false }

unfoldable pub find : ℕ → List Entry → Option Entry
find tag [] = none
find tag (e ∷ s) = if e.tag == tag then some e else find tag s

-- `operator[]` followed by an assignment to the block.
unfoldable pub upsert : ℕ → (Entry → Entry) → List Entry → List Entry
upsert tag f [] = f (fresh tag) ∷ []
upsert tag f (e ∷ s) = if e.tag == tag then f e ∷ s else e ∷ upsert tag f s

unfoldable pub erase : ℕ → List Entry → List Entry
erase tag [] = []
erase tag (e ∷ s) = if e.tag == tag then s else e ∷ erase tag s

pub record Config : Type 0 where
  pub set_num : ℕ
  pub block_num : ℕ
  pub byte_num : ℕ
  pub write_allocate : Bool
  pub write_through : Bool
  pub lru : Bool

pub record Stats : Type 0 where
  pub total_load : ℕ
  pub total_store : ℕ
  pub load_hit : ℕ
  pub load_miss : ℕ
  pub store_hit : ℕ
  pub store_miss : ℕ
  pub cycles : ℕ

pub record Cache : Type 0 where
  pub config : Config
  pub open config use *
  pub index_len : ℕ
  pub offset_len : ℕ
  pub tag_len : ℕ
  pub stats : Stats
  pub sets : List (List Entry)

abbrev pub no_stats : Stats
no_stats = record {
  total_load = 0;
  total_store = 0;
  load_hit = 0;
  load_miss = 0;
  store_hit = 0;
  store_miss = 0;
  cycles = 0;
}

-- An int holds it.
abbrev pub fits_int : ℕ → Bool
fits_int n = ltb n (2 ^ 31)

unfoldable pub in_range : Stats → Bool
in_range stats =
    fits_int stats.total_load
    && (fits_int stats.total_store
        && (fits_int stats.load_hit
            && (fits_int stats.load_miss
                && (fits_int stats.store_hit
                    && (fits_int stats.store_miss && fits_int stats.cycles)))))

-- The end of an operation.
unfoldable pub checked : Cache → Option Cache
checked c = if in_range c.stats then some c else none

-- The constructor.
unfoldable pub create : Config → Cache
create config = record {
  config = config;
  index_len = highest_bit_set config.set_num;
  offset_len = highest_bit_set config.byte_num;
  tag_len = 32 - highest_bit_set config.set_num - highest_bit_set config.byte_num;
  stats = no_stats;
  sets = replicate config.set_num [];
}

infixl 5 ◌>>=◌
abbrev pub ◌>>=◌ {ℓ κ} : {A : Type ℓ} {B : Type κ} → Option A → (A → Option B) → Option B
none >>= k = none
some a >>= k = k a

unfoldable pub is_set_full : Config → List Entry → Bool
is_set_full config entries = length entries == config.block_num

unfoldable pub is_hit : List Entry → ℕ → Bool
is_hit entries tag = elim (find tag entries) [ none ↦ false | some e ↦ true ]

abbrev pub counter_of : ℕ → List Entry → ℕ
counter_of tag entries = elim (find tag entries) [ none ↦ 0 | some e ↦ e.counter ]

abbrev pub age_below : ℕ → Entry → Entry
age_below maxi e = if ltb e.counter maxi then record e { counter = e.counter + 1 } else e

abbrev pub age : Entry → Entry
age e = record e { counter = e.counter + 1 }

abbrev pub to_front : Entry → Entry
to_front e = record e { counter = 0 }

-- What an access does to the counters of its set if the policy is LRU.
unfoldable pub refresh : ℕ → List Entry → List Entry
refresh tag entries = upsert tag to_front (map (age_below (counter_of tag entries)) entries)

-- The loop that looks for the block to evict: the key (`none` while it is not initialised), and
-- the cycles with the write-backs of dirty blocks.
unfoldable pub find_victim : Config → List Entry → Option ℕ → ℕ → Option ℕ × ℕ
find_victim config [] key cycles = (key, cycles)
find_victim config (e ∷ s) key cycles =
    let oldest = e.counter == config.block_num - 1 in
    find_victim config s (if oldest then some e.tag else key)
      (if oldest && e.dirty then cycles + config.byte_num * 25 else cycles)

unfoldable pub evict : Config → List Entry → ℕ → Option (List Entry × ℕ)
evict config entries cycles =
    let (key, spent) = find_victim config entries none cycles in
    elim key [ none ↦ none | some tag ↦ some (erase tag entries, spent) ]

-- A full set loses a block, the others age, and the new block comes in front.
unfoldable pub bring_in : Config → ℕ → Bool → List Entry → ℕ → Option (List Entry × ℕ)
bring_in config tag dirty entries cycles = do
  (room, spent) ←
      (if is_set_full config entries then evict config entries cycles else some (entries, cycles))
  some (upsert tag (λ e. record e { counter = 0; dirty = dirty }) (map age room), spent)

-- What an operation does to one set and to the statistics.
abbrev pub SetStep : Type 0
SetStep = Option (List Entry × Stats)

unfoldable pub count_load_hit : Config → ℕ → List Entry → Stats → SetStep
count_load_hit config tag entries stats = some (
  (if config.lru then refresh tag entries else entries),
  record stats { load_hit = stats.load_hit + 1; cycles = stats.cycles + 1 },
)

unfoldable pub count_load_miss : Config → ℕ → List Entry → Stats → SetStep
count_load_miss config tag entries stats = do
  (entries', spent) ← bring_in config tag false entries stats.cycles
  some (
    entries',
    record stats { load_miss = stats.load_miss + 1; cycles = spent + config.byte_num * 25 },
  )

unfoldable pub count_store_hit : Config → ℕ → List Entry → Stats → SetStep
count_store_hit config tag entries stats =
    let aged = if config.lru then refresh tag entries else entries in
    let spent = stats.cycles + 1 in
    some (
      (if config.write_through then aged else upsert tag (λ e. record e { dirty = true }) aged),
      record stats {
        store_hit = stats.store_hit + 1;
        cycles = if config.write_through then spent + 100 else spent;
      },
    )

unfoldable pub count_store_miss : Config → ℕ → List Entry → Stats → SetStep
count_store_miss config tag entries stats =
    if config.write_allocate
    then (do
      (entries', spent) ← bring_in config tag true entries (stats.cycles + 25 * config.byte_num)
      some (
        (if config.write_through
            then upsert tag (λ e. record e { dirty = false }) entries'
            else entries'),
        record stats {
          store_miss = stats.store_miss + 1;
          cycles = if config.write_through then spent + 1 + 100 else spent + 1;
        },
      ))
    else some
        (entries, record stats { store_miss = stats.store_miss + 1; cycles = stats.cycles + 100 })

unfoldable pub index_of : Cache → ℕ → ℕ
index_of c address = get_low_sig address c.offset_len c.index_len

unfoldable pub tag_of : Cache → ℕ → ℕ
tag_of c address = get_low_sig address (c.index_len + c.offset_len) c.tag_len

-- The access to the set of an address, by its hit and its miss case.
unfoldable access :
    (Config → ℕ → List Entry → Stats → SetStep)
    → (Config → ℕ → List Entry → Stats → SetStep)
    → Cache
    → ℕ
    → Option Cache
access on_hit on_miss c address = do
  let index = index_of c address
  let tag = tag_of c address
  entries ← get_elem? c.sets index
  (entries', stats) ←
      (if is_hit entries tag
        then on_hit c.config tag entries c.stats
        else on_miss c.config tag entries c.stats)
  some (record c { sets = set c.sets index entries'; stats = stats })

unfoldable pub load : Cache → ℕ → Option Cache
unfolding access
load c address = do
  c' ← access count_load_hit count_load_miss c address
  checked (record c' { stats = record (c'.stats) { total_load = c'.stats.total_load + 1 } })

unfoldable pub store : Cache → ℕ → Option Cache
unfolding access
store c address = do
  c' ← access count_store_hit count_store_miss c address
  checked (record c' { stats = record (c'.stats) { total_store = c'.stats.total_store + 1 } })
