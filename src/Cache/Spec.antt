-- ===== src/Cache/Spec.antt =====
-- What a set of the cache promises: its blocks in the order of their last use (LRU) or of their
-- arrival (FIFO), the latest first. The last block of a full set is the one to go.
use assignments_for_csf.Base.{
  ℕ, ◌+◌, ◌*◌, ◌/◌, ◌%◌, not, replicate, get_or, set, Bool, true, false, ◌&&◌, List, [], ◌∷◌,
  Option, none, some, length, ◌==◌, if◌then◌else◌,
}
use assignments_for_csf.Cache.{Config, Stats, no_stats}

pub record Line : Type 0 where
  pub tag : ℕ
  pub dirty : Bool

unfoldable pub lookup : ℕ → List Line → Option Line
lookup tag [] = none
lookup tag (l ∷ lines) = if l.tag == tag then some l else lookup tag lines

unfoldable pub remove : ℕ → List Line → List Line
remove tag [] = []
remove tag (l ∷ lines) = if l.tag == tag then lines else l ∷ remove tag lines

-- All lines but the last.
unfoldable pub drop_last : List Line → List Line
drop_last [] = []
drop_last (l ∷ []) = []
drop_last (l ∷ m ∷ lines) = l ∷ drop_last (m ∷ lines)

unfoldable pub last_dirty : List Line → Bool
last_dirty [] = false
last_dirty (l ∷ []) = l.dirty
last_dirty (l ∷ m ∷ lines) = last_dirty (m ∷ lines)

unfoldable pub mark : ℕ → Bool → List Line → List Line
mark tag dirty [] = []
mark tag dirty (l ∷ lines) =
    if l.tag == tag then record l { dirty = dirty } ∷ lines else l ∷ mark tag dirty lines

unfoldable pub move_to_front : ℕ → List Line → List Line
move_to_front tag lines = elim (lookup tag lines) [ none ↦ lines | some l ↦ l ∷ remove tag lines ]

unfoldable pub use_line : Config → ℕ → List Line → List Line
use_line config tag lines = if config.lru then move_to_front tag lines else lines

-- A new line in front, and the last one out if the set is full.
unfoldable pub push : Config → Line → List Line → List Line
push config l lines = l ∷ (if length lines == config.block_num then drop_last lines else lines)

-- Cycles to write the evicted block back.
unfoldable pub write_back : Config → List Line → ℕ
write_back config lines =
    if length lines == config.block_num && last_dirty lines then config.byte_num * 25 else 0

-- An access by tag: the set after it, and the statistics.
unfoldable pub spec_load : Config → ℕ → List Line → Stats → List Line × Stats
spec_load config tag lines stats = elim (lookup tag lines) [
  | some l ↦ (
    use_line config tag lines,
    record stats { load_hit = stats.load_hit + 1; cycles = stats.cycles + 1 },
  )
  | none ↦ (
    push config (record { tag = tag; dirty = false }) lines,
    record stats {
      load_miss = stats.load_miss + 1;
      cycles = stats.cycles + write_back config lines + config.byte_num * 25;
    },
  )
]

-- Write-through pays 100 cycles for memory and keeps blocks clean; without write-allocate a miss
-- goes to memory alone.
unfoldable pub spec_store : Config → ℕ → List Line → Stats → List Line × Stats
spec_store config tag lines stats = elim (lookup tag lines) [
  | some l ↦ (
    (if config.write_through
        then use_line config tag lines
        else mark tag true (use_line config tag lines)),
    record stats {
      store_hit = stats.store_hit + 1;
      cycles = stats.cycles + (if config.write_through then 101 else 1);
    },
  )
  | none ↦
      if config.write_allocate
      then (
        push config (record { tag = tag; dirty = not config.write_through }) lines,
        record stats {
          store_miss = stats.store_miss + 1;
          cycles =
              stats.cycles
              + write_back config lines
              + config.byte_num * 25
              + (if config.write_through then 101 else 1);
        },
      )
      else (lines, record stats { store_miss = stats.store_miss + 1; cycles = stats.cycles + 100 })
]

-- The whole cache, by arithmetic on addresses: a block has `byte_num` bytes, and blocks go round
-- the sets.
pub record Model : Type 0 where
  pub config : Config
  pub open config use *
  pub stats : Stats
  pub sets : List (List Line)

abbrev pub model_index : Config → ℕ → ℕ
model_index config address = address / config.byte_num % config.set_num

abbrev pub model_tag : Config → ℕ → ℕ
model_tag config address = address / (config.set_num * config.byte_num)

unfoldable pub model_create : Config → Model
model_create config = record {
  config = config;
  stats = no_stats;
  sets = replicate config.set_num [];
}

abbrev pub step_set : (Config → ℕ → List Line → Stats → List Line × Stats) → Model → ℕ → Model
step_set spec m address =
    let index = model_index m.config address in
    let (lines, stats) =
      spec m.config (model_tag m.config address) (get_or m.sets index []) m.stats in
    record m { sets = set m.sets index lines; stats = stats }

unfoldable pub model_load : Model → ℕ → Model
model_load m address =
    let m' = step_set spec_load m address in
    record m' { stats = record (m'.stats) { total_load = m'.stats.total_load + 1 } }

unfoldable pub model_store : Model → ℕ → Model
model_store m address =
    let m' = step_set spec_store m address in
    record m' { stats = record (m'.stats) { total_store = m'.stats.total_store + 1 } }
