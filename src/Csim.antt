-- ===== src/Csim.antt =====
-- csf_assign03/csim.cpp: the arguments of the cache simulator, and its loop over the trace. An
-- `int` is its 32-bit pattern. The trace is the list of words that `cin >>` reads.
pub mod Arguments
pub mod Accepted
pub mod Trace
pub mod Totals
pub mod Inclusion
pub mod Earlier
mod Tests
use assignments_for_csf.Base.{
  ℕ, ◌+◌, ◌-◌, ◌%◌, ◌^◌, bit_and, Bool, not, ◌&&◌, ◌||◌, List, [], ◌∷◌, Option, none, some, ltb,
  leb, ◌==◌, if◌then◌else◌, codes, str_eq,
}
use assignments_for_csf.Libc.{stoi, stol_u32}
use assignments_for_csf.Cache.{Config, Cache, Stats, create, load, store, ◌>>=◌}

unfoldable pub is_power_of_two : ℕ → Bool
is_power_of_two n = let temp = bit_and n ((n + 2 ^ 32 - 1) % 2 ^ 32) in temp == 0

-- `n < 4` as ints.
abbrev pub below_four : ℕ → Bool
below_four n = ltb n 4 || leb (2 ^ 31) n

-- One of two words, as whether it is the first.
pub choice : List ℕ → List ℕ → List ℕ → Option Bool
choice word first second =
    if str_eq word first || str_eq word second then some (str_eq word first) else none

-- The checks of `main` on the numbers and on the pair of policies.
unfoldable pub check_config : Config → Option Config
check_config config =
    if not (is_power_of_two config.set_num)
      || not (is_power_of_two config.block_num)
      || not (is_power_of_two config.byte_num)
      || below_four config.byte_num
    then none
    else if not config.write_allocate && not config.write_through
    then none
    else some config

-- The six arguments of `main`; `none` is the error message with exit code 1.
unfoldable pub parse_arguments : List (List ℕ) → Option Config
unfolding choice
parse_arguments (a1 ∷ a2 ∷ a3 ∷ a4 ∷ a5 ∷ a6 ∷ []) = do
  set_num ← stoi a1
  block_num ← stoi a2
  byte_num ← stoi a3
  write_allocate ← choice a4 (codes "write-allocate") (codes "no-write-allocate")
  write_through ← choice a5 (codes "write-through") (codes "write-back")
  lru ← choice a6 (codes "lru") (codes "fifo")
  check_config (record {
    set_num = set_num;
    block_num = block_num;
    byte_num = byte_num;
    write_allocate = write_allocate;
    write_through = write_through;
    lru = lru;
  })
parse_arguments words = none

-- One line of the trace: an unknown letter is passed over.
unfoldable pub access_line : Cache → List ℕ → ℕ → Option Cache
access_line c op address =
    if str_eq op (codes "l")
    then load c address
    else if str_eq op (codes "s")
    then store c address
    else some c

-- The loop of `main`; `none` is an uncaught exception or a fault of the cache.
unfoldable pub run_trace : Cache → List (List ℕ) → Option Cache
run_trace c (op ∷ address ∷ third ∷ words) = do
  a ← stol_u32 address
  c' ← access_line c op a
  run_trace c' words
run_trace c words = some c

pub data Outcome : Type 0 where
  invalid : Outcome
  fault : Outcome
  printed : Stats → Outcome

unfoldable pub main : List (List ℕ) → List (List ℕ) → Outcome
main arguments trace = elim (parse_arguments arguments) [
  | none ↦ invalid
  | some config ↦ elim (run_trace (create config) trace) [ none ↦ fault | some c ↦ printed c.stats ]
]
