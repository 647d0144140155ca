-- ===== src/Csim/Tests.antt =====
-- The simulator on a short trace.
use assignments_for_csf.Base.{
  ℕ, ◌^◌, ◌≡◌, ◌≤◌, ◌<◌, if◌then◌else◌, refl, arith, ◌↔◌, ◌⊎◌, true, false, List, [], ◌∷◌, none,
  some, codes, str_eq,
}
use assignments_for_csf.Libc.{
  stol_u32, stoi, isspace, skip_spaces, digit_value, is_digit, read_digits, read_sign, skip_prefix,
  starts_digit, detect_base,
}
use assignments_for_csf.Cache.{in_range, Config, Stats, no_stats}
use assignments_for_csf.Csim.Inclusion.{main-monotone}
use assignments_for_csf.Cache.Address.{IsValid}
use assignments_for_csf.Cache.Spec.{model_create}
use assignments_for_csf.Csim.{
  is_power_of_two, parse_arguments, check_config, choice, main, printed, fault,
}
use assignments_for_csf.Csim.Arguments.{is_power_of_two_iff}
use assignments_for_csf.Csim.Accepted.{parse_arguments-IsValid}
use assignments_for_csf.Csim.Trace.{reads, writes, to_access, to_accesses, model_run, main-prints}
use assignments_for_csf.Csim.Totals.{AddsUp, loads, stores, most_cycles, main-AddsUp}

abbrev config : Config
config = record {
  set_num = 2;
  block_num = 1;
  byte_num = 4;
  write_allocate = true;
  write_through = false;
  lru = true;
}

abbrev arguments : List (List ℕ)
arguments =
    codes "2"
    ∷ codes "1"
    ∷ codes "4"
    ∷ codes "write-allocate"
    ∷ codes "write-back"
    ∷ codes "lru"
    ∷ []

abbrev trace : List (List ℕ)
trace = codes "l" ∷ codes "0x1c" ∷ codes "1" ∷ codes "s" ∷ codes "12" ∷ codes "1" ∷ []

parsed : parse_arguments arguments ≡ some config
unfolding parse_arguments check_config stoi is_power_of_two str_eq choice isspace skip_spaces
    digit_value is_digit read_digits read_sign skip_prefix starts_digit detect_base
parsed = refl

read : to_accesses trace ≡ some (reads 28 ∷ writes 12 ∷ [])
unfolding to_accesses to_access stol_u32 str_eq isspace skip_spaces digit_value is_digit read_digits
    read_sign skip_prefix starts_digit detect_base
read = refl

abbrev six : ℕ
six = 6

is_power_of_two_iff_example : (is_power_of_two six ≡ true) ↔ ((six ≡ 0) ⊎ ((k : ℕ) × (six ≡ 2 ^ k)))
is_power_of_two_iff_example = is_power_of_two_iff six (omega arith)

parse_arguments-IsValid_example : IsValid config
parse_arguments-IsValid_example =
    parse_arguments-IsValid arguments config parsed (omega arith) (omega arith) (omega arith)

config-IsValid : IsValid config
config-IsValid = record {
  index_bits = 1;
  offset_bits = 2;
  sets = refl;
  bytes = refl;
  room = omega arith;
  wide = omega arith;
  blocks = omega arith;
}

main-prints_example : main arguments trace ≡ (
    if in_range (model_run (model_create config) (reads 28 ∷ writes 12 ∷ [])).stats
    then printed (model_run (model_create config) (reads 28 ∷ writes 12 ∷ [])).stats
    else fault)
main-prints_example =
    main-prints arguments trace config config-IsValid (reads 28 ∷ writes 12 ∷ []) parsed read

small : most_cycles config (reads 28 ∷ writes 12 ∷ []) < 2 ^ 31
unfolding most_cycles
small = omega arith

main-AddsUp_example :
    (stats : Stats) × (main arguments trace ≡ printed stats)
    × AddsUp no_stats stats (loads (reads 28 ∷ writes 12 ∷ [])) (stores (reads 28 ∷ writes 12 ∷ []))
main-AddsUp_example =
    main-AddsUp arguments trace config config-IsValid (reads 28 ∷ writes 12 ∷ []) parsed read small

abbrev broken : List (List ℕ)
broken = codes "l" ∷ codes "z" ∷ codes "1" ∷ []

unread : to_accesses broken ≡ none
unfolding to_accesses to_access stol_u32 isspace skip_spaces digit_value is_digit read_digits
    read_sign skip_prefix starts_digit detect_base
unread = refl

abbrev arguments_wider : List (List ℕ)
arguments_wider =
    codes "2"
    ∷ codes "2"
    ∷ codes "4"
    ∷ codes "write-allocate"
    ∷ codes "write-back"
    ∷ codes "lru"
    ∷ []

parsed_wider : parse_arguments arguments_wider ≡ some (record config { block_num = 2 })
unfolding parse_arguments check_config stoi is_power_of_two str_eq choice isspace skip_spaces
    digit_value is_digit read_digits read_sign skip_prefix starts_digit detect_base
parsed_wider = refl

main-monotone_example :
    (stats stats' : Stats) × (main arguments trace ≡ printed stats)
    × (main arguments_wider trace ≡ printed stats')
    × (stats.load_hit ≤ stats'.load_hit)
    × (stats.store_hit ≤ stats'.store_hit)
    × (stats'.load_miss ≤ stats.load_miss)
    × (stats'.store_miss ≤ stats.store_miss)
main-monotone_example =
    main-monotone arguments arguments_wider trace config 2 (reads 28 ∷ writes 12 ∷ [])
      config-IsValid refl (omega arith) parsed parsed_wider read small
