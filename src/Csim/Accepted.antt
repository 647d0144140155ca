-- ===== src/Csim/Accepted.antt =====
-- The configurations that `main` goes on with.
use native.Mathlib.Nat.{pow-le-pow_right}
use assignments_for_csf.Base.{
  ℕ, ◌+◌, ◌*◌, ◌^◌, ◌≤◌, ◌<◌, ◌≡◌, refl, ap₂, subst, ◌⊎◌, inl, inr, arith, true, false, List, [],
  ◌∷◌, Option, none, some, codes,
}
use assignments_for_csf.Base.Pow.{pow-add}
use assignments_for_csf.Libc.{stoi}
use assignments_for_csf.Csim.{is_power_of_two, below_four, choice, check_config, parse_arguments}
use assignments_for_csf.Csim.Arguments.{is_power_of_two_iff}
use assignments_for_csf.Cache.{Config, ◌>>=◌}
use assignments_for_csf.Cache.Address.{IsValid}

stoi-lt : (s : List ℕ) (n : ℕ) → stoi s ≡ some n → n < 2 ^ 32
unfolding stoi
stoi-lt s n h = ground arith

bind-some {ℓ κ} :
    {A : Type ℓ} {B : Type κ} (o : Option A) (f : A → Option B) {b : B}
    → (o >>= f) ≡ some b
    → (a : A) × (o ≡ some a) × (f a ≡ some b)
bind-some none f h = absurd (ground arith)
bind-some (some a) f h = (a, refl, h)

-- What the checks establish of the numbers and of the policies.
record Checked (config : Config) : Type 0 where
  set_num-lt : config.set_num < 2 ^ 32
  byte_num-lt : config.byte_num < 2 ^ 32
  sets_pass : is_power_of_two config.set_num ≡ true
  bytes_pass : is_power_of_two config.byte_num ≡ true
  wide : below_four config.byte_num ≡ false
  policy : (config.write_allocate ≡ true) ⊎ (config.write_through ≡ true)

check_config-Checked :
    (given config : Config)
    → given.set_num < 2 ^ 32
    → given.byte_num < 2 ^ 32
    → check_config given ≡ some config
    → Checked config
unfolding check_config
check_config-Checked given config s b h =
    let same : given ≡ config = ground arith in
    subst Checked same (record {
      set_num-lt = s;
      byte_num-lt = b;
      sets_pass = ground arith;
      bytes_pass = ground arith;
      wide = ground arith;
      policy = ground arith;
    })

parse_arguments-Checked :
    (arguments : List (List ℕ)) (config : Config)
    → parse_arguments arguments ≡ some config
    → Checked config
unfolding parse_arguments
parse_arguments-Checked [] config h = absurd (ground arith)
parse_arguments-Checked (a ∷ []) config h = absurd (ground arith)
parse_arguments-Checked (a ∷ b ∷ []) config h = absurd (ground arith)
parse_arguments-Checked (a ∷ b ∷ c ∷ []) config h = absurd (ground arith)
parse_arguments-Checked (a ∷ b ∷ c ∷ d ∷ []) config h = absurd (ground arith)
parse_arguments-Checked (a ∷ b ∷ c ∷ d ∷ e ∷ []) config h = absurd (ground arith)
parse_arguments-Checked (a ∷ b ∷ c ∷ d ∷ e ∷ f ∷ g ∷ l) config h = absurd (ground arith)
parse_arguments-Checked (a ∷ b ∷ c ∷ d ∷ e ∷ f ∷ []) config h =
    let (x, ex, h1) = bind-some (stoi a) _ h in
    let (y, ey, h2) = bind-some (stoi b) _ h1 in
    let (z, ez, h3) = bind-some (stoi c) _ h2 in
    let (p, ep, h4) =
      bind-some (choice d (codes "write-allocate") (codes "no-write-allocate")) _ h3 in
    let (q, eq, h5) = bind-some (choice e (codes "write-through") (codes "write-back")) _ h4 in
    let (r, er, h6) = bind-some (choice f (codes "lru") (codes "fifo")) _ h5 in
    check_config-Checked _ config (stoi-lt a x ex) (stoi-lt c z ez) h6

fits : (i o : ℕ) → 2 ^ i * 2 ^ o < 2 ^ 32 → i + o < 32
fits i o h = elim (le_total 32 (i + o)) [
  | inl big ↦
      let le : 2 ^ 32 ≤ 2 ^ (i + o) = pow-le-pow_right (omega arith) big in
      absurd (omega (arith, le, pow-add i o))
  | inr small ↦ small
]
  where
    le_total : (a b : ℕ) → (a ≤ b) ⊎ (b < a)
    le_total a b = omega arith

exponent : (n : ℕ) → n < 2 ^ 32 → is_power_of_two n ≡ true → 1 ≤ n → (k : ℕ) × (n ≡ 2 ^ k)
exponent n h e pos = elim ((is_power_of_two_iff n h).0 e) [
  | inl z ↦ absurd (omega arith)
  | inr p ↦ p
]

-- Accepted arguments make a valid configuration if neither the number of sets nor that of blocks
-- is 0, and a set index with an offset fits 32 bits.
pub parse_arguments-IsValid :
    (arguments : List (List ℕ)) (config : Config)
    → parse_arguments arguments ≡ some config
    → 1 ≤ config.set_num
    → 1 ≤ config.block_num
    → config.set_num * config.byte_num < 2 ^ 32
    → IsValid config
parse_arguments-IsValid arguments config h sets blocks room =
    let c = parse_arguments-Checked arguments config h in
    let wide : 4 ≤ config.byte_num = ground (arith, c.wide) in
    let (i, ei) = exponent config.set_num c.set_num-lt c.sets_pass sets in
    let (o, eo) = exponent config.byte_num c.byte_num-lt c.bytes_pass (omega arith) in
    record {
      index_bits = i;
      offset_bits = o;
      sets = ei;
      bytes = eo;
      room = fits i o (subst (λ n. n < 2 ^ 32) (ap₂ ◌*◌ ei eo) room);
      wide = wide;
      blocks = blocks;
    }
