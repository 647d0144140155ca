-- ===== src/Cache/Refine.antt =====
-- How the counters of a set stand for the ordered list of its specification.
pub mod Sets
pub mod Steps
pub mod Runs
use mathlib.Core.Option
use assignments_for_csf.Base.{
  ℕ, suc, ◌+◌, ◌-◌, ◌*◌, ◌≡◌, refl, ap, ◌∙◌, inl, inr, arith, true, false, List, [], ◌∷◌, map,
  Option, none, some, length, ◌==◌, if◌then◌else◌, Bool-cases, ==→ne, ==_no,
}
use assignments_for_csf.Cache.{Config, Entry, find, find_victim}
use assignments_for_csf.Cache.Map.{Distinct}
use assignments_for_csf.Cache.Spec.{Line}
use assignments_for_csf.Cache.Order.{locate, DistinctLines}

-- Each block of the list stands in the map under its tag, with its place for a counter, and the
-- map holds nothing else.
pub record Represents (entries : List Entry) (lines : List Line) : Type 0 where
  pub found : (t : ℕ) → find t entries ≡ locate t 0 lines
  pub size : length entries ≡ length lines
  pub keys : Distinct entries
  pub tags : DistinctLines lines

pub Represents-empty : Represents [] []
unfolding find
Represents-empty = record { found = λ t. refl; size = refl; keys = tt; tags = tt }

pub length-map-entries : (f : Entry → Entry) (s : List Entry) → length (map f s) ≡ length s
length-map-entries f [] = refl
length-map-entries f (e ∷ s) = ap suc (length-map-entries f s)

find-later :
    (x : Entry) (s : List Entry) (t : ℕ) (e : Entry)
    → find x.tag s ≡ none
    → find t s ≡ some e
    → find t (x ∷ s) ≡ some e
unfolding find
find-later x s t e d f = ground arith

find-here : (x : Entry) (s : List Entry) → find x.tag (x ∷ s) ≡ some x
unfolding find
find-here x s = ground arith

-- The victim is the one entry whose counter is the highest.
no_victim :
    (c : Config) (s : List Entry) (key : Option ℕ) (cycles : ℕ)
    → Distinct s
    → ((t : ℕ) (e : Entry) → find t s ≡ some e → ¬ (e.counter ≡ c.block_num - 1))
    → find_victim c s key cycles ≡ (key, cycles)
unfolding find_victim
no_victim c [] key cycles d h = refl
no_victim c (x ∷ s) key cycles d h =
    rw (==_no x.counter (c.block_num - 1) (h x.tag x (find-here x s)))
      (no_victim c s key cycles d.1 (λ t e f. h t e (find-later x s t e d.0 f)))

module _ (c : Config) (k : ℕ) where
  abbrev OnlyVictim : List Entry → Type 0
  OnlyVictim s = (t : ℕ) (e : Entry) → find t s ≡ some e → e.counter ≡ c.block_num - 1 → t ≡ k

  abbrev pub cost : Entry → ℕ → ℕ
  cost e cycles = if e.dirty then cycles + c.byte_num * 25 else cycles

  pub one_victim :
      (s : List Entry) (e : Entry) (key : Option ℕ) (cycles : ℕ)
      → Distinct s
      → find k s ≡ some e
      → e.counter ≡ c.block_num - 1
      → OnlyVictim s
      → find_victim c s key cycles ≡ (some k, cost e cycles)
  unfolding find_victim find
  one_victim [] e key cycles d f top only = absurd (cc)
  one_victim (x ∷ s) e key cycles d f top only = elim (Bool-cases (x.tag == k)) [
    | inl hit ↦
        let test : (x.counter == c.block_num - 1) ≡ true = ground arith in
        rw test (
          no_victim c s (some x.tag) (if x.dirty then cycles + c.byte_num * 25 else cycles) d.1
            (others hit)
          ∙ ground arith)
    | inr miss ↦
        let test : (x.counter == c.block_num - 1) ≡ false =
          ==_no _ _ (λ high. ==→ne x.tag k miss (only x.tag x (find-here x s) high)) in
        rw test (
          one_victim s e key cycles d.1 (ground arith) top
            (λ t e' f' top'. only t e' (find-later x s t e' d.0 f') top'))
  ]
    where
      others :
          (x.tag == k) ≡ true
          → (t : ℕ) (e' : Entry) → find t s ≡ some e'
          → ¬ (e'.counter ≡ c.block_num - 1)
      others hit t e' f' top' = ground (arith, d.0, only t e' (find-later x s t e' d.0 f') top')
