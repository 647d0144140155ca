-- ===== src/Cache/Map.antt =====
-- Laws of the hash map of a set: its lookups after each change, and its size.
use mathlib.Core.Option
use assignments_for_csf.Base.{
  ℕ, suc, ◌≡◌, refl, inl, inr, arith, List, [], ◌∷◌, map, none, some, length, ◌==◌, if◌then◌else◌,
  Bool-cases,
}
use assignments_for_csf.Cache.{Entry, fresh, find, upsert, erase}

-- No two entries have one key.
abbrev pub Distinct : List Entry → Type 0
Distinct [] = Unit
Distinct (e ∷ s) = (find e.tag s ≡ none) × Distinct s

-- A change of blocks keeps the keys.
abbrev pub KeepsTag : (Entry → Entry) → Type 0
KeepsTag f = (e : Entry) → (f e).tag ≡ e.tag

pub find-tag : (t : ℕ) (s : List Entry) (e : Entry) → find t s ≡ some e → e.tag ≡ t
unfolding find
find-tag t [] e h = cc
find-tag t (x ∷ s) e h = ground (arith, find-tag t s e)

module _ (f : Entry → Entry) (keep : KeepsTag f) where
  pub find-map : (t : ℕ) (s : List Entry) → find t (map f s) ≡ Option.map f (find t s)
  unfolding find
  find-map t [] = refl
  find-map t (e ∷ s) = ground (arith, keep e, find-map t s)

  pub map-Distinct : (s : List Entry) → Distinct s → Distinct (map f s)
  map-Distinct [] d = tt
  map-Distinct (e ∷ s) d = (rw (keep e, find-map e.tag s, d.0) refl, map-Distinct s d.1)

  pub find-upsert :
      (k t : ℕ) (s : List Entry)
      → find t (upsert k f s)
        ≡ (if k == t then some (f (Option.get_or (find k s) (fresh k))) else find t s)
  unfolding find upsert
  find-upsert k t [] = rw (keep (fresh k))
  find-upsert k t (e ∷ s) = ground (arith, keep e, find-upsert k t s)

  pub length-upsert :
      (k : ℕ) (s : List Entry)
      → length (upsert k f s) ≡ (elim (find k s) [ none ↦ suc (length s) | some e ↦ length s ])
  unfolding find upsert
  length-upsert k [] = refl
  length-upsert k (e ∷ s) = ground (arith, length-upsert k s)

  pub upsert-Distinct : (k : ℕ) (s : List Entry) → Distinct s → Distinct (upsert k f s)
  unfolding find upsert
  upsert-Distinct k [] d = (refl, tt)
  upsert-Distinct k (e ∷ s) d = elim (Bool-cases (e.tag == k)) [
    | inl hit ↦ rw hit (rw (keep e) d.0, d.1)
    | inr miss ↦ rw miss (rw (find-upsert k e.tag s) (ground (arith, d.0)), upsert-Distinct k s d.1)
  ]

pub find-erase :
    (k t : ℕ) (s : List Entry)
    → Distinct s
    → find t (erase k s) ≡ (if k == t then none else find t s)
unfolding find erase
find-erase k t [] d = ground arith
find-erase k t (e ∷ s) d = ground (arith, d.0, find-erase k t s d.1)

pub erase-Distinct : (k : ℕ) (s : List Entry) → Distinct s → Distinct (erase k s)
unfolding find erase
erase-Distinct k [] d = tt
erase-Distinct k (e ∷ s) d = elim (Bool-cases (e.tag == k)) [
  | inl hit ↦ rw hit d.1
  | inr miss ↦ rw miss (rw (find-erase k e.tag s d.1) (ground (arith, d.0)), erase-Distinct k s d.1)
]

pub length-erase :
    (k : ℕ) (s : List Entry) (e : Entry) → find k s ≡ some e → length s ≡ suc (length (erase k s))
unfolding find erase
length-erase k [] e h = cc
length-erase k (x ∷ s) e h = ground (arith, length-erase k s e)
