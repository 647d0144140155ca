-- ===== src/Cache/Order.antt =====
-- Places in the ordered list of a set: a block's counter is its place.
use mathlib.Core.Option
use assignments_for_csf.Base.{
  ℕ, suc, ◌+◌, ◌≤◌, ◌<◌, ◌≡◌, refl, ap, ◌∙◌, sym, inl, inr, arith, Bool, List, [], ◌∷◌, Option,
  none, some, length, ◌==◌, if◌then◌else◌, Bool-cases, ==→ne, ==_no,
}
use assignments_for_csf.Cache.{Entry, age, age_below}
use assignments_for_csf.Cache.Spec.{Line, lookup, remove, drop_last, last_dirty, mark}

-- The entry of a tag in a list whose first line has place `i`.
abbrev pub locate : ℕ → ℕ → List Line → Option Entry
locate t i [] = none
locate t i (l ∷ lines) =
    if l.tag == t
    then some (record { tag = l.tag; counter = i; dirty = l.dirty })
    else locate t (i + 1) lines

abbrev pub DistinctLines : List Line → Type 0
DistinctLines [] = Unit
DistinctLines (l ∷ lines) = (lookup l.tag lines ≡ none) × DistinctLines lines

pub locate-suc :
    (t i : ℕ) (lines : List Line) → locate t (i + 1) lines ≡ Option.map age (locate t i lines)
locate-suc t i [] = refl
locate-suc t i (l ∷ lines) = ground (arith, locate-suc t (i + 1) lines)

pub locate_bounds :
    (t i : ℕ) (lines : List Line) (e : Entry)
    → locate t i lines ≡ some e
    → (i ≤ e.counter) × (e.counter < i + length lines) × (e.tag ≡ t)
locate_bounds t i [] e h = cc
locate_bounds t i (l ∷ lines) e h = ground (arith, locate_bounds t (i + 1) lines e)

pub locate_fresh : (t i : ℕ) (lines : List Line) → lookup t lines ≡ none → locate t i lines ≡ none
unfolding lookup
locate_fresh t i [] h = refl
locate_fresh t i (l ∷ lines) h = ground (arith, locate_fresh t (i + 1) lines)

pub lookup_fresh : (t i : ℕ) (lines : List Line) → locate t i lines ≡ none → lookup t lines ≡ none
unfolding lookup
lookup_fresh t i [] h = refl
lookup_fresh t i (l ∷ lines) h = ground (arith, lookup_fresh t (i + 1) lines)

pub locate_found :
    (t i : ℕ) (lines : List Line) (l : Line)
    → lookup t lines ≡ some l
    → (n : ℕ) × (locate t i lines ≡ some (record { tag = t; counter = n; dirty = l.dirty }))
unfolding lookup
locate_found t i [] l h = absurd (cc)
locate_found t i (m ∷ lines) l h = elim (Bool-cases (m.tag == t)) [
  | inl hit ↦ (i, ground arith)
  | inr miss ↦ rw miss (locate_found t (i + 1) lines l (ground arith))
]

-- Two tags have different places.
pub locate_injective :
    (t u i : ℕ) (lines : List Line) (e e' : Entry)
    → locate t i lines ≡ some e
    → locate u i lines ≡ some e'
    → e.counter ≡ e'.counter
    → t ≡ u
locate_injective t u i [] e e' h h' c = absurd (cc)
locate_injective t u i (l ∷ lines) e e' h h' c = ground (
  arith,
  locate_bounds t (i + 1) lines e,
  locate_bounds u (i + 1) lines e',
  locate_injective t u (i + 1) lines e e',
)

-- Places from `i` on are not below `i`.
age_below_from :
    (t i j : ℕ) (lines : List Line)
    → i ≤ j
    → Option.map (age_below i) (locate t j lines) ≡ locate t j lines
age_below_from t i j [] h = refl
age_below_from t i j (l ∷ lines) h = ground (arith, age_below_from t i (j + 1) lines)

-- Taking a line out and putting it in front moves those before it back by one place.
pub locate-remove :
    (k t i : ℕ) (lines : List Line) (e : Entry)
    → locate k i lines ≡ some e
    → ¬ (k ≡ t)
    → locate t (i + 1) (remove k lines) ≡ Option.map (age_below e.counter) (locate t i lines)
unfolding remove
locate-remove k t i [] e h ne = absurd (cc)
locate-remove k t i (l ∷ lines) e h ne = ground (
  arith,
  age_below_from t i (i + 1) lines,
  locate_bounds k (i + 1) lines e,
  locate-remove k t (i + 1) lines e,
)

pub lookup-remove_ne :
    (k t : ℕ) (lines : List Line) → ¬ (k ≡ t) → lookup t (remove k lines) ≡ lookup t lines
unfolding lookup remove
lookup-remove_ne k t [] ne = refl
lookup-remove_ne k t (l ∷ lines) ne = ground (arith, lookup-remove_ne k t lines)

pub lookup-remove_self :
    (k : ℕ) (lines : List Line) → DistinctLines lines → lookup k (remove k lines) ≡ none
unfolding lookup remove
lookup-remove_self k [] d = refl
lookup-remove_self k (l ∷ lines) d = ground (arith, d.0, lookup-remove_self k lines d.1)

pub remove-DistinctLines :
    (k : ℕ) (lines : List Line) → DistinctLines lines → DistinctLines (remove k lines)
unfolding remove
remove-DistinctLines k [] d = tt
remove-DistinctLines k (l ∷ lines) d = elim (Bool-cases (l.tag == k)) [
  | inl hit ↦ rw hit d.1
  | inr miss ↦ rw miss (
    lookup-remove_ne k l.tag lines (λ e. ==→ne l.tag k miss (sym e)) ∙ d.0,
    remove-DistinctLines k lines d.1,
  )
]

pub length-remove :
    (k : ℕ) (lines : List Line) (l : Line)
    → lookup k lines ≡ some l
    → length lines ≡ suc (length (remove k lines))
unfolding lookup remove
length-remove k [] l h = absurd (cc)
length-remove k (m ∷ lines) l h = ground (arith, length-remove k lines l)

-- The last line of a list that is not empty.
pub last : Line → List Line → Line
last l [] = l
last l (m ∷ lines) = last m lines

pub last_dirty-eq : (l : Line) (lines : List Line) → last_dirty (l ∷ lines) ≡ (last l lines).dirty
unfolding last_dirty last
last_dirty-eq l [] = refl
last_dirty-eq l (m ∷ lines) = last_dirty-eq m lines

pub length-drop_last :
    (l : Line) (lines : List Line) → length (drop_last (l ∷ lines)) ≡ length lines
unfolding drop_last
length-drop_last l [] = refl
length-drop_last l (m ∷ lines) = ap suc (length-drop_last m lines)

lookup-last : (l : Line) (lines : List Line) → ¬ (lookup (last l lines).tag (l ∷ lines) ≡ none)
unfolding lookup last
lookup-last l [] = ground arith
lookup-last l (m ∷ lines) = ground (arith, lookup-last m lines)

last_ne :
    (l m : Line) (lines : List Line)
    → lookup l.tag (m ∷ lines) ≡ none
    → ¬ (l.tag ≡ (last m lines).tag)
last_ne l m lines fresh e = lookup-last m lines (rw e at fresh)

pub locate-last :
    (i : ℕ) (l : Line) (lines : List Line)
    → DistinctLines (l ∷ lines)
    → locate (last l lines).tag i (l ∷ lines)
      ≡ some (record {
        tag = (last l lines).tag;
        counter = i + length lines;
        dirty = (last l lines).dirty;
      })
unfolding last
locate-last i l [] d = ground arith
locate-last i l (m ∷ lines) d =
    rw (==_no l.tag (last m lines).tag (last_ne l m lines d.0))
      (ground (arith, locate-last (i + 1) m lines d.1))

pub locate-drop_last :
    (t i : ℕ) (l : Line) (lines : List Line)
    → DistinctLines (l ∷ lines)
    → locate t i (drop_last (l ∷ lines))
      ≡ (if (last l lines).tag == t then none else locate t i (l ∷ lines))
unfolding last drop_last
locate-drop_last t i l [] d = ground arith
locate-drop_last t i l (m ∷ lines) d =
    ground (arith, last_ne l m lines d.0, locate-drop_last t (i + 1) m lines d.1)

pub lookup-drop_last :
    (t : ℕ) (lines : List Line) → lookup t lines ≡ none → lookup t (drop_last lines) ≡ none
unfolding lookup drop_last
lookup-drop_last t [] h = refl
lookup-drop_last t (l ∷ []) h = refl
lookup-drop_last t (l ∷ m ∷ lines) h = ground (arith, lookup-drop_last t (m ∷ lines))

pub drop_last-DistinctLines :
    (lines : List Line) → DistinctLines lines → DistinctLines (drop_last lines)
unfolding drop_last
drop_last-DistinctLines [] d = tt
drop_last-DistinctLines (l ∷ []) d = tt
drop_last-DistinctLines (l ∷ m ∷ lines) d =
    (lookup-drop_last l.tag (m ∷ lines) d.0, drop_last-DistinctLines (m ∷ lines) d.1)

pub locate-mark :
    (k : ℕ) (d : Bool) (t i : ℕ) (lines : List Line)
    → locate t i (mark k d lines) ≡ (
        if k == t
        then Option.map (λ (e : Entry). record e { dirty = d }) (locate t i lines)
        else locate t i lines)
unfolding mark
locate-mark k d t i [] = ground arith
locate-mark k d t i (l ∷ lines) = ground (arith, locate-mark k d t (i + 1) lines)

pub length-mark : (k : ℕ) (d : Bool) (lines : List Line) → length (mark k d lines) ≡ length lines
unfolding mark
length-mark k d [] = refl
length-mark k d (l ∷ lines) = ground (arith, length-mark k d lines)

lookup-mark :
    (k : ℕ) (d : Bool) (t : ℕ) (lines : List Line)
    → lookup t lines ≡ none
    → lookup t (mark k d lines) ≡ none
unfolding lookup mark
lookup-mark k d t [] h = refl
lookup-mark k d t (l ∷ lines) h = ground (arith, lookup-mark k d t lines)

pub mark-DistinctLines :
    (k : ℕ) (d : Bool) (lines : List Line) → DistinctLines lines → DistinctLines (mark k d lines)
unfolding mark
mark-DistinctLines k d [] h = tt
mark-DistinctLines k d (l ∷ lines) h = elim (Bool-cases (l.tag == k)) [
  | inl hit ↦ rw hit h
  | inr miss ↦ rw miss (lookup-mark k d l.tag lines h.0, mark-DistinctLines k d lines h.1)
]
