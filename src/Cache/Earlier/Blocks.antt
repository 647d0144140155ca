-- ===== src/Cache/Earlier/Blocks.antt =====
-- The blocks of a set in cache.cpp and in the earlier version, another.cpp.
use assignments_for_csf.Base.{
  ℕ, suc, ◌+◌, ◌-◌, ◌*◌, ◌≤◌, ◌≡◌, refl, ap, ap₂, ◌∙◌, inl, inr, arith, Bool, true, ◌&&◌, List, [],
  ◌∷◌, map, Option, some, length, ltb, ◌==◌, if◌then◌else◌, Bool-cases,
}
use assignments_for_csf.Cache.{
  Entry, fresh, Config, find, upsert, erase, find_victim, is_hit, counter_of, age_below, age,
}

-- The block of the earlier version is dirty only where the other is.
pub record Follows (e e' : Entry) : Type 0 where
  pub same_tag : e.tag ≡ e'.tag
  pub same_counter : e.counter ≡ e'.counter
  pub dirtier : e'.dirty ≡ true → e.dirty ≡ true

pub data Cleaner : List Entry → List Entry → Type 0 where
  no_block : Cleaner [] []
  block :
      (e e' : Entry) (s s' : List Entry) → Follows e e' → Cleaner s s' → Cleaner (e ∷ s) (e' ∷ s')

pub is_hit-Cleaner : (t : ℕ) (s s' : List Entry) → Cleaner s s' → is_hit s t ≡ is_hit s' t
unfolding is_hit find
is_hit-Cleaner t _ _ no_block = refl
is_hit-Cleaner t _ _ (block e e' s s' f c) = ground (arith, f.same_tag, is_hit-Cleaner t s s' c)

pub counter_of-Cleaner :
    (t : ℕ) (s s' : List Entry) → Cleaner s s' → counter_of t s ≡ counter_of t s'
unfolding find
counter_of-Cleaner t _ _ no_block = refl
counter_of-Cleaner t _ _ (block e e' s s' f c) =
    ground (arith, f.same_tag, f.same_counter, counter_of-Cleaner t s s' c)

pub length-Cleaner : (s s' : List Entry) → Cleaner s s' → length s ≡ length s'
length-Cleaner _ _ no_block = refl
length-Cleaner _ _ (block e e' s s' f c) = ap suc (length-Cleaner s s' c)

-- Two changes of blocks that keep one following the other.
abbrev pub Keeping : (Entry → Entry) → (Entry → Entry) → Type 0
Keeping g g' = (e e' : Entry) → Follows e e' → Follows (g e) (g' e')

pub map-Cleaner :
    (g g' : Entry → Entry) (s s' : List Entry)
    → Keeping g g'
    → Cleaner s s'
    → Cleaner (map g s) (map g' s')
map-Cleaner g g' _ _ keep no_block = no_block
map-Cleaner g g' _ _ keep (block e e' s s' f c) =
    block (g e) (g' e') (map g s) (map g' s') (keep e e' f) (map-Cleaner g g' s s' keep c)

pub upsert-Cleaner :
    (g g' : Entry → Entry) (t : ℕ) (s s' : List Entry)
    → Keeping g g'
    → Cleaner s s'
    → Cleaner (upsert t g s) (upsert t g' s')
unfolding upsert
upsert-Cleaner g g' t _ _ keep no_block =
    block _ _ [] []
      (keep (fresh t) (fresh t) (record { same_tag = refl; same_counter = refl; dirtier = λ d. d }))
      no_block
upsert-Cleaner g g' t _ _ keep (block e e' s s' f c) = elim (Bool-cases (e'.tag == t)) [
  | inl h ↦ rw (ap (λ (n : ℕ). n == t) f.same_tag ∙ h, h) (block (g e) (g' e') s s' (keep e e' f) c)
  | inr h ↦
      rw (ap (λ (n : ℕ). n == t) f.same_tag ∙ h, h)
        (block e e' _ _ f (upsert-Cleaner g g' t s s' keep c))
]

pub erase-Cleaner : (t : ℕ) (s s' : List Entry) → Cleaner s s' → Cleaner (erase t s) (erase t s')
unfolding erase
erase-Cleaner t _ _ no_block = no_block
erase-Cleaner t _ _ (block e e' s s' f c) = elim (Bool-cases (e'.tag == t)) [
  | inl h ↦ rw (ap (λ (n : ℕ). n == t) f.same_tag ∙ h, h) c
  | inr h ↦
      rw (ap (λ (n : ℕ). n == t) f.same_tag ∙ h, h) (block e e' _ _ f (erase-Cleaner t s s' c))
]

cost-le :
    (oldest dirty dirty' : Bool) (cost cycles cycles' : ℕ)
    → (dirty' ≡ true → dirty ≡ true)
    → cycles' ≤ cycles
    → (if oldest && dirty' then cycles' + cost else cycles')
      ≤ (if oldest && dirty then cycles + cost else cycles)
cost-le oldest dirty dirty' cost cycles cycles' h le = ground (arith, h)

-- The same block goes, at no higher cost.
pub find_victim-Cleaner :
    (config : Config) (s s' : List Entry) (key key' : Option ℕ) (cycles cycles' : ℕ)
    → Cleaner s s'
    → key ≡ key'
    → cycles' ≤ cycles
    → ((find_victim config s key cycles).0 ≡ (find_victim config s' key' cycles').0)
      × ((find_victim config s' key' cycles').1 ≤ (find_victim config s key cycles).1)
unfolding find_victim
find_victim-Cleaner config _ _ key key' cycles cycles' no_block same le = (same, le)
find_victim-Cleaner config _ _ key key' cycles cycles' (block e e' s s' f c) same le =
    let oldest = ap (λ n. n == config.block_num - 1) f.same_counter in
    find_victim-Cleaner config s s' _ _ _ _ c
      (ap₂ (λ b k. if b then k else key) oldest (ap some f.same_tag)
        ∙ ap (λ k. if e'.counter == config.block_num - 1 then some e'.tag else k) same)
      (rw oldest (
        cost-le (e'.counter == config.block_num - 1) e.dirty e'.dirty (config.byte_num * 25) cycles
          cycles' f.dirtier le))

pub age-Keeping : Keeping age age
age-Keeping e e' f = record {
  same_tag = f.same_tag;
  same_counter = ap (λ n. n + 1) f.same_counter;
  dirtier = f.dirtier;
}

pub age_below-Keeping : (maxi : ℕ) → Keeping (age_below maxi) (age_below maxi)
age_below-Keeping maxi e e' f = elim (Bool-cases (ltb e'.counter maxi)) [
  | inl h ↦ rw (ap (λ n. ltb n maxi) f.same_counter ∙ h, h) (age-Keeping e e' f)
  | inr h ↦ rw (ap (λ n. ltb n maxi) f.same_counter ∙ h, h) f
]
