-- ===== src/Cache/Refine/Sets.antt =====
-- Each change of a set of entries is the change of its ordered list.
use assignments_for_csf.Base.{
  ℕ, ◌+◌, ◌*◌, ◌≡◌, refl, ◌∙◌, sym, arith, Bool, true, false, List, [], ◌∷◌, map, none, some,
  length, if◌then◌else◌,
}
use assignments_for_csf.Cache.{
  Config, Entry, find, upsert, erase, is_hit, counter_of, age, age_below, to_front, refresh,
  find_victim, evict,
}
use assignments_for_csf.Cache.Map.{
  find-map, map-Distinct, find-upsert, length-upsert, upsert-Distinct, find-erase, erase-Distinct,
  length-erase,
}
use assignments_for_csf.Cache.Spec.{
  Line, lookup, remove, drop_last, last_dirty, mark, move_to_front,
}
use assignments_for_csf.Cache.Order.{
  locate, locate-suc, locate_fresh, locate_found, locate_injective, locate-remove,
  lookup-remove_self, remove-DistinctLines, length-remove, last, last_dirty-eq, length-drop_last,
  locate-last, locate-drop_last, drop_last-DistinctLines, locate-mark, length-mark,
  mark-DistinctLines,
}
use assignments_for_csf.Cache.Refine.{Represents, length-map-entries, one_victim, cost}

abbrev pub set_dirty : Bool → Entry → Entry
set_dirty d e = record e { dirty = d }

abbrev pub place : Bool → Entry → Entry
place d e = record e { counter = 0; dirty = d }

pub move_to_front_hit :
    (k : ℕ) (lines : List Line) (l : Line)
    → lookup k lines ≡ some l
    → move_to_front k lines ≡ l ∷ remove k lines
unfolding move_to_front
move_to_front_hit k lines l hit = rw (hit, move_to_front)

pub lookup-tag : (k : ℕ) (lines : List Line) (l : Line) → lookup k lines ≡ some l → l.tag ≡ k
unfolding lookup
lookup-tag k [] l hit = absurd (cc)
lookup-tag k (m ∷ lines) l hit = ground (arith, lookup-tag k lines l)

keeps_age : (m : ℕ) (e : Entry) → (age_below m e).tag ≡ e.tag
keeps_age m e = ground arith

module _ (entries : List Entry) (lines : List Line) (r : Represents entries lines) where
  -- The map holds a tag where the list does.
  pub find_hit :
      (k : ℕ) (l : Line)
      → lookup k lines ≡ some l
      → (n : ℕ) × (find k entries ≡ some (record { tag = k; counter = n; dirty = l.dirty }))
  find_hit k l hit = let (n, at_n) = locate_found k 0 lines l hit in (n, r.found k ∙ at_n)

  pub find_miss : (k : ℕ) → lookup k lines ≡ none → find k entries ≡ none
  find_miss k miss = r.found k ∙ locate_fresh k 0 lines miss

  pub is_hit_hit : (k : ℕ) (l : Line) → lookup k lines ≡ some l → is_hit entries k ≡ true
  unfolding is_hit
  is_hit_hit k l hit = rw ((find_hit k l hit).1, is_hit)

  pub is_hit_miss : (k : ℕ) → lookup k lines ≡ none → is_hit entries k ≡ false
  unfolding is_hit
  is_hit_miss k miss = rw (find_miss k miss, is_hit)

  counter_hit :
      (k n : ℕ) (d : Bool)
      → find k entries ≡ some (record { tag = k; counter = n; dirty = d })
      → counter_of k entries ≡ n
  counter_hit k n d hit = rw (hit, counter_of)

  -- Where the accessed block had place `n`.
  module _ (k n : ℕ) (l : Line) (hit : lookup k lines ≡ some l)
      (at_n : locate k 0 lines ≡ some (record { tag = k; counter = n; dirty = l.dirty })) where
    aged : List Entry
    aged = map (age_below n) entries

    refreshed_found : (t : ℕ) → find t (upsert k to_front aged) ≡ locate t 0 (l ∷ remove k lines)
    unfolding aged
    refreshed_found t =
        find-upsert to_front (λ e. refl) k t aged
        ∙ ground (
          arith,
          lookup-tag k lines l hit,
          at_n,
          r.found k,
          r.found t,
          find-map (age_below n) (keeps_age n) k entries,
          find-map (age_below n) (keeps_age n) t entries,
          locate-remove k t 0 lines (record { tag = k; counter = n; dirty = l.dirty }),
        )

    refreshed : Represents (upsert k to_front aged) (l ∷ remove k lines)
    unfolding aged
    refreshed = record {
      found = refreshed_found;
      size = ground (
        arith,
        length-upsert to_front (λ e. refl) k aged,
        at_n,
        r.found k,
        r.size,
        find-map (age_below n) (keeps_age n) k entries,
        length-map-entries (age_below n) entries,
        length-remove k lines l hit,
      );
      keys =
          upsert-Distinct to_front (λ e. refl) k aged
            (map-Distinct (age_below n) (keeps_age n) entries r.keys);
      tags = (
        rw (lookup-tag k lines l hit) (lookup-remove_self k lines r.tags),
        remove-DistinctLines k lines r.tags,
      );
    }

  -- An access under LRU puts the block in front.
  pub refresh-Represents :
      (k : ℕ) (l : Line)
      → lookup k lines ≡ some l
      → Represents (refresh k entries) (move_to_front k lines)
  unfolding refresh aged
  refresh-Represents k l hit =
      let (n, at_n) = locate_found k 0 lines l hit in
      rw (move_to_front_hit k lines l hit, counter_hit k n l.dirty (r.found k ∙ at_n))
        (refreshed k n l hit at_n)

  -- A new block comes in front of the others.
  pub insert-Represents :
      (k : ℕ) (d : Bool)
      → lookup k lines ≡ none
      → Represents (upsert k (place d) (map age entries)) (record { tag = k; dirty = d } ∷ lines)
  insert-Represents k d miss = record {
    found = λ t.
        find-upsert (place d) (λ e. refl) k t (map age entries)
        ∙ ground (
          arith,
          find-map age (λ e. refl) k entries,
          find-map age (λ e. refl) t entries,
          find_miss k miss,
          r.found t,
          locate-suc t 0 lines,
        );
    size = ground (
      arith,
      length-upsert (place d) (λ e. refl) k (map age entries),
      find-map age (λ e. refl) k entries,
      find_miss k miss,
      r.size,
      length-map-entries age entries,
    );
    keys =
        upsert-Distinct (place d) (λ e. refl) k (map age entries)
          (map-Distinct age (λ e. refl) entries r.keys);
    tags = (miss, r.tags);
  }

  -- Only the dirty flag of a block that is there changes.
  pub mark-Represents :
      (k : ℕ) (d : Bool) (l : Line)
      → lookup k lines ≡ some l
      → Represents (upsert k (set_dirty d) entries) (mark k d lines)
  mark-Represents k d l hit = record {
    found = λ t.
        find-upsert (set_dirty d) (λ e. refl) k t entries
        ∙ ground (arith, (find_hit k l hit).1, r.found t, r.found k, locate-mark k d t 0 lines);
    size = ground (
      arith,
      length-upsert (set_dirty d) (λ e. refl) k entries,
      (find_hit k l hit).1,
      r.size,
      length-mark k d lines,
    );
    keys = upsert-Distinct (set_dirty d) (λ e. refl) k entries r.keys;
    tags = mark-DistinctLines k d lines r.tags;
  }

-- The last block of the list is the one that the loop finds, and its write-back is paid once.
pub evict-Represents :
    (c : Config) (entries : List Entry) (l : Line) (lines : List Line) (cycles : ℕ)
    → Represents entries (l ∷ lines)
    → length (l ∷ lines) ≡ c.block_num
    → (left : List Entry) × (evict c entries cycles
        ≡ some (left, (if last_dirty (l ∷ lines) then cycles + c.byte_num * 25 else cycles)))
      × Represents left (drop_last (l ∷ lines))
unfolding evict
evict-Represents c entries l lines cycles r full = (
  erase k entries,
  ground (arith, found_victim, last_dirty-eq l lines),
  record {
    found = λ t.
        find-erase k t entries r.keys
        ∙ ground (arith, r.found t, locate-drop_last t 0 l lines r.tags);
    size = omega (arith, length-erase k entries victim at_last, r.size, length-drop_last l lines);
    keys = erase-Distinct k entries r.keys;
    tags = drop_last-DistinctLines (l ∷ lines) r.tags;
  },
)
  where
    k : ℕ
    k = (last l lines).tag

    victim : Entry
    victim = record { tag = k; counter = 0 + length lines; dirty = (last l lines).dirty }

    at_last : find k entries ≡ some victim
    at_last = r.found k ∙ locate-last 0 l lines r.tags

    found_victim : find_victim c entries none cycles ≡ (some k, cost c k victim cycles)
    found_victim =
        one_victim c k entries victim none cycles r.keys at_last (omega arith) λ t e f top.
          locate_injective t k 0 (l ∷ lines) e victim (sym (r.found t) ∙ f)
            (sym (r.found k) ∙ at_last) (omega arith)
