-- ===== src/Cache/Refine/Steps.antt =====
-- The counting functions of the cache and the specification of a set.
use assignments_for_csf.Base.{
  subst, ℕ, ◌+◌, ◌*◌, ◌≤◌, ◌≡◌, refl, ap, ◌∙◌, sym, inl, inr, arith, Bool, true, false, List, [],
  ◌∷◌, map, none, some, length, ◌==◌, if◌then◌else◌, Bool-cases, ==_iff, Option-cases,
}
use assignments_for_csf.Cache.{
  Config, Stats, Entry, upsert, is_set_full, is_hit, age, refresh, bring_in, SetStep,
  count_load_hit, count_load_miss, count_store_hit, count_store_miss,
}
use assignments_for_csf.Cache.Spec.{
  Line, lookup, drop_last, mark, use_line, push, write_back, spec_load, spec_store,
}
use assignments_for_csf.Cache.Order.{lookup-drop_last}
use assignments_for_csf.Cache.Refine.{Represents}
use assignments_for_csf.Cache.Refine.Sets.{
  place, set_dirty, move_to_front_hit, lookup-tag, is_hit_hit, is_hit_miss, refresh-Represents,
  insert-Represents, mark-Represents, evict-Represents,
}

-- A step ends without fault in a set that stands for the expected list, with the expected
-- statistics.
pub record Does (step : SetStep) (lines : List Line) (stats : Stats) : Type 0 where
  pub after : List Entry
  pub returns : step ≡ some (after, stats)
  pub represents : Represents after lines

-- A block that is brought in, and its cycles.
record Brings (c : Config) (k : ℕ) (d : Bool) (entries : List Entry) (lines : List Line)
    (cycles : ℕ) : Type 0 where
  after : List Entry
  returns : bring_in c k d entries cycles ≡ some (after, cycles + write_back c lines)
  represents : Represents after (push c (record { tag = k; dirty = d }) lines)

module _ (c : Config) (entries : List Entry) (lines : List Line) (r : Represents entries lines)
    (pos : 1 ≤ c.block_num) (k : ℕ) where
  bring_in_room :
      (d : Bool) (cycles : ℕ)
      → lookup k lines ≡ none
      → (length lines == c.block_num) ≡ false
      → Brings c k d entries lines cycles
  bring_in_room d cycles miss room = record {
    after = upsert k (place d) (map age entries);
    returns = unfold bring_in is_set_full write_back in ground (arith, r.size);
    represents = unfold push in rw room (insert-Represents entries lines r k d miss);
  }

  bring_in_full :
      (d : Bool) (cycles : ℕ) (ls : List Line)
      → lines ≡ ls
      → lookup k lines ≡ none
      → (length lines == c.block_num) ≡ true
      → Brings c k d entries lines cycles
  bring_in_full d cycles [] e miss full = absurd (ground (arith, ap length e))
  bring_in_full d cycles (l ∷ ls) e miss full =
      let same : length lines ≡ c.block_num = (==_iff _ _).0 full in
      let (left, evicted, r') =
        evict-Represents c entries l ls cycles (subst (Represents entries) e r)
          (ap length (sym e) ∙ same) in
      record {
        after = upsert k (place d) (map age left);
        returns = unfold bring_in is_set_full write_back in ground (arith, r.size, evicted, e);
        represents =
            unfold push in
            rw full (
              insert-Represents left (drop_last lines) (rw e r') k d
                (lookup-drop_last k lines miss));
      }

  brings : (d : Bool) (cycles : ℕ) → lookup k lines ≡ none → Brings c k d entries lines cycles
  brings d cycles miss = elim (Bool-cases (length lines == c.block_num)) [
    | inl full ↦ bring_in_full d cycles lines refl miss full
    | inr room ↦ bring_in_room d cycles miss room
  ]

  used :
      (l : Line)
      → lookup k lines ≡ some l
      → Represents (if c.lru then refresh k entries else entries) (use_line c k lines)
  unfolding use_line
  used l hit = elim (Bool-cases c.lru) [
    | inl e ↦ rw e (refresh-Represents entries lines r k l hit)
    | inr e ↦ rw e r
  ]

  -- `load` on one set.
  pub load-Does :
      (st : Stats)
      → Does
          (if is_hit entries k
            then count_load_hit c k entries st
            else count_load_miss c k entries st)
          (spec_load c k lines st).0
          (spec_load c k lines st).1
  unfolding spec_load
  load-Does st = elim (Option-cases (lookup k lines)) [
    | inr (l, hit) ↦
        rw (hit, spec_load, is_hit_hit entries lines r k l hit)
          (record {
            after = if c.lru then refresh k entries else entries;
            returns = unfold count_load_hit in refl;
            represents = used l hit;
          })
    | inl miss ↦
        let b = brings false st.cycles miss in
        rw (miss, spec_load, is_hit_miss entries lines r k miss)
          (record {
            after = b.after;
            returns = unfold count_load_miss in rw b.returns refl;
            represents = b.represents;
          })
  ]

  lookup-use_line : (l : Line) → lookup k lines ≡ some l → lookup k (use_line c k lines) ≡ some l
  unfolding use_line lookup
  lookup-use_line l hit = elim (Bool-cases c.lru) [
    | inl e ↦ rw (e, move_to_front_hit k lines l hit) (ground (arith, lookup-tag k lines l hit))
    | inr e ↦ rw e hit
  ]

  store_hit-Does :
      (st : Stats) (l : Line)
      → lookup k lines ≡ some l
      → Does
          (count_store_hit c k entries st)
          (spec_store c k lines st).0
          (spec_store c k lines st).1
  unfolding spec_store use_line
  store_hit-Does st l hit = elim (Bool-cases c.write_through) [
    | inl through ↦
        rw (hit, spec_store, through)
          (record {
            after = if c.lru then refresh k entries else entries;
            returns = unfold count_store_hit in ground arith;
            represents = used l hit;
          })
    | inr back ↦
        rw (hit, spec_store, back)
          (record {
            after = upsert k (set_dirty true) (if c.lru then refresh k entries else entries);
            returns = unfold count_store_hit in ground arith;
            represents =
                mark-Represents (if c.lru then refresh k entries else entries) (use_line c k lines)
                  (used l hit) k true l (lookup-use_line l hit);
          })
  ]

  -- Write-through cleans the block that has just come in.
  cleaned :
      (cycles : ℕ) (b : Brings c k true entries lines cycles)
      → Represents
          (upsert k (set_dirty false) b.after)
          (push c (record { tag = k; dirty = false }) lines)
  unfolding push mark lookup
  cleaned cycles b = subst (Represents (upsert k (set_dirty false) b.after)) (ground arith) (
      mark-Represents b.after (push c (record { tag = k; dirty = true }) lines) b.represents k false
        (record { tag = k; dirty = true }) (ground arith))

  store_miss-Does :
      (st : Stats)
      → lookup k lines ≡ none
      → Does
          (count_store_miss c k entries st)
          (spec_store c k lines st).0
          (spec_store c k lines st).1
  unfolding spec_store push
  store_miss-Does st miss = elim (Bool-cases c.write_allocate) [
    | inr around ↦
        rw (miss, spec_store, around)
          (record {
            after = entries;
            returns = unfold count_store_miss in ground arith;
            represents = r;
          })
    | inl allocate ↦ elim (Bool-cases c.write_through) [
      | inl through ↦
          rw (miss, spec_store, allocate, through)
            (record {
              after = upsert k (set_dirty false) (b.after);
              returns = unfold count_store_miss in ground (arith, b.returns);
              represents = cleaned _ b;
            })
      | inr back ↦
          rw (miss, spec_store, allocate, back)
            (record {
              after = b.after;
              returns = unfold count_store_miss in ground (arith, b.returns);
              represents = b.represents;
            })
    ]
  ]
    where
      b : Brings c k true entries lines (st.cycles + 25 * c.byte_num)
      b = brings true (st.cycles + 25 * c.byte_num) miss

  -- `store` on one set.
  pub store-Does :
      (st : Stats)
      → Does
          (if is_hit entries k
            then count_store_hit c k entries st
            else count_store_miss c k entries st)
          (spec_store c k lines st).0
          (spec_store c k lines st).1
  store-Does st = elim (Option-cases (lookup k lines)) [
    | inr (l, hit) ↦ rw (is_hit_hit entries lines r k l hit) (store_hit-Does st l hit)
    | inl miss ↦ rw (is_hit_miss entries lines r k miss) (store_miss-Does st miss)
  ]
