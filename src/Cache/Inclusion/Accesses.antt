-- ===== src/Cache/Inclusion/Accesses.antt =====
-- One access to a set under LRU, in two caches that differ in the number of blocks of a set.
use assignments_for_csf.Base.{
  ℕ, ◌+◌, ◌*◌, ◌≤◌, ◌≡◌, ◌≢◌, refl, subst, sym, ◌∙◌, inl, inr, arith, Bool, true, false, List, none,
  some, not, if◌then◌else◌, Bool-cases, Option-cases,
}
use assignments_for_csf.Cache.{Config, Stats}
use assignments_for_csf.Cache.Spec.{
  Line, lookup, mark, move_to_front, use_line, push, write_back, spec_load, spec_store,
}
use assignments_for_csf.Cache.Inclusion.{lookup-Sub}
use assignments_for_csf.Cache.Inclusion.Sets.{
  Within, mark-Within_left, mark-Within_right, both_hit, half_hit, both_miss, stays,
}

-- No more hits of either kind.
pub record Fewer (st st' : Stats) : Type 0 where
  pub load_hits : st.load_hit ≤ st'.load_hit
  pub store_hits : st.store_hit ≤ st'.store_hit

-- A configuration with LRU, and one with at least as many blocks in a set.
pub record Beside (c c' : Config) : Type 0 where
  pub first_lru : c.lru ≡ true
  pub second_lru : c'.lru ≡ true
  pub positive : 1 ≤ c.block_num
  pub more : c.block_num ≤ c'.block_num
  pub same_sets : c.set_num ≡ c'.set_num
  pub same_bytes : c.byte_num ≡ c'.byte_num
  pub same_allocate : c.write_allocate ≡ c'.write_allocate

-- The set and the hits after an access to either.
pub record After (k : ℕ) (r r' : List Line × Stats) : Type 0 where
  pub sets : Within k r.0 r'.0
  pub fewer : Fewer r.1 r'.1

module _ (c : Config) (t : ℕ) (s : List Line) (st : Stats) where
  load_hits-eq :
      (l : Line)
      → c.lru ≡ true
      → lookup t s ≡ some l
      → spec_load c t s st
        ≡ (move_to_front t s, record st { load_hit = st.load_hit + 1; cycles = st.cycles + 1 })
  unfolding spec_load use_line
  load_hits-eq l lru h = rw (spec_load, h, lru) refl

  load_misses-eq :
      lookup t s ≡ none
      → spec_load c t s st ≡ (
        push c (record { tag = t; dirty = false }) s,
        record st {
          load_miss = st.load_miss + 1;
          cycles = st.cycles + write_back c s + c.byte_num * 25;
        },
      )
  unfolding spec_load
  load_misses-eq h = rw (spec_load, h) refl

  store_hits-eq :
      (l : Line)
      → c.lru ≡ true
      → lookup t s ≡ some l
      → spec_store c t s st ≡ (
        (if c.write_through then move_to_front t s else mark t true (move_to_front t s)),
        record st {
          store_hit = st.store_hit + 1;
          cycles = st.cycles + (if c.write_through then 101 else 1);
        },
      )
  unfolding spec_store use_line
  store_hits-eq l lru h = rw (spec_store, h, lru) refl

  store_comes_in :
      c.write_allocate ≡ true
      → lookup t s ≡ none
      → (spec_store c t s st).0 ≡ push c (record { tag = t; dirty = not c.write_through }) s
  unfolding spec_store
  store_comes_in e h = rw (spec_store, h, e) refl

  store_stays_out : c.write_allocate ≡ false → lookup t s ≡ none → (spec_store c t s st).0 ≡ s
  unfolding spec_store
  store_stays_out e h = rw (spec_store, h, e) refl

  store_misses-hits :
      lookup t s ≡ none
      → ((spec_store c t s st).1.load_hit ≡ st.load_hit)
        × ((spec_store c t s st).1.store_hit ≡ st.store_hit)
  unfolding spec_store
  store_misses-hits h = elim (Bool-cases c.write_allocate) [
    | inl e ↦ rw (spec_store, h, e) (refl, refl)
    | inr e ↦ rw (spec_store, h, e) (refl, refl)
  ]

-- Marking changes neither side of the comparison.
marked_left :
    (k t : ℕ) (through : Bool) (s s' : List Line)
    → Within k s s'
    → Within k (if through then s else mark t true s) s'
marked_left k t true s s' w = w
marked_left k t false s s' w = mark-Within_left k s s' w t true

marked_right :
    (k t : ℕ) (through : Bool) (s s' : List Line)
    → Within k s s'
    → Within k s (if through then s' else mark t true s')
marked_right k t true s s' w = w
marked_right k t false s s' w = mark-Within_right k s s' w t true

-- Both caches look at the same tag of the same set.
module _ (c c' : Config) (b : Beside c c') (t : ℕ) (s s' : List Line) (st st' : Stats)
    (w : Within c.block_num s s') (f : Fewer st st') where
  gone : (l : Line) → lookup t s ≡ some l → lookup t s' ≢ none
  gone l h n' = absurd (some≢ (sym h ∙ lookup-Sub t s s' w.sub n'))
    where
      some≢ : some l ≢ none
      some≢ e = ground arith

  pub spec_load-After : After c.block_num (spec_load c t s st) (spec_load c' t s' st')
  spec_load-After = elim (Option-cases (lookup t s)) [
    | inl n ↦ elim (Option-cases (lookup t s')) [
      | inl n' ↦
          rw (load_misses-eq c t s st n, load_misses-eq c' t s' st' n')
            (record {
              sets = both_miss c.block_num s s' w c refl b.positive c' _ _ b.more refl;
              fewer = record { load_hits = f.load_hits; store_hits = f.store_hits };
            })
      | inr (l', h') ↦
          rw (load_misses-eq c t s st n, load_hits-eq c' t s' st' l' b.second_lru h')
            (record {
              sets = half_hit c.block_num s s' w c refl b.positive t _ l' refl n h';
              fewer = record { load_hits = omega (arith, f.load_hits); store_hits = f.store_hits };
            })
    ]
    | inr (l, h) ↦ elim (Option-cases (lookup t s')) [
      | inl n' ↦ absurd (gone l h n')
      | inr (l', h') ↦
          rw (load_hits-eq c t s st l b.first_lru h, load_hits-eq c' t s' st' l' b.second_lru h')
            (record {
              sets = both_hit c.block_num s s' w t l l' h h';
              fewer = record { load_hits = omega (arith, f.load_hits); store_hits = f.store_hits };
            })
    ]
  ]

  half_store :
      (l' : Line)
      → lookup t s ≡ none
      → lookup t s' ≡ some l'
      → Within c.block_num (spec_store c t s st).0 (move_to_front t s')
  half_store l' n h' = elim (Bool-cases c.write_allocate) [
    | inl e ↦
        subst (λ x. Within c.block_num x (move_to_front t s')) (sym (store_comes_in c t s st e n))
          (half_hit c.block_num s s' w c refl b.positive t _ l' refl n h')
    | inr e ↦
        subst (λ x. Within c.block_num x (move_to_front t s')) (sym (store_stays_out c t s st e n))
          (stays c.block_num s s' w t l' n h')
  ]

  no_store :
      lookup t s ≡ none
      → lookup t s' ≡ none
      → Within c.block_num (spec_store c t s st).0 (spec_store c' t s' st').0
  no_store n n' = elim (Bool-cases c.write_allocate) [
    | inl e ↦
        subst (Within c.block_num (spec_store c t s st).0)
          (sym (store_comes_in c' t s' st' (sym b.same_allocate ∙ e) n'))
          (subst
            (λ x.
              Within c.block_num x (push c' (record { tag = t; dirty = not c'.write_through }) s'))
            (sym (store_comes_in c t s st e n))
            (both_miss c.block_num s s' w c refl b.positive c' _ _ b.more refl))
    | inr e ↦
        subst (Within c.block_num (spec_store c t s st).0)
          (sym (store_stays_out c' t s' st' (sym b.same_allocate ∙ e) n'))
          (subst (λ x. Within c.block_num x s') (sym (store_stays_out c t s st e n)) w)
  ]

  pub spec_store-After : After c.block_num (spec_store c t s st) (spec_store c' t s' st')
  spec_store-After = elim (Option-cases (lookup t s)) [
    | inl n ↦
        let (loads, stores) = store_misses-hits c t s st n in
        elim (Option-cases (lookup t s')) [
          | inl n' ↦
              let (loads', stores') = store_misses-hits c' t s' st' n' in
              record {
                sets = no_store n n';
                fewer = record {
                  load_hits = omega (arith, loads, loads', f.load_hits);
                  store_hits = omega (arith, stores, stores', f.store_hits);
                };
              }
          | inr (l', h') ↦ rw (store_hits-eq c' t s' st' l' b.second_lru h') (record {
            sets = marked_right c.block_num t c'.write_through _ _ (half_store l' n h');
            fewer = record {
              load_hits = omega (arith, loads, f.load_hits);
              store_hits = omega (arith, stores, f.store_hits);
            };
          })
        ]
    | inr (l, h) ↦ elim (Option-cases (lookup t s')) [
      | inl n' ↦ absurd (gone l h n')
      | inr (l', h') ↦
          rw (store_hits-eq c t s st l b.first_lru h, store_hits-eq c' t s' st' l' b.second_lru h')
            (record {
              sets = marked_left c.block_num t c.write_through _ _ (
                  marked_right c.block_num t c'.write_through _ _
                    (both_hit c.block_num s s' w t l l' h h'));
              fewer = record { load_hits = f.load_hits; store_hits = omega (arith, f.store_hits) };
            })
    ]
  ]
