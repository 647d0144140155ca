-- ===== src/Cache/Earlier/Agreement/Stores.antt =====
-- A store in cache.cpp with LRU and in the earlier version, another.cpp.
use assignments_for_csf.Base.{
  ℕ, ◌+◌, ◌*◌, ◌≤◌, ◌≡◌, ap, inl, inr, arith, Bool, true, false, List, if◌then◌else◌, Bool-cases,
}
use assignments_for_csf.Cache.{Entry, Stats, count_store_hit, count_store_miss, upsert}
use assignments_for_csf.Cache.Earlier
use assignments_for_csf.Cache.Earlier.Blocks.{Keeping, upsert-Cleaner}
use assignments_for_csf.Cache.Earlier.Agreement.{
  both, Both-bind, Both-if, Cheaper, Ahead, Counted, Matches, refresh-Cleaner, bring_in-Both,
}

mark-Keeping :
    (d d' : Bool)
    → (d' ≡ true → d ≡ true)
    → Keeping (λ e. record e { dirty = d }) (λ e. record e { dirty = d' })
mark-Keeping d d' h e e' f = record {
  same_tag = f.same_tag;
  same_counter = f.same_counter;
  dirtier = h;
}

hit-Counted :
    (st st' : Stats) (cycles cycles' : ℕ)
    → Counted st st'
    → cycles' ≤ cycles
    → Counted
        (record st { store_hit = st.store_hit + 1; cycles = cycles })
        (record st' { store_hit = st'.store_hit + 1; cycles = cycles' })
hit-Counted st st' cycles cycles' h le = record {
  loads = h.loads;
  stores = h.stores;
  load_hits = h.load_hits;
  load_misses = h.load_misses;
  store_hits = ap (λ n. n + 1) h.store_hits;
  store_misses = h.store_misses;
  fewer_cycles = le;
}

pub store_hit-Matches : Matches count_store_hit Earlier.count_store_hit
unfolding count_store_hit Earlier.count_store_hit
store_hit-Matches config t s s' st st' lru c h = elim (Bool-cases config.write_through) [
  | inl e ↦
      rw (lru, e)
        (both _ _ (
          (refresh-Cleaner t s s' c, hit-Counted st st' _ _ h (omega (arith, h.fewer_cycles))),
          omega arith,
        ))
  | inr e ↦
      rw (lru, e)
        (both _ _ (
          (
            upsert-Cleaner _ _ t _ _ (mark-Keeping true true (λ d. d)) (refresh-Cleaner t s s' c),
            hit-Counted st st' _ _ h (omega (arith, h.fewer_cycles)),
          ),
          omega arith,
        ))
]

-- The earlier version counts the miss once more.
miss-Counted :
    (st st' : Stats) (cycles cycles' : ℕ)
    → Counted st st'
    → cycles' ≤ cycles
    → Counted
        (record st { store_miss = st.store_miss + 1; cycles = cycles })
        (record st' { store_miss = st'.store_miss + 1 + 1; cycles = cycles' })
miss-Counted st st' cycles cycles' h le = record {
  loads = h.loads;
  stores = h.stores;
  load_hits = h.load_hits;
  load_misses = h.load_misses;
  store_hits = h.store_hits;
  store_misses = omega (arith, h.store_misses);
  fewer_cycles = le;
}

-- The store to the block that has come in, by whether the policy is write-through.
arrived :
    (through : Bool) (t : ℕ) (st st' : Stats) (a b : List Entry × ℕ)
    → Counted st st'
    → Cheaper a b
    → Ahead
        (
          (if through then upsert t (λ e. record e { dirty = false }) a.0 else a.0),
          record st {
            store_miss = st.store_miss + 1;
            cycles = if through then a.1 + 1 + 100 else a.1 + 1;
          },
        )
        (
          (if through then upsert t (λ e. record e { dirty = false }) b.0 else b.0),
          record st' {
            store_miss = st'.store_miss + 1 + 1;
            cycles = if through then b.1 + 1 + 100 else b.1 + 1;
          },
        )
arrived true t st st' a b h r = (
  upsert-Cleaner _ _ t a.0 b.0 (mark-Keeping false false (λ d. d)) r.0,
  miss-Counted st st' _ _ h (omega (arith, r.1)),
)
arrived false t st st' a b h r = (r.0, miss-Counted st st' _ _ h (omega (arith, r.1)))

pub store_miss-Matches : Matches count_store_miss Earlier.count_store_miss
unfolding count_store_miss Earlier.count_store_miss
store_miss-Matches config t s s' st st' lru c h =
    Both-if config.write_allocate
      (Both-bind
        (bring_in-Both config t true s s' (st.cycles + 25 * config.byte_num)
          (st'.cycles + 25 * config.byte_num) c (omega (arith, h.fewer_cycles)))
        (λ a b r. both _ _ (arrived config.write_through t st st' a b h r, omega arith)))
      (both _ _ ((c, miss-Counted st st' _ _ h (omega (arith, h.fewer_cycles))), omega arith))
