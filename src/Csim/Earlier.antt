-- ===== src/Csim/Earlier.antt =====
-- A run of the simulator's accesses with csf_assign03/cache.cpp under LRU, and with the earlier
-- version of the cache, csf_assign03/another.cpp, in its place.
use assignments_for_csf.Base.{
  ℕ, ◌+◌, ◌*◌, ◌^◌, ◌<◌, ◌≡◌, refl, subst, arith, Bool, List, [], ◌∷◌, length, Option, none, some,
}
use mathlib.Core.Option.{some-injective}
use assignments_for_csf.Cache.{Cache, create, load, store, ◌>>=◌}
use assignments_for_csf.Cache.Earlier
use assignments_for_csf.Cache.Earlier.Agreement.Runs.{
  Agrees, load-Agrees, store-Agrees, create-Agrees,
}
use assignments_for_csf.Csim.Trace.{Access, reads, writes, neither}

-- The accesses of a trace, by the two operations of a cache.
unfoldable pub perform :
    (Cache → ℕ → Option Cache) → (Cache → ℕ → Option Cache) → Cache → List Access → Option Cache
perform on_load on_store c [] = some c
perform on_load on_store c (reads a ∷ accesses) = do
  c' ← on_load c a
  perform on_load on_store c' accesses
perform on_load on_store c (writes a ∷ accesses) = do
  c' ← on_store c a
  perform on_load on_store c' accesses
perform on_load on_store c (neither ∷ accesses) = perform on_load on_store c accesses

-- The result of a chain that ends comes through its first link.
bound {ℓ κ} :
    {A : Type ℓ} {B : Type κ} {k : A → Option B} {d : B} (o : Option A)
    → (o >>= k) ≡ some d
    → (a : A) × (o ≡ some a) × (k a ≡ some d)
bound none h = absurd (ground arith)
bound (some a) h = (a, refl, h)

perform-Agrees :
    (c c' d : Cache) (accesses : List Access)
    → Agrees c c'
    → 2 * (c.stats.store_miss + length accesses) < 2 ^ 31
    → perform load store c accesses ≡ some d
    → (d' : Cache) × (perform Earlier.load Earlier.store c' accesses ≡ some d') × Agrees d d'
unfolding perform
perform-Agrees c c' d [] r few h = (c', refl, subst (λ x. Agrees x c') (some-injective _ _ h) r)
perform-Agrees c c' d (reads a ∷ accesses) r few h =
    let (e, loaded, rest) = bound (load c a) h in
    let (e', loaded', (near, le)) = load-Agrees c c' e a r (omega arith) loaded in
    let (d', ended, agree) = perform-Agrees e e' d accesses near (omega arith) rest in
    (d', rw loaded' ended, agree)
perform-Agrees c c' d (writes a ∷ accesses) r few h =
    let (e, stored, rest) = bound (store c a) h in
    let (e', stored', (near, le)) = store-Agrees c c' e a r (omega arith) stored in
    let (d', ended, agree) = perform-Agrees e e' d accesses near (omega arith) rest in
    (d', rw stored' ended, agree)
perform-Agrees c c' d (neither ∷ accesses) r few h =
    perform-Agrees c c' d accesses r (omega arith) h

-- If a sequence of fewer than 2 ^ 30 accesses runs to its end with the cache under LRU, it does
-- with the earlier version of the cache too; then the two hold the same blocks with the same
-- counters, those of the earlier version dirty only where the others are, and count the same loads,
-- stores, load hits, load misses and store hits, but the earlier version counts each store miss
-- twice, and at most as many cycles.
pub earlier-Agrees :
    (set_num block_num byte_num : ℕ) (write_allocate write_through : Bool) (accesses : List Access)
    (d : Cache)
    → length accesses < 2 ^ 30
    → perform load store
        (create (Earlier.settings set_num block_num byte_num write_allocate write_through))
        accesses
      ≡ some d
    → (d' : Cache) × (perform Earlier.load Earlier.store
          (Earlier.create set_num block_num byte_num write_allocate write_through)
          accesses
        ≡ some d')
      × Agrees d d'
unfolding create
earlier-Agrees set_num block_num byte_num write_allocate write_through accesses d few h =
    perform-Agrees _ _ d accesses
      (create-Agrees set_num block_num byte_num write_allocate write_through) (omega arith) h
