-- ===== src/Csim/Trace.antt =====
-- The run of the simulator against the model of the cache.
use assignments_for_csf.Base.{
  ℕ, ◌^◌, ◌<◌, ◌≡◌, true, false, refl, ap, subst, arith, List, [], ◌∷◌, Option, none, some, codes,
  str_eq, Option-cases, inl, inr, if◌then◌else◌, Bool-cases,
}
use assignments_for_csf.Libc.{stol_u32, stol_u32-lt}
use assignments_for_csf.Csim.{
  access_line, run_trace, Outcome, printed, fault, main, parse_arguments,
}
use assignments_for_csf.Cache.{Config, Cache, create, in_range, ◌>>=◌}
use assignments_for_csf.Cache.Range.{Grown, in_range-false, model_load-Grown, model_store-Grown}
use assignments_for_csf.Cache.Address.{IsValid}
use assignments_for_csf.Cache.Spec.{Model, model_create, model_load, model_store}
use assignments_for_csf.Cache.Refine.Runs.{
  Ends, Refines, create-Refines, load-Refines, store-Refines,
}

-- What a line of the trace asks for.
pub data Access : Type 0 where
  reads : ℕ → Access
  writes : ℕ → Access
  neither : Access

unfoldable pub to_access : List ℕ → ℕ → Access
to_access op address =
    if str_eq op (codes "l")
    then reads address
    else if str_eq op (codes "s")
    then writes address
    else neither

-- The trace as accesses, three words to a line; `none` if an address does not parse.
unfoldable pub to_accesses : List (List ℕ) → Option (List Access)
to_accesses (op ∷ address ∷ third ∷ words) = do
  a ← stol_u32 address
  rest ← to_accesses words
  some (to_access op a ∷ rest)
to_accesses words = some []

unfoldable pub model_access : Model → Access → Model
model_access m (reads a) = model_load m a
model_access m (writes a) = model_store m a
model_access m neither = m

unfoldable pub model_run : Model → List Access → Model
model_run m [] = m
model_run m (a ∷ accesses) = model_run (model_access m a) accesses

pub model_access-Grown : (m : Model) (a : Access) → Grown m.stats (model_access m a).stats
unfolding model_access
model_access-Grown m (reads a) = model_load-Grown m a
model_access-Grown m (writes a) = model_store-Grown m a
model_access-Grown m neither = record {
  total_loads = omega arith;
  total_stores = omega arith;
  load_hits = omega arith;
  load_misses = omega arith;
  store_hits = omega arith;
  store_misses = omega arith;
  cycles = omega arith;
}

-- What has left the range does not come back.
model_run-false :
    (m : Model) (accesses : List Access)
    → in_range m.stats ≡ false
    → in_range (model_run m accesses).stats ≡ false
unfolding model_run
model_run-false m [] h = h
model_run-false m (a ∷ accesses) h =
    model_run-false (model_access m a) accesses
      (in_range-false m.stats (model_access m a).stats (model_access-Grown m a) h)

access_line-Ends :
    (config : Config) (v : IsValid config) (c : Cache) (m : Model) (op : List ℕ) (address : ℕ)
    → Refines config v c m
    → in_range m.stats ≡ true
    → address < 2 ^ 32
    → Ends config v (access_line c op address) (model_access m (to_access op address))
unfolding access_line model_access to_access Ends
access_line-Ends config v c m op address r fits small = elim (Bool-cases (str_eq op (codes "l"))) [
  | inl l ↦ rw l (load-Refines config v c m address r small)
  | inr l ↦ elim (Bool-cases (str_eq op (codes "s"))) [
    | inl s ↦ rw (l, s) (store-Refines config v c m address r small)
    | inr s ↦ rw (l, s, fits) (c, refl, r)
  ]
]

run_step :
    (c c' : Cache) (op address third : List ℕ) (words : List (List ℕ)) (a : ℕ)
    → stol_u32 address ≡ some a
    → access_line c op a ≡ some c'
    → run_trace c (op ∷ address ∷ third ∷ words) ≡ run_trace c' words
unfolding run_trace
run_step c c' op address third words a e f = rw (e, f) refl

run_stop :
    (c : Cache) (op address third : List ℕ) (words : List (List ℕ)) (a : ℕ)
    → stol_u32 address ≡ some a
    → access_line c op a ≡ none
    → run_trace c (op ∷ address ∷ third ∷ words) ≡ none
unfolding run_trace
run_stop c op address third words a e f = rw (e, f) refl

-- What the first line adds to the accesses of a trace that parses.
parsed_step :
    (op address third : List ℕ) (words : List (List ℕ)) (accesses : List Access)
    → to_accesses (op ∷ address ∷ third ∷ words) ≡ some accesses
    → (a : ℕ) × (rest : List Access) × (stol_u32 address ≡ some a)
      × (to_accesses words ≡ some rest)
      × (accesses ≡ to_access op a ∷ rest)
unfolding to_accesses
parsed_step op address third words accesses e = elim (Option-cases (stol_u32 address)) [
  | inl n ↦ absurd (ground arith)
  | inr (a, f) ↦ elim (Option-cases (to_accesses words)) [
    | inl n ↦ absurd (ground arith)
    | inr (rest, g) ↦ (a, rest, f, g, ground arith)
  ]
]

nothing_read : (accesses : List Access) → to_accesses [] ≡ some accesses → [] ≡ accesses
unfolding to_accesses
nothing_read accesses e = ground arith

at_end :
    (config : Config) (v : IsValid config) (c : Cache) (m : Model) (accesses : List Access)
    → Refines config v c m
    → in_range m.stats ≡ true
    → [] ≡ accesses
    → Ends config v (some c) (model_run m accesses)
unfolding Ends model_run
at_end config v c m accesses r fits e =
    subst (λ l. Ends config v (some c) (model_run m l)) e (rw fits (c, refl, r))

-- From a cache that stands for a model, a trace whose addresses parse runs without fault, to a
-- cache that stands for the model after the same accesses, unless an int overflows.
run_trace-Ends :
    (config : Config) (v : IsValid config) (c : Cache) (m : Model) (words : List (List ℕ))
    (accesses : List Access)
    → Refines config v c m
    → in_range m.stats ≡ true
    → to_accesses words ≡ some accesses
    → Ends config v (run_trace c words) (model_run m accesses)
unfolding run_trace model_run to_accesses Ends
run_trace-Ends config v c m (op ∷ address ∷ third ∷ words) accesses r fits e =
    let (a, rest, parsed, later, all) = parsed_step op address third words accesses e in
    let m' = model_access m (to_access op a) in
    let ends = access_line-Ends config v c m op a r fits (stol_u32-lt address a parsed) in
    rw all (elim (Bool-cases (in_range m'.stats)) [
      | inl b ↦
          let (c', step, r') = rw b at ends in
          let later_ends = run_trace-Ends config v c' m' words rest r' b later in
          rw (run_step c c' op address third words a parsed step) later_ends
      | inr b ↦
          let stop : access_line c op a ≡ none = rw b at ends in
          rw (model_run-false m' rest b, run_stop c op address third words a parsed stop) refl
    ])
run_trace-Ends config v c m [] accesses r fits e =
    at_end config v c m accesses r fits (nothing_read accesses e)
run_trace-Ends config v c m (x ∷ []) accesses r fits e =
    at_end config v c m accesses r fits (nothing_read accesses e)
run_trace-Ends config v c m (x ∷ y ∷ []) accesses r fits e =
    at_end config v c m accesses r fits (nothing_read accesses e)

abbrev outcome : Option Cache → Outcome
outcome none = fault
outcome (some c) = printed c.stats

outcome-Ends :
    (config : Config) (v : IsValid config) (result : Option Cache) (m : Model)
    → Ends config v result m
    → outcome result ≡ (if in_range m.stats then printed m.stats else fault)
unfolding Ends
outcome-Ends config v result m ends = elim (Bool-cases (in_range m.stats)) [
  | inl b ↦ let (c, e, r) = rw b at ends in rw (b, e) (ap printed r.stats_same)
  | inr b ↦ let e : result ≡ none = rw b at ends in rw (b, e) refl
]

created-in_range : (config : Config) → in_range (model_create config).stats ≡ true
unfolding in_range model_create
created-in_range config = refl

-- With a valid configuration and a trace whose addresses parse, the simulator prints the
-- statistics of the model, if they are in the range of ints; if they are not, an int overflows,
-- and the run is a fault.
pub main-prints :
    (arguments trace : List (List ℕ)) (config : Config) (v : IsValid config)
    (accesses : List Access)
    → parse_arguments arguments ≡ some config
    → to_accesses trace ≡ some accesses
    → main arguments trace ≡ (
        if in_range (model_run (model_create config) accesses).stats
        then printed (model_run (model_create config) accesses).stats
        else fault)
unfolding main
main-prints arguments trace config v accesses parsed read =
    rw (main, parsed)
      (outcome-Ends config v (run_trace (create config) trace)
        (model_run (model_create config) accesses)
        (run_trace-Ends config v (create config) (model_create config) trace accesses
          (create-Refines config v) (created-in_range config) read))

-- A trace with an address that does not parse ends in a fault.
run_trace-none :
    (c : Cache) (words : List (List ℕ)) → to_accesses words ≡ none → run_trace c words ≡ none
unfolding run_trace to_accesses
run_trace-none c [] e = absurd (ground arith)
run_trace-none c (x ∷ []) e = absurd (ground arith)
run_trace-none c (x ∷ y ∷ []) e = absurd (ground arith)
run_trace-none c (op ∷ address ∷ third ∷ words) e = elim (Option-cases (stol_u32 address)) [
  | inl n ↦ rw n refl
  | inr (a, f) ↦ elim (Option-cases (to_accesses words)) [
    | inr (rest, g) ↦ absurd (ground arith)
    | inl n ↦ elim (Option-cases (access_line c op a)) [
      | inl stop ↦ rw (f, stop) refl
      | inr (c', step) ↦ rw (f, step) (run_trace-none c' words n)
    ]
  ]
]
