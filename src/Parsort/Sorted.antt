-- ===== src/Parsort/Sorted.antt =====
-- The verdict of is_sorted.c.
use assignments_for_csf.Base.{ℕ, ◌+◌, ◌≤◌, ◌≡◌, ◌↔◌, refl, arith, List, [], ◌∷◌}
use assignments_for_csf.Parsort.{signed_place, values_sorted, check_from, is_sorted}

-- No value is below `x`.
unfoldable pub AllFrom : ℕ → List ℕ → Type 0
AllFrom x [] = Unit
AllFrom x (y ∷ values) = (signed_place x ≤ signed_place y) × AllFrom x values

-- Every value is followed by none that is below it.
unfoldable pub InOrder : List ℕ → Type 0
InOrder [] = Unit
InOrder (x ∷ values) = AllFrom x values × InOrder values

pub AllFrom-lower :
    (x y : ℕ) (values : List ℕ)
    → signed_place x ≤ signed_place y
    → AllFrom y values
    → AllFrom x values
unfolding AllFrom
AllFrom-lower x y [] h all = tt
AllFrom-lower x y (z ∷ values) h (le, all) = (omega arith, AllFrom-lower x y values h all)

check_from→InOrder :
    (n prev : ℕ) (values : List ℕ)
    → check_from n prev values ≡ values_sorted
    → InOrder (prev ∷ values)
unfolding check_from InOrder AllFrom
check_from→InOrder n prev [] e = (tt, tt)
check_from→InOrder n prev (curr ∷ values) e =
    let le : signed_place prev ≤ signed_place curr = ground arith in
    let rest : InOrder (curr ∷ values) = check_from→InOrder (n + 1) curr values (ground arith) in
    ((le, AllFrom-lower prev curr values le rest.0), rest)

InOrder→check_from :
    (n prev : ℕ) (values : List ℕ)
    → InOrder (prev ∷ values)
    → check_from n prev values ≡ values_sorted
unfolding check_from InOrder AllFrom
InOrder→check_from n prev [] h = refl
InOrder→check_from n prev (curr ∷ values) ((le, all), rest) =
    let later = InOrder→check_from (n + 1) curr values rest in ground (arith, later)

-- Of a file with a value, is_sorted.c says that it is sorted exactly when no value is less than one
-- before it.
pub is_sorted_iff :
    (prev : ℕ) (values : List ℕ)
    → (is_sorted (prev ∷ values) ≡ values_sorted) ↔ InOrder (prev ∷ values)
unfolding is_sorted
is_sorted_iff prev values = (check_from→InOrder 1 prev values, InOrder→check_from 1 prev values)
