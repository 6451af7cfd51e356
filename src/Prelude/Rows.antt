-- ===== src/Prelude/Rows.antt =====
-- Lists of database rows: the first row that meets a condition, and how writes change it.
use Prim.Native.Nat.{ℕ, suc, ◌+◌, ◌≤◌}
use mathlib.Core.Path.{◌≡◌, refl}
use mathlib.Core.Bool.{Bool, true, false}
use mathlib.Core.Option.{Option, none, some}
use mathlib.Core.List.{List, [], ◌∷◌, ◌++◌}
use native.Mathlib.Omega.{arith}
use cloud_service_broker.Prelude.Tests.{if◌then◌else◌, or_else}

module _ {Row : Type 0} where
  abbrev pub find : (Row → Bool) → List Row → Option Row
  find c [] = none
  find c (r ∷ rs) = if c r then some r else find c rs

  -- `DELETE … WHERE c`
  abbrev pub remove : (Row → Bool) → List Row → List Row
  remove c [] = []
  remove c (r ∷ rs) = let rest = remove c rs in if c r then rest else r ∷ rest

  -- Update the row that has the same key, or insert one.
  abbrev pub upsert : (Row → Row → Bool) → Row → List Row → List Row
  upsert same r [] = r ∷ []
  upsert same r (x ∷ xs) = if same r x then r ∷ xs else x ∷ upsert same r xs

  pub find-append :
      (c : Row → Bool) (xs ys : List Row) → find c (xs ++ ys) ≡ or_else (find c xs) (find c ys)
  find-append c [] ys = refl
  find-append c (x ∷ xs) ys = ground (arith, find-append c xs ys)

  pub find-remove_self : (c : Row → Bool) (xs : List Row) → find c (remove c xs) ≡ none
  find-remove_self c [] = refl
  find-remove_self c (x ∷ xs) = ground (arith, find-remove_self c xs)

  pub find-remove_ne :
      (c d : Row → Bool) (xs : List Row)
      → ((r : Row) → d r ≡ true → c r ≡ false)
      → find c (remove d xs) ≡ find c xs
  find-remove_ne c d [] h = refl
  find-remove_ne c d (x ∷ xs) h = ground (arith, find-remove_ne c d xs h, h x)

  pub find_sound : (c : Row → Bool) (xs : List Row) (r : Row) → find c xs ≡ some r → c r ≡ true
  find_sound c [] r h = ground arith
  find_sound c (x ∷ xs) r h = ground (arith, find_sound c xs r)

  abbrev pub count : (Row → Bool) → List Row → ℕ
  count c [] = 0
  count c (r ∷ rs) = if c r then suc (count c rs) else count c rs

  pub count-append :
      (c : Row → Bool) (xs ys : List Row) → count c (xs ++ ys) ≡ count c xs + count c ys
  count-append c [] ys = omega arith
  count-append c (x ∷ xs) ys = ground (arith, count-append c xs ys)

  pub count-remove-le : (c d : Row → Bool) (xs : List Row) → count c (remove d xs) ≤ count c xs
  count-remove-le c d [] = omega arith
  count-remove-le c d (x ∷ xs) = ground (arith, count-remove-le c d xs)

  pub count_of_find-none : (c : Row → Bool) (xs : List Row) → find c xs ≡ none → count c xs ≡ 0
  count_of_find-none c [] h = refl
  count_of_find-none c (x ∷ xs) h = ground (arith, count_of_find-none c xs)

  find_of_count-zero : (c : Row → Bool) (xs : List Row) → count c xs ≡ 0 → find c xs ≡ none
  find_of_count-zero c [] h = refl
  find_of_count-zero c (x ∷ xs) h = ground (arith, find_of_count-zero c xs)

  -- Removing the only row that meets a condition leaves none.
  pub find-remove_only :
      (c d : Row → Bool) (r : Row) (xs : List Row)
      → count c xs ≤ 1
      → find c xs ≡ some r
      → d r ≡ true
      → find c (remove d xs) ≡ none
  find-remove_only c d r [] one f h = refl
  find-remove_only c d r (x ∷ xs) one f h =
      ground (
        arith,
        find-remove_only c d r xs,
        find_of_count-zero c (remove d xs),
        count-remove-le c d xs,
      )
