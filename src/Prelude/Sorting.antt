-- ===== src/Prelude/Sorting.antt =====
-- `sort.Slice` and `sort.Strings` by a text key, as insertion sort.
use Prim.Native.Nat.{Ordering}
use Prim.Native.String.{String, compare}
use mathlib.Core.Path.{◌≡◌, refl}
use mathlib.Core.Logic.{◌⊎◌, inl, inr}
use mathlib.Core.Bool.{Bool, true, false}
use mathlib.Core.List.{List, [], ◌∷◌, Memᴰ}
use mathlib.Core.List.Memᴰ.{head, tail}
use native.Mathlib.Omega.{arith}
use text.Mathlib.Text.{◌==◌}
use cloud_service_broker.Prelude.Tests.{if◌then◌else◌, contains}

-- `s < t`
abbrev pub less : String → String → Bool
less s t = elim (compare s t) [ Ordering.lt ↦ true | _ ↦ false ]

module _ {A : Type 0} (key : A → String) where
  unfoldable pub insert_sorted : A → List A → List A
  insert_sorted a [] = a ∷ []
  insert_sorted a (x ∷ xs) = if less (key x) (key a) then x ∷ insert_sorted a xs else a ∷ x ∷ xs

  unfoldable pub sort_by : List A → List A
  unfolding insert_sorted
  sort_by [] = []
  sort_by (x ∷ xs) = insert_sorted x (sort_by xs)

  insert_sorted_sound : (k a : A) (xs : List A) → Memᴰ k (insert_sorted a xs) → (k ≡ a) ⊎ Memᴰ k xs
  unfolding insert_sorted
  insert_sorted_sound k a [] (head p) = inl p
  insert_sorted_sound k a [] (tail i) = elim i [ ]
  insert_sorted_sound k a (x ∷ xs) i = either (less (key x) (key a)) i (insert_sorted_sound k a xs)
    where
      either :
          {rest : List A} (before : Bool)
          → Memᴰ k (if before then x ∷ rest else a ∷ x ∷ xs)
          → (Memᴰ k rest → (k ≡ a) ⊎ Memᴰ k xs)
          → (k ≡ a) ⊎ Memᴰ k (x ∷ xs)
      either true (head p) among = inr (head p)
      either true (tail j) among = elim (among j) [ inl p ↦ inl p | inr m ↦ inr (tail m) ]
      either false (head p) among = inl p
      either false (tail j) among = inr j

  insert_sorted_complete : (k a : A) (xs : List A) → Memᴰ k (a ∷ xs) → Memᴰ k (insert_sorted a xs)
  unfolding insert_sorted
  insert_sorted_complete k a [] i = i
  insert_sorted_complete k a (x ∷ xs) i =
      either (less (key x) (key a)) i (insert_sorted_complete k a xs)
    where
      either :
          {rest : List A} (before : Bool)
          → Memᴰ k (a ∷ x ∷ xs)
          → (Memᴰ k (a ∷ xs) → Memᴰ k rest)
          → Memᴰ k (if before then x ∷ rest else a ∷ x ∷ xs)
      either true (head p) among = tail (among (head p))
      either true (tail (head p)) among = head p
      either true (tail (tail j)) among = tail (among (tail j))
      either false j among = j

  -- A sorted list has the members of the list.
  pub sort_by_sound : (k : A) (xs : List A) → Memᴰ k (sort_by xs) → Memᴰ k xs
  unfolding sort_by
  sort_by_sound k [] i = i
  sort_by_sound k (x ∷ xs) i = elim (insert_sorted_sound k x (sort_by xs) i) [
    | inl p ↦ head p
    | inr j ↦ tail (sort_by_sound k xs j)
  ]

  pub sort_by_complete : (k : A) (xs : List A) → Memᴰ k xs → Memᴰ k (sort_by xs)
  unfolding sort_by
  sort_by_complete k [] i = i
  sort_by_complete k (x ∷ xs) (head p) = insert_sorted_complete k x (sort_by xs) (head p)
  sort_by_complete k (x ∷ xs) (tail i) =
      insert_sorted_complete k x (sort_by xs) (tail (sort_by_complete k xs i))

abbrev pub itself : String → String
itself s = s

-- A sorted list has the same elements.
contains-insert_sorted :
    (k a : String) (xs : List String)
    → contains k (insert_sorted itself a xs) ≡ (if a == k then true else contains k xs)
unfolding insert_sorted
contains-insert_sorted k a [] = refl
contains-insert_sorted k a (x ∷ xs) = ground (arith, contains-insert_sorted k a xs)

pub contains-sort_by :
    (k : String) (xs : List String) → contains k (sort_by itself xs) ≡ contains k xs
unfolding sort_by
contains-sort_by k [] = refl
contains-sort_by k (x ∷ xs) =
    ground (arith, contains-insert_sorted k x (sort_by itself xs), contains-sort_by k xs)
