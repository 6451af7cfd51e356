-- ===== src/StringSet/Laws.antt =====
-- The set operations against membership.
use cloud_service_broker.Prelude.{
  ◌≡◌, refl, String, Bool, true, false, not, ◌&&◌, ◌||◌, List, [], ◌∷◌, arith, ◌==◌, eq_iff,
  eq_refl, contains as holds, sym, ◌∙◌, if◌then◌else◌, ◌↔◌,
}
use cloud_service_broker.Prelude.StringMap.{StringMap, keys}
use cloud_service_broker.Prelude.Sorting.{contains-sort_by}
use cloud_service_broker.StringSet.{
  StringSet, empty, add_one, add, new_string_set, to_slice, is_empty, contains, minus_elements,
  minus, all_in, equals, new_string_set_from_string_map_keys,
}

pub contains-add_one :
    (k s : String) (set : StringSet)
    → contains k (add_one s set) ≡ (if s == k then true else contains k set)
unfolding contains add_one
contains-add_one k s set = ground (arith, eq_iff s k)

-- After `Add` a string is in the set exactly if it was, or is among those added.
pub contains-add :
    (k : String) (strs : List String) (set : StringSet)
    → contains k (add strs set) ≡ (holds k strs || contains k set)
unfolding add
contains-add k [] set = refl
contains-add k (s ∷ strs) set =
    ground (arith, contains-add k strs (add_one s set), contains-add_one k s set)

contains-minus_elements :
    (k : String) (ks : List String) (other : StringSet)
    → contains k (minus_elements ks other) ≡ (holds k ks && not (contains k other))
unfolding minus_elements
contains-minus_elements k [] other = unfold contains in refl
contains-minus_elements k (j ∷ ks) other = ground (
  arith,
  contains-minus_elements k ks other,
  contains-add_one k j (minus_elements ks other),
  eq_iff j k,
)

-- A string is in the difference exactly if it is in the first set and not in the other.
pub contains-minus :
    (k : String) (set other : StringSet)
    → contains k (minus set other) ≡ (contains k set && not (contains k other))
unfolding minus contains
contains-minus k set other = contains-minus_elements k set.elements other

pub contains-empty : (k : String) → contains k empty ≡ false
unfolding contains
contains-empty k = refl

pub contains-new_string_set :
    (k : String) (contents : List String) → contains k (new_string_set contents) ≡ holds k contents
unfolding new_string_set
contains-new_string_set k contents = ground (arith, contains-add k contents empty, contains-empty k)

pub holds-to_slice : (k : String) (set : StringSet) → holds k (to_slice set) ≡ contains k set
unfolding to_slice contains
holds-to_slice k set = contains-sort_by k set.elements

-- No key of the map is missing from the set of its keys, and no other is there.
pub contains-new_string_set_from_string_map_keys :
    (k : String) (m : StringMap String)
    → contains k (new_string_set_from_string_map_keys m) ≡ holds k (keys m)
unfolding new_string_set_from_string_map_keys
contains-new_string_set_from_string_map_keys k m =
    ground (arith, contains-add k (keys m) empty, contains-empty k)

all_in_sound :
    (ks : List String) (other : StringSet) (k : String)
    → all_in ks other ≡ true
    → holds k ks ≡ true
    → contains k other ≡ true
unfolding all_in
all_in_sound [] other k h m = ground arith
all_in_sound (j ∷ ks) other k h m = ground (arith, all_in_sound ks other k, eq_iff j k)

all_in_complete :
    (ks : List String) (other : StringSet)
    → ((k : String) → holds k ks ≡ true → contains k other ≡ true)
    → all_in ks other ≡ true
unfolding all_in
all_in_complete [] other h = refl
all_in_complete (j ∷ ks) other h =
    ground (arith, h j, eq_refl j, all_in_complete ks other (λ k m. h k (ground (arith, m))))

eq_of_iff : (a b : Bool) → (a ≡ true → b ≡ true) → (b ≡ true → a ≡ true) → a ≡ b
eq_of_iff true b f g = sym (f refl)
eq_of_iff false true f g = g refl
eq_of_iff false false f g = refl

same_members :
    (xs ys : List String)
    → ((k : String) → holds k xs ≡ true → holds k ys ≡ true)
    → ((k : String) → holds k ys ≡ true → holds k xs ≡ true)
    → (k : String) → holds k xs ≡ holds k ys
same_members xs ys f g k = eq_of_iff (holds k xs) (holds k ys) (f k) (g k)

-- Two sets are equal exactly if they contain the same strings.
pub equals_iff :
    (set other : StringSet)
    → (equals set other ≡ true) ↔ ((k : String) → contains k set ≡ contains k other)
unfolding equals contains
equals_iff set other = (
  λ h.
      same_members set.elements other.elements
        (λ k m. all_in_sound set.elements other k (ground (arith, h)) m)
        (λ k m. all_in_sound other.elements set k (ground (arith, h)) m),
  λ h. ground (
    arith,
    all_in_complete set.elements other (λ k m. sym (h k) ∙ m),
    all_in_complete other.elements set (λ k m. h k ∙ m),
  ),
)

-- `IsEmpty` decides whether a set has no member.
pub is_empty_iff :
    (set : StringSet) → (is_empty set ≡ true) ↔ ((k : String) → contains k set ≡ false)
unfolding is_empty contains
is_empty_iff set = (λ h k. by_elements set.elements h k, λ h. has_none set.elements h)
  where
    by_elements :
        (ks : List String)
        → (elim ks [ [] ↦ true | _ ∷ _ ↦ false ]) ≡ true
        → (k : String) → holds k ks ≡ false
    by_elements [] h k = refl
    by_elements (j ∷ js) h k = ground arith

    has_none :
        (ks : List String)
        → ((k : String) → holds k ks ≡ false)
        → (elim ks [ [] ↦ true | _ ∷ _ ↦ false ]) ≡ true
    has_none [] h = refl
    has_none (j ∷ js) h = ground (arith, h j, eq_refl j)
