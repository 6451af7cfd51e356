-- ===== src/StringSet.antt =====
-- utils/set.go: a set of strings, as its elements. The order of the list is never seen: the set
-- leaves it only through `to_slice`, which sorts.
pub mod Laws
use cloud_service_broker.Prelude.{
  String, Bool, true, false, List, [], ◌∷◌, contains as holds, ◌&&◌, if◌then◌else◌,
}
use cloud_service_broker.Prelude.StringMap.{StringMap, keys}
use cloud_service_broker.Prelude.Sorting.{sort_by, itself}

pub record StringSet : Type 0 where
  pub elements : List String

abbrev pub empty : StringSet
empty = record { elements = [] }

unfoldable pub add_one : String → StringSet → StringSet
add_one s set = if holds s set.elements then set else record { elements = s ∷ set.elements }

unfoldable pub add : List String → StringSet → StringSet
unfolding add_one
add [] set = set
add (s ∷ strs) set = add strs (add_one s set)

unfoldable pub new_string_set : List String → StringSet
unfolding add
new_string_set contents = add contents empty

unfoldable pub new_string_set_from_string_map_keys : StringMap String → StringSet
unfolding add
new_string_set_from_string_map_keys contents = add (keys contents) empty

unfoldable pub to_slice : StringSet → List String
to_slice set = sort_by itself set.elements

unfoldable pub is_empty : StringSet → Bool
is_empty set = elim set.elements [ [] ↦ true | _ ∷ _ ↦ false ]

unfoldable pub contains : String → StringSet → Bool
contains other set = holds other set.elements

minus_elements : List String → StringSet → StringSet
unfolding add_one contains
minus_elements [] other = empty
minus_elements (k ∷ ks) other =
    let rest = minus_elements ks other in if contains k other then rest else add_one k rest

-- A copy of the first set with every string of the other removed.
unfoldable pub minus : StringSet → StringSet → StringSet
unfolding minus_elements
minus set other = minus_elements set.elements other

all_in : List String → StringSet → Bool
unfolding contains
all_in [] other = true
all_in (k ∷ ks) other = contains k other && all_in ks other

-- `reflect.DeepEqual` of two Go maps whose values are all `true`.
unfoldable pub equals : StringSet → StringSet → Bool
unfolding all_in
equals set other = all_in set.elements other && all_in other.elements set
