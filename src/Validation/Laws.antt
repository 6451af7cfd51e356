-- ===== src/Validation/Laws.antt =====
-- What the checks of pkg/validation accept, and what a chain of `Also` that stays nil shows.
use cloud_service_broker.Prelude.{
  ◌≡◌, refl, String, ℕ, zero, suc, ◌+◌, Bool, true, false, Option, none, List, [], ◌∷◌, ◌++◌, map,
  arith, ◌==◌, eq_iff, Bool-cases, inl, inr,
}
use cloud_service_broker.Validation.Fields.{FieldErrors, AllValid}
use cloud_service_broker.Validation.{
  hex_then, dash_then, at_end, matches_uuid, matches_osb_name, err_if_blank, err_if_not_uuid,
  err_if_not_osb_name, err_if_not_match, err_must_match, each,
}

unfoldable pub text_length : String → ℕ
text_length String.[] = 0
text_length (String.◌∷◌ c s) = suc (text_length s)

abbrev HasLength : ℕ → (String → Bool) → Type 0
HasLength k rest = (s : String) → rest s ≡ true → text_length s ≡ k

hex_then-length :
    (n k : ℕ) (rest : String → Bool) → HasLength k rest → HasLength (n + k) (hex_then n rest)
unfolding hex_then text_length
hex_then-length zero k rest ends s h = omega (arith, ends s h)
hex_then-length (suc n) k rest ends String.[] h = absurd (ground (arith, h))
hex_then-length (suc n) k rest ends (String.◌∷◌ c s) h =
    ground (arith, h, hex_then-length n k rest ends s)

dash_then-length :
    (k : ℕ) (rest : String → Bool) → HasLength k rest → HasLength (suc k) (dash_then rest)
unfolding dash_then text_length
dash_then-length k rest ends String.[] h = absurd (ground (arith, h))
dash_then-length k rest ends (String.◌∷◌ c s) h = ground (arith, h, ends s)

at_end-length : HasLength 0 at_end
unfolding text_length
at_end-length s h = rw ((eq_iff s "").0 h) refl

group-length :
    (k : ℕ) (rest : String → Bool)
    → HasLength k rest
    → HasLength (5 + k) (hex_then 4 (dash_then rest))
group-length k rest ends s h =
    omega (arith, hex_then-length 4 (suc k) (dash_then rest) (dash_then-length k rest ends) s h)

-- A text that is taken for a UUID has 36 characters.
pub matches_uuid-length : (s : String) → matches_uuid s ≡ true → text_length s ≡ 36
unfolding matches_uuid
matches_uuid-length s h =
    let tail12 = hex_then-length 12 0 at_end at_end-length in
    let groups = group-length 22 _ (group-length 17 _ (group-length 12 _ tail12)) in
    hex_then-length 8 28 _ (dash_then-length 27 _ groups) s h

module _ {A F : Type 0} (validate : A → Option F) where
  pub AllValid-append :
      (as' bs : List A)
      → AllValid validate as'
      → AllValid validate bs
      → AllValid validate (as' ++ bs)
  AllValid-append [] bs h k = k
  AllValid-append (a ∷ as') bs (h, hs) k = (h, AllValid-append as' bs hs k)

  pub AllValid-map :
      {B : Type 0} (f : B → A) {G : Type 0} (from : B → Option G)
      → ((b : B) → from b ≡ none → validate (f b) ≡ none)
      → (bs : List B) → AllValid from bs
      → AllValid validate (map f bs)
  AllValid-map f from h [] k = tt
  AllValid-map f from h (b ∷ bs) (k, ks) = (h b k, AllValid-map f from h bs ks)

module _ (fe : FieldErrors) where
  open fe use {FieldError}

  module _ {A : Type 0} (validate : A → Option FieldError) (field : String) where
    pub each-none :
        (i : ℕ) (as' : List A) (errs : Option FieldError)
        → each fe validate field i as' errs ≡ none
        → (errs ≡ none) × AllValid validate as'
    unfolding each
    each-none i [] errs h = (h, tt)
    each-none i (a ∷ as') errs h =
        let (kept, rest) = each-none (suc i) as' _ h in
        let (e, one) = fe.also_collects _ _ kept in
        (e, (fe.via_field_index_none field i (validate a) one.0, rest))

    pub each_of_none :
        (i : ℕ) (as' : List A) → AllValid validate as' → each fe validate field i as' none ≡ none
    unfolding each
    each_of_none i [] h = refl
    each_of_none i (a ∷ as') (h, hs) =
        rw
          (fe.also_none none (fe.via_field_index field i (validate a) ∷ []) refl
            (rw h (fe.via_field_index_nil field i), tt))
          (each_of_none (suc i) as' hs)

  pub err_if_blank-none : (s f : String) → err_if_blank fe s f ≡ none → (s == "") ≡ false
  unfolding err_if_blank
  err_if_blank-none s f h = elim (Bool-cases (s == "")) [
    | inl blank ↦ absurd (fe.missing_field_some f (ground (arith, h, blank)))
    | inr some' ↦ some'
  ]

  pub err_if_not_uuid-none : (s f : String) → err_if_not_uuid fe s f ≡ none → matches_uuid s ≡ true
  unfolding err_if_not_uuid
  err_if_not_uuid-none s f h = elim (Bool-cases (matches_uuid s)) [
    | inl yes' ↦ yes'
    | inr other ↦
        absurd (fe.field_error_some "field must be a UUID" f [] (ground (arith, h, other)))
  ]

  pub err_if_not_osb_name-none :
      (s f : String) → err_if_not_osb_name fe s f ≡ none → matches_osb_name s ≡ true
  unfolding err_if_not_osb_name err_if_not_match err_must_match
  err_if_not_osb_name-none s f h = elim (Bool-cases (matches_osb_name s)) [
    | inl yes' ↦ yes'
    | inr other ↦ absurd (
        fe.field_error_some "field must match '^[a-zA-Z0-9-\\.]+$'" f [] (ground (arith, h, other)))
  ]
