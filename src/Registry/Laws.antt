-- ===== src/Registry/Laws.antt =====
-- Which services the broker offers.
use mathlib.Core.List.{Memᴰ}
use mathlib.Core.List.Memᴰ.{head, tail}
use cloud_service_broker.Prelude.{
  ◌≡◌, ◌≢◌, ◌↔◌, ap, ◌∙◌, inl, inr, String, Bool, true, false, List, [], ◌∷◌, arith, contains,
  if◌then◌else◌,
}
use cloud_service_broker.Outcome.{ok, Result-cases}
use cloud_service_broker.Prelude.Sorting.{sort_by_sound, sort_by_complete}
use cloud_service_broker.Externals.{Externals}
use cloud_service_broker.StringSet.{StringSet, new_string_set}
use cloud_service_broker.StringSet
use cloud_service_broker.StringSet.Laws.{contains-new_string_set}
use cloud_service_broker.Toggles.{Toggle, is_active}
use cloud_service_broker.Service.Definition.{ServiceDefinition}
use cloud_service_broker.Service.Plans.{catalog_entry}
use cloud_service_broker.Registry.{
  BrokerRegistry, lifecycle_tag_toggles, services, service_name, get_all_services, disabled_by_tag,
  is_enabled, enabled_among, get_enabled_services,
}

module _ (x : Externals) where
  disabled_by_tag_sound :
      (toggles : List (String × Toggle)) (tag : String) (toggle : Toggle) (tags : StringSet)
      → Memᴰ (tag, toggle) toggles
      → is_active x toggle ≡ false
      → StringSet.contains tag tags ≡ true
      → disabled_by_tag x toggles tags ≡ true
  unfolding disabled_by_tag
  disabled_by_tag_sound [] tag toggle tags i off tagged = elim i [ ]
  disabled_by_tag_sound ((u, t) ∷ toggles) tag toggle tags (head p) off tagged =
      ground (arith, ap (λ q. q.0) p, ap (λ q. q.1) p, off, tagged)
  disabled_by_tag_sound ((u, t) ∷ toggles) tag toggle tags (tail i) off tagged =
      ground (arith, disabled_by_tag_sound toggles tag toggle tags i off tagged)

module _ (x : Externals) {P : Type 0} where
  enabled_among-cons :
      (s : ServiceDefinition P) (svcs out : List (ServiceDefinition P))
      → enabled_among x (s ∷ svcs) ≡ ok out
      → (on : Bool) × (rest : List (ServiceDefinition P)) × (is_enabled x s ≡ ok on)
        × (enabled_among x svcs ≡ ok rest)
        × (out ≡ (if on then s ∷ rest else rest))
  unfolding enabled_among
  enabled_among-cons s svcs out h = elim (Result-cases (is_enabled x s)) [
    | inr (e, refused) ↦ absurd (ground (arith, h, refused))
    | inl (on, e) ↦ elim (Result-cases (enabled_among x svcs)) [
      | inr (f, refused) ↦ absurd (ground (arith, h, e, refused))
      | inl (rest, r) ↦ (on, rest, e, r, ground (arith, h, e, r))
    ]
  ]

  enabled_among_sound :
      (svcs out : List (ServiceDefinition P)) (svc : ServiceDefinition P)
      → enabled_among x svcs ≡ ok out
      → Memᴰ svc out
      → Memᴰ svc svcs × (is_enabled x svc ≡ ok true)
  unfolding enabled_among
  enabled_among_sound [] [] svc h i = elim i [ ]
  enabled_among_sound [] (o ∷ out) svc h i = absurd (ground (arith, h))
  enabled_among_sound (s ∷ svcs) out svc h i =
      let (on, rest, e, r, same) = enabled_among-cons s svcs out h in
      either on e (rw (← same) i) (enabled_among_sound svcs rest svc r)
    where
      either :
          {rest : List (ServiceDefinition P)} (on : Bool)
          → is_enabled x s ≡ ok on
          → Memᴰ svc (if on then s ∷ rest else rest)
          → (Memᴰ svc rest → Memᴰ svc svcs × (is_enabled x svc ≡ ok true))
          → Memᴰ svc (s ∷ svcs) × (is_enabled x svc ≡ ok true)
      either true e (head p) among = (head p, rw p e)
      either true e (tail k) among = let (m, on) = among k in (tail m, on)
      either false e k among = let (m, on) = among k in (tail m, on)

  enabled_among_complete :
      (svcs out : List (ServiceDefinition P)) (svc : ServiceDefinition P)
      → enabled_among x svcs ≡ ok out
      → Memᴰ svc svcs
      → is_enabled x svc ≡ ok true
      → Memᴰ svc out
  unfolding enabled_among
  enabled_among_complete [] out svc h i on = elim i [ ]
  enabled_among_complete (s ∷ svcs) out svc h (head p) on =
      let (shown, rest, e, r, same) = enabled_among-cons s svcs out h in
      let is_on : shown ≡ true = ground (arith, e, ap (is_enabled x) p, on) in
      rw (same, is_on) (head p)
  enabled_among_complete (s ∷ svcs) out svc h (tail i) on =
      let (shown, rest, e, r, same) = enabled_among-cons s svcs out h in
      rw same (kept shown (enabled_among_complete svcs rest svc r i on))
    where
      kept :
          {rest : List (ServiceDefinition P)} (shown : Bool)
          → Memᴰ svc rest
          → Memᴰ svc (if shown then s ∷ rest else rest)
      kept true k = tail k
      kept false k = k

  services_sound :
      (registry : BrokerRegistry P) (svc : ServiceDefinition P)
      → Memᴰ svc (services registry)
      → (name : String) × Memᴰ (name, svc) registry
  unfolding services
  services_sound [] svc i = elim i [ ]
  services_sound ((name, s) ∷ registry) svc (head p) = (name, head (ap (λ t. (name, t)) p))
  services_sound ((name, s) ∷ registry) svc (tail i) =
      let (k, j) = services_sound registry svc i in (k, tail j)

  services_complete :
      (registry : BrokerRegistry P) (name : String) (svc : ServiceDefinition P)
      → Memᴰ (name, svc) registry
      → Memᴰ svc (services registry)
  unfolding services
  services_complete [] name svc i = elim i [ ]
  services_complete ((k, s) ∷ registry) name svc (head p) = head (ap (λ t. t.1) p)
  services_complete ((k, s) ∷ registry) name svc (tail i) =
      tail (services_complete registry name svc i)

  get_all_services_iff :
      (registry : BrokerRegistry P) (svc : ServiceDefinition P)
      → Memᴰ svc (get_all_services registry) ↔ ((name : String) × Memᴰ (name, svc) registry)
  unfolding get_all_services
  get_all_services_iff registry svc = (
    λ i. services_sound registry svc (sort_by_sound service_name svc (services registry) i),
    λ (name, i).
        sort_by_complete service_name svc (services registry)
          (services_complete registry name svc i),
  )

  -- When the enabled services are listed, the list has exactly the services that are registered, under
  -- any name, and enabled.
  pub get_enabled_services_iff :
      (registry : BrokerRegistry P) (out : List (ServiceDefinition P)) (svc : ServiceDefinition P)
      → get_enabled_services x registry ≡ ok out
      → Memᴰ svc out
        ↔ (((name : String) × Memᴰ (name, svc) registry) × (is_enabled x svc ≡ ok true))
  unfolding get_enabled_services
  get_enabled_services_iff registry out svc h =
      let listed = get_all_services_iff registry svc in
      (
        λ i.
            let (j, on) = enabled_among_sound (get_all_services registry) out svc h i in
            (listed.0 j, on),
        λ (i, on). enabled_among_complete (get_all_services registry) out svc h (listed.1 i) on,
      )

  -- A service with a lifecycle tag whose toggle is not active is not enabled.
  pub is_enabled_tagged :
      (svc : ServiceDefinition P) (tag : String) (toggle : Toggle)
      → Memᴰ (tag, toggle) lifecycle_tag_toggles
      → is_active x toggle ≡ false
      → contains tag svc.tags ≡ true
      → is_enabled x svc ≢ ok true
  unfolding is_enabled catalog_entry
  is_enabled_tagged svc tag toggle i off tagged h =
      let disabled =
        disabled_by_tag_sound x lifecycle_tag_toggles tag toggle (new_string_set svc.tags) i off
          (contains-new_string_set tag svc.tags ∙ tagged) in
      ground (arith, h, disabled)
