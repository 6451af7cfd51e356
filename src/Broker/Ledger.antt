-- ===== src/Broker/Ledger.antt =====
-- A ledger from instance ids to services, and the steps that writes to the table of instances are on it.
use cloud_service_broker.Prelude.{
  ◌≡◌, sym, ◌∙◌, ap, inl, inr, String, Option, none, some, arith, ◌==◌, eq_iff, Bool-cases,
  if◌then◌else◌,
}
use cloud_service_broker.Outcome.{Result-cases}
use cloud_service_broker.Models.{ServiceInstanceDetails}
use cloud_service_broker.Gorm.Keyed.{
  has_key, row_at, row_at-create, row_at-create_failed, row_at-save, row_at-save_failed,
  row_at-delete, row_at-delete_failed, key-row_at,
}
use cloud_service_broker.Dao.Instances.{InstanceGorm, instance_key}

-- The service of each instance.
abbrev pub Ledger : Type 0
Ledger = String → Option String

-- What may happen to a ledger: nothing, a new instance, or the removal of one. The service of an instance
-- never changes.
pub data Change (m n : Ledger) : Type 0 where
  idle : ((j : String) → n j ≡ m j) → Change m n
  added :
      (id service_id : String)
      → m id ≡ none
      → ((j : String) → n j ≡ (if id == j then some service_id else m j))
      → Change m n
  removed : (id : String) → ((j : String) → n j ≡ (if id == j then none else m j)) → Change m n

abbrev pub service_of : Option ServiceInstanceDetails → Option String
service_of none = none
service_of (some d) = some d.service_id

module _ (g : InstanceGorm) where
  abbrev pub listed : g.Table → Ledger
  listed t j = service_of (row_at instance_key g j t)

  pub create-Change :
      (d : ServiceInstanceDetails) (t : g.Table)
      → row_at instance_key g d.id t ≡ none
      → Change (listed t) (listed (g.create d t).1)
  create-Change d t fresh = elim (Result-cases (g.create d t).0) [
    | inr (e, failed) ↦
        idle
          (λ j. ap service_of (row_at-create_failed instance_key g j d t (ground (arith, failed))))
    | inl (_, done) ↦ added d.id d.service_id (ap service_of fresh) (λ j.
        elim (Bool-cases (d.id == j)) [
          | inl own ↦
              (let at_j : row_at instance_key g j t ≡ none = rw (← ((eq_iff d.id j).0 own)) fresh in
                ground (arith, row_at-create instance_key g j d t done, own, at_j))
          | inr other ↦ ground (arith, row_at-create instance_key g j d t done, other)
        ])
  ]

  pub save-Change :
      (d new : ServiceInstanceDetails) (id : String) (t : g.Table)
      → row_at instance_key g id t ≡ some d
      → new.id ≡ d.id
      → new.service_id ≡ d.service_id
      → Change (listed t) (listed (g.save new t).1)
  save-Change d new id t found own same = elim (Result-cases (g.save new t).0) [
    | inr (e, failed) ↦
        idle
          (λ j. ap service_of (row_at-save_failed instance_key g j new t (ground (arith, failed))))
    | inl (_, done) ↦ idle (λ j. elim (Bool-cases (new.id == j)) [
      | inl mine ↦
          (let here : j ≡ id =
              sym ((eq_iff new.id j).0 mine) ∙ (own ∙ key-row_at instance_key g id t d found) in
            let at_j : row_at instance_key g j t ≡ some d = rw here found in
            ground (arith, row_at-save instance_key g j new t done, mine, at_j, same))
      | inr other ↦ ground (arith, row_at-save instance_key g j new t done, other)
    ])
  ]

  pub delete-Change :
      (id : String) (t : g.Table)
      → Change (listed t) (listed (g.delete (has_key instance_key id) t).1)
  delete-Change id t = elim (Result-cases (g.delete (has_key instance_key id) t).0) [
    | inr (e, failed) ↦ idle (λ j. ap service_of (
        row_at-delete_failed instance_key g j (has_key instance_key id) t (ground (arith, failed))))
    | inl (_, done) ↦ removed id (λ j. elim (Bool-cases (id == j)) [
      | inl own ↦ ground (arith, row_at-delete instance_key g j id t done, own)
      | inr other ↦ ground (arith, row_at-delete instance_key g j id t done, other)
    ])
  ]

  -- A call that leaves this table.
  pub leaving :
      (s : g.Table) {t u : g.Table}
      → u ≡ t
      → Change (listed s) (listed t)
      → Change (listed s) (listed u)
  leaving s e c = rw e c
