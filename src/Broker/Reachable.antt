-- ===== src/Broker/Reachable.antt =====
-- The broker as a step relation: its calls in any order, and what holds between them.
use cloud_service_broker.Prelude.{
  ◌≡◌, sym, ◌∙◌, inl, inr, ◌≤◌, [], ◌∷◌, String, Bool, none, arith, eq_iff, Bool-cases,
}
use cloud_service_broker.Prelude.Rows.{count, count-append, count_of_find-none}
use cloud_service_broker.Outcome.{Error, ok}
use cloud_service_broker.Dao.Bindings.{binds}
use cloud_service_broker.Service.Provider.{DeprovisionDetails}
use cloud_service_broker.Service.Variables.{ProvisionDetails, UpdateDetails, BindDetails}
use cloud_service_broker.Broker.State.{ServiceBroker, State}
use cloud_service_broker.Broker.View.{binding_row}
use cloud_service_broker.Broker.Checks.{UnbindDetails}
use cloud_service_broker.Broker.Provision.{provision}
use cloud_service_broker.Broker.Deprovision.{deprovision}
use cloud_service_broker.Broker.Bind.{bind}
use cloud_service_broker.Broker.Unbind.{unbind}
use cloud_service_broker.Broker.Unbind.Records.{unbind_records}
use cloud_service_broker.Broker.Update.{update}
use cloud_service_broker.Broker.LastOperation.{last_operation}
use cloud_service_broker.Broker.Bindings.{
  bindings-provision, bindings-deprovision, bindings-update, bindings-last_operation, bind_bindings,
  unbind_bindings,
}

-- One call of the broker, whether it returns or fails.
pub data Step {P K : Type 0} (b : ServiceBroker P K) (sentinel : Error → String)
    : State b → State b → Type 0 where
  provisioned :
      (id : String) (details : ProvisionDetails) (async : Bool) (s : State b)
      → Step b sentinel s (provision b id details async s).1
  deprovisioned :
      (id : String) (details : DeprovisionDetails) (async : Bool) (s : State b)
      → Step b sentinel s (deprovision b id details async s).1
  bound :
      (id binding_id : String) (details : BindDetails) (s : State b)
      → Step b sentinel s (bind b id binding_id details s).1
  unbound :
      (id binding_id : String) (details : UnbindDetails) (s : State b)
      → Step b sentinel s (unbind b id binding_id details s).1
  updated :
      (id : String) (details : UpdateDetails) (async : Bool) (s : State b)
      → Step b sentinel s (update b id details async s).1
  polled : (id : String) (s : State b) → Step b sentinel s (last_operation b sentinel id s).1

-- The states that the broker reaches from a database without bindings.
pub data Reachable {P K : Type 0} (b : ServiceBroker P K) (sentinel : Error → String)
    : State b → Type 0 where
  initial : (s : State b) → b.binding_gorm.live s.bindings ≡ [] → Reachable b sentinel s
  next : (s t : State b) → Reachable b sentinel s → Step b sentinel s t → Reachable b sentinel t

-- There are never two records of one binding.
abbrev pub HasUniqueBindings : {P K : Type 0} (b : ServiceBroker P K) → State b → Type 0
HasUniqueBindings b s =
    (id binding_id : String) → count (binds id binding_id) (b.binding_gorm.live s.bindings) ≤ 1

module _ {P K : Type 0} (b : ServiceBroker P K) (sentinel : Error → String) where
  bind-HasUniqueBindings :
      (id binding_id : String) (details : BindDetails) (s : State b)
      → HasUniqueBindings b s
      → HasUniqueBindings b (bind b id binding_id details s).1
  bind-HasUniqueBindings id binding_id details s h i j =
      let rows = b.binding_gorm.live s.bindings in
      elim (bind_bindings b sentinel id binding_id details s) [
        | inl same ↦ rw same (h i j)
        | inr (r, own, named, fresh, added) ↦ elim (Bool-cases (binds i j r)) [
          | inr other ↦ ground (arith, added, other, h i j, count-append (binds i j) rows (r ∷ []))
          | inl same ↦
              (let at_i : i ≡ id =
                  sym ((eq_iff r.service_instance_id i).0 (ground (arith, same))) ∙ own in
                let at_j : j ≡ binding_id =
                  sym ((eq_iff r.binding_id j).0 (ground (arith, same))) ∙ named in
                let none_yet : count (binds i j) rows ≡ 0 =
                  rw (at_i, at_j) (count_of_find-none (binds id binding_id) rows fresh) in
                ground (arith, added, same, none_yet, count-append (binds i j) rows (r ∷ [])))
        ]
      ]

  step-HasUniqueBindings :
      (s t : State b) → Step b sentinel s t → HasUniqueBindings b s → HasUniqueBindings b t
  step-HasUniqueBindings _ _ (provisioned id details async s) h =
      rw (bindings-provision b sentinel id details async s) h
  step-HasUniqueBindings _ _ (deprovisioned id details async s) h =
      rw (bindings-deprovision b sentinel id details async s) h
  step-HasUniqueBindings _ _ (bound id binding_id details s) h =
      bind-HasUniqueBindings id binding_id details s h
  step-HasUniqueBindings _ _ (unbound id binding_id details s) h =
      λ i j. ground (arith, h i j, unbind_bindings b sentinel id binding_id details s (binds i j))
  step-HasUniqueBindings _ _ (updated id details async s) h =
      rw (bindings-update b sentinel id details async s) h
  step-HasUniqueBindings _ _ (polled id s) h = rw (bindings-last_operation b sentinel id s) h

  -- In every state that the broker reaches from a database without bindings, no two records are of
  -- the same binding of the same instance.
  pub reachable-HasUniqueBindings : (s : State b) → Reachable b sentinel s → HasUniqueBindings b s
  reachable-HasUniqueBindings _ (initial s empty) = λ i j. ground (arith, empty)
  reachable-HasUniqueBindings _ (next s t reached step) =
      step-HasUniqueBindings s t step (reachable-HasUniqueBindings s reached)

  -- After an unbind call that returns, in a state that the broker reaches from a database without
  -- bindings, there is no such binding.
  pub unbind_removes :
      (id binding_id : String) (details : UnbindDetails) (s : State b)
      → Reachable b sentinel s
      → (unbind b id binding_id details s).0 ≡ ok tt
      → binding_row b id binding_id (unbind b id binding_id details s).1 ≡ none
  unbind_removes id binding_id details s reached h =
      unbind_records b id binding_id details s (reachable-HasUniqueBindings s reached id binding_id)
        h
