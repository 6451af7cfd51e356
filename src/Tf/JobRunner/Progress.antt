-- ===== src/Tf/JobRunner/Progress.antt =====
-- The job runner as a step relation: jobs are started and end in any order. Each call is one step.
use mathlib.Core.List.{Memᴰ}
use mathlib.Core.List.Memᴰ.{head, tail, append_left, append_right}
use cloud_service_broker.Prelude.{
  ◌≡◌, ◌≢◌, refl, sym, ap, ◌∙◌, ◌⊎◌, inl, inr, String, Bool, true, false, not, ◌||◌, Option, none,
  some, List, [], ◌∷◌, ◌++◌, arith, ◌==◌, eq_iff, is_some, if◌then◌else◌, Bool-cases,
}
use cloud_service_broker.Outcome.{Error, Result, ok, err, is_ok, Result-cases}
use cloud_service_broker.Json.{Object}
use cloud_service_broker.Models.{TerraformDeployment}
use cloud_service_broker.Tf.Workspace.{TerraformWorkspace, serialize}
use cloud_service_broker.Tf.JobRunner.{
  in_progress, succeeded, failed, Task, Job, ImportResource, TfJobRunner, State, operation_finished,
  stage_job, staged, start, import_resources, create, update, destroy_job,
}
use cloud_service_broker.Tf.JobRunner.Outcomes.{
  deployment_row, operation_finished_row, operation_finished_failed, running-operation_finished,
}
use cloud_service_broker.Tf.JobRunner.Starts.{start_row, start_failed}

-- One call of the runner, or the end of a goroutine's work, with any outcome and any workspace that
-- it leaves. The end of the work is a step only if it is recorded.
pub data Step (r : TfJobRunner) : State r → State r → Type 0 where
  stage : (id : String) (ws : TerraformWorkspace) (s : State r) → Step r s (stage_job r id ws s).1
  import_resource :
      (id : String) (resources : List ImportResource) (s : State r)
      → Step r s (import_resources r id resources s).1
  created : (id : String) (s : State r) → Step r s (create r id s).1
  updated : (id : String) (vars : Object) (s : State r) → Step r s (update r id vars s).1
  destroyed : (id : String) (vars : Object) (s : State r) → Step r s (destroy_job r id vars s).1
  finished :
      (before after : List Job) (job : Job) (e : Option Error) (ws : TerraformWorkspace)
      (s : State r)
      → s.running ≡ before ++ (job ∷ after)
      → (operation_finished r e ws job.deployment (record s { running = before ++ after })).0
        ≡ ok tt
      → Step r s
          (operation_finished r e ws job.deployment (record s { running = before ++ after })).1

-- The states that a runner reaches from an empty table.
pub data Reachable (r : TfJobRunner) : State r → Type 0 where
  initial : (s : State r) → r.gorm.live s.deployments ≡ [] → Reachable r s
  next : (s t : State r) → Reachable r s → Step r s t → Reachable r t

-- Each deployment in progress has a goroutine that works on it.
abbrev pub IsTracked : (r : TfJobRunner) → State r → Type 0
IsTracked r s =
    (id : String) (d : TerraformDeployment)
    → deployment_row r id s ≡ some d
    → d.last_operation_state ≡ in_progress
    → (job : Job) × Memᴰ job s.running × (job.deployment.id ≡ id)

is_settled : (bad : Bool) → (if bad then failed else succeeded) ≢ in_progress
is_settled false h = ground (arith, (eq_iff succeeded in_progress).1 h)
is_settled true h = ground (arith, (eq_iff failed in_progress).1 h)

without :
    {A : Type 0} (a y : A) (xs ys : List A) → Memᴰ a (xs ++ (y ∷ ys)) → (a ≡ y) ⊎ Memᴰ a (xs ++ ys)
without a y [] ys (head e) = inl e
without a y [] ys (tail m) = inr m
without a y (x ∷ xs) ys (head e) = inr (head e)
without a y (x ∷ xs) ys (tail m) = elim (without a y xs ys m) [
  | inl e ↦ inl e
  | inr k ↦ inr (tail k)
]

module _ (r : TfJobRunner) where
  -- A deployment that is in progress when an operation ends was so before, and was not the one that
  -- ended, if the end was recorded.
  busy_before :
      (e : Option Error) (ws : TerraformWorkspace) (ended : TerraformDeployment) (s : State r)
      (j : String) (d : TerraformDeployment)
      → deployment_row r j (operation_finished r e ws ended s).1 ≡ some d
      → d.last_operation_state ≡ in_progress
      → (deployment_row r j s ≡ some d)
        × ((operation_finished r e ws ended s).0 ≡ ok tt → (ended.id == j) ≡ false)
  busy_before e ws ended s j d row busy =
      elim (Result-cases (operation_finished r e ws ended s).0) [
        | inr (x, refused) ↦ (
          sym (operation_finished_failed r e ws ended s j (ground (arith, refused))) ∙ row,
          λ h. ground (arith, h, refused),
        )
        | inl (u, done) ↦
            (let (d', shown, _, rows) = operation_finished_row r e ws ended s done in
              elim (Bool-cases (ended.id == j)) [
                | inl same ↦
                    (let new : d' ≡ d = ground (arith, rows j, row, same) in
                      absurd (
                        is_settled (is_some e || not (is_ok (serialize r.codecs ws)))
                          (sym shown ∙ (ap (λ t. t.last_operation_state) new ∙ busy))))
                | inr other ↦ (ground (arith, rows j, row, other), λ h. other)
              ])
      ]

  start-IsTracked :
      (prepare : TerraformWorkspace → Result TerraformWorkspace) (task : Task)
      (operation_type id : String) (s : State r)
      → IsTracked r s
      → IsTracked r (start r prepare task operation_type id s).1
  start-IsTracked prepare task operation_type id s h j d row busy =
      elim (Result-cases (start r prepare task operation_type id s).0) [
        | inr (x, refused) ↦
            (let (jobs, rows) =
                start_failed r prepare task operation_type id j s (ground (arith, refused)) in
              rw jobs (h j d (sym rows ∙ row) busy))
        | inl (u, done) ↦
            (let (new, ws, own, _, _, jobs, rows) =
                start_row r prepare task operation_type id s done in
              let job : Job = record { task = task; deployment = new; workspace = ws } in
              elim (Bool-cases (id == j)) [
                | inl same ↦
                    (job, rw jobs (append_right s.running (head refl)), own ∙ (eq_iff id j).0 same)
                | inr other ↦
                    (let (old, i, e) = h j d (ground (arith, rows j, row, other)) busy in
                      (old, rw jobs (append_left (job ∷ []) i), e))
              ])
      ]

  operation_finished-IsTracked :
      (before behind : List Job) (job : Job) (e : Option Error) (ws : TerraformWorkspace)
      (s : State r)
      → IsTracked r s
      → s.running ≡ before ++ (job ∷ behind)
      → (operation_finished r e ws job.deployment (record s { running = before ++ behind })).0
        ≡ ok tt
      → IsTracked r
          (operation_finished r e ws job.deployment (record s { running = before ++ behind })).1
  operation_finished-IsTracked before behind job e ws s h jobs done j d row busy =
      let s' = record s { running = before ++ behind } in
      let (was, apart) = busy_before e ws job.deployment s' j d row busy in
      let (old, i, same) = h j d was busy in
      elim (without old job before behind (rw (← jobs) i)) [
        | inl ended ↦ absurd (
            ground (
              arith,
              apart done,
              (eq_iff job.deployment.id j).1 (sym (ap (λ k. k.deployment.id) ended) ∙ same),
            ))
        | inr k ↦ (old, rw (running-operation_finished r e ws job.deployment s') k, same)
      ]

  stage_job_refused :
      (id : String) (ws : TerraformWorkspace) (s : State r) (x : Error)
      → serialize r.codecs ws ≡ err x
      → (stage_job r id ws s).1 ≡ s
  unfolding stage_job
  stage_job_refused id ws s x refused = rw refused refl

  stage_job_encoded :
      (id : String) (ws : TerraformWorkspace) (s : State r) (text : String)
      → serialize r.codecs ws ≡ ok text
      → (stage_job r id ws s).1 ≡ (operation_finished r none ws (staged r id text s) s).1
  unfolding stage_job
  stage_job_encoded id ws s text encoded = rw encoded refl

  stage_job-IsTracked :
      (id : String) (ws : TerraformWorkspace) (s : State r)
      → IsTracked r s
      → IsTracked r (stage_job r id ws s).1
  stage_job-IsTracked id ws s h = elim (Result-cases (serialize r.codecs ws)) [
    | inr (x, refused) ↦ rw (stage_job_refused id ws s x refused) h
    | inl (text, encoded) ↦ rw (stage_job_encoded id ws s text encoded) (staging text)
  ]
    where
      staging :
          (text : String) → IsTracked r (operation_finished r none ws (staged r id text s) s).1
      staging text j d row busy =
          let new = staged r id text s in
          let (was, _) = busy_before none ws new s j d row busy in
          rw (running-operation_finished r none ws new s) (h j d was busy)

  step-IsTracked : (s t : State r) → Step r s t → IsTracked r s → IsTracked r t
  unfolding import_resources create update destroy_job
  step-IsTracked _ _ (stage id ws s) h = stage_job-IsTracked id ws s h
  step-IsTracked _ _ (import_resource id resources s) h = start-IsTracked ok _ _ id s h
  step-IsTracked _ _ (created id s) h = start-IsTracked ok _ _ id s h
  step-IsTracked _ _ (updated id vars s) h = start-IsTracked _ _ _ id s h
  step-IsTracked _ _ (destroyed id vars s) h = start-IsTracked _ _ _ id s h
  step-IsTracked _ _ (finished before behind job e ws s jobs done) h =
      operation_finished-IsTracked before behind job e ws s h jobs done

  initial-IsTracked : (s : State r) → r.gorm.live s.deployments ≡ [] → IsTracked r s
  initial-IsTracked s none' j d row busy = absurd (ground (arith, none', row))

  -- In every state that a runner reaches from an empty table, each deployment in progress has a
  -- goroutine that works on it, as long as the end of each job is recorded.
  pub reachable-IsTracked : (s : State r) → Reachable r s → IsTracked r s
  reachable-IsTracked _ (initial s none') = initial-IsTracked s none'
  reachable-IsTracked _ (next s t reached step) =
      step-IsTracked s t step (reachable-IsTracked s reached)
