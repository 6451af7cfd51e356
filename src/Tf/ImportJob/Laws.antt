-- ===== src/Tf/ImportJob/Laws.antt =====
-- What an import job leaves in the workspace that it stores.
use cloud_service_broker.Prelude.{
  ◌≡◌, ap, ◌∙◌, sym, String, some, List, [], ◌∷◌, arith, inl, inr, Bool-cases, Option-cases,
  eq_refl,
}
use cloud_service_broker.Prelude.StringMap.{StringMap, insert, lookup, lookup-insert}
use cloud_service_broker.Outcome.{Result, ok, err, Result-cases}
use cloud_service_broker.Tf.Module.{ModuleDefinition}
use cloud_service_broker.Tf.Workspace.{TerraformWorkspace, TfTransformer}
use cloud_service_broker.Tf.JobRunner.{ImportResource}
use cloud_service_broker.Tf.Shell.{System, Session, Run, ExecutionOutput, ◌>>=◌}
use cloud_service_broker.Tf.Shell.Commands.{
  import_all, import_each, show, shown, apply, with_fs, run_quietly,
}
use cloud_service_broker.Tf.Shell.Layout.{run_tf}
use cloud_service_broker.Tf.Shell.Steady.{IsSteady, >>=-IsSteady, return-IsSteady, run_tf-IsSteady}
use cloud_service_broker.Tf.Shell.Lock.{
  with_fs-Ends, locked_blocks, KeepsWorkspace, import_each-IsSteady,
}
use cloud_service_broker.Tf.Transformer.{Texts}
use cloud_service_broker.Tf.ImportJob.{
  resource_map, with_values, with_main, with_import, transformed, imported, rewrite_main,
  import_job,
}

module _ {sys : System} where
  -- A sequence of steps that returns without an error.
  >>=_returns :
      {A B : Type 0} (m : Run sys A) (f : A → Run sys B) (s s' : Session sys) (b : B)
      → (m >>= f) s ≡ some (ok b, s')
      → (a : A) × (t : Session sys) × (m s ≡ some (ok a, t)) × (f a t ≡ some (ok b, s'))
  >>=_returns {A} {B} m f s s' b h = elim (Option-cases (m s)) [
    | inl never ↦ absurd (ground (arith, h, never))
    | inr ((err e, t), failed) ↦ absurd (ground (arith, h, failed))
    | inr ((ok a, t), done) ↦ (a, t, done, ground (arith, h, done))
  ]

module _ (sys : System) where
  -- A command that returns has changed nothing of the workspace but its state.
  with_fs_keeps :
      {A : Type 0} (body : Run sys A) (s s' : Session sys) (r : Result A)
      → IsSteady body
      → with_fs sys body s ≡ some (r, s')
      → KeepsWorkspace sys s s'
  with_fs_keeps body s s' r steady h = elim (Bool-cases s.locked) [
    | inl held ↦ absurd (ground (arith, h, locked_blocks sys body s held))
    | inr free ↦
        (let (r', _, t, e, same, _) = with_fs-Ends sys body s steady free in
          let own : t ≡ s' = ground (arith, h, e) in rw own at same)
  ]

  shown-IsSteady : IsSteady (shown sys)
  unfolding shown
  shown-IsSteady s = answered (run_tf-IsSteady sys ("show" ∷ "-no-color" ∷ []) s)
    where
      answered :
          (r : Result ExecutionOutput) × (s' : Session sys) × (run_tf sys
                ("show" ∷ "-no-color" ∷ [])
                s
              ≡ some (r, s'))
            × (s'.locked ≡ s.locked)
            × (s'.workspace ≡ s.workspace)
          → (r : Result String) × (s' : Session sys) × (shown sys s ≡ some (r, s'))
            × (s'.locked ≡ s.locked)
            × (s'.workspace ≡ s.workspace)
      answered (ok output, s', e, k, w) = (ok output.std_out, s', ground (arith, e), k, w)
      answered (err x, s', e, k, w) = (ok "", s', ground (arith, e), k, w)

  import_all_keeps :
      (resources : StringMap String) (s s' : Session sys) (r : Result (Unit {0}))
      → import_all sys resources s ≡ some (r, s')
      → KeepsWorkspace sys s s'
  unfolding import_all
  import_all_keeps resources s s' r =
      with_fs_keeps (import_each sys resources) s s' r (import_each-IsSteady sys resources)

  show_keeps :
      (s s' : Session sys) (r : Result String) → show sys s ≡ some (r, s') → KeepsWorkspace sys s s'
  unfolding show
  show_keeps s s' r = with_fs_keeps (shown sys) s s' r shown-IsSteady

  apply_keeps :
      (s s' : Session sys) (r : Result (Unit {0}))
      → apply sys s ≡ some (r, s')
      → KeepsWorkspace sys s s'
  unfolding apply run_quietly
  apply_keeps s s' r =
      with_fs_keeps (run_quietly sys ("apply" ∷ "-auto-approve" ∷ "-no-color" ∷ [])) s s' r
        (>>=-IsSteady _ _ (run_tf-IsSteady sys _) (λ _. return-IsSteady tt))

-- The main definition of the first module.
abbrev pub HasMain : List ModuleDefinition → String → Type 0
HasMain modules tf =
    (m : ModuleDefinition) × (ms : List ModuleDefinition) × (modules ≡ m ∷ ms)
    × (lookup "main" m.definitions ≡ some tf)

with_main-HasMain :
    (tf : String) (modules out : List ModuleDefinition)
    → with_main tf modules ≡ ok out
    → HasMain out tf
unfolding with_main
with_main-HasMain tf [] out h = absurd (ground (arith, h))
with_main-HasMain tf (m ∷ ms) out h = (
  record m { definitions = insert "main" tf m.definitions },
  ms,
  ground (arith, h),
  ground (arith, lookup-insert "main" "main" tf m.definitions, eq_refl "main"),
)

with_import-HasMain :
    (tf : String) (values : StringMap String) (ws out : TerraformWorkspace)
    → with_import tf values ws ≡ ok out
    → HasMain out.modules tf
unfolding with_import
with_import-HasMain tf values ws out h = elim (Result-cases (with_values values ws.instances)) [
  | inr (e, failed) ↦ absurd (ground (arith, h, failed))
  | inl (instances, set) ↦ elim (Result-cases (with_main tf ws.modules)) [
    | inr (e, failed) ↦ absurd (ground (arith, h, set, failed))
    | inl (modules, written) ↦
        with_main-HasMain tf ws.modules out.modules (ground (arith, h, set, written))
  ]
]

imported-HasMain :
    (x : Texts) (printed : String) (ws out : TerraformWorkspace)
    → imported x printed ws ≡ ok out
    → (tf : String) × (values : StringMap String) × (transformed x ws.transformer printed
        ≡ ok (tf, values))
      × HasMain out.modules tf
unfolding imported
imported-HasMain x printed ws out h = elim (Result-cases (transformed x ws.transformer printed)) [
  | inr (e, failed) ↦ absurd (ground (arith, h, failed))
  | inl ((tf, values), done) ↦
      (tf, values, done, with_import-HasMain tf values ws out (ground (arith, h, done)))
]

module _ (sys : System) (x : Texts) where
  rewrite_main_inverse :
      (printed : String) (s t : Session sys)
      → rewrite_main sys x printed s ≡ some (ok tt, t)
      → imported x printed s.workspace ≡ ok t.workspace
  unfolding rewrite_main
  rewrite_main_inverse printed s t h = elim (Result-cases (imported x printed s.workspace)) [
    | inr (e, failed) ↦ absurd (ground (arith, h, failed))
    | inl (ws, done) ↦ done ∙ ap (λ w. ok w) (ground (arith, h, done))
  ]

  moved :
      {a b : TfTransformer} (printed : String) {tf : String} {values : StringMap String}
      → a ≡ b
      → transformed x a printed ≡ ok (tf, values)
      → transformed x b printed ≡ ok (tf, values)
  moved printed same h = ap (λ ttf. transformed x ttf printed) (sym same) ∙ h

  -- An import job that ends without an error has run `Import` and `Show` without one, and the first module
  -- of the workspace that it stores has, as its main definition, what the workspace's transformer makes
  -- of the text that `Show` returned.
  pub import_job-HasMain :
      (resources : List ImportResource) (s s' : Session sys)
      → import_job sys x resources s ≡ some (ok tt, s')
      → (s1 s2 : Session sys) × (printed tf : String) × (values : StringMap String) × (import_all
            sys
            (resource_map resources [])
            s
          ≡ some (ok tt, s1))
        × (show sys s1 ≡ some (ok printed, s2))
        × (transformed x s.workspace.transformer printed ≡ ok (tf, values))
        × HasMain s'.workspace.modules tf
  unfolding import_job
  import_job-HasMain resources s s' h =
      let (tt, s1, given, h1) =
        >>=_returns (import_all sys (resource_map resources [])) _ s s' tt h in
      let (printed, s2, said, h2) = >>=_returns (show sys) _ s1 s' tt h1 in
      let (tt, s3, rewritten, applied) = >>=_returns (rewrite_main sys x printed) _ s2 s' tt h2 in
      let (tf, values, made, (m, ms, shape, found)) =
        imported-HasMain x printed s2.workspace s3.workspace
          (rewrite_main_inverse printed s2 s3 rewritten) in
      let first = import_all_keeps sys _ s s1 (ok tt) given in
      let second = show_keeps sys s1 s2 (ok printed) said in
      let last = apply_keeps sys s3 s' (ok tt) applied in
      let own : s2.workspace.transformer ≡ s.workspace.transformer =
        ap (λ (w : TerraformWorkspace). w.transformer) second
        ∙ ap (λ (w : TerraformWorkspace). w.transformer) first in
      (
        s1,
        s2,
        printed,
        tf,
        values,
        given,
        said,
        moved printed own made,
        (m, ms, ap (λ (w : TerraformWorkspace). w.modules) last ∙ shape, found),
      )
