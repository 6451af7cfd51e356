-- ===== src/Tf/Shell/Commands.antt =====
-- The commands of a workspace, and the goroutine of an import.
use cloud_service_broker.Prelude.{String, none, some, List, [], ◌∷◌}
use cloud_service_broker.Prelude.StringMap.{StringMap}
use cloud_service_broker.Outcome.{Result, ok, err}
use cloud_service_broker.Tf.Shell.{System, Run, return, ◌>>=◌, ◌>>◌}
use cloud_service_broker.Tf.Shell.Layout.{initialize_fs, teardown_fs, run_tf}

module _ (sys : System) where
  -- The deferred call of `teardownFs`, whose error is dropped.
  unfoldable pub torn_down : {A : Type 0} → Result A → Run sys A
  torn_down r s = elim (teardown_fs sys s) [ none ↦ none | some (_, s') ↦ some (r, s') ]

  -- `initializeFs`, the command, and `teardownFs` whatever has come of them.
  unfoldable pub with_fs : {A : Type 0} → Run sys A → Run sys A
  unfolding torn_down
  with_fs body s = elim (initialize_fs sys s) [
    | none ↦ none
    | some (err e, s1) ↦ torn_down (err e) s1
    | some (ok _, s1) ↦ elim (body s1) [ none ↦ none | some (r, s2) ↦ torn_down r s2 ]
  ]

  unfoldable pub run_quietly : List String → Run sys (Unit {0})
  run_quietly args = run_tf sys args >>= λ _. return tt

  unfoldable pub validate : Run sys (Unit {0})
  validate = with_fs (run_quietly ("validate" ∷ "-no-color" ∷ []))

  unfoldable pub apply : Run sys (Unit {0})
  apply = with_fs (run_quietly ("apply" ∷ "-auto-approve" ∷ "-no-color" ∷ []))

  unfoldable pub destroy : Run sys (Unit {0})
  destroy = with_fs (run_quietly ("destroy" ∷ "-auto-approve" ∷ "-no-color" ∷ []))

  unfoldable pub import_each : StringMap String → Run sys (Unit {0})
  import_each [] = return tt
  import_each ((resource, id) ∷ resources) =
      run_quietly ("import" ∷ resource ∷ id ∷ []) >> import_each resources

  unfoldable pub import_all : StringMap String → Run sys (Unit {0})
  import_all resources = with_fs (import_each resources)

  -- An error of the command is dropped; the executor's output is blank then.
  unfoldable pub shown : Run sys String
  shown s = elim (run_tf sys ("show" ∷ "-no-color" ∷ []) s) [
    | none ↦ none
    | some (ok output, s') ↦ some (ok output.std_out, s')
    | some (err e, s') ↦ some (ok "", s')
  ]

  unfoldable pub show : Run sys String
  show = with_fs shown
