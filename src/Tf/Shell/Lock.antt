-- ===== src/Tf/Shell/Lock.antt =====
-- The workspace's mutex over a whole command: what `teardownFs` leaves behind.
use cloud_service_broker.Prelude.{
  ◌≡◌, refl, ap, ◌∙◌, String, true, false, none, some, [], ◌∷◌, ◌⊎◌, inl, inr, arith,
}
use cloud_service_broker.Prelude.StringMap.{StringMap}
use cloud_service_broker.Outcome.{Result, ok, err, Result-cases}
use cloud_service_broker.Tf.Workspace.{TerraformWorkspace}
use cloud_service_broker.Tf.Shell.{System, Session, Run}
use cloud_service_broker.Tf.Shell.Layout.{initialize_fs, teardown_fs, tf_state_path}
use cloud_service_broker.Tf.Shell.Commands.{torn_down, with_fs, run_quietly, import_each}
use cloud_service_broker.Tf.Shell.Steady.{
  IsSteady, return-IsSteady, >>=-IsSteady, run_tf-IsSteady, initialize_fs_returns,
}

module _ (sys : System) where
  -- The directory of s is gone, its state file is the state of s', and the mutex is free.
  abbrev pub IsReleased : Session sys → Session sys → Type 0
  IsReleased s s' =
      (sys.read_file (tf_state_path sys s) s.disk ≡ ok s'.workspace.state)
      × ((done : Unit {0}) × ((sys.remove_all s.dir s.disk).0 ≡ ok done))
      × ((sys.remove_all s.dir s.disk).1 ≡ s'.disk)
      × (s'.dir ≡ "")
      × (s'.locked ≡ false)

  -- Nothing of a workspace changes but its state.
  abbrev pub KeepsWorkspace : Session sys → Session sys → Type 0
  KeepsWorkspace s s' = s'.workspace ≡ record (s.workspace) { state = s'.workspace.state }

  -- What a call returns, and the session it ran its last command in.
  abbrev pub Ends : {A : Type 0} → Run sys A → Session sys → Type 0
  Ends {A} m s =
      (r : Result A) × (s1 s' : Session sys) × (m s ≡ some (r, s'))
      × KeepsWorkspace s s'
      × (IsReleased s1 s' ⊎ (s'.locked ≡ true))

  teardown_fs-cases :
      (s : Session sys)
      → s.locked ≡ true
      → (r : Result (Unit {0})) × (s' : Session sys) × (teardown_fs sys s ≡ some (r, s'))
        × KeepsWorkspace s s'
        × (IsReleased s s' ⊎ (s'.locked ≡ true))
  unfolding teardown_fs
  teardown_fs-cases s held =
      let updated : String → Session sys = λ bytes. record s {
        workspace = record (s.workspace) { state = bytes };
        disk = (sys.remove_all s.dir s.disk).1;
      } in
      elim (Result-cases (sys.read_file (tf_state_path sys s) s.disk)) [
        | inr (e, unread) ↦ (err e, s, ground (arith, unread), refl, inr held)
        | inl (bytes, read) ↦ elim (Result-cases (sys.remove_all s.dir s.disk).0) [
          | inr (e, kept) ↦ (err e, updated bytes, ground (arith, read, kept), refl, inr held)
          | inl (done, removed) ↦ (
            ok tt,
            record (updated bytes) { dir = ""; locked = false },
            ground (arith, read, removed),
            refl,
            inl (read, (done, removed), refl, refl, refl),
          )
        ]
      ]

  pub locked_blocks :
      {A : Type 0} (body : Run sys A) (s : Session sys)
      → s.locked ≡ true
      → with_fs sys body s ≡ none
  unfolding with_fs initialize_fs
  locked_blocks body s held = rw held refl

  -- The deferred call, on a session that holds the lock.
  torn_down-Ends :
      {A : Type 0} (r : Result A) (s : Session sys) → s.locked ≡ true → Ends (torn_down sys r) s
  unfolding torn_down
  torn_down-Ends r s held =
      let (_, s', e, same, how) = teardown_fs-cases s held in
      (r, s, s', ground (arith, e), same, how)

  unchanged :
      (s s1 s' : Session sys)
      → s1.workspace ≡ s.workspace
      → KeepsWorkspace s1 s'
      → KeepsWorkspace s s'
  unchanged s s1 s' w same =
      same ∙ ap (λ (ws : TerraformWorkspace). record ws { state = s'.workspace.state }) w

  pub with_fs-Ends :
      {A : Type 0} (body : Run sys A) (s : Session sys)
      → IsSteady body
      → s.locked ≡ false
      → Ends (with_fs sys body) s
  unfolding with_fs
  with_fs-Ends body s hb free = started (initialize_fs_returns sys s free)
    where
      started :
          (r : Result (Unit {0})) × (s1 : Session sys) × (initialize_fs sys s ≡ some (r, s1))
            × (s1.locked ≡ true)
            × (s1.workspace ≡ s.workspace)
          → Ends (with_fs sys body) s
      started (err e, s1, i, held, w) =
          let (r, s2, s', t, same, how) = torn_down-Ends (err e) s1 held in
          (r, s2, s', ground (arith, i, t), unchanged s s1 s' w same, how)
      started (ok u, s1, i, held, w) =
          let (r, s2, b, k, w') = hb s1 in
          let (r', s3, s', t, same, how) = torn_down-Ends r s2 (k ∙ held) in
          (r', s3, s', ground (arith, i, b, t), unchanged s s2 s' (w' ∙ w) same, how)

  pub import_each-IsSteady : (resources : StringMap String) → IsSteady (import_each sys resources)
  unfolding import_each run_quietly
  import_each-IsSteady [] = return-IsSteady tt
  import_each-IsSteady ((resource, id) ∷ resources) =
      >>=-IsSteady _ _ (>>=-IsSteady _ _ (run_tf-IsSteady sys _) (λ _. return-IsSteady tt))
        (λ _. import_each-IsSteady resources)
