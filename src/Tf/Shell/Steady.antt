-- ===== src/Tf/Shell/Steady.antt =====
-- Steps that return and leave the mutex and the workspace in memory as they are.
use cloud_service_broker.Prelude.{
  ◌≡◌, refl, ◌∙◌, String, Bool, true, false, some, List, [], ◌∷◌, arith, inl, inr, if◌then◌else◌,
  ◌==◌, Bool-cases,
}
use cloud_service_broker.Prelude.StringMap.{StringMap, insert}
use cloud_service_broker.Outcome.{Result, ok, err}
use cloud_service_broker.Outcome.Exec.{Exec}
use cloud_service_broker.Tf.Module.{ModuleDefinition}
use cloud_service_broker.Tf.Workspace.{TerraformWorkspace, ModuleInstance}
use cloud_service_broker.Tf.Shell.{System, Session, Run, return, ◌>>=◌, on_disk, lift}
use cloud_service_broker.Tf.Shell.Layout.{
  run_tf, initialize_fs, initialized_fs_flat, initialize_fs_modules, is_flat, write_definitions,
  write_variables, write_definition, write_module, write_modules, write_instance, write_instances,
  lay_out, write_state, filled, in_temp_dir,
}

module _ {sys : System} where
  abbrev pub IsSteady : {A : Type 0} → Run sys A → Type 0
  IsSteady {A} m =
      (s : Session sys)
      → (r : Result A) × (s' : Session sys) × (m s ≡ some (r, s'))
        × (s'.locked ≡ s.locked)
        × (s'.workspace ≡ s.workspace)

  pub return-IsSteady : {A : Type 0} (a : A) → IsSteady (return {sys = sys} a)
  return-IsSteady a s = (ok a, s, refl, refl, refl)

  pub lift-IsSteady : {A : Type 0} (r : Result A) → IsSteady (lift {sys = sys} r)
  lift-IsSteady r s = (r, s, refl, refl, refl)

  pub on_disk-IsSteady : {A : Type 0} (m : Exec sys.Disk A) → IsSteady (on_disk {sys = sys} m)
  on_disk-IsSteady m s = ((m s.disk).0, record s { disk = (m s.disk).1 }, refl, refl, refl)

  pub >>=-IsSteady :
      {A B : Type 0} (m : Run sys A) (f : A → Run sys B)
      → IsSteady m
      → ((a : A) → IsSteady (f a))
      → IsSteady (m >>= f)
  >>=-IsSteady m f hm hf s = after (hm s)
    where
      after :
          (r : Result _) × (s' : Session sys) × (m s ≡ some (r, s'))
            × (s'.locked ≡ s.locked)
            × (s'.workspace ≡ s.workspace)
          → (r : Result _) × (s' : Session sys) × ((m >>= f) s ≡ some (r, s'))
            × (s'.locked ≡ s.locked)
            × (s'.workspace ≡ s.workspace)
      after (ok a, t, e, k, w) =
          let (r, u, e', k', w') = hf a t in (r, u, ground (arith, e, e'), k' ∙ k, w' ∙ w)
      after (err x, t, e, k, w) = (err x, t, ground (arith, e), k, w)

  if-IsSteady :
      {A : Type 0} {m n : Run sys A} (b : Bool)
      → IsSteady m
      → IsSteady n
      → IsSteady (if b then m else n)
  if-IsSteady true hm hn = hm
  if-IsSteady false hm hn = hn

module _ (sys : System) where
  write_definitions-IsSteady :
      (dir : String) (definitions : StringMap String)
      → IsSteady (write_definitions sys dir definitions)
  unfolding write_definitions
  write_definitions-IsSteady dir [] = return-IsSteady tt
  write_definitions-IsSteady dir ((name, tf) ∷ definitions) =
      >>=-IsSteady _ _ (on_disk-IsSteady _) (λ _. write_definitions-IsSteady dir definitions)

  write_definition-IsSteady :
      (parent definition : String) → IsSteady (write_definition sys parent definition)
  unfolding write_definition
  write_definition-IsSteady parent definition = elim (Bool-cases (definition == "")) [
    | inl blank ↦ rw blank (return-IsSteady tt)
    | inr other ↦ rw other (on_disk-IsSteady _)
  ]

  initialized_fs_flat-IsSteady :
      (dir : String) (modules : List ModuleDefinition) (instances : List ModuleInstance)
      → IsSteady (initialized_fs_flat sys dir modules instances)
  unfolding initialized_fs_flat write_variables
  initialized_fs_flat-IsSteady dir (m ∷ []) (i ∷ []) =
      >>=-IsSteady _ _ (write_definitions-IsSteady dir m.definitions)
        (λ _. >>=-IsSteady _ _ (lift-IsSteady _) (λ _. on_disk-IsSteady _))
  initialized_fs_flat-IsSteady dir (m ∷ []) [] = lift-IsSteady _
  initialized_fs_flat-IsSteady dir (m ∷ []) (i ∷ j ∷ instances) = lift-IsSteady _
  initialized_fs_flat-IsSteady dir [] instances = lift-IsSteady _
  initialized_fs_flat-IsSteady dir (m ∷ n ∷ modules) instances = lift-IsSteady _

  write_module-IsSteady : (dir : String) (m : ModuleDefinition) → IsSteady (write_module sys dir m)
  unfolding write_module
  write_module-IsSteady dir m =
      let parent = sys.join_path dir m.name in
      >>=-IsSteady _ _ (on_disk-IsSteady _) (λ _.
        >>=-IsSteady _ _ (write_definition-IsSteady parent m.definition) (λ _.
          >>=-IsSteady _ _ (write_definitions-IsSteady parent m.definitions)
            (λ _. lift-IsSteady _)))

  write_modules-IsSteady :
      (dir : String) (modules : List ModuleDefinition) (outs : StringMap (List String))
      → IsSteady (write_modules sys dir modules outs)
  unfolding write_modules
  write_modules-IsSteady dir [] outs = return-IsSteady outs
  write_modules-IsSteady dir (m ∷ modules) outs =
      >>=-IsSteady _ _ (write_module-IsSteady dir m)
        (λ found. write_modules-IsSteady dir modules (insert m.name found outs))

  write_instance-IsSteady :
      (dir : String) (outs : StringMap (List String)) (i : ModuleInstance)
      → IsSteady (write_instance sys dir outs i)
  unfolding write_instance
  write_instance-IsSteady dir outs i =
      >>=-IsSteady {A = String} _ _ (lift-IsSteady _) (λ contents. on_disk-IsSteady _)

  write_instances-IsSteady :
      (dir : String) (instances : List ModuleInstance) (outs : StringMap (List String))
      → IsSteady (write_instances sys dir instances outs)
  unfolding write_instances
  write_instances-IsSteady dir [] outs = return-IsSteady tt
  write_instances-IsSteady dir (i ∷ instances) outs =
      >>=-IsSteady (write_instance sys dir outs i) _ (write_instance-IsSteady dir outs i)
        (λ _. write_instances-IsSteady dir instances outs)

  initialize_fs_modules-IsSteady :
      (dir : String) (modules : List ModuleDefinition) (instances : List ModuleInstance)
      → IsSteady (initialize_fs_modules sys dir modules instances)
  unfolding initialize_fs_modules
  initialize_fs_modules-IsSteady dir modules instances =
      >>=-IsSteady _ _ (write_modules-IsSteady dir modules [])
        (λ outs. write_instances-IsSteady dir instances outs)

  lay_out-IsSteady : (dir : String) (ws : TerraformWorkspace) → IsSteady (lay_out sys dir ws)
  unfolding lay_out
  lay_out-IsSteady dir ws =
      if-IsSteady (is_flat ws.modules) (initialized_fs_flat-IsSteady dir ws.modules ws.instances)
        (initialize_fs_modules-IsSteady dir ws.modules ws.instances)

  write_state-IsSteady : (path state : String) → IsSteady (write_state sys path state)
  unfolding write_state
  write_state-IsSteady path state = elim (Bool-cases (state == "")) [
    | inl blank ↦ rw blank (return-IsSteady tt)
    | inr other ↦ rw other (on_disk-IsSteady _)
  ]

  pub run_tf-IsSteady : (args : List String) → IsSteady (run_tf sys args)
  unfolding run_tf
  run_tf-IsSteady args s = (_, _, refl, refl, refl)

  filled-IsSteady : IsSteady (filled sys)
  unfolding filled
  filled-IsSteady s =
      >>=-IsSteady _ _ (lay_out-IsSteady s.dir s.workspace)
        (λ _.
          >>=-IsSteady _ _ (write_state-IsSteady _ _)
            (λ _. >>=-IsSteady _ _ (run_tf-IsSteady _) (λ _. return-IsSteady tt)))
        s

  in_temp_dir-IsSteady : IsSteady (in_temp_dir sys)
  unfolding in_temp_dir
  in_temp_dir-IsSteady =
      >>=-IsSteady _ _ (on_disk-IsSteady _)
        (λ dir s. (ok tt, record s { dir = dir }, refl, refl, refl))

  -- A workspace that is not locked is locked, and prepared or not.
  pub initialize_fs_returns :
      (s : Session sys)
      → s.locked ≡ false
      → (r : Result (Unit {0})) × (s' : Session sys) × (initialize_fs sys s ≡ some (r, s'))
        × (s'.locked ≡ true)
        × (s'.workspace ≡ s.workspace)
  unfolding initialize_fs
  initialize_fs_returns s free =
      let (r, s', e, k, w) =
        >>=-IsSteady (in_temp_dir sys) (λ _. filled sys) in_temp_dir-IsSteady (λ _. filled-IsSteady)
          (record s { locked = true }) in
      (r, s', ground (arith, free, e), k, w)
