-- ===== src/Tf/Shell.antt =====
-- pkg/providers/tf/wrapper/workspace.go: the directories in which Terraform runs, and its commands.
pub mod Layout
pub mod Commands
pub mod Steady
pub mod Lock
pub mod Executors
use cloud_service_broker.Prelude.{String, Bool, true, false, Option, none, some, List}
use cloud_service_broker.Outcome.{Error, Result, ok, err}
use cloud_service_broker.Outcome.Exec.{Exec}
use cloud_service_broker.Json.{Object}
use cloud_service_broker.Tf.Module.{Block}
use cloud_service_broker.Tf.Workspace.{TerraformWorkspace}

-- `exec.Cmd`
pub record Command : Type 0 where
  pub path : String
  pub args : List String
  pub env : List String
  pub dir : String

pub record ExecutionOutput : Type 0 where
  pub std_out : String
  pub std_err : String

-- The operating system's calls on a disk, the executor, and encoding/json.
pub record System : Type 1 where
  pub Disk : Type 0
  -- `ioutil.TempDir("", "gsb")`
  pub temp_dir : Exec Disk String
  pub mkdir : String → Exec Disk (Unit {0})
  pub write_file : String → String → Exec Disk (Unit {0})
  pub read_file : String → Disk → Result String
  pub remove_all : String → Exec Disk (Unit {0})
  pub join_path : String → String → String
  -- the workspace's executor
  pub execute : Command → Exec Disk ExecutionOutput
  pub environ : List String
  -- `json.MarshalIndent`
  pub marshal_indent : Object → Result String
  pub marshal : Object → Result String
  -- the sorted outputs of a module, by its definitions
  pub parse_hcl : String → Result (List Block)

-- A workspace in memory, with its mutex, its directory and the disk.
pub record Session (sys : System) : Type 0 where
  pub workspace : TerraformWorkspace
  pub locked : Bool
  pub dir : String
  pub disk : sys.Disk

-- A call that returns, or none for one that blocks for ever: nobody else holds the workspace, so a mutex
-- that is locked stays so.
abbrev pub Run : System → Type 0 → Type 0
Run sys A = Session sys → Option (Result A × Session sys)

module _ {sys : System} where
  abbrev pub return : {A : Type 0} → A → Run sys A
  return a s = some (ok a, s)

  infixl 5 ◌>>=◌ ◌>>◌
  abbrev pub ◌>>=◌ : {A B : Type 0} → Run sys A → (A → Run sys B) → Run sys B
  ◌>>=◌ m f s = elim (m s) [
    | none ↦ none
    | some (ok a, s') ↦ f a s'
    | some (err e, s') ↦ some (err e, s')
  ]

  abbrev pub ◌>>◌ : {B : Type 0} → Run sys (Unit {0}) → Run sys B → Run sys B
  m >> k = m >>= λ _. k

  abbrev pub on_disk : {A : Type 0} → Exec sys.Disk A → Run sys A
  on_disk m s = let (r, d) = m s.disk in some (r, record s { disk = d })

  abbrev pub lift : {A : Type 0} → Result A → Run sys A
  lift r s = some (r, s)
