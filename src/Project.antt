-- ===== src/Project.antt =====
-- etmem/src/etmemd_src/etmemd_project.c: the registry of projects, engines and tasks, and the
-- commands that change it. This file has the state; the children have the operations and laws.
pub mod Params
pub mod Tasks
pub mod Control
pub mod Valid
pub mod Names
pub mod Invariant
pub mod Found
pub mod TaskSteps
pub mod ControlSteps
pub mod Session
pub mod Atomic
pub mod Calls
pub mod Starts
mod Tests
use etmem.Base.{ℕ, Bool, true, List, [], ◌∷◌, Option, String, if◌then◌else◌}
use etmem.Base.Int.{ℤ}
use etmem.Base.Named.{find_by, remove_by, update_by}
use etmem.Engine.{Engine, Linker}
use etmem.Task.{Task}

-- enum opt_result
pub data OptResult : Type 0 where
  opt_success opt_inval opt_pro_existed opt_pro_started opt_pro_stopped opt_pro_noexist : OptResult
  opt_eng_existed opt_eng_noexist opt_task_existed opt_task_noexist opt_inter_err : OptResult

pub record PageScan : Type 0 where
  pub interval : ℤ
  pub loop : ℤ
  pub sleep : ℤ

pub record RegionScan : Type 0 where
  pub sample_interval : ℕ
  pub aggr_interval : ℕ
  pub update_interval : ℕ
  pub min_nr_regions : ℕ
  pub max_nr_regions : ℕ

-- scan_param with the type that says what it points to; the code sets both together.
pub data ScanParam : Type 0 where
  unset : ScanParam
  page_scan : PageScan → ScanParam
  region_scan : RegionScan → ScanParam

-- struct project. A name that calloc left NULL is "".
pub record Project : Type 0 where
  pub name : String
  pub scan_param : ScanParam
  pub sysmem_threshold : ℤ
  pub swapcache_high_wmark : ℤ
  pub swapcache_low_wmark : ℤ
  pub start : Bool
  pub engs : List Engine

-- The calls that leave this component: the engines' operations, by project, engine and task, the
-- damon module, and dlclose of an engine's library.
pub data Event : Type 0 where
  fill_eng clear_eng close_lib : (proj eng : String) → Event
  fill_task clear_task start_task stop_task : (proj eng task : String) → Event
  mgt : (proj eng : String) (task : Option String) (cmd : String) → Event
  start_damon : (proj : String) → Event
  stop_damon : Event

-- The places that call calloc.
pub data Site : Type 0 where
  project_site scan_site engine_site task_site : Site

-- The surroundings of one command: which allocations succeed, the number of processors, the file
-- system and linker, and whether a call returns 0, given all calls before it.
pub record Env : Type 0 where
  pub alloc : Site → Bool
  pub core : ℕ
  pub linker : Linker
  pub reply : List Event → Event → Bool

-- g_projects, and the calls made so far, newest first.
pub record Daemon : Type 0 where
  pub projects : List Project
  pub trace : List Event

abbrev pub boot : Daemon
boot = record { projects = []; trace = [] }

-- A call whose result is used.
abbrev pub call : Env → Event → List Event → Bool × List Event
call env e trace = (env.reply trace e, e ∷ trace)

-- A call through a function pointer that may be NULL; NULL counts as a call that returns 0.
abbrev pub call_if : Env → Bool → Event → List Event → Bool × List Event
call_if env set e trace = if set then call env e trace else (true, trace)

-- A call through a function pointer that may be NULL, without a result.
abbrev pub emit_if : Bool → Event → List Event → List Event
emit_if set e trace = if set then e ∷ trace else trace

abbrev pub project_name : Project → String
project_name proj = proj.name

abbrev pub engine_name : Engine → String
engine_name eng = eng.name

abbrev pub task_name : Task → String
task_name tk = tk.name

abbrev pub get_proj_by_name : String → List Project → Option Project
get_proj_by_name = find_by project_name

abbrev pub get_eng_by_name : Project → String → Option Engine
get_eng_by_name proj name = find_by engine_name name proj.engs

abbrev pub get_task_by_name : Engine → String → Option Task
get_task_by_name eng name = find_by task_name name eng.tasks

-- The unlinking loops look for the node's address. Every caller unlinks the first node of that name,
-- which it has just looked up, inserted in front or read off the front.
abbrev pub project_remove_task : Engine → Task → Engine
project_remove_task eng tk = record eng { tasks = remove_by task_name tk.name eng.tasks }

abbrev pub project_insert_task : Engine → Task → Engine
project_insert_task eng tk = record eng { tasks = tk ∷ eng.tasks }

abbrev pub project_remove_engine : Project → Engine → Project
project_remove_engine proj eng = record proj { engs = remove_by engine_name eng.name proj.engs }

abbrev pub project_insert_engine : Project → Engine → Project
project_insert_engine proj eng = record proj { engs = eng ∷ proj.engs }

-- The state after an engine of a registered project was changed in place.
abbrev pub put_engine : Project → Engine → Project
put_engine proj eng = record proj { engs = update_by engine_name eng.name (λ _. eng) proj.engs }

-- The state after a registered project was changed in place.
abbrev pub put_project : Project → List Project → List Project
put_project proj = update_by project_name proj.name (λ _. proj)
