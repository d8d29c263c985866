-- ===== src/Project/Tests.antt =====
-- Concrete configurations and sessions of the daemon, and what the theorems say of them.
use etmem.Base.{
  sym, ◌∙◌, ◌≢◌, ◌≡◌, refl, ◌≤◌, Bool, true, false, ◌&&◌, List, [], ◌∷◌, Option, none, some, String,
  if◌then◌else◌,
}
use etmem.Base.Int.{ℤ, pos, negsuc}
use etmem.Base.Named.{find_by, remove_by, All}
use etmem.Base.Text.{str_eq, strlen, codes}
use etmem.Common.{is_alpha, get_valid_conf_str, check_str_valid, check_value_valid}
use etmem.Common.Valid.{is_plain, check_str_valid-plain}
use etmem.Config.{parse_to_int, fill_item, parse_item, parse_file_config, KeyFile}
use etmem.Engine.{Engine, missing, Linker, slide_engine, slide_eng_ops, etmemd_engine_add}
use etmem.Engine.Made.{EngineNamed, etmemd_engine_add-EngineNamed}
use etmem.Task.{
  fill_task_threads, fill_task_swap_flag, fill_task_value, fill_task_type, fill_task_name, Task,
  etmemd_add_task,
}
use etmem.Task.Made.{TaskMade, etmemd_add_task-TaskMade}
use etmem.Project.{
  Project, page_scan, Daemon, Env, Event, opt_success, opt_inter_err, opt_pro_stopped, boot,
  start_task, project_name, put_project,
}
use etmem.Project.Params.{
  check_swapcache_wmark_valid, param_items, name_item, project_fill_by_conf, scan_fill_by_conf,
}
use etmem.Project.Valid.{NewValid, fills-NewValid}
use etmem.Project.Invariant.{DaemonValid}
use etmem.Project.Control.{
  etmemd_migrate_start, etmemd_migrate_stop, do_remove_project, etmemd_stop_all_projects,
}
use etmem.Project.Session.{Command, execute, run, execute-DaemonValid, run-boot-DaemonValid}
use etmem.Project.Atomic.{execute-Atomic}
use etmem.Project.Calls.{
  log, engines_removal, projects_removal, do_remove_project-calls, stop_all_projects-calls,
}
use etmem.Project.Starts.{
  Outcome, by_tasks, starts_of, replies_ok, project_starts, project_stops, all_can_start,
  migrate_start-calls, migrate_stop-calls, failed_start-runs_on,
}

-- A file whose values do not depend on the group.
abbrev text_of : String → Option String
text_of key =
    if str_eq key "name"
    then some "db"
    else if str_eq key "scan_type"
    then some "page"
    else if str_eq key "type"
    then some "name"
    else if str_eq key "value"
    then some "mysqld"
    else if str_eq key "swap_flag"
    then some "yes"
    else if str_eq key "project"
    then some "db"
    else if str_eq key "engine"
    then some "slide"
    else none

abbrev number_of : String → Option ℤ
number_of key =
    if str_eq key "loop"
    then some (pos 3)
    else if str_eq key "interval"
    then some (pos 10)
    else if str_eq key "sleep"
    then some (pos 5)
    else if str_eq key "max_threads"
    then some (pos 100)
    else none

abbrev is_some {ℓ} : {A : Type ℓ} → Option A → Bool
is_some none = false
is_some (some _) = true

abbrev text_file : KeyFile
text_file = record {
  has_key = λ group key. if is_some (text_of key) then true else is_some (number_of key);
  get_int64 = λ group key. number_of key;
  get_string =
      λ group key. if str_eq group "engine" && str_eq key "name" then some "slide" else text_of key;
}

abbrev no_linker : Linker
no_linker = record {
  realpath = λ p. none;
  files = λ p. none;
  dlopen = λ p. false;
  dlsym = λ p n. missing;
}

abbrev calm : Env
calm = record { alloc = λ site. true; core = 4; linker = no_linker; reply = λ trace e. true }

-- The task "b" cannot be started.
abbrev is_start_b : Event → Bool
is_start_b (start_task _ _ task) = str_eq task "b"
is_start_b _ = false

abbrev refusing : Env
refusing = record {
  alloc = λ site. true;
  core = 4;
  linker = no_linker;
  reply = λ trace e. if is_start_b e then false else true;
}

abbrev named_task : String → Task
named_task name = record {
  type = "name";
  value = "mysqld";
  name = name;
  max_threads = pos 9;
  swap_flag = pos 1;
}

abbrev slide : Engine
slide = record {
  engine_type = slide_engine;
  name = "slide";
  ops = slide_eng_ops;
  tasks = named_task "a" ∷ named_task "b" ∷ [];
}

abbrev database : Bool → Project
database on = record {
  name = "db";
  scan_param = page_scan (record { interval = pos 10; loop = pos 3; sleep = pos 5 });
  sysmem_threshold = negsuc 0;
  swapcache_high_wmark = negsuc 0;
  swapcache_low_wmark = negsuc 0;
  start = on;
  engs = slide ∷ [];
}

abbrev daemon : Bool → Daemon
daemon on = record { projects = database on ∷ []; trace = [] }

abbrev session : List (Env × Command)
session =
    (calm, Command.add_project text_file)
    ∷ (calm, Command.add_engine text_file)
    ∷ (calm, Command.add_task text_file)
    ∷ (calm, Command.start (some "db"))
    ∷ []

inter_err_no_success : opt_inter_err ≢ opt_success
inter_err_no_success h = cc

-- The witnesses.
run-boot-DaemonValid_example : DaemonValid (run session boot)
run-boot-DaemonValid_example = run-boot-DaemonValid session

execute-DaemonValid_example :
    DaemonValid (execute calm (Command.stop (some "db")) (run session boot)).1
execute-DaemonValid_example =
    execute-DaemonValid calm (Command.stop (some "db")) (run session boot)
      (run-boot-DaemonValid session)

abbrev after_refusal : Daemon
after_refusal = record (daemon false) { trace = log (project_starts "db" (slide ∷ [])) [] }

failed_start-runs_on_example :
    (etmemd_migrate_start refusing (some "db") (daemon false) ≡ (opt_inter_err, after_refusal))
    × (etmemd_migrate_stop calm (some "db") after_refusal ≡ (opt_pro_stopped, after_refusal))
unfolding find_by by_tasks replies_ok starts_of project_starts all_can_start log
failed_start-runs_on_example =
    failed_start-runs_on refusing calm "db" (daemon false) (database false) refl refl refl refl

-- The task "db" cannot be started.
abbrev is_start_db : Event → Bool
is_start_db (start_task _ _ task) = str_eq task "db"
is_start_db _ = false

abbrev refusing_db : Env
refusing_db = record {
  alloc = λ site. true;
  core = 4;
  linker = no_linker;
  reply = λ trace e. if is_start_db e then false else true;
}

refused : (execute refusing_db (Command.add_task text_file) (daemon true)).0 ≡ opt_inter_err
unfolding execute etmem.Project.Tasks.etmemd_project_add_task etmem.Project.Tasks.add_task_to
    etmem.Project.Tasks.get_group_task find_by etmemd_add_task parse_file_config parse_item
    fill_item fill_task_name fill_task_type fill_task_value check_str_valid get_valid_conf_str
    check_value_valid is_alpha fill_task_swap_flag etmem.Task.fill_task_threads
refused = refl

execute-Atomic_example :
    (execute refusing_db (Command.add_task text_file) (daemon true)).1.projects
    ≡ (daemon true).projects
execute-Atomic_example =
    execute-Atomic refusing_db (Command.add_task text_file) (daemon true) refl
      (λ h. inter_err_no_success (sym refused ∙ h))

do_remove_project-calls_example : do_remove_project (database true) (daemon true) ≡ record {
  projects = remove_by project_name "db" (database true ∷ []);
  trace = log (engines_removal (database true) (slide ∷ [])) [];
}
do_remove_project-calls_example = do_remove_project-calls (database true) (daemon true)

stop_all_projects-calls_example :
    etmemd_stop_all_projects (daemon true)
    ≡ record { projects = []; trace = log (projects_removal (database true ∷ [])) [] }
stop_all_projects-calls_example = stop_all_projects-calls (daemon true)

migrate_start-calls_example :
    Outcome
      (all_can_start (slide ∷ []) && replies_ok calm (project_starts "db" (slide ∷ [])) [])
      (database false)
      (daemon false)
      (log (project_starts "db" (slide ∷ [])) [])
      (etmemd_migrate_start calm (some "db") (daemon false))
unfolding find_by by_tasks
migrate_start-calls_example =
    migrate_start-calls calm "db" (daemon false) (database false) refl refl refl

migrate_stop-calls_example : etmemd_migrate_stop calm (some "db") (daemon true) ≡ (
  opt_success,
  record {
    projects = put_project (database false) (database true ∷ []);
    trace = log (project_stops "db" (slide ∷ [])) [];
  },
)
unfolding find_by by_tasks
migrate_stop-calls_example =
    migrate_stop-calls calm "db" (daemon true) (database true) refl refl refl

etmemd_add_task-TaskMade_example : TaskMade 4 text_file (named_task "db")
unfolding etmemd_add_task parse_file_config parse_item fill_item fill_task_name fill_task_type
    fill_task_value check_str_valid get_valid_conf_str check_value_valid is_alpha
    fill_task_swap_flag fill_task_threads parse_to_int
etmemd_add_task-TaskMade_example = etmemd_add_task-TaskMade true 4 text_file (named_task "db") refl

abbrev new_slide : Engine
new_slide = record { engine_type = slide_engine; name = "slide"; ops = slide_eng_ops; tasks = [] }

etmemd_engine_add-EngineNamed_example : EngineNamed text_file "slide" × (new_slide.tasks ≡ [])
unfolding etmemd_engine_add
etmemd_engine_add-EngineNamed_example =
    etmemd_engine_add-EngineNamed true no_linker text_file new_slide refl

abbrev unfilled : Project
unfilled = record (database false) {
  scan_param = page_scan (record { interval = pos 0; loop = pos 0; sleep = pos 0 });
  engs = [];
}

fills-NewValid_example : NewValid text_file (record (database false) { engs = [] })
unfolding project_fill_by_conf parse_file_config parse_item name_item fill_item param_items
    check_swapcache_wmark_valid scan_fill_by_conf parse_to_int
fills-NewValid_example =
    fills-NewValid calm text_file unfilled (record (database false) { engs = [] }) refl refl

check_str_valid-plain_example :
    (1 ≤ strlen "mysqld") × (strlen "mysqld" ≤ 15) × All (λ c. is_plain c ≡ true) (codes "mysqld")
unfolding check_str_valid get_valid_conf_str check_value_valid is_alpha
check_str_valid-plain_example = check_str_valid-plain "mysqld" refl
