-- ===== src/Project/Control.antt =====
-- Adding, removing, starting, stopping, managing and showing projects (etmemd_project.c).
use Prim.Native.Nat.{zero, suc}
use etmem.Base.{
  ℕ, ◌+◌, Bool, true, false, ◌&&◌, not, List, [], ◌∷◌, ◌++◌, Option, none, some, length,
  if◌then◌else◌, String,
}
use etmem.Base.Named.{remove_by}
use etmem.Base.Text.{str_eq}
use etmem.Config.{KeyFile}
use etmem.Engine.{Engine}
use etmem.Task.{Task}
use etmem.Project.{
  Project, ScanParam, region_scan, Daemon, Env, Event, OptResult, opt_success, opt_inval,
  opt_pro_existed, opt_pro_started, opt_pro_stopped, opt_pro_noexist, opt_eng_noexist,
  opt_task_noexist, opt_inter_err, start_task, stop_task, mgt, start_damon, stop_damon,
  project_site, call, get_proj_by_name, get_eng_by_name, get_task_by_name, project_name,
  put_project,
}
use etmem.Project.Params.{proj_group, blank_project, project_fill_by_conf, scan_fill_by_conf}
use etmem.Project.Tasks.{Result, ok, err, project_of_group, do_remove_engine}

-- calloc and the two fills of etmemd_project_add, with its codes.
unfoldable pub scan_filled : Option Project → Result Project
scan_filled none = err opt_inval
scan_filled (some proj) = ok proj

unfoldable pub filled_project : KeyFile → Option Project → Result Project
unfolding scan_filled
filled_project config none = err opt_inval
filled_project config (some proj) = scan_filled (scan_fill_by_conf config proj)

unfoldable pub allocated_project : Env → KeyFile → Bool → Result Project
unfolding filled_project
allocated_project env config true =
    filled_project config (project_fill_by_conf env config blank_project)
allocated_project env config false = err opt_inter_err

unfoldable pub new_project : Env → KeyFile → Result Project
unfolding allocated_project
new_project env config = allocated_project env config (env.alloc project_site)

unfoldable pub insert_project : Daemon → Result Project → OptResult × Daemon
insert_project d (err e) = (e, d)
insert_project d (ok proj) = (opt_success, record d { projects = proj ∷ d.projects })

unfoldable pub add_project : Env → KeyFile → Daemon → Result (Option Project) → OptResult × Daemon
unfolding new_project insert_project
add_project env config d (err e) = (e, d)
add_project env config d (ok (some proj)) = (opt_pro_existed, d)
add_project env config d (ok none) = insert_project d (new_project env config)

unfoldable pub etmemd_project_add : Env → KeyFile → Daemon → OptResult × Daemon
etmemd_project_add env config d =
    add_project env config d (project_of_group config proj_group d.projects)

-- `while (proj->engs != NULL) do_remove_engine(proj, proj->engs);` with a bound on the rounds.
unfoldable pub remove_engines_loop : ℕ → Project → List Event → Project × List Event
remove_engines_loop zero proj trace = (proj, trace)
remove_engines_loop (suc rounds) proj trace = elim proj.engs [
  | [] ↦ (proj, trace)
  | eng ∷ _ ↦
      let (proj', trace') = do_remove_engine proj eng trace in
      remove_engines_loop rounds proj' trace'
]

unfoldable pub do_remove_project : Project → Daemon → Daemon
unfolding remove_engines_loop
do_remove_project proj d =
    let (proj', trace) = remove_engines_loop (length proj.engs) proj d.trace in
    record { projects = remove_by project_name proj.name d.projects; trace = trace }

unfoldable pub remove_project : Daemon → Result (Option Project) → OptResult × Daemon
unfolding do_remove_project
remove_project d (err e) = (e, d)
remove_project d (ok none) = (opt_pro_noexist, d)
remove_project d (ok (some proj)) = (opt_success, do_remove_project proj d)

-- With only `proj` asked for, get_group_objs is project_of_group.
unfoldable pub etmemd_project_remove : KeyFile → Daemon → OptResult × Daemon
etmemd_project_remove config d = remove_project d (project_of_group config proj_group d.projects)

-- `true` is a sum of return values 0. Every task is started, also after one that fails.
unfoldable pub start_engine_tasks :
    Env → (proj eng : String) → List Task → List Event → Bool × List Event
start_engine_tasks env proj eng [] trace = (true, trace)
start_engine_tasks env proj eng (tk ∷ tks) trace =
    let (started, trace₁) = call env (start_task proj eng tk.name) trace in
    let (rest, trace₂) = start_engine_tasks env proj eng tks trace₁ in (started && rest, trace₂)

unfoldable pub project_start_engine : Env → Project → Engine → List Event → Bool × List Event
unfolding start_engine_tasks
project_start_engine env proj eng trace =
    if eng.ops.start_task
    then start_engine_tasks env proj.name eng.name eng.tasks trace
    else (false, trace)

unfoldable pub stop_engine_tasks : (proj eng : String) → List Task → List Event → List Event
stop_engine_tasks proj eng [] trace = trace
stop_engine_tasks proj eng (tk ∷ tks) trace =
    stop_engine_tasks proj eng tks (stop_task proj eng tk.name ∷ trace)

unfoldable pub project_stop_engine : Project → Engine → List Event → List Event
unfolding stop_engine_tasks
project_stop_engine proj eng trace =
    if eng.ops.stop_task then stop_engine_tasks proj.name eng.name eng.tasks trace else trace

unfoldable pub start_tasks : Env → Project → List Engine → List Event → Bool × List Event
unfolding project_start_engine
start_tasks env proj [] trace = (true, trace)
start_tasks env proj (eng ∷ engs) trace =
    let (started, trace₁) = project_start_engine env proj eng trace in
    let (rest, trace₂) = start_tasks env proj engs trace₁ in (started && rest, trace₂)

unfoldable pub stop_tasks : Project → List Engine → List Event → List Event
unfolding project_stop_engine
stop_tasks proj [] trace = trace
stop_tasks proj (eng ∷ engs) trace = stop_tasks proj engs (project_stop_engine proj eng trace)

-- The result of the switch over the scan type; an unset one has type PAGE_SCAN.
unfoldable pub start_scan : Env → Project → ScanParam → List Event → Bool × List Event
unfolding start_tasks
start_scan env proj (region_scan _) trace = call env (start_damon proj.name) trace
start_scan env proj _ trace = start_tasks env proj proj.engs trace

unfoldable pub stop_scan : Env → Project → ScanParam → List Event → Bool × List Event
unfolding stop_tasks
stop_scan env proj (region_scan _) trace = call env stop_damon trace
stop_scan env proj _ trace = (true, stop_tasks proj proj.engs trace)

unfoldable pub set_start : Bool → Project → Daemon → Bool × List Event → OptResult × Daemon
set_start on proj d (true, trace) = (
  opt_success,
  record { projects = put_project (record proj { start = on }) d.projects; trace = trace },
)
set_start on proj d (false, trace) = (opt_inter_err, record d { trace = trace })

unfoldable pub start_project : Env → Daemon → Option Project → OptResult × Daemon
unfolding start_scan set_start
start_project env d none = (opt_pro_noexist, d)
start_project env d (some proj) =
    if proj.start
    then (opt_pro_started, d)
    else set_start true proj d (start_scan env proj proj.scan_param d.trace)

-- `none` is a NULL name.
unfoldable pub etmemd_migrate_start : Env → Option String → Daemon → OptResult × Daemon
etmemd_migrate_start env none d = (opt_inval, d)
etmemd_migrate_start env (some name) d = start_project env d (get_proj_by_name name d.projects)

unfoldable pub stop_project : Env → Daemon → Option Project → OptResult × Daemon
unfolding stop_scan set_start
stop_project env d none = (opt_pro_noexist, d)
stop_project env d (some proj) =
    if proj.start
    then set_start false proj d (stop_scan env proj proj.scan_param d.trace)
    else (opt_pro_stopped, d)

unfoldable pub etmemd_migrate_stop : Env → Option String → Daemon → OptResult × Daemon
etmemd_migrate_stop env none d = (opt_inval, d)
etmemd_migrate_stop env (some name) d = stop_project env d (get_proj_by_name name d.projects)

-- The part of etmemd_project_mgt_engine behind the lookups.
unfoldable pub call_mgt :
    Env → Project → Engine → Option String → String → Daemon → OptResult × Daemon
call_mgt env proj eng task cmd d =
    if eng.ops.eng_mgt_func
    then (let (done, trace) = call env (mgt proj.name eng.name task cmd) d.trace in
        (if done then opt_success else opt_inval, record d { trace = trace }))
    else (opt_inval, d)

unfoldable pub mgt_task :
    Env → Project → Engine → Option String → String → Daemon → OptResult × Daemon
unfolding call_mgt
mgt_task env proj eng none cmd d = call_mgt env proj eng none cmd d
mgt_task env proj eng (some task) cmd d = elim (get_task_by_name eng task) [
  | none ↦ (opt_task_noexist, d)
  | some tk ↦ call_mgt env proj eng (some task) cmd d
]

unfoldable pub mgt_project :
    Env → (project eng cmd : String) → (task : Option String) → Daemon → OptResult × Daemon
unfolding mgt_task
mgt_project env project eng_name cmd task d = elim (get_proj_by_name project d.projects) [
  | none ↦ (opt_pro_noexist, d)
  | some proj ↦ if not proj.start then (opt_inval, d) else elim (get_eng_by_name proj eng_name) [
    | none ↦ (opt_eng_noexist, d)
    | some eng ↦ mgt_task env proj eng task cmd d
  ]
]

-- `none` is a NULL argument.
unfoldable pub etmemd_project_mgt_engine :
    Env → (project eng cmd task : Option String) → Daemon → OptResult × Daemon
unfolding mgt_project
etmemd_project_mgt_engine env (some project) (some eng) (some cmd) task d =
    mgt_project env project eng cmd task d
etmemd_project_mgt_engine env _ _ _ task d = (opt_inval, d)

unfoldable pub stop_all_loop : ℕ → Daemon → Daemon
unfolding do_remove_project
stop_all_loop zero d = d
stop_all_loop (suc rounds) d = elim d.projects [
  | [] ↦ d
  | proj ∷ _ ↦ stop_all_loop rounds (do_remove_project proj d)
]

-- `while (!SLIST_EMPTY(&g_projects)) …` with a bound on the rounds.
unfoldable pub etmemd_stop_all_projects : Daemon → Daemon
unfolding stop_all_loop
etmemd_stop_all_projects d = stop_all_loop (length d.projects) d

-- The lines that the daemon prints.
pub data Line : Type 0 where
  project_line : (name : String) → Line
  header_line : Line
  task_line : (number : ℕ) → Task → (eng : String) → (started : Bool) → Line
  no_project_line : Line
  missing_line : (name : String) → Line

unfoldable pub etmemd_print_tasks : ℕ → String → Bool → List Task → List Line
etmemd_print_tasks number eng started [] = []
etmemd_print_tasks number eng started (tk ∷ tks) =
    task_line number tk eng started ∷ etmemd_print_tasks (number + 1) eng started tks

unfoldable pub print_engines : Bool → List Engine → List Line
unfolding etmemd_print_tasks
print_engines started [] = []
print_engines started (eng ∷ engs) =
    etmemd_print_tasks 1 eng.name started eng.tasks ++ print_engines started engs

unfoldable pub etmemd_project_print : Project → List Line
unfolding print_engines
etmemd_project_print proj =
    project_line proj.name ∷ header_line ∷ print_engines proj.start proj.engs

unfoldable pub selected : Option String → Project → Bool
selected none proj = true
selected (some name) proj = str_eq name proj.name

unfoldable pub show_projects : Option String → List Project → List Line
unfolding selected etmemd_project_print
show_projects name [] = []
show_projects name (proj ∷ projects) =
    let rest = show_projects name projects in
    if selected name proj then etmemd_project_print proj ++ rest else rest

not_found_line : Option String → Line
not_found_line none = no_project_line
not_found_line (some name) = missing_line name

-- Every printed project has lines, so no line means that none was printed.
unfoldable pub etmemd_project_show : Option String → Daemon → List Line
unfolding show_projects not_found_line
etmemd_project_show name d = elim (show_projects name d.projects) [
  | [] ↦ not_found_line name ∷ []
  | line ∷ lines ↦ line ∷ lines
]
