-- ===== src/Project/Tasks.antt =====
-- Adding and removing tasks and engines (etmemd_project.c).
use Prim.Native.Nat.{zero, suc}
use etmem.Base.{
  ℕ, ◌≡◌, refl, Bool, true, false, ◌&&◌, List, [], ◌∷◌, Option, none, some, ltb, length,
  if◌then◌else◌, String,
}
use etmem.Base.Text.{str_eq, strlen}
use etmem.Config.{KeyFile}
use etmem.Engine.{Engine, EngineType, thirdparty_engine, eng_group, etmemd_engine_add}
use etmem.Task.{Task, task_group, etmemd_add_task}
use etmem.Project.{
  Project, Daemon, Env, Event, OptResult, opt_success, opt_inval, opt_pro_noexist, opt_eng_existed,
  opt_eng_noexist, opt_task_existed, opt_task_noexist, opt_inter_err, fill_eng, clear_eng,
  close_lib, fill_task, clear_task, start_task, stop_task, engine_site, task_site, call_if, emit_if,
  get_proj_by_name, get_eng_by_name, get_task_by_name, project_remove_task, project_insert_task,
  project_remove_engine, project_insert_engine, put_engine, put_project,
}
use etmem.Project.Params.{proj_group}

-- What a lookup by configuration file gives: an object, or the code that the command answers.
pub data Result {ℓ} (X : Type ℓ) : Type ℓ where
  err : (code : OptResult) → Result X
  ok : (got : X) → Result X

abbrev pub ◌>>=◌ {i j} : {X : Type i} {Y : Type j} (m : Result X) (next : X → Result Y) → Result Y
err code >>= next = err code
ok got >>= next = next got

infixl 5 ◌>>=◌
pub >>=-eq-ok {i j} :
    {X : Type i} {Y : Type j} (m : Result X) (next : X → Result Y) {y : Y}
    → (m >>= next) ≡ ok y
    → (got : X) × (m ≡ ok got) × (next got ≡ ok y)
>>=-eq-ok (err code) next h = cc
>>=-eq-ok (ok got) next h = (got, refl, h)

pub ok_inj {i} : {X : Type i} {x y : X} → ok x ≡ ok y → x ≡ y
ok_inj h = cc

-- A NULL pointer ends the lookup with a code.
abbrev pub require {ℓ} : {A : Type ℓ} → Option A → OptResult → Result A
require (some a) e = ok a
require none e = err e

abbrev pub max_obj_name_len : ℕ
max_obj_name_len = 64

get_obj_key : (obj_name group_name : String) → String
get_obj_key obj_name group_name = if str_eq obj_name group_name then "name" else obj_name

unfoldable pub get_name_by_key : KeyFile → (group_name key : String) → Result String
get_name_by_key config group_name key =
    if config.has_key group_name key
    then elim (config.get_string group_name key) [
      | none ↦ err opt_inval
      | some name ↦ if ltb max_obj_name_len (strlen name) then err opt_inval else ok name
    ]
    else err opt_inval

unfoldable pub get_obj_name : KeyFile → (group_name obj : String) → Result String
unfolding get_obj_key get_name_by_key
get_obj_name config group_name obj = get_name_by_key config group_name (get_obj_key obj group_name)

unfoldable pub project_of_group : KeyFile → String → List Project → Result (Option Project)
unfolding get_obj_name
project_of_group config group_name projects = do
  proj_name ← get_obj_name config group_name proj_group
  ok (get_proj_by_name proj_name projects)

-- In its own group, a thirdparty engine's name stands under "eng_name".
unfoldable pub engine_name_of_group : KeyFile → (group_name : String) → Result String
unfolding get_obj_name
engine_name_of_group config group_name = do
  eng_name ← get_obj_name config group_name eng_group
  if str_eq eng_name "thirdparty" && str_eq group_name eng_group
      then get_name_by_key config eng_group "eng_name"
      else ok eng_name

unfoldable pub engine_of_group : KeyFile → String → Project → Result (Option Engine)
unfolding engine_name_of_group
engine_of_group config group_name proj = do
  eng_name ← engine_name_of_group config group_name
  ok (get_eng_by_name proj eng_name)

unfoldable pub task_of_group : KeyFile → String → Engine → Result (Option Task)
unfolding get_obj_name
task_of_group config group_name eng = do
  task_name ← get_obj_name config group_name task_group
  ok (get_task_by_name eng task_name)

-- get_group_objs with a NULL `tk`: the project must exist.
unfoldable pub get_group_engine : KeyFile → String → List Project → Result (Project × Option Engine)
unfolding project_of_group engine_of_group
get_group_engine config group_name projects = do
  found ← project_of_group config group_name projects
  proj ← require found opt_pro_noexist
  eng ← engine_of_group config group_name proj
  ok (proj, eng)

-- get_group_objs with all pointers given: project and engine must exist.
unfoldable pub get_group_task :
    KeyFile → String → List Project → Result (Project × Engine × Option Task)
unfolding get_group_engine task_of_group
get_group_task config group_name projects = do
  (proj, found) ← get_group_engine config group_name projects
  eng ← require found opt_eng_noexist
  tk ← task_of_group config group_name eng
  ok (proj, eng, tk)

-- The engine after the task is gone, and the calls made.
unfoldable pub do_remove_task : Project → Engine → Task → List Event → Engine × List Event
do_remove_task proj eng tk trace = (
  project_remove_task eng tk,
  emit_if eng.ops.clear_task_params (clear_task proj.name eng.name tk.name)
      (emit_if (proj.start && eng.ops.stop_task) (stop_task proj.name eng.name tk.name) trace),
)

-- `while (eng->tasks != NULL) do_remove_task(proj, eng, eng->tasks);` with a bound on the rounds.
unfoldable pub remove_tasks_loop : ℕ → Project → Engine → List Event → Engine × List Event
unfolding do_remove_task
remove_tasks_loop zero proj eng trace = (eng, trace)
remove_tasks_loop (suc rounds) proj eng trace = elim eng.tasks [
  | [] ↦ (eng, trace)
  | tk ∷ _ ↦
      let (eng', trace') = do_remove_task proj eng tk trace in
      remove_tasks_loop rounds proj eng' trace'
]

unfoldable pub do_remove_engine_tasks : Project → Engine → List Event → Engine × List Event
unfolding remove_tasks_loop
do_remove_engine_tasks proj eng trace = remove_tasks_loop (length eng.tasks) proj eng trace

abbrev pub is_thirdparty : EngineType → Bool
is_thirdparty thirdparty_engine = true
is_thirdparty _ = false

-- etmemd_engine_remove: only a thirdparty engine has something to clear.
unfoldable pub etmemd_engine_remove : Project → Engine → List Event → List Event
etmemd_engine_remove proj eng trace =
    emit_if (is_thirdparty eng.engine_type) (close_lib proj.name eng.name) trace

-- The project without the engine, and the calls made.
unfoldable pub do_remove_engine : Project → Engine → List Event → Project × List Event
unfolding do_remove_engine_tasks etmemd_engine_remove
do_remove_engine proj eng trace =
    let (eng', trace') = do_remove_engine_tasks proj eng trace in
    let cleared = emit_if eng.ops.clear_eng_params (clear_eng proj.name eng.name) trace' in
    (project_remove_engine proj eng', etmemd_engine_remove proj eng' cleared)

abbrev pub with_project : Daemon → Project → List Event → Daemon
with_project d proj trace = record d { projects = put_project proj d.projects; trace = trace }

-- How etmemd_project_add_task ends, by whether the callbacks returned 0: `trace₁` are the calls up to
-- fill_task_params and `trace₂` those up to start_task.
unfoldable pub finish_task :
    Project
    → Engine
    → Task
    → Daemon
    → (filled : Bool) (trace₁ : List Event) (started : Bool) (trace₂ : List Event)
    → OptResult × Daemon
finish_task proj eng tk d true trace₁ true trace₂ =
    (opt_success, with_project d (put_engine proj eng) trace₂)
finish_task proj eng tk d true trace₁ false trace₂ = (
  opt_inter_err,
  with_project d (put_engine proj (project_remove_task eng tk))
      (emit_if eng.ops.clear_task_params (clear_task proj.name eng.name tk.name) trace₂),
)
finish_task proj eng tk d false trace₁ started trace₂ =
    (opt_inter_err, with_project d (put_engine proj (project_remove_task eng tk)) trace₁)

-- etmemd_project_add_task from the point where the task is linked in. A callback that is not set, or
-- not due, counts as returned 0.
unfoldable pub link_task : Env → Project → Engine → Task → Daemon → OptResult × Daemon
unfolding finish_task
link_task env proj eng tk d =
    let (filled, trace₁) =
      call_if env eng.ops.fill_task_params (fill_task proj.name eng.name tk.name) d.trace in
    let (started, trace₂) =
      call_if env (proj.start && eng.ops.start_task) (start_task proj.name eng.name tk.name)
        trace₁ in
    finish_task proj (project_insert_task eng tk) tk d filled trace₁ started trace₂

unfoldable pub add_new_task : Env → Project → Engine → Option Task → Daemon → OptResult × Daemon
unfolding link_task
add_new_task env proj eng none d = (opt_inter_err, d)
add_new_task env proj eng (some tk) d = link_task env proj eng tk d

-- The rest of etmemd_project_add_task, on what the lookup returned.
unfoldable pub add_task_to :
    Env → KeyFile → Daemon → Result (Project × Engine × Option Task) → OptResult × Daemon
unfolding add_new_task
add_task_to env config d (err e) = (e, d)
add_task_to env config d (ok (proj, eng, some tk)) = (opt_task_existed, d)
add_task_to env config d (ok (proj, eng, none)) =
    add_new_task env proj eng (etmemd_add_task (env.alloc task_site) env.core config) d

unfoldable pub etmemd_project_add_task : Env → KeyFile → Daemon → OptResult × Daemon
etmemd_project_add_task env config d =
    add_task_to env config d (get_group_task config task_group d.projects)

unfoldable pub remove_task_from :
    Daemon → Result (Project × Engine × Option Task) → OptResult × Daemon
unfolding do_remove_task
remove_task_from d (err e) = (e, d)
remove_task_from d (ok (proj, eng, none)) = (opt_task_noexist, d)
remove_task_from d (ok (proj, eng, some tk)) =
    let (eng', trace) = do_remove_task proj eng tk d.trace in
    (opt_success, with_project d (put_engine proj eng') trace)

unfoldable pub etmemd_project_remove_task : KeyFile → Daemon → OptResult × Daemon
etmemd_project_remove_task config d =
    remove_task_from d (get_group_task config task_group d.projects)

-- How etmemd_project_add_engine ends, by whether fill_eng_params returned 0.
unfoldable pub finish_engine :
    Project → Engine → Daemon → (filled : Bool) → List Event → OptResult × Daemon
unfolding etmemd_engine_remove
finish_engine proj eng d true trace = (opt_success, with_project d proj trace)
finish_engine proj eng d false trace = (
  opt_inter_err,
  with_project d (project_remove_engine proj eng) (etmemd_engine_remove proj eng trace),
)

unfoldable pub link_engine : Env → Project → Option Engine → Daemon → OptResult × Daemon
unfolding finish_engine
link_engine env proj none d = (opt_inter_err, d)
link_engine env proj (some eng) d =
    let (filled, trace) =
      call_if env eng.ops.fill_eng_params (fill_eng proj.name eng.name) d.trace in
    finish_engine (project_insert_engine proj eng) eng d filled trace

unfoldable pub add_engine_to :
    Env → KeyFile → Daemon → Result (Project × Option Engine) → OptResult × Daemon
unfolding link_engine
add_engine_to env config d (err e) = (e, d)
add_engine_to env config d (ok (proj, some eng)) = (opt_eng_existed, d)
add_engine_to env config d (ok (proj, none)) =
    link_engine env proj (etmemd_engine_add (env.alloc engine_site) env.linker config) d

unfoldable pub etmemd_project_add_engine : Env → KeyFile → Daemon → OptResult × Daemon
etmemd_project_add_engine env config d =
    add_engine_to env config d (get_group_engine config eng_group d.projects)

unfoldable pub remove_engine_from : Daemon → Result (Project × Option Engine) → OptResult × Daemon
remove_engine_from d (err e) = (e, d)
remove_engine_from d (ok (proj, none)) = (opt_eng_noexist, d)
remove_engine_from d (ok (proj, some eng)) =
    let (proj', trace) = do_remove_engine proj eng d.trace in
    (opt_success, with_project d proj' trace)

unfoldable pub etmemd_project_remove_engine : KeyFile → Daemon → OptResult × Daemon
etmemd_project_remove_engine config d =
    remove_engine_from d (get_group_engine config eng_group d.projects)
