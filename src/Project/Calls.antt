-- ===== src/Project/Calls.antt =====
-- The calls of the engines' operations by do_remove_project and etmemd_stop_all_projects
-- (etmemd_project.c), in order.
use etmem.Base.{
  ◌≡◌, refl, sym, ap, ◌∙◌, Bool, true, false, ◌&&◌, List, [], ◌∷◌, ◌++◌, length, if◌then◌else◌,
}
use etmem.Base.Named.{remove_by, remove_by-head}
use etmem.Engine.{Engine}
use etmem.Task.{Task}
use etmem.Project.{
  Project, Daemon, Event, clear_eng, close_lib, clear_task, stop_task, project_remove_engine,
  project_name, engine_name, task_name, emit_if,
}
use etmem.Project.Tasks.{
  do_remove_task, remove_tasks_loop, do_remove_engine_tasks, etmemd_engine_remove, do_remove_engine,
  is_thirdparty,
}
use etmem.Project.Control.{
  remove_engines_loop, do_remove_project, stop_all_loop, etmemd_stop_all_projects,
}

-- The trace after these calls, in this order.
unfoldable pub log : List Event → List Event → List Event
log [] trace = trace
log (e ∷ es) trace = log es (e ∷ trace)

pub log-append : (es fs trace : List Event) → log (es ++ fs) trace ≡ log fs (log es trace)
unfolding log
log-append [] fs trace = refl
log-append (e ∷ es) fs trace = log-append es fs (e ∷ trace)

abbrev pub when : Bool → Event → List Event
when b e = if b then e ∷ [] else []

log-when : (b : Bool) (e : Event) (trace : List Event) → log (when b e) trace ≡ emit_if b e trace
unfolding log
log-when true e trace = refl
log-when false e trace = refl

-- A running task is stopped, then its parameters are cleared.
unfoldable pub task_removal : Project → Engine → Task → List Event
task_removal proj eng tk =
    when (proj.start && eng.ops.stop_task) (stop_task proj.name eng.name tk.name)
    ++ when eng.ops.clear_task_params (clear_task proj.name eng.name tk.name)

unfoldable pub tasks_removal : Project → Engine → List Task → List Event
unfolding task_removal
tasks_removal proj eng [] = []
tasks_removal proj eng (tk ∷ tks) = task_removal proj eng tk ++ tasks_removal proj eng tks

-- The tasks one after the other, then the engine's parameters, then a thirdparty library.
unfoldable pub engine_removal : Project → Engine → List Event
unfolding tasks_removal
engine_removal proj eng =
    tasks_removal proj eng eng.tasks
    ++ (when eng.ops.clear_eng_params (clear_eng proj.name eng.name)
        ++ when (is_thirdparty eng.engine_type) (close_lib proj.name eng.name))

unfoldable pub engines_removal : Project → List Engine → List Event
unfolding engine_removal
engines_removal proj [] = []
engines_removal proj (eng ∷ engs) = engine_removal proj eng ++ engines_removal proj engs

do_remove_task-calls :
    (proj : Project) (eng : Engine) (tk : Task) (trace : List Event)
    → (do_remove_task proj eng tk trace).1 ≡ log (task_removal proj eng tk) trace
unfolding do_remove_task task_removal
do_remove_task-calls proj eng tk trace =
    let stop = stop_task proj.name eng.name tk.name in
    let clear = clear_task proj.name eng.name tk.name in
    sym (
      log-append (when (proj.start && eng.ops.stop_task) stop)
        (when eng.ops.clear_task_params clear) trace
      ∙ log-when eng.ops.clear_task_params clear _
      ∙ ap (emit_if eng.ops.clear_task_params clear)
          (log-when (proj.start && eng.ops.stop_task) stop trace))

-- As many rounds as there are tasks empty the engine.
remove_tasks_loop-calls :
    (proj : Project) (eng : Engine) (tks : List Task) (trace : List Event)
    → remove_tasks_loop (length tks) proj (record eng { tasks = tks }) trace
      ≡ (record eng { tasks = [] }, log (tasks_removal proj eng tks) trace)
unfolding remove_tasks_loop tasks_removal log
remove_tasks_loop-calls proj eng [] trace = refl
remove_tasks_loop-calls proj eng (tk ∷ tks) trace =
    let rest = record eng { tasks = tks } in
    ap
      (λ tks'.
        remove_tasks_loop (length tks) proj (record eng { tasks = tks' })
          (do_remove_task proj eng tk trace).1)
      (remove_by-head task_name tk tks)
    ∙ ap (remove_tasks_loop (length tks) proj rest) (do_remove_task-calls proj eng tk trace)
    ∙ remove_tasks_loop-calls proj eng tks (log (task_removal proj eng tk) trace)
    ∙ ap (λ t. (record eng { tasks = [] }, t))
        (sym (log-append (task_removal proj eng tk) (tasks_removal proj eng tks) trace))

do_remove_engine-calls :
    (proj : Project) (eng : Engine) (trace : List Event)
    → do_remove_engine proj eng trace
      ≡ (project_remove_engine proj eng, log (engine_removal proj eng) trace)
unfolding do_remove_engine engine_removal do_remove_engine_tasks etmemd_engine_remove
do_remove_engine-calls proj eng trace =
    let clear = clear_eng proj.name eng.name in
    let close = close_lib proj.name eng.name in
    let tail = when eng.ops.clear_eng_params clear ++ when (is_thirdparty eng.engine_type) close in
    ap
      (λ r. (
        project_remove_engine proj r.0,
        etmemd_engine_remove proj r.0 (emit_if eng.ops.clear_eng_params clear r.1),
      ))
      (remove_tasks_loop-calls proj eng eng.tasks trace)
    ∙ ap (λ t. (project_remove_engine proj eng, t))
        (sym (
          log-append (tasks_removal proj eng eng.tasks) tail trace
          ∙ log-append (when eng.ops.clear_eng_params clear)
              (when (is_thirdparty eng.engine_type) close) _
          ∙ log-when (is_thirdparty eng.engine_type) close _
          ∙ ap (emit_if (is_thirdparty eng.engine_type) close) (
              log-when eng.ops.clear_eng_params clear
                (log (tasks_removal proj eng eng.tasks) trace))))

-- As many rounds as there are engines empty the project.
remove_engines_loop-calls :
    (proj : Project) (engs : List Engine) (trace : List Event)
    → remove_engines_loop (length engs) (record proj { engs = engs }) trace
      ≡ (record proj { engs = [] }, log (engines_removal proj engs) trace)
unfolding remove_engines_loop engines_removal log engine_removal tasks_removal task_removal
remove_engines_loop-calls proj [] trace = refl
remove_engines_loop-calls proj (eng ∷ engs) trace =
    let all = record proj { engs = eng ∷ engs } in
    ap (λ r. remove_engines_loop (length engs) r.0 r.1) (do_remove_engine-calls all eng trace)
    ∙ ap
        (λ engs'.
          remove_engines_loop (length engs) (record proj { engs = engs' })
            (log (engine_removal proj eng) trace))
        (remove_by-head engine_name eng engs)
    ∙ remove_engines_loop-calls proj engs (log (engine_removal proj eng) trace)
    ∙ ap (λ t. (record proj { engs = [] }, t))
        (sym (log-append (engine_removal proj eng) (engines_removal proj engs) trace))

-- Removing a project unlinks the first project of its name and makes exactly the calls of
-- `engines_removal`, in that order: for each engine its tasks (each stopped if the project runs
-- and the engine can stop tasks, then cleared if it can clear them), then the engine's own
-- clean-up and, for a thirdparty engine, the release of its library.
pub do_remove_project-calls :
    (proj : Project) (d : Daemon)
    → do_remove_project proj d ≡ record {
      projects = remove_by project_name proj.name d.projects;
      trace = log (engines_removal proj proj.engs) d.trace;
    }
unfolding do_remove_project
do_remove_project-calls proj d =
    ap (λ r. record { projects = remove_by project_name proj.name d.projects; trace = r.1 })
      (remove_engines_loop-calls proj proj.engs d.trace)

-- Clean-up of the whole daemon: as many rounds as there are projects remove them all.
unfoldable pub projects_removal : List Project → List Event
unfolding engines_removal
projects_removal [] = []
projects_removal (proj ∷ projects) = engines_removal proj proj.engs ++ projects_removal projects

stop_all_loop-calls :
    (projects : List Project) (trace : List Event)
    → stop_all_loop (length projects) (record { projects = projects; trace = trace })
      ≡ record { projects = []; trace = log (projects_removal projects) trace }
unfolding stop_all_loop projects_removal log
stop_all_loop-calls [] trace = refl
stop_all_loop-calls (proj ∷ projects) trace =
    let removed = log (engines_removal proj proj.engs) trace in
    ap (stop_all_loop (length projects))
      (do_remove_project-calls proj (record { projects = proj ∷ projects; trace = trace }))
    ∙ ap (λ ps. stop_all_loop (length projects) (record { projects = ps; trace = removed }))
        (remove_by-head project_name proj projects)
    ∙ stop_all_loop-calls projects removed
    ∙ ap (λ t. record { projects = []; trace = t })
        (sym (log-append (engines_removal proj proj.engs) (projects_removal projects) trace))

-- etmemd_stop_all_projects ends, with as many rounds as there are projects, with no project left
-- and having made the removal calls of each project in turn.
pub stop_all_projects-calls :
    (d : Daemon)
    → etmemd_stop_all_projects d
      ≡ record { projects = []; trace = log (projects_removal d.projects) d.trace }
unfolding etmemd_stop_all_projects
stop_all_projects-calls d = stop_all_loop-calls d.projects d.trace
