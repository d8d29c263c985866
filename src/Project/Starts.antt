-- ===== src/Project/Starts.antt =====
-- The calls of the engines' start_task and stop_task by etmemd_migrate_start and etmemd_migrate_stop
-- (etmemd_project.c).
use etmem.Base.{
  ◌≡◌, refl, sym, ap, ap₂, ◌∙◌, Bool, true, false, ◌&&◌, List, [], ◌∷◌, ◌++◌, if◌then◌else◌, String,
  Bool-cases, inl, inr, some, subst,
}
use etmem.Engine.{Engine}
use etmem.Task.{Task}
use etmem.Project.{
  ScanParam, unset, page_scan, region_scan, Project, Env, Event, start_task, stop_task, ScanParam,
  page_scan, Daemon, region_scan, get_proj_by_name, opt_inter_err, opt_success, opt_pro_stopped,
  put_project, OptResult,
}
use etmem.Project.Calls.{log, log-append}
use etmem.Project.Control.{
  start_engine_tasks, project_start_engine, start_tasks, stop_engine_tasks, project_stop_engine,
  stop_tasks, etmemd_migrate_start, set_start, etmemd_migrate_stop, start_scan, stop_scan,
  stop_project, start_project,
}

-- Every call returns 0, each answered in the light of those before it.
unfoldable pub replies_ok : Env → List Event → List Event → Bool
replies_ok env [] trace = true
replies_ok env (e ∷ es) trace = env.reply trace e && replies_ok env es (e ∷ trace)

and_assoc : (a b c : Bool) → (a && b) && c ≡ a && (b && c)
and_assoc true b c = refl
and_assoc false b c = refl

pub replies_ok-append :
    (env : Env) (es fs trace : List Event)
    → replies_ok env (es ++ fs) trace ≡ replies_ok env es trace && replies_ok env fs (log es trace)
unfolding replies_ok log
replies_ok-append env [] fs trace = refl
replies_ok-append env (e ∷ es) fs trace =
    ap (λ b. env.reply trace e && b) (replies_ok-append env es fs (e ∷ trace))
    ∙ sym (and_assoc (env.reply trace e) (replies_ok env es (e ∷ trace)) _)

unfoldable pub starts_of : (proj eng : String) → List Task → List Event
starts_of proj eng [] = []
starts_of proj eng (tk ∷ tks) = start_task proj eng tk.name ∷ starts_of proj eng tks

unfoldable pub stops_of : (proj eng : String) → List Task → List Event
stops_of proj eng [] = []
stops_of proj eng (tk ∷ tks) = stop_task proj eng tk.name ∷ stops_of proj eng tks

-- Every task of every engine that can start tasks.
unfoldable pub project_starts : String → List Engine → List Event
unfolding starts_of
project_starts proj [] = []
project_starts proj (eng ∷ engs) =
    (if eng.ops.start_task then starts_of proj eng.name eng.tasks else [])
    ++ project_starts proj engs

unfoldable pub project_stops : String → List Engine → List Event
unfolding stops_of
project_stops proj [] = []
project_stops proj (eng ∷ engs) =
    (if eng.ops.stop_task then stops_of proj eng.name eng.tasks else []) ++ project_stops proj engs

unfoldable pub all_can_start : List Engine → Bool
all_can_start [] = true
all_can_start (eng ∷ engs) = eng.ops.start_task && all_can_start engs

start_engine_tasks-calls :
    (env : Env) (proj eng : String) (tks : List Task) (trace : List Event)
    → start_engine_tasks env proj eng tks trace
      ≡ (replies_ok env (starts_of proj eng tks) trace, log (starts_of proj eng tks) trace)
unfolding start_engine_tasks replies_ok starts_of log
start_engine_tasks-calls env proj eng [] trace = refl
start_engine_tasks-calls env proj eng (tk ∷ tks) trace =
    let e = start_task proj eng tk.name in
    ap (λ r. (env.reply trace e && r.0, r.1))
      (start_engine_tasks-calls env proj eng tks (e ∷ trace))

regroup : (s r₁ S r₂ : Bool) → (s && r₁) && (S && r₂) ≡ (s && S) && (r₁ && r₂)
regroup true true S r₂ = refl
regroup true false true r₂ = refl
regroup true false false r₂ = refl
regroup false r₁ S r₂ = refl

start_tasks-calls :
    (env : Env) (proj : Project) (engs : List Engine) (trace : List Event)
    → start_tasks env proj engs trace ≡ (
      all_can_start engs && replies_ok env (project_starts proj.name engs) trace,
      log (project_starts proj.name engs) trace,
    )
unfolding start_tasks project_start_engine all_can_start project_starts replies_ok log
start_tasks-calls env proj [] trace = refl
start_tasks-calls env proj (eng ∷ engs) trace = elim (Bool-cases eng.ops.start_task) [
  | inl can ↦
      let calls = starts_of proj.name eng.name eng.tasks in
      rw can (
        ap (λ r. (r.0 && (start_tasks env proj engs r.1).0, (start_tasks env proj engs r.1).1))
          (start_engine_tasks-calls env proj.name eng.name eng.tasks trace)
        ∙ ap (λ r. (replies_ok env calls trace && r.0, r.1))
            (start_tasks-calls env proj engs (log calls trace))
        ∙ ap₂ (λ b t. (b, t))
            (regroup true (replies_ok env calls trace) (all_can_start engs) _
              ∙ ap (λ b. all_can_start engs && b)
                  (sym (replies_ok-append env calls (project_starts proj.name engs) trace)))
            (sym (log-append calls (project_starts proj.name engs) trace)))
  | inr not ↦ rw not (ap (λ r. (false, r.1)) (start_tasks-calls env proj engs trace))
]

stop_engine_tasks-calls :
    (proj eng : String) (tks : List Task) (trace : List Event)
    → stop_engine_tasks proj eng tks trace ≡ log (stops_of proj eng tks) trace
unfolding stop_engine_tasks stops_of log
stop_engine_tasks-calls proj eng [] trace = refl
stop_engine_tasks-calls proj eng (tk ∷ tks) trace = stop_engine_tasks-calls proj eng tks _

stop_tasks-calls :
    (proj : Project) (engs : List Engine) (trace : List Event)
    → stop_tasks proj engs trace ≡ log (project_stops proj.name engs) trace
unfolding stop_tasks project_stop_engine project_stops log
stop_tasks-calls proj [] trace = refl
stop_tasks-calls proj (eng ∷ engs) trace = elim (Bool-cases eng.ops.stop_task) [
  | inl can ↦
      let calls = stops_of proj.name eng.name eng.tasks in
      rw can (
        ap (stop_tasks proj engs) (stop_engine_tasks-calls proj.name eng.name eng.tasks trace)
        ∙ stop_tasks-calls proj engs (log calls trace)
        ∙ sym (log-append calls (project_stops proj.name engs) trace))
  | inr not ↦ rw not (stop_tasks-calls proj engs trace)
]

-- Whether the project walks pages, or has no scan group at all.
unfoldable pub by_tasks : ScanParam → Bool
by_tasks unset = true
by_tasks (page_scan _) = true
by_tasks (region_scan _) = false

start_scan-by_tasks :
    (env : Env) (proj : Project) (s : ScanParam) (trace : List Event)
    → by_tasks s ≡ true
    → start_scan env proj s trace ≡ start_tasks env proj proj.engs trace
unfolding start_scan by_tasks
start_scan-by_tasks env proj unset trace h = refl
start_scan-by_tasks env proj (page_scan _) trace h = refl
start_scan-by_tasks env proj (region_scan _) trace h = cc

stop_scan-by_tasks :
    (env : Env) (proj : Project) (s : ScanParam) (trace : List Event)
    → by_tasks s ≡ true
    → stop_scan env proj s trace ≡ (true, stop_tasks proj proj.engs trace)
unfolding stop_scan by_tasks
stop_scan-by_tasks env proj unset trace h = refl
stop_scan-by_tasks env proj (page_scan _) trace h = refl
stop_scan-by_tasks env proj (region_scan _) trace h = cc

-- What a start leaves of the daemon, by whether the calls all worked.
abbrev pub Outcome : Bool → Project → Daemon → List Event → OptResult × Daemon → Type 0
Outcome true proj d trace r = r ≡ (
  opt_success,
  record { projects = put_project (record proj { start = true }) d.projects; trace = trace },
)
Outcome false proj d trace r = r ≡ (opt_inter_err, record { projects = d.projects; trace = trace })

set_start-Outcome :
    (ok : Bool) (proj : Project) (d : Daemon) (trace : List Event)
    → Outcome ok proj d trace (set_start true proj d (ok, trace))
unfolding set_start
set_start-Outcome true proj d trace = refl
set_start-Outcome false proj d trace = refl

start_outcome :
    (env : Env) (name : String) (d : Daemon) (proj : Project)
    → get_proj_by_name name d.projects ≡ some proj
    → proj.start ≡ false
    → by_tasks proj.scan_param ≡ true
    → etmemd_migrate_start env (some name) d
      ≡ set_start true proj d (
        all_can_start proj.engs && replies_ok env (project_starts proj.name proj.engs) d.trace,
        log (project_starts proj.name proj.engs) d.trace,
      )
unfolding etmemd_migrate_start start_project
start_outcome env name d proj found off page = rw found (
    rw off (
      ap (set_start true proj d) (
        start_scan-by_tasks env proj proj.scan_param d.trace page
        ∙ start_tasks-calls env proj proj.engs d.trace)))

-- Starting a stopped project that is not scanned by regions starts every task of every engine
-- that can, in order and also after one that failed. If every engine can start tasks and every
-- start returned 0, the project is marked as started, with the answer OPT_SUCCESS; else it is
-- not, and the answer is OPT_INTER_ERR.
pub migrate_start-calls :
    (env : Env) (name : String) (d : Daemon) (proj : Project)
    → get_proj_by_name name d.projects ≡ some proj
    → proj.start ≡ false
    → by_tasks proj.scan_param ≡ true
    → Outcome
        (all_can_start proj.engs && replies_ok env (project_starts proj.name proj.engs) d.trace)
        proj
        d
        (log (project_starts proj.name proj.engs) d.trace)
        (etmemd_migrate_start env (some name) d)
migrate_start-calls env name d proj found off page =
    let ok =
      all_can_start proj.engs && replies_ok env (project_starts proj.name proj.engs) d.trace in
    let trace = log (project_starts proj.name proj.engs) d.trace in
    subst (λ (r : OptResult × Daemon). Outcome ok proj d trace r)
      (sym (start_outcome env name d proj found off page)) (set_start-Outcome ok proj d trace)

-- Stopping a started project that is not scanned by regions stops every task of every engine that
-- can, in order, marks the project as stopped and answers OPT_SUCCESS.
pub migrate_stop-calls :
    (env : Env) (name : String) (d : Daemon) (proj : Project)
    → get_proj_by_name name d.projects ≡ some proj
    → proj.start ≡ true
    → by_tasks proj.scan_param ≡ true
    → etmemd_migrate_stop env (some name) d ≡ (
      opt_success,
      record {
        projects = put_project (record proj { start = false }) d.projects;
        trace = log (project_stops proj.name proj.engs) d.trace;
      },
    )
unfolding etmemd_migrate_stop stop_project set_start
migrate_stop-calls env name d proj found on page = rw found (
    rw on (
      ap (set_start false proj d) (
        stop_scan-by_tasks env proj proj.scan_param d.trace page
        ∙ ap (λ t. (true, t)) (stop_tasks-calls proj proj.engs d.trace))))

-- If the start of a stopped project that is not scanned by regions fails, because an engine
-- cannot start tasks or a start did not return 0, then every start was still made, the project
-- stays stopped, and the stop command that follows is refused with OPT_PRO_STOPPED and makes no
-- call: no task is stopped.
pub failed_start-runs_on :
    (env env' : Env) (name : String) (d : Daemon) (proj : Project)
    → get_proj_by_name name d.projects ≡ some proj
    → proj.start ≡ false
    → by_tasks proj.scan_param ≡ true
    → all_can_start proj.engs && replies_ok env (project_starts proj.name proj.engs) d.trace ≡ false
    → let d' = record d { trace = log (project_starts proj.name proj.engs) d.trace } in
      (etmemd_migrate_start env (some name) d ≡ (opt_inter_err, d'))
      × (etmemd_migrate_stop env' (some name) d' ≡ (opt_pro_stopped, d'))
unfolding set_start etmemd_migrate_stop stop_project
failed_start-runs_on env env' name d proj found off page failed = (
  start_outcome env name d proj found off page
      ∙ ap (λ b. set_start true proj d (b, log (project_starts proj.name proj.engs) d.trace))
          failed,
  rw found (rw off refl),
)
