-- ===== src/Project/Session.antt =====
-- A session of the daemon: any commands, in any order, each in surroundings of its own.
use etmem.Base.{List, [], ◌∷◌, Option, String, subst, sym}
use etmem.Config.{KeyFile}
use etmem.Project.{Daemon, Env, OptResult, opt_success, boot, project_name}
use etmem.Project.Tasks.{
  etmemd_project_add_task, etmemd_project_remove_task, etmemd_project_add_engine,
  etmemd_project_remove_engine,
}
use etmem.Project.Control.{
  etmemd_project_add, etmemd_project_remove, etmemd_migrate_start, etmemd_migrate_stop,
  etmemd_project_mgt_engine, etmemd_stop_all_projects,
}
use etmem.Project.Invariant.{AfterValid, DaemonValid, ProjectValid}
use etmem.Base.Named.{All, Distinct, names}
use etmem.Project.TaskSteps.{
  add_task-DaemonValid, remove_task-DaemonValid, add_engine-DaemonValid, remove_engine-DaemonValid,
}
use etmem.Project.ControlSteps.{
  add_project_cmd-DaemonValid, remove_project_cmd-DaemonValid, migrate_start-DaemonValid,
  migrate_stop-DaemonValid, mgt_engine-projects, stop_all-DaemonValid,
}

-- The commands that the daemon serves, and its own clean-up.
pub data Command : Type 0 where
  add_project remove_project add_engine remove_engine add_task remove_task : KeyFile → Command
  start stop : (name : Option String) → Command
  mgt_engine : (project eng cmd task : Option String) → Command
  stop_all : Command

unfoldable pub execute : Env → Command → Daemon → OptResult × Daemon
execute env (add_project config) d = etmemd_project_add env config d
execute env (remove_project config) d = etmemd_project_remove config d
execute env (add_engine config) d = etmemd_project_add_engine env config d
execute env (remove_engine config) d = etmemd_project_remove_engine config d
execute env (add_task config) d = etmemd_project_add_task env config d
execute env (remove_task config) d = etmemd_project_remove_task config d
execute env (start name) d = etmemd_migrate_start env name d
execute env (stop name) d = etmemd_migrate_stop env name d
execute env (mgt_engine project eng cmd task) d =
    etmemd_project_mgt_engine env project eng cmd task d
execute env stop_all d = (opt_success, etmemd_stop_all_projects d)

unfoldable pub run : List (Env × Command) → Daemon → Daemon
run [] d = d
run ((env, c) ∷ cs) d = run cs (execute env c d).1

pub execute-DaemonValid :
    (env : Env) (c : Command) (d : Daemon) → DaemonValid d → AfterValid (execute env c d)
unfolding execute
execute-DaemonValid env (add_project config) d v = add_project_cmd-DaemonValid env config d v
execute-DaemonValid env (remove_project config) d v = remove_project_cmd-DaemonValid env config d v
execute-DaemonValid env (add_engine config) d v = add_engine-DaemonValid env config d v
execute-DaemonValid env (remove_engine config) d v = remove_engine-DaemonValid env config d v
execute-DaemonValid env (add_task config) d v = add_task-DaemonValid env config d v
execute-DaemonValid env (remove_task config) d v = remove_task-DaemonValid env config d v
execute-DaemonValid env (start name) d v = migrate_start-DaemonValid env d v name
execute-DaemonValid env (stop name) d v = migrate_stop-DaemonValid env d v name
execute-DaemonValid env (mgt_engine project eng cmd task) d v =
    let same = mgt_engine-projects env project eng cmd task d in
    record {
      distinct = subst (λ ps. Distinct (names project_name ps)) (sym same) v.distinct;
      projects = subst (All ProjectValid) (sym same) v.projects;
    }
execute-DaemonValid env stop_all d v = stop_all-DaemonValid d v

-- After any session of a daemon that started empty, no two projects share a name, nor two engines of
-- a project, nor two tasks of an engine, and every project's parameters are in range.
pub run-DaemonValid :
    (cs : List (Env × Command)) (d : Daemon) → DaemonValid d → DaemonValid (run cs d)
unfolding run
run-DaemonValid [] d v = v
run-DaemonValid ((env, c) ∷ cs) d v = run-DaemonValid cs _ (execute-DaemonValid env c d v)

-- After any sequence of the daemon's commands and clean-ups, each in surroundings of its own,
-- from an empty daemon: no two projects share a name, no two engines of a project, no two tasks
-- of an engine, and the parameters of every project are in their ranges.
pub run-boot-DaemonValid : (cs : List (Env × Command)) → DaemonValid (run cs boot)
run-boot-DaemonValid cs = run-DaemonValid cs boot (record { distinct = tt; projects = tt })
