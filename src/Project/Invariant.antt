-- ===== src/Project/Invariant.antt =====
-- The invariant of the registry of etmemd_project.c, and the editing steps on its lists.
use etmem.Base.{◌≡◌, refl, sym, subst, List, [], some, String}
use etmem.Base.Named.{
  All, Absent, Distinct, names, All-find_by, All-remove_by, All-update_by, names-update_by,
  remove_by-Distinct,
}
use etmem.Engine.{Engine}
use etmem.Task.{Task}
use etmem.Project.{
  Project, Daemon, Event, OptResult, project_name, engine_name, task_name, get_proj_by_name,
  get_eng_by_name, put_engine, project_insert_engine, project_remove_engine, project_insert_task,
  project_remove_task,
}
use etmem.Project.Tasks.{with_project}
use etmem.Project.Valid.{ParamsValid}

-- No two tasks of an engine share a name.
abbrev pub EngineValid : Engine → Type 0
EngineValid eng = Distinct (names task_name eng.tasks)

-- The parameters are in range, and no two engines of the project share a name.
pub record ProjectValid (p : Project) : Type 0 where
  pub params : ParamsValid p
  pub engines : Distinct (names engine_name p.engs)
  pub tasks : All EngineValid p.engs

-- No two projects share a name.
pub record DaemonValid (d : Daemon) : Type 0 where
  pub distinct : Distinct (names project_name d.projects)
  pub projects : All ProjectValid d.projects

-- Of a command's result and the state it leaves.
abbrev pub AfterValid : OptResult × Daemon → Type 0
AfterValid r = DaemonValid r.1

-- The engines are no part of the parameters.
with_engs-ParamsValid :
    (p : Project) (engs : List Engine) → ParamsValid p → ParamsValid (record p { engs = engs })
with_engs-ParamsValid p engs v = record {
  threshold_low = v.threshold_low;
  threshold_high = v.threshold_high;
  wmarks = v.wmarks;
  scan = v.scan;
}

pub with_start-ProjectValid :
    (p : Project) (on : _) → ProjectValid p → ProjectValid (record p { start = on })
with_start-ProjectValid p on v = record {
  params = record {
    threshold_low = v.params.threshold_low;
    threshold_high = v.params.threshold_high;
    wmarks = v.params.wmarks;
    scan = v.params.scan;
  };
  engines = v.engines;
  tasks = v.tasks;
}

pub insert_task-EngineValid :
    (eng : Engine) (tk : Task)
    → EngineValid eng
    → Absent tk.name (names task_name eng.tasks)
    → EngineValid (project_insert_task eng tk)
insert_task-EngineValid eng tk v fresh = (fresh, v)

pub remove_task-EngineValid :
    (eng : Engine) (tk : Task) → EngineValid eng → EngineValid (project_remove_task eng tk)
remove_task-EngineValid eng tk v = remove_by-Distinct task_name tk.name eng.tasks v

pub put_engine-ProjectValid :
    (p : Project) (eng : Engine)
    → ProjectValid p
    → EngineValid eng
    → ProjectValid (put_engine p eng)
put_engine-ProjectValid p eng v e = record {
  params = with_engs-ParamsValid p _ v.params;
  engines =
      subst Distinct (sym (names-update_by engine_name eng.name (λ _. eng) p.engs (λ x _. refl)))
        v.engines;
  tasks = All-update_by engine_name EngineValid eng.name (λ _. eng) p.engs v.tasks (λ x _ _. e);
}

pub insert_engine-ProjectValid :
    (p : Project) (eng : Engine)
    → ProjectValid p
    → Absent eng.name (names engine_name p.engs)
    → eng.tasks ≡ []
    → ProjectValid (project_insert_engine p eng)
insert_engine-ProjectValid p eng v fresh bare = record {
  params = with_engs-ParamsValid p _ v.params;
  engines = (fresh, v.engines);
  tasks = (subst (λ tks. Distinct (names task_name tks)) (sym bare) tt, v.tasks);
}

pub remove_engine-ProjectValid :
    (p : Project) (eng : Engine) → ProjectValid p → ProjectValid (project_remove_engine p eng)
remove_engine-ProjectValid p eng v = record {
  params = with_engs-ParamsValid p _ v.params;
  engines = remove_by-Distinct engine_name eng.name p.engs v.engines;
  tasks = All-remove_by engine_name EngineValid eng.name p.engs v.tasks;
}

pub with_project-DaemonValid :
    (d : Daemon) (p : Project) (trace : List Event)
    → DaemonValid d
    → ProjectValid p
    → DaemonValid (with_project d p trace)
with_project-DaemonValid d p trace v pv = record {
  distinct =
      subst Distinct (sym (names-update_by project_name p.name (λ _. p) d.projects (λ x _. refl)))
        v.distinct;
  projects =
      All-update_by project_name ProjectValid p.name (λ _. p) d.projects v.projects (λ x _ _. pv);
}

-- What a lookup finds is valid.
pub found-ProjectValid :
    (name : String) (d : Daemon) (p : Project)
    → DaemonValid d
    → get_proj_by_name name d.projects ≡ some p
    → ProjectValid p
found-ProjectValid name d p v h = All-find_by project_name ProjectValid name d.projects v.projects h

pub found-EngineValid :
    (name : String) (p : Project) (eng : Engine)
    → ProjectValid p
    → get_eng_by_name p name ≡ some eng
    → EngineValid eng
found-EngineValid name p eng v h = All-find_by engine_name EngineValid name p.engs v.tasks h
