-- ===== src/Project/ControlSteps.antt =====
-- The registry after the commands on projects (etmemd_project.c).
use Prim.Native.Nat.{zero, suc}
use etmem.Base.{
  [], ◌∷◌, ◌≡◌, refl, sym, subst, ◌∙◌, Bool, true, false, List, Option, none, some, String,
  Bool-cases, inl, inr, ℕ, suc, arith,
}
use etmem.Base.Options.{some_inj}
use etmem.Base.Named.{Absent, Distinct, All, names, remove_by-Distinct, All-remove_by}
use etmem.Config.{KeyFile}
use etmem.Project.Params.{proj_group, project_fill_by_conf, scan_fill_by_conf, blank_project}
use etmem.Project.{
  Project, Daemon, Env, Event, engine_name, project_name, project_site, get_proj_by_name,
}
use etmem.Project.Tasks.{Result, ok, err, ok_inj, project_of_group}
use etmem.Project.Control.{
  scan_filled, filled_project, allocated_project, new_project, add_project, insert_project,
  do_remove_project, remove_project, set_start, start_project, stop_project, start_scan, stop_scan,
  etmemd_stop_all_projects, etmemd_project_remove, etmemd_project_add, etmemd_project_mgt_engine,
  stop_all_loop, etmemd_migrate_stop, etmemd_migrate_start, mgt_project, mgt_task, call_mgt,
}
use etmem.Project.Names.{project_of_group-none}
use etmem.Project.Valid.{NewValid, fills-NewValid}
use etmem.Project.Invariant.{
  AfterValid, EngineValid, ProjectValid, DaemonValid, with_start-ProjectValid,
  with_project-DaemonValid, found-ProjectValid,
}

-- A project made by the two fills is valid on its own, and named as the file says.
scan_filled-NewValid :
    (env : Env) (config : KeyFile) (p : Project) (o : Option Project) (proj : Project)
    → project_fill_by_conf env config blank_project ≡ some p
    → scan_fill_by_conf config p ≡ o
    → scan_filled o ≡ ok proj
    → NewValid config proj
unfolding scan_filled
scan_filled-NewValid env config p none proj h k e = cc
scan_filled-NewValid env config p (some p') proj h k e =
    subst (NewValid config) (ok_inj e) (fills-NewValid env config p p' h k)

filled_project-NewValid :
    (env : Env) (config : KeyFile) (o : Option Project) (proj : Project)
    → project_fill_by_conf env config blank_project ≡ o
    → filled_project config o ≡ ok proj
    → NewValid config proj
unfolding filled_project
filled_project-NewValid env config none proj h e = cc
filled_project-NewValid env config (some p) proj h e =
    scan_filled-NewValid env config p _ proj h refl e

allocated_project-NewValid :
    (env : Env) (config : KeyFile) (alloc : Bool) (proj : Project)
    → allocated_project env config alloc ≡ ok proj
    → NewValid config proj
unfolding allocated_project
allocated_project-NewValid env config true proj e = filled_project-NewValid env config _ proj refl e
allocated_project-NewValid env config false proj e = cc

new_project-NewValid :
    (env : Env) (config : KeyFile) (proj : Project)
    → new_project env config ≡ ok proj
    → NewValid config proj
unfolding new_project
new_project-NewValid env config proj e =
    allocated_project-NewValid env config (env.alloc project_site) proj e

NewValid-ProjectValid :
    (config : KeyFile) (proj : Project) → NewValid config proj → ProjectValid proj
NewValid-ProjectValid config proj n = record {
  params = n.params;
  engines = subst (λ engs. Distinct (names engine_name engs)) (sym n.no_engs) tt;
  tasks = subst (All EngineValid) (sym n.no_engs) tt;
}

add_project-DaemonValid :
    (env : Env) (config : KeyFile) (d : Daemon) (r : Result (Option Project))
    → project_of_group config proj_group d.projects ≡ r
    → DaemonValid d
    → AfterValid (add_project env config d r)
unfolding add_project
add_project-DaemonValid env config d (err e) h v = v
add_project-DaemonValid env config d (ok (some proj)) h v = v
add_project-DaemonValid env config d (ok none) h v = made (new_project env config) refl
  where
    made : (r : Result Project) → new_project env config ≡ r → AfterValid (insert_project d r)
    made (err e) m = v
    made (ok proj) m =
        let (name, named, fresh) = project_of_group-none config d.projects h in
        let n = new_project-NewValid env config proj m in
        record {
          distinct = (
            subst (λ k. Absent k (names project_name d.projects)) (some_inj (sym named ∙ n.named))
                fresh,
            v.distinct,
          );
          projects = (NewValid-ProjectValid config proj n, v.projects);
        }

do_remove_project-DaemonValid :
    (proj : Project) (d : Daemon) → DaemonValid d → DaemonValid (do_remove_project proj d)
unfolding do_remove_project
do_remove_project-DaemonValid proj d v = record {
  distinct = remove_by-Distinct project_name proj.name d.projects v.distinct;
  projects = All-remove_by project_name ProjectValid proj.name d.projects v.projects;
}

remove_project-DaemonValid :
    (d : Daemon) (r : Result (Option Project)) → DaemonValid d → AfterValid (remove_project d r)
unfolding remove_project
remove_project-DaemonValid d (err e) v = v
remove_project-DaemonValid d (ok none) v = v
remove_project-DaemonValid d (ok (some proj)) v = do_remove_project-DaemonValid proj d v

set_start-DaemonValid :
    (on : Bool) (proj : Project) (d : Daemon) (r : Bool × List Event)
    → DaemonValid d
    → ProjectValid proj
    → AfterValid (set_start on proj d r)
unfolding set_start
set_start-DaemonValid on proj d (true, trace) v pv =
    with_project-DaemonValid d (record proj { start = on }) trace v
      (with_start-ProjectValid proj on pv)
set_start-DaemonValid on proj d (false, trace) v pv = record {
  distinct = v.distinct;
  projects = v.projects;
}

start_project-DaemonValid :
    (env : Env) (name : String) (d : Daemon) (o : Option Project)
    → get_proj_by_name name d.projects ≡ o
    → DaemonValid d
    → AfterValid (start_project env d o)
unfolding start_project
start_project-DaemonValid env name d none h v = v
start_project-DaemonValid env name d (some proj) h v = elim (Bool-cases proj.start) [
  | inl on ↦ rw on v
  | inr off ↦ rw off (
      set_start-DaemonValid true proj d (start_scan env proj proj.scan_param d.trace) v
        (found-ProjectValid name d proj v h))
]

stop_project-DaemonValid :
    (env : Env) (name : String) (d : Daemon) (o : Option Project)
    → get_proj_by_name name d.projects ≡ o
    → DaemonValid d
    → AfterValid (stop_project env d o)
unfolding stop_project
stop_project-DaemonValid env name d none h v = v
stop_project-DaemonValid env name d (some proj) h v = elim (Bool-cases proj.start) [
  | inl on ↦ rw on (
      set_start-DaemonValid false proj d (stop_scan env proj proj.scan_param d.trace) v
        (found-ProjectValid name d proj v h))
  | inr off ↦ rw off v
]

module _ (env : Env) (config : KeyFile) (d : Daemon) (v : DaemonValid d) where
  pub add_project_cmd-DaemonValid : AfterValid (etmemd_project_add env config d)
  unfolding etmemd_project_add
  add_project_cmd-DaemonValid = add_project-DaemonValid env config d _ refl v

  pub remove_project_cmd-DaemonValid : AfterValid (etmemd_project_remove config d)
  unfolding etmemd_project_remove
  remove_project_cmd-DaemonValid = remove_project-DaemonValid d _ v

module _ (env : Env) (d : Daemon) (v : DaemonValid d) where
  pub migrate_start-DaemonValid :
      (name : Option String) → AfterValid (etmemd_migrate_start env name d)
  unfolding etmemd_migrate_start
  migrate_start-DaemonValid none = v
  migrate_start-DaemonValid (some name) = start_project-DaemonValid env name d _ refl v

  pub migrate_stop-DaemonValid :
      (name : Option String) → AfterValid (etmemd_migrate_stop env name d)
  unfolding etmemd_migrate_stop
  migrate_stop-DaemonValid none = v
  migrate_stop-DaemonValid (some name) = stop_project-DaemonValid env name d _ refl v

-- Managing an engine leaves the projects alone.
pub mgt_engine-projects :
    (env : Env) (project eng cmd task : Option String) (d : Daemon)
    → (etmemd_project_mgt_engine env project eng cmd task d).1.projects ≡ d.projects
unfolding etmemd_project_mgt_engine mgt_project mgt_task call_mgt
mgt_engine-projects env none eng cmd task d = refl
mgt_engine-projects env (some p) none cmd task d = refl
mgt_engine-projects env (some p) (some e) none task d = refl
mgt_engine-projects env (some p) (some e) (some c) none d = ground arith
mgt_engine-projects env (some p) (some e) (some c) (some t) d = ground arith

stop_all_loop-DaemonValid :
    (rounds : ℕ) (d : Daemon) (projects : List Project)
    → d.projects ≡ projects
    → DaemonValid d
    → DaemonValid (stop_all_loop rounds d)
unfolding stop_all_loop
stop_all_loop-DaemonValid zero d projects e v = v
stop_all_loop-DaemonValid (suc rounds) d [] e v = rw (e, stop_all_loop) v
stop_all_loop-DaemonValid (suc rounds) d (proj ∷ projects) e v =
    rw (e, stop_all_loop)
      (stop_all_loop-DaemonValid rounds (do_remove_project proj d) _ refl
        (do_remove_project-DaemonValid proj d v))

pub stop_all-DaemonValid : (d : Daemon) → DaemonValid d → DaemonValid (etmemd_stop_all_projects d)
unfolding etmemd_stop_all_projects
stop_all-DaemonValid d v = stop_all_loop-DaemonValid _ d _ refl v
