-- ===== src/Project/Atomic.antt =====
-- The commands of etmemd_project.c that end with an error code.
use etmem.Base.{◌≡◌, refl, sym, ap, subst, ◌≢◌, Bool, true, false, List, Option, none, some, String}
use etmem.Base.Named.{find_by-name, update_by_self, remove_by-head}
use etmem.Config.{KeyFile}
use etmem.Engine.{Engine, eng_group}
use etmem.Task.{Task, task_group}
use etmem.Project.{
  Project, Daemon, Env, Event, OptResult, opt_success, project_name, engine_name, task_name,
  get_proj_by_name, get_eng_by_name, put_project, put_engine, project_insert_task,
  project_remove_task, project_insert_engine, project_remove_engine,
}
use etmem.Project.Tasks.{
  Result, ok, err, get_group_task, get_group_engine, add_task_to, add_new_task, link_task,
  finish_task, add_engine_to, link_engine, finish_engine, remove_task_from, remove_engine_from,
}
use etmem.Project.Tasks.{
  etmemd_project_add_task, etmemd_project_remove_task, etmemd_project_add_engine,
  etmemd_project_remove_engine,
}
use etmem.Project.Control.{
  new_project, insert_project, add_project, etmemd_project_add, remove_project,
  etmemd_project_remove,
}
use etmem.Project.Session.{Command, execute}
use etmem.Project.Found.{get_group_task-found, get_group_engine-found}

-- Either the command succeeds, or the projects are those of before.
abbrev pub Atomic : Daemon → OptResult × Daemon → Type 0
Atomic d r = r.0 ≢ opt_success → r.1.projects ≡ d.projects

-- Writing back what a lookup found changes nothing.
put_found :
    (d : Daemon) (name : String) (proj p : Project)
    → get_proj_by_name name d.projects ≡ some proj
    → p ≡ proj
    → put_project p d.projects ≡ d.projects
put_found d name proj p h e = rw (e) (
    update_by_self project_name proj.name (λ _. proj) d.projects
      (subst (λ n. get_proj_by_name n d.projects ≡ some proj)
        (sym (find_by-name project_name name d.projects h)) h)
      refl)

put_found_engine :
    (proj : Project) (name : String) (eng e : Engine)
    → get_eng_by_name proj name ≡ some eng
    → e ≡ eng
    → put_engine proj e ≡ proj
put_found_engine proj name eng e h same = rw same (
    ap (λ engs. record proj { engs = engs })
      (update_by_self engine_name eng.name (λ _. eng) proj.engs
        (subst (λ n. get_eng_by_name proj n ≡ some eng)
          (sym (find_by-name engine_name name proj.engs h)) h)
        refl))

-- Unlinking the task that was just linked gives the engine back.
unlink_task : (eng : Engine) (tk : Task) → project_remove_task (project_insert_task eng tk) tk ≡ eng
unlink_task eng tk = ap (λ tks. record eng { tasks = tks }) (remove_by-head task_name tk eng.tasks)

unlink_engine :
    (proj : Project) (eng : Engine)
    → project_remove_engine (project_insert_engine proj eng) eng ≡ proj
unlink_engine proj eng =
    ap (λ engs. record proj { engs = engs }) (remove_by-head engine_name eng proj.engs)

finish_task-Atomic :
    (proj : Project) (eng linked : Engine) (tk : Task) (d : Daemon) (name eng_name : String)
    (filled : Bool) (trace₁ : List Event) (started : Bool) (trace₂ : List Event)
    → get_proj_by_name name d.projects ≡ some proj
    → get_eng_by_name proj eng_name ≡ some eng
    → project_remove_task linked tk ≡ eng
    → Atomic d (finish_task proj linked tk d filled trace₁ started trace₂)
unfolding finish_task
finish_task-Atomic proj eng linked tk d name eng_name true trace₁ true trace₂ p q u n =
    absurd (n refl)
finish_task-Atomic proj eng linked tk d name eng_name true trace₁ false trace₂ p q u n =
    put_found d name proj _ p (put_found_engine proj eng_name eng _ q u)
finish_task-Atomic proj eng linked tk d name eng_name false trace₁ started trace₂ p q u n =
    put_found d name proj _ p (put_found_engine proj eng_name eng _ q u)

add_new_task-Atomic :
    (env : Env) (proj : Project) (eng : Engine) (o : Option Task) (d : Daemon)
    (name eng_name : String)
    → get_proj_by_name name d.projects ≡ some proj
    → get_eng_by_name proj eng_name ≡ some eng
    → Atomic d (add_new_task env proj eng o d)
unfolding add_new_task link_task
add_new_task-Atomic env proj eng none d name eng_name p q n = refl
add_new_task-Atomic env proj eng (some tk) d name eng_name p q n =
    finish_task-Atomic proj eng (project_insert_task eng tk) tk d name eng_name _ _ _ _ p q
      (unlink_task eng tk) n

add_task_to-Atomic :
    (env : Env) (config : KeyFile) (d : Daemon) (r : Result (Project × Engine × Option Task))
    → get_group_task config task_group d.projects ≡ r
    → Atomic d (add_task_to env config d r)
unfolding add_task_to
add_task_to-Atomic env config d (err e) h n = refl
add_task_to-Atomic env config d (ok (proj, eng, some tk)) h n = refl
add_task_to-Atomic env config d (ok (proj, eng, none)) h n =
    let f = get_group_task-found config task_group d.projects proj eng none h in
    add_new_task-Atomic env proj eng _ d f.name f.eng_name f.found f.engine n

finish_engine-Atomic :
    (proj linked : Project) (eng : Engine) (d : Daemon) (name : String) (filled : Bool)
    (trace : List Event)
    → get_proj_by_name name d.projects ≡ some proj
    → project_remove_engine linked eng ≡ proj
    → Atomic d (finish_engine linked eng d filled trace)
unfolding finish_engine
finish_engine-Atomic proj linked eng d name true trace p u n = absurd (n refl)
finish_engine-Atomic proj linked eng d name false trace p u n = put_found d name proj _ p u

link_engine-Atomic :
    (env : Env) (proj : Project) (o : Option Engine) (d : Daemon) (name : String)
    → get_proj_by_name name d.projects ≡ some proj
    → Atomic d (link_engine env proj o d)
unfolding link_engine
link_engine-Atomic env proj none d name p n = refl
link_engine-Atomic env proj (some eng) d name p n =
    finish_engine-Atomic proj (project_insert_engine proj eng) eng d name _ _ p
      (unlink_engine proj eng) n

add_engine_to-Atomic :
    (env : Env) (config : KeyFile) (d : Daemon) (r : Result (Project × Option Engine))
    → get_group_engine config eng_group d.projects ≡ r
    → Atomic d (add_engine_to env config d r)
unfolding add_engine_to
add_engine_to-Atomic env config d (err e) h n = refl
add_engine_to-Atomic env config d (ok (proj, some eng)) h n = refl
add_engine_to-Atomic env config d (ok (proj, none)) h n =
    let f = get_group_engine-found config eng_group d.projects proj none h in
    link_engine-Atomic env proj _ d f.name f.found n

remove_task_from-Atomic :
    (d : Daemon) (r : Result (Project × Engine × Option Task)) → Atomic d (remove_task_from d r)
unfolding remove_task_from
remove_task_from-Atomic d (err e) n = refl
remove_task_from-Atomic d (ok (proj, eng, none)) n = refl
remove_task_from-Atomic d (ok (proj, eng, some tk)) n = absurd (n refl)

remove_engine_from-Atomic :
    (d : Daemon) (r : Result (Project × Option Engine)) → Atomic d (remove_engine_from d r)
unfolding remove_engine_from
remove_engine_from-Atomic d (err e) n = refl
remove_engine_from-Atomic d (ok (proj, none)) n = refl
remove_engine_from-Atomic d (ok (proj, some eng)) n = absurd (n refl)

insert_project-Atomic : (d : Daemon) (r : Result Project) → Atomic d (insert_project d r)
unfolding insert_project
insert_project-Atomic d (err e) n = refl
insert_project-Atomic d (ok proj) n = absurd (n refl)

add_project-Atomic :
    (env : Env) (config : KeyFile) (d : Daemon) (r : Result (Option Project))
    → Atomic d (add_project env config d r)
unfolding add_project
add_project-Atomic env config d (err e) n = refl
add_project-Atomic env config d (ok (some proj)) n = refl
add_project-Atomic env config d (ok none) n = insert_project-Atomic d (new_project env config) n

remove_project-Atomic : (d : Daemon) (r : Result (Option Project)) → Atomic d (remove_project d r)
unfolding remove_project
remove_project-Atomic d (err e) n = refl
remove_project-Atomic d (ok none) n = refl
remove_project-Atomic d (ok (some proj)) n = absurd (n refl)

-- The commands that change which projects, engines and tasks there are, and nothing else. A start or a stop
-- changes what a task has at run time, also where it fails, and an engine's command what its engine has.
abbrev pub registers : Command → Bool
registers (Command.start name) = false
registers (Command.stop name) = false
registers (Command.mgt_engine project eng cmd task) = false
registers _ = true

-- If a command that adds or removes a project, an engine or a task, whatever its surroundings,
-- has an answer other than OPT_SUCCESS, then the list of projects, with all their engines and
-- tasks, is exactly that of before, as far as the configuration fills it.
pub execute-Atomic :
    (env : Env) (c : Command) (d : Daemon) → registers c ≡ true → Atomic d (execute env c d)
unfolding execute etmemd_project_add etmemd_project_remove etmemd_project_add_engine
    etmemd_project_remove_engine etmemd_project_add_task etmemd_project_remove_task
execute-Atomic env (Command.add_project config) d r n = add_project-Atomic env config d _ n
execute-Atomic env (Command.remove_project config) d r n = remove_project-Atomic d _ n
execute-Atomic env (Command.add_engine config) d r n = add_engine_to-Atomic env config d _ refl n
execute-Atomic env (Command.remove_engine config) d r n = remove_engine_from-Atomic d _ n
execute-Atomic env (Command.add_task config) d r n = add_task_to-Atomic env config d _ refl n
execute-Atomic env (Command.remove_task config) d r n = remove_task_from-Atomic d _ n
execute-Atomic env (Command.start name) d r n = cc
execute-Atomic env (Command.stop name) d r n = cc
execute-Atomic env (Command.mgt_engine project eng cmd task) d r n = cc
execute-Atomic env Command.stop_all d r n = absurd (n refl)
