-- ===== src/Project/TaskSteps.antt =====
-- The registry after the commands on tasks and engines (etmemd_project.c).
use etmem.Base.{Bool, true, false, ◌≡◌, refl, sym, subst, ◌∙◌, [], Option, none, some, List}
use etmem.Base.Named.{Absent, names}
use etmem.Config.{KeyFile}
use etmem.Engine.{Engine, eng_group, etmemd_engine_add}
use etmem.Engine.Made.{etmemd_engine_add-EngineNamed}
use etmem.Task.{Task, task_group, etmemd_add_task}
use etmem.Task.Made.{etmemd_add_task-TaskMade}
use etmem.Base.Options.{some_inj}
use etmem.Project.{
  Project, Daemon, Env, engine_name, task_name, task_site, engine_site, project_insert_task,
  project_insert_engine, Event,
}
use etmem.Project.Tasks.{
  Result, ok, err, get_group_engine, get_group_task, add_task_to, add_new_task, link_task,
  finish_task, finish_engine, etmemd_project_add_task, remove_task_from, etmemd_project_remove_task,
  add_engine_to, link_engine, etmemd_project_add_engine, remove_engine_from, do_remove_engine,
  do_remove_engine_tasks, etmemd_project_remove_engine,
}
use etmem.Project.Names.{engine_of_group-none, task_of_group-none, engine_name_of_group-EngineNamed}
use etmem.Project.Found.{FoundProject, FoundEngine, get_group_engine-found, get_group_task-found}
use etmem.Project.Invariant.{
  AfterValid, EngineValid, ProjectValid, DaemonValid, insert_task-EngineValid,
  remove_task-EngineValid, put_engine-ProjectValid, insert_engine-ProjectValid,
  remove_engine-ProjectValid, with_project-DaemonValid, found-ProjectValid, found-EngineValid,
}

module _ (proj : Project) (eng : Engine) (tk : Task) (d : Daemon) (v : DaemonValid d)
    (pv : ProjectValid proj) (ev : EngineValid eng) where
  finish_task-DaemonValid :
      (filled : Bool) (trace₁ : List Event) (started : Bool) (trace₂ : List Event)
      → AfterValid (finish_task proj eng tk d filled trace₁ started trace₂)
  unfolding finish_task
  finish_task-DaemonValid true trace₁ true trace₂ =
      with_project-DaemonValid d _ trace₂ v (put_engine-ProjectValid proj eng pv ev)
  finish_task-DaemonValid true trace₁ false trace₂ =
      with_project-DaemonValid d _ _ v
        (put_engine-ProjectValid proj _ pv (remove_task-EngineValid eng tk ev))
  finish_task-DaemonValid false trace₁ started trace₂ =
      with_project-DaemonValid d _ trace₁ v
        (put_engine-ProjectValid proj _ pv (remove_task-EngineValid eng tk ev))

link_task-DaemonValid :
    (env : Env) (proj : Project) (eng : Engine) (tk : Task) (d : Daemon)
    → DaemonValid d
    → ProjectValid proj
    → EngineValid eng
    → Absent tk.name (names task_name eng.tasks)
    → AfterValid (link_task env proj eng tk d)
unfolding link_task
link_task-DaemonValid env proj eng tk d v pv ev fresh =
    finish_task-DaemonValid proj (project_insert_task eng tk) tk d v pv
      (insert_task-EngineValid eng tk ev fresh) _ _ _ _

add_task_to-DaemonValid :
    (env : Env) (config : KeyFile) (d : Daemon) (r : Result (Project × Engine × Option Task))
    → get_group_task config task_group d.projects ≡ r
    → DaemonValid d
    → AfterValid (add_task_to env config d r)
unfolding add_task_to
add_task_to-DaemonValid env config d (err e) h v = v
add_task_to-DaemonValid env config d (ok (proj, eng, some tk)) h v = v
add_task_to-DaemonValid env config d (ok (proj, eng, none)) h v =
    made (etmemd_add_task (env.alloc task_site) env.core config) refl
  where
    f : FoundEngine config task_group d.projects proj eng none
    f = get_group_task-found config task_group d.projects proj eng none h

    pv : ProjectValid proj
    pv = found-ProjectValid f.name d proj v f.found

    made :
        (o : Option Task)
        → etmemd_add_task (env.alloc task_site) env.core config ≡ o
        → AfterValid (add_new_task env proj eng o d)
    made none e = v
    made (some tk) e =
        let (name, named, fresh) = task_of_group-none config eng f.rest in
        let m = etmemd_add_task-TaskMade (env.alloc task_site) env.core config tk e in
        link_task-DaemonValid env proj eng tk d v pv
          (found-EngineValid f.eng_name proj eng pv f.engine)
          (subst (λ n. Absent n (names task_name eng.tasks)) (some_inj (sym named ∙ m.named)) fresh)

remove_task_from-DaemonValid :
    (config : KeyFile) (d : Daemon) (r : Result (Project × Engine × Option Task))
    → get_group_task config task_group d.projects ≡ r
    → DaemonValid d
    → AfterValid (remove_task_from d r)
unfolding remove_task_from
remove_task_from-DaemonValid config d (err e) h v = v
remove_task_from-DaemonValid config d (ok (proj, eng, none)) h v = v
remove_task_from-DaemonValid config d (ok (proj, eng, some tk)) h v =
    let f = get_group_task-found config task_group d.projects proj eng (some tk) h in
    let pv = found-ProjectValid f.name d proj v f.found in
    let ev = found-EngineValid f.eng_name proj eng pv f.engine in
    with_project-DaemonValid d _ _ v
      (put_engine-ProjectValid proj _ pv (remove_task-EngineValid eng tk ev))

finish_engine-DaemonValid :
    (proj : Project) (eng : Engine) (d : Daemon) (filled : Bool) (trace : List Event)
    → DaemonValid d
    → ProjectValid proj
    → AfterValid (finish_engine proj eng d filled trace)
unfolding finish_engine
finish_engine-DaemonValid proj eng d true trace v pv = with_project-DaemonValid d proj trace v pv
finish_engine-DaemonValid proj eng d false trace v pv =
    with_project-DaemonValid d _ _ v (remove_engine-ProjectValid proj eng pv)

link_engine-DaemonValid :
    (env : Env) (proj : Project) (eng : Engine) (d : Daemon)
    → DaemonValid d
    → ProjectValid proj
    → Absent eng.name (names engine_name proj.engs)
    → eng.tasks ≡ []
    → AfterValid (link_engine env proj (some eng) d)
unfolding link_engine
link_engine-DaemonValid env proj eng d v pv fresh bare =
    finish_engine-DaemonValid (project_insert_engine proj eng) eng d _ _ v
      (insert_engine-ProjectValid proj eng pv fresh bare)

add_engine_to-DaemonValid :
    (env : Env) (config : KeyFile) (d : Daemon) (r : Result (Project × Option Engine))
    → get_group_engine config eng_group d.projects ≡ r
    → DaemonValid d
    → AfterValid (add_engine_to env config d r)
unfolding add_engine_to
add_engine_to-DaemonValid env config d (err e) h v = v
add_engine_to-DaemonValid env config d (ok (proj, some eng)) h v = v
add_engine_to-DaemonValid env config d (ok (proj, none)) h v =
    made (etmemd_engine_add (env.alloc engine_site) env.linker config) refl
  where
    f : FoundProject config eng_group d.projects proj none
    f = get_group_engine-found config eng_group d.projects proj none h

    made :
        (o : Option Engine)
        → etmemd_engine_add (env.alloc engine_site) env.linker config ≡ o
        → AfterValid (link_engine env proj o d)
    made none e = v
    made (some eng) e =
        let (name, named, fresh) = engine_of_group-none config proj f.rest in
        let (m, bare) =
          etmemd_engine_add-EngineNamed (env.alloc engine_site) env.linker config eng e in
        link_engine-DaemonValid env proj eng d v (found-ProjectValid f.name d proj v f.found)
          (subst (λ n. Absent n (names engine_name proj.engs))
            (sym (engine_name_of_group-EngineNamed config eng.name name m named)) fresh)
          bare

remove_engine_from-DaemonValid :
    (config : KeyFile) (d : Daemon) (r : Result (Project × Option Engine))
    → get_group_engine config eng_group d.projects ≡ r
    → DaemonValid d
    → AfterValid (remove_engine_from d r)
unfolding remove_engine_from do_remove_engine
remove_engine_from-DaemonValid config d (err e) h v = v
remove_engine_from-DaemonValid config d (ok (proj, none)) h v = v
remove_engine_from-DaemonValid config d (ok (proj, some eng)) h v =
    let f = get_group_engine-found config eng_group d.projects proj (some eng) h in
    let (eng', _) = do_remove_engine_tasks proj eng d.trace in
    with_project-DaemonValid d _ _ v
      (remove_engine-ProjectValid proj eng' (found-ProjectValid f.name d proj v f.found))

module _ (env : Env) (config : KeyFile) (d : Daemon) (v : DaemonValid d) where
  pub add_task-DaemonValid : AfterValid (etmemd_project_add_task env config d)
  unfolding etmemd_project_add_task
  add_task-DaemonValid = add_task_to-DaemonValid env config d _ refl v

  pub remove_task-DaemonValid : AfterValid (etmemd_project_remove_task config d)
  unfolding etmemd_project_remove_task
  remove_task-DaemonValid = remove_task_from-DaemonValid config d _ refl v

  pub add_engine-DaemonValid : AfterValid (etmemd_project_add_engine env config d)
  unfolding etmemd_project_add_engine
  add_engine-DaemonValid = add_engine_to-DaemonValid env config d _ refl v

  pub remove_engine-DaemonValid : AfterValid (etmemd_project_remove_engine config d)
  unfolding etmemd_project_remove_engine
  remove_engine-DaemonValid = remove_engine_from-DaemonValid config d _ refl v
