-- ===== src/Project/Found.antt =====
-- The lookups of get_group_objs (etmemd_project.c), taken apart.
use etmem.Base.{◌≡◌, subst, ap, ◌∙◌, List, Option, none, some, String}
use etmem.Config.{KeyFile}
use etmem.Engine.{Engine}
use etmem.Task.{Task}
use etmem.Project.{Project, OptResult, get_proj_by_name, get_eng_by_name}
use etmem.Project.Tasks.{
  ok, >>=-eq-ok, ok_inj, require, get_obj_name, engine_name_of_group, project_of_group,
  engine_of_group, task_of_group, get_group_engine, get_group_task,
}
use etmem.Project.Params.{proj_group}

pub require-ok {ℓ} :
    {A : Type ℓ} (o : Option A) (e : OptResult) {a : A} → require o e ≡ ok a → o ≡ some a
require-ok none e h = cc
require-ok (some b) e h = cc

-- A lookup that succeeds went through a registered project.
pub record FoundProject (config : KeyFile) (group : String) (projects : List Project)
    (proj : Project) (eng : Option Engine) : Type 0 where
  pub name : String
  pub found : get_proj_by_name name projects ≡ some proj
  pub rest : engine_of_group config group proj ≡ ok eng

pub project_of_group-found :
    (config : KeyFile) (group : String) (projects : List Project) (proj : Project)
    → project_of_group config group projects ≡ ok (some proj)
    → (name : String) × (get_proj_by_name name projects ≡ some proj)
unfolding project_of_group
project_of_group-found config group projects proj h =
    let (name, _, e) = >>=-eq-ok (get_obj_name config group proj_group) _ h in (name, ok_inj e)

pub get_group_engine-found :
    (config : KeyFile) (group : String) (projects : List Project) (proj : Project)
    (eng : Option Engine)
    → get_group_engine config group projects ≡ ok (proj, eng)
    → FoundProject config group projects proj eng
unfolding get_group_engine
get_group_engine-found config group projects proj eng h =
    let (found, first, h₁) = >>=-eq-ok (project_of_group config group projects) _ h in
    let (p, required, h₂) = >>=-eq-ok (require found _) _ h₁ in
    let (o, looked, pair) = >>=-eq-ok (engine_of_group config group p) _ h₂ in
    let (name, e) =
      project_of_group-found config group projects p
        (first ∙ ap ok (require-ok found _ required)) in
    subst (λ t. FoundProject config group projects t.0 t.1) (ok_inj pair)
      (record { name = name; found = e; rest = looked })

pub engine_of_group-found :
    (config : KeyFile) (group : String) (proj : Project) (eng : Engine)
    → engine_of_group config group proj ≡ ok (some eng)
    → (name : String) × (get_eng_by_name proj name ≡ some eng)
unfolding engine_of_group
engine_of_group-found config group proj eng h =
    let (name, _, e) = >>=-eq-ok (engine_name_of_group config group) _ h in (name, ok_inj e)

-- And through one of its engines.
pub record FoundEngine (config : KeyFile) (group : String) (projects : List Project)
    (proj : Project) (eng : Engine) (tk : Option Task) : Type 0 where
  pub name : String
  pub eng_name : String
  pub found : get_proj_by_name name projects ≡ some proj
  pub engine : get_eng_by_name proj eng_name ≡ some eng
  pub rest : task_of_group config group eng ≡ ok tk

pub get_group_task-found :
    (config : KeyFile) (group : String) (projects : List Project) (proj : Project) (eng : Engine)
    (tk : Option Task)
    → get_group_task config group projects ≡ ok (proj, eng, tk)
    → FoundEngine config group projects proj eng tk
unfolding get_group_task
get_group_task-found config group projects proj eng tk h =
    let ((p, found), first, h₁) = >>=-eq-ok (get_group_engine config group projects) _ h in
    let (e, required, h₂) = >>=-eq-ok (require found _) _ h₁ in
    let (o, looked, triple) = >>=-eq-ok (task_of_group config group e) _ h₂ in
    let f =
      get_group_engine-found config group projects p (some e)
        (first ∙ ap (λ r. ok (p, r)) (require-ok found _ required)) in
    let (eng_name, engine) = engine_of_group-found config group p e f.rest in
    subst (λ t. FoundEngine config group projects t.0 t.1 t.2) (ok_inj triple)
      (record {
        name = f.name;
        eng_name = eng_name;
        found = f.found;
        engine = engine;
        rest = looked;
      })
