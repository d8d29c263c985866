-- ===== src/Project/Names.antt =====
-- The name under which get_obj_name (etmemd_project.c) looks a group up, and the name of the object
-- that is made from that group.
use etmem.Base.{
  ◌≡◌, refl, inl, inr, List, none, some, arith, String, ◌&&◌, if◌then◌else◌, sym, subst, ◌∙◌,
}
use etmem.Base.Options.{some_inj}
use etmem.Base.Named.{Absent, names, find_by-none-Absent}
use etmem.Base.Text.{str_eq, str_eq-cases}
use etmem.Config.{KeyFile}
use etmem.Engine.Made.{EngineNamed}
use etmem.Engine.{Engine, eng_group}
use etmem.Task.{task_group}
use etmem.Project.Params.{proj_group}
use etmem.Project.{Project, project_name, engine_name, task_name}
use etmem.Project.Tasks.{
  ok, >>=-eq-ok, ok_inj, get_name_by_key, get_obj_name, engine_name_of_group, project_of_group,
  engine_of_group, task_of_group,
}

get_name_by_key-ok :
    (config : KeyFile) (group key name : String)
    → get_name_by_key config group key ≡ ok name
    → config.get_string group key ≡ some name
unfolding get_name_by_key
get_name_by_key-ok config group key name h = ground arith

-- In its own group an object's name stands under "name".
pub get_obj_name_self :
    (config : KeyFile) (group name : String)
    → get_obj_name config group group ≡ ok name
    → config.get_string group "name" ≡ some name
unfolding get_obj_name
get_obj_name_self config group name h = elim (str_eq-cases group group) [
  | inl (_, e) ↦ get_name_by_key-ok config group "name" name (ground arith)
  | inr (ne, _) ↦ absurd (ne refl)
]

abbrev Chooses : KeyFile → (looked_up eng_name : String) → Type 0
Chooses config looked_up eng_name =
    (if str_eq eng_name "thirdparty" && str_eq eng_group eng_group
      then get_name_by_key config eng_group "eng_name"
      else ok eng_name)
    ≡ ok looked_up

chosen_name :
    (config : KeyFile) (name eng_name looked_up : String)
    → EngineNamed config name
    → config.get_string eng_group "name" ≡ some eng_name
    → Chooses config looked_up eng_name
    → name ≡ looked_up
chosen_name config name eng_name looked_up named first rest = elim named [
  | inl (plain, other) ↦ let same : eng_name ≡ name = some_inj (sym first ∙ plain) in ground arith
  | inr (party, under) ↦
      let same : eng_name ≡ "thirdparty" = some_inj (sym first ∙ party) in
      some_inj (
        sym under
        ∙ get_name_by_key-ok config eng_group "eng_name" looked_up
            (subst (Chooses config looked_up) same rest))
]

-- An engine is looked up, in its own group, under the name that etmemd_engine_add gives it.
pub engine_name_of_group-EngineNamed :
    (config : KeyFile) (name looked_up : String)
    → EngineNamed config name
    → engine_name_of_group config eng_group ≡ ok looked_up
    → name ≡ looked_up
unfolding engine_name_of_group
engine_name_of_group-EngineNamed config name looked_up named h =
    let (eng_name, first, rest) = >>=-eq-ok (get_obj_name config eng_group eng_group) _ h in
    chosen_name config name eng_name looked_up named
      (get_obj_name_self config eng_group eng_name first) rest

-- A lookup that succeeds and finds nothing leaves the name free.
pub project_of_group-none :
    (config : KeyFile) (projects : List Project)
    → project_of_group config proj_group projects ≡ ok none
    → (name : String) × (config.get_string proj_group "name" ≡ some name)
      × Absent name (names project_name projects)
unfolding project_of_group
project_of_group-none config projects h =
    let (name, first, rest) = >>=-eq-ok (get_obj_name config proj_group proj_group) _ h in
    (
      name,
      get_obj_name_self config proj_group name first,
      find_by-none-Absent project_name name projects (ok_inj rest),
    )

pub engine_of_group-none :
    (config : KeyFile) (proj : Project)
    → engine_of_group config eng_group proj ≡ ok none
    → (name : String) × (engine_name_of_group config eng_group ≡ ok name)
      × Absent name (names engine_name proj.engs)
unfolding engine_of_group
engine_of_group-none config proj h =
    let (name, first, rest) = >>=-eq-ok (engine_name_of_group config eng_group) _ h in
    (name, first, find_by-none-Absent engine_name name proj.engs (ok_inj rest))

pub task_of_group-none :
    (config : KeyFile) (eng : Engine)
    → task_of_group config task_group eng ≡ ok none
    → (name : String) × (config.get_string task_group "name" ≡ some name)
      × Absent name (names task_name eng.tasks)
unfolding task_of_group
task_of_group-none config eng h =
    let (name, first, rest) = >>=-eq-ok (get_obj_name config task_group task_group) _ h in
    (
      name,
      get_obj_name_self config task_group name first,
      find_by-none-Absent task_name name eng.tasks (ok_inj rest),
    )
