-- ===== src/Engine.antt =====
-- etmem/src/etmemd_src/etmemd_engine.c and etmemd_thirdparty.c: engines and their operation tables.
pub mod Made
use etmem.Base.{
  ℕ, Bool, true, false, ◌||◌, List, [], ◌∷◌, Option, none, some, if◌then◌else◌, String,
}
use etmem.Base.Options.{◌>>=◌, ◌>>◌, guard}
use etmem.Base.Text.{str_eq}
use etmem.Common.{Stat, file_permission_check}
use etmem.Config.{KeyFile, ConfigItem, str_val, parse_file_config}
use etmem.Task.{Task}

pub data EngineType : Type 0 where
  slide_engine cslide_engine memdcd_engine damon_engine thirdparty_engine : EngineType

-- struct engine_ops: which of the function pointers are set.
pub record EngineOps : Type 0 where
  pub fill_eng_params : Bool
  pub clear_eng_params : Bool
  pub fill_task_params : Bool
  pub clear_task_params : Bool
  pub start_task : Bool
  pub stop_task : Bool
  pub eng_mgt_func : Bool

pub record Engine : Type 0 where
  pub engine_type : EngineType
  pub name : String
  pub ops : EngineOps
  pub tasks : List Task

abbrev pub slide_eng_ops : EngineOps
slide_eng_ops = record {
  fill_eng_params = false;
  clear_eng_params = false;
  fill_task_params = true;
  clear_task_params = true;
  start_task = true;
  stop_task = true;
  eng_mgt_func = false;
}

abbrev pub cslide_eng_ops : EngineOps
cslide_eng_ops = record {
  fill_eng_params = true;
  clear_eng_params = true;
  fill_task_params = true;
  clear_task_params = true;
  start_task = true;
  stop_task = true;
  eng_mgt_func = true;
}

abbrev pub memdcd_eng_ops : EngineOps
memdcd_eng_ops = slide_eng_ops

abbrev pub damon_eng_ops : EngineOps
damon_eng_ops = record {
  fill_eng_params = true;
  clear_eng_params = true;
  fill_task_params = false;
  clear_task_params = false;
  start_task = false;
  stop_task = false;
  eng_mgt_func = false;
}

-- What dlsym finds under a name.
pub data Symbol : Type 0 where
  missing null : Symbol
  found : EngineOps → Symbol

-- The file system and the dynamic linker, as the code asks them.
pub record Linker : Type 0 where
  pub realpath : String → Option String
  pub files : String → Option Stat
  pub dlopen : String → Bool
  pub dlsym : String → String → Symbol

pub record ThirdpartyParams : Type 0 where
  pub eng_name : String
  pub libname : String
  pub ops_name : String

unfoldable pub thirdparty_configs : List (ConfigItem ThirdpartyParams)
thirdparty_configs =
    record {
      key = "eng_name";
      fill = str_val (λ p v. some (record p { eng_name = v }));
      option = false;
    }
    ∷ record {
      key = "libname";
      fill = str_val (λ p v. some (record p { libname = v }));
      option = false;
    }
    ∷ record {
      key = "ops_name";
      fill = str_val (λ p v. some (record p { ops_name = v }));
      option = false;
    }
    ∷ []

-- S_IRWXU and S_IRUSR | S_IXUSR.
abbrev pub mode_700 : ℕ
mode_700 = 0o700

abbrev pub mode_500 : ℕ
mode_500 = 0o500

-- `some null` is a library whose symbol is a NULL table: set_engine_ops accepts it.
unfoldable pub set_engine_ops : Linker → ThirdpartyParams → Option Symbol
set_engine_ops linker params = do
  path ← linker.realpath params.libname
  guard (
      file_permission_check linker.files path mode_700
      || file_permission_check linker.files path mode_500)
  guard (linker.dlopen path)
  elim (linker.dlsym path params.ops_name) [
    | missing ↦ none
    | null ↦ some null
    | found ops ↦ some (found ops)
  ]

abbrev pub eng_group : String
eng_group = "engine"

-- What a fill_eng_func leaves in the engine.
pub record Filled : Type 0 where
  pub type : EngineType
  pub eng_name : String
  pub ops : Symbol

unfoldable pub fill_engine_type_thirdparty : Linker → KeyFile → Option Filled
unfolding thirdparty_configs set_engine_ops
fill_engine_type_thirdparty linker config = do
  params ←
      parse_file_config config eng_group thirdparty_configs
        (record { eng_name = ""; libname = ""; ops_name = "" })
  ops ← set_engine_ops linker params
  some (record { type = thirdparty_engine; eng_name = params.eng_name; ops = ops })

-- g_engine_add_items: the fill function of an engine is named by its type.
unfoldable pub find_engine_add_item : String → Option EngineType
find_engine_add_item name =
    if str_eq name "slide"
    then some slide_engine
    else if str_eq name "cslide"
    then some cslide_engine
    else if str_eq name "memdcd"
    then some memdcd_engine
    else if str_eq name "damon"
    then some damon_engine
    else if str_eq name "thirdparty"
    then some thirdparty_engine
    else none

abbrev built_in : EngineType → String → EngineOps → Option Filled
built_in type name ops = some (record { type = type; eng_name = name; ops = found ops })

unfoldable pub fill_eng_func : Linker → KeyFile → EngineType → Option Filled
unfolding fill_engine_type_thirdparty
fill_eng_func linker config slide_engine = built_in slide_engine "slide" slide_eng_ops
fill_eng_func linker config cslide_engine = built_in cslide_engine "cslide" cslide_eng_ops
fill_eng_func linker config memdcd_engine = built_in memdcd_engine "memdcd" memdcd_eng_ops
fill_eng_func linker config damon_engine = built_in damon_engine "damon" damon_eng_ops
fill_eng_func linker config thirdparty_engine = fill_engine_type_thirdparty linker config

-- An engine without a table is freed again.
unfoldable pub engine_with_ops : Filled → Symbol → Option Engine
engine_with_ops filled (found ops) =
    some (record { engine_type = filled.type; name = filled.eng_name; ops = ops; tasks = [] })
engine_with_ops filled _ = none

-- `alloc` says whether calloc succeeds; `none` is NULL.
unfoldable pub etmemd_engine_add : (alloc : Bool) → Linker → KeyFile → Option Engine
unfolding find_engine_add_item fill_eng_func engine_with_ops
etmemd_engine_add alloc linker config = do
  guard (config.has_key eng_group "name")
  name ← config.get_string eng_group "name"
  type ← find_engine_add_item name
  guard alloc
  filled ← fill_eng_func linker config type
  engine_with_ops filled filled.ops
