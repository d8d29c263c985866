-- ===== src/Task.antt =====
-- etmem/src/etmemd_src/etmemd_task.c: a task and its configuration group.
pub mod Made
pub mod Pids
pub mod Listed
pub mod Counted
mod Tests
use etmem.Base.{
  ℕ, ◌+◌, ◌*◌, Bool, true, false, ◌||◌, List, [], ◌∷◌, ◌++◌, Option, none, some, if◌then◌else◌,
  String,
}
use etmem.Base.Int.{ℤ, pos, leb_ℤ, ltb_ℤ}
use etmem.Base.Text.{str_eq}
use etmem.Common.{check_str_valid}
use etmem.Config.{KeyFile, ConfigItem, int_val, str_val, parse_to_int, parse_file_config}

-- The fields of struct task that the configuration fills, and no others: the process ids, the parameters, the
-- timer and the pool of a running task are those of Task/Pids, Slide/Lifecycle and Pool. A text that calloc
-- left NULL is "".
pub record Task : Type 0 where
  pub type : String
  pub value : String
  pub name : String
  pub max_threads : ℤ
  pub swap_flag : ℤ

unfoldable pub fill_task_name : Task → String → Option Task
fill_task_name tk val = some (record tk { name = val })

unfoldable pub fill_task_type : Task → String → Option Task
fill_task_type tk val =
    if str_eq val "pid" || str_eq val "name" then some (record tk { type = val }) else none

unfoldable pub fill_task_value : Task → String → Option Task
fill_task_value tk val =
    if check_str_valid (some val) then some (record tk { value = val }) else none

-- `core` is what get_nprocs answers.
unfoldable pub limit_threads : (core : ℕ) → ℤ → ℤ
limit_threads core n =
    let at_least_one = if leb_ℤ n (pos 0) then pos 1 else n in
    if ltb_ℤ (pos (2 * core + 1)) at_least_one then pos (2 * core + 1) else at_least_one

unfoldable pub fill_task_threads : (core : ℕ) → Task → ℤ → Option Task
unfolding limit_threads
fill_task_threads core tk val =
    some (record tk { max_threads = limit_threads core (parse_to_int val) })

unfoldable pub fill_task_swap_flag : Task → String → Option Task
fill_task_swap_flag tk val =
    if str_eq val "yes"
    then some (record tk { swap_flag = pos 1 })
    else if str_eq val "no"
    then some (record tk { swap_flag = pos 0 })
    else none

unfoldable pub named_items : List (ConfigItem Task)
named_items =
    record { key = "name"; fill = str_val fill_task_name; option = false }
    ∷ record { key = "type"; fill = str_val fill_task_type; option = false }
    ∷ record { key = "value"; fill = str_val fill_task_value; option = false }
    ∷ []

unfoldable pub optional_items : (core : ℕ) → List (ConfigItem Task)
optional_items core =
    record { key = "swap_flag"; fill = str_val fill_task_swap_flag; option = true }
    ∷ record { key = "max_threads"; fill = int_val (fill_task_threads core); option = true }
    ∷ []

unfoldable pub task_config_items : (core : ℕ) → List (ConfigItem Task)
unfolding named_items optional_items
task_config_items core = named_items ++ optional_items core

-- calloc, and one thread by default.
abbrev blank_task : Task
blank_task = record { type = ""; value = ""; name = ""; max_threads = pos 1; swap_flag = pos 0 }

abbrev pub task_group : String
task_group = "task"

unfoldable pub task_fill_by_conf : (core : ℕ) → KeyFile → Task → Option Task
unfolding task_config_items
task_fill_by_conf core config tk = parse_file_config config task_group (task_config_items core) tk

-- `alloc` says whether calloc succeeds; `none` is NULL.
unfoldable pub etmemd_add_task : (alloc : Bool) (core : ℕ) → KeyFile → Option Task
unfolding task_fill_by_conf
etmemd_add_task alloc core config = if alloc then task_fill_by_conf core config blank_task else none
