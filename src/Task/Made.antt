-- ===== src/Task/Made.antt =====
-- What etmemd_add_task makes of a configuration group.
use etmem.Base.{ℕ, ◌+◌, ◌*◌, ◌≡◌, ◌⊎◌, Bool, true, some, arith}
use etmem.Base.Int.{pos, ◌≤ℤ◌}
use etmem.Base.Text.{str_eq}
use etmem.Common.{check_str_valid}
use etmem.Config.{KeyFile, parse_item, fill_item, parse_file_config}
use etmem.Config.Keeps.{Keeps, parse_file_config-keeps, parse_file_config-append}
use etmem.Base.Named.{All}
use etmem.Task.{
  Task, task_group, etmemd_add_task, named_items, optional_items, fill_task_name, fill_task_type,
  fill_task_value, fill_task_swap_flag, fill_task_threads, blank_task, task_fill_by_conf,
}

-- The fields of a task that was made of the group in `config` on a machine with `core` processors.
pub record TaskMade (core : ℕ) (config : KeyFile) (tk : Task) : Type 0 where
  pub named : config.get_string task_group "name" ≡ some tk.name
  pub typed : (str_eq tk.type "pid" ≡ true) ⊎ (str_eq tk.type "name" ≡ true)
  pub checked : check_str_valid (some tk.value) ≡ true
  pub threads_low : pos 1 ≤ℤ tk.max_threads
  pub threads_high : tk.max_threads ≤ℤ pos (2 * core + 1)
  pub flag : (tk.swap_flag ≡ pos 0) ⊎ (tk.swap_flag ≡ pos 1)

named_items-TaskMade :
    (core : ℕ) (config : KeyFile) (tk : Task)
    → parse_file_config config task_group named_items blank_task ≡ some tk
    → TaskMade core config tk
unfolding parse_file_config parse_item fill_item named_items fill_task_name fill_task_type
    fill_task_value
named_items-TaskMade core config tk h = ground arith

optional_items-TaskMade :
    (core : ℕ) (config : KeyFile)
    → All (λ i. Keeps (TaskMade core config) i.fill) (optional_items core)
unfolding optional_items fill_task_swap_flag fill_task_threads
optional_items-TaskMade core config = (λ o v o' p h. ground arith, (λ o v o' p h. ground arith, tt))

-- A task that etmemd_add_task makes has the name that the file gives, the type "pid" or "name", a
-- value that check_str_valid accepts, between 1 and twice the number of processors plus 1
-- threads, and the swap flag 0 or 1.
pub etmemd_add_task-TaskMade :
    (alloc : Bool) (core : ℕ) (config : KeyFile) (tk : Task)
    → etmemd_add_task alloc core config ≡ some tk
    → TaskMade core config tk
unfolding etmemd_add_task task_fill_by_conf
etmemd_add_task-TaskMade true core config tk h =
    let (mid, early, late) =
      parse_file_config-append config task_group named_items (optional_items core) blank_task tk
        h in
    parse_file_config-keeps (TaskMade core config) config task_group (optional_items core) mid tk
      (optional_items-TaskMade core config) (named_items-TaskMade core config mid early) late
etmemd_add_task-TaskMade _ core config tk h = cc
