-- ===== src/Slide/Checks.antt =====
-- etmem/src/etmemd_src/etmemd_slide.c: whether a process is swapped at all (check_should_swap and what it
-- calls), and the task parameters of the engine (slide_fill_task).
use etmem.Common.Amounts.{get_swap_threshold_in_kb}
use etmem.Base.{
  ◌-◌, ℕ, Bool, true, false, List, [], ◌∷◌, Option, none, some, ltb, ◌==◌, ◌+◌, ◌*◌, ◌/◌, ◌%◌, ◌^◌,
  if◌then◌else◌, String,
}
use etmem.Base.Int.{ℤ, pos, negsuc, ltb_ℤ, eqb_ℤ}
use etmem.Config.{KeyFile, ConfigItem, int_val, str_val, parse_to_int, parse_file_config}
use etmem.Project.{Project}
use etmem.Migrate.{Reads}
use etmem.Slide.{SlideParams}

-- enum swap_type
pub data SwapType : Type 0 where
  dont_swap do_swap : SwapType

abbrev pub do_swap_if : Bool → SwapType
do_swap_if true = do_swap
do_swap_if false = dont_swap

-- The percentage of free memory as an int; none is a division by zero.
unfoldable pub free_percentage : (mem_free mem_total : ℕ) → Option ℤ
free_percentage mem_free mem_total =
    if mem_total == 0 then none else some (parse_to_int (pos (mem_free * 100 % 2 ^ 64 / mem_total)))

abbrev pub below_threshold : ℤ → Option ℤ → Option SwapType
below_threshold threshold none = none
below_threshold threshold (some vm_cmp) = some (do_swap_if (ltb_ℤ vm_cmp threshold))

-- The check of the free memory, after each of its reads; none where the code divides by zero.
unfoldable pub sysmem_check : ℤ → (mem_total mem_free : Option ℕ) → Option SwapType
sysmem_check threshold none mem_free = some dont_swap
sysmem_check threshold (some mem_total) none = some dont_swap
sysmem_check threshold (some mem_total) (some mem_free) =
    below_threshold threshold (free_percentage mem_free mem_total)

unfoldable pub check_sysmem_lower_threshold : Project → Reads → Option SwapType
check_sysmem_lower_threshold proj reads =
    sysmem_check proj.sysmem_threshold reads.mem_total reads.mem_free

-- An int in the arithmetic of unsigned long.
abbrev pub to_ulong : ℤ → ℕ
to_ulong (pos n) = n
to_ulong (negsuc n) = 2 ^ 64 - 1 - n

unfoldable pub check_pid_should_swap : ℤ → (vmrss : ℕ) → (vmswap : Option ℕ) → SwapType
check_pid_should_swap threshold vmrss none = dont_swap
check_pid_should_swap threshold vmrss (some vmswap) =
    let vmcmp = (vmrss + vmswap) % 2 ^ 64 / 100 * to_ulong threshold % 2 ^ 64 in
    do_swap_if (ltb vmswap vmcmp)

-- The check of the process's memory, after its read of VmRSS.
unfoldable pub pidmem_check : ℤ → (swap_threshold : ℕ) → (vmrss vmswap : Option ℕ) → SwapType
pidmem_check threshold swap_threshold none vmswap = dont_swap
pidmem_check threshold swap_threshold (some vmrss) vmswap =
    if swap_threshold == 0
    then check_pid_should_swap threshold vmrss vmswap
    else do_swap_if (ltb swap_threshold vmrss)

unfoldable pub check_pidmem_lower_threshold : Project → Option SlideParams → Reads → SwapType
check_pidmem_lower_threshold proj none reads = dont_swap
check_pidmem_lower_threshold proj (some params) reads =
    pidmem_check proj.sysmem_threshold params.swap_threshold reads.vm_rss reads.vm_swap

-- DONT_SWAP ends the checks.
unfoldable pub after_sysmem : Option SwapType → SwapType → Option SwapType
after_sysmem none later = none
after_sysmem (some dont_swap) later = some dont_swap
after_sysmem (some do_swap) later = some later

unfoldable pub check_should_swap : Project → Option SlideParams → Reads → Option SwapType
check_should_swap proj params reads =
    if eqb_ℤ proj.sysmem_threshold (negsuc 0)
    then some do_swap
    else after_sysmem (check_sysmem_lower_threshold proj reads)
        (check_pidmem_lower_threshold proj params reads)

unfoldable pub fill_task_threshold : SlideParams → ℤ → Option SlideParams
fill_task_threshold params val =
    let t = parse_to_int val in if ltb_ℤ t (pos 0) then none else some (record params { t = t })

-- A value out of (0, 100] cancels the parameter; the field is uint8_t.
unfoldable pub dram_percent_of : ℤ → ℕ
dram_percent_of (pos value) = if ltb 100 value then 0 else value
dram_percent_of (negsuc value) = 0

unfoldable pub fill_task_dram_percent : SlideParams → ℤ → Option SlideParams
fill_task_dram_percent params val =
    some (record params { dram_percent = dram_percent_of (parse_to_int val) })

-- `params->t > 100`
unfoldable pub check_t : Option SlideParams → Option SlideParams
check_t none = none
check_t (some params) = if ltb_ℤ (pos 100) params.t then none else some params

-- `memory`: whether calloc gives the copy of a text.
module _ (memory : Bool) where
  unfoldable pub fill_task_swap_threshold : SlideParams → String → Option SlideParams
  fill_task_swap_threshold params val = elim (get_swap_threshold_in_kb memory val) [
    | none ↦ none
    | some swap_threshold ↦ some (record params { swap_threshold = swap_threshold })
  ]

  -- g_slide_task_config_items
  unfoldable pub slide_task_config_items : List (ConfigItem SlideParams)
  slide_task_config_items =
      record { key = "T"; fill = int_val fill_task_threshold; option = false }
      ∷ record { key = "swap_threshold"; fill = str_val fill_task_swap_threshold; option = true }
      ∷ record { key = "dram_percent"; fill = int_val fill_task_dram_percent; option = true }
      ∷ []

  abbrev pub no_params : SlideParams
  no_params = record { t = pos 0; swap_threshold = 0; dram_percent = 0 }

  -- The parameters that the task gets; none where it returns -1.
  unfoldable pub slide_fill_task : (calloc : Bool) → KeyFile → Option SlideParams
  slide_fill_task false config = none
  slide_fill_task true config =
      check_t (parse_file_config config "task" slide_task_config_items no_params)
