-- ===== src/Slide/Ranges.antt =====
-- etmem/src/etmemd_src/etmemd_slide.c: the range of the task parameters (slide_fill_task).
use etmem.Common.Amounts.{get_swap_threshold_in_kb}
use etmem.Base.{
  Bool, true, ◌≡◌, subst, Option, none, some, ◌≤◌, arith, String, inl, inr, Option-cases,
}
use etmem.Base.Int.{ℤ, pos, negsuc, ◌≤ℤ◌}
use etmem.Base.Options.{some_inj}
use etmem.Config.{KeyFile, parse_to_int, parse_file_config}
use etmem.Config.Keeps.{parse_file_config-keeps}
use etmem.Slide.{SlideParams}
use etmem.Slide.Checks.{
  dram_percent_of, fill_task_threshold, fill_task_dram_percent, fill_task_swap_threshold,
  slide_task_config_items, slide_fill_task, no_params, check_t,
}

abbrev InRange : SlideParams → Type 0
InRange params = (pos 0 ≤ℤ params.t) × (params.dram_percent ≤ 100)

dram_percent_of-le : (value : ℤ) → dram_percent_of value ≤ 100
unfolding dram_percent_of
dram_percent_of-le (pos value) = ground arith
dram_percent_of-le (negsuc value) = omega arith

threshold-keeps :
    (params : SlideParams) (val : ℤ) (params' : SlideParams)
    → InRange params
    → fill_task_threshold params val ≡ some params'
    → InRange params'
unfolding fill_task_threshold
threshold-keeps params val params' range h = ground arith

dram_percent-keeps :
    (params : SlideParams) (val : ℤ) (params' : SlideParams)
    → InRange params
    → fill_task_dram_percent params val ≡ some params'
    → InRange params'
unfolding fill_task_dram_percent
dram_percent-keeps params val params' range h =
    subst InRange (some_inj h) (range.0, dram_percent_of-le (parse_to_int val))

swap_threshold-keeps :
    (memory : Bool) (params : SlideParams) (val : String) (params' : SlideParams)
    → InRange params
    → fill_task_swap_threshold memory params val ≡ some params'
    → InRange params'
unfolding fill_task_swap_threshold
swap_threshold-keeps memory params val params' range h =
    elim (Option-cases (get_swap_threshold_in_kb memory val)) [
      | inl e ↦ ground arith
      | inr (kb, e) ↦ ground arith
    ]

check_t-some :
    (o : Option SlideParams) (params : SlideParams)
    → check_t o ≡ some params
    → (o ≡ some params) × (params.t ≤ℤ pos 100)
unfolding check_t
check_t-some none params h = cc
check_t-some (some found) params h = ground arith

-- Task parameters that slide_fill_task accepts have a watermark from 0 to 100 and a dram_percent
-- of at most 100.
pub slide_fill_task-range :
    (memory : Bool) (config : KeyFile) (params : SlideParams)
    → slide_fill_task memory true config ≡ some params
    → (pos 0 ≤ℤ params.t) × (params.t ≤ℤ pos 100) × (params.dram_percent ≤ 100)
unfolding slide_fill_task slide_task_config_items
slide_fill_task-range memory config params h =
    let read =
      check_t-some
        (parse_file_config config "task" (slide_task_config_items memory) (no_params memory)) params
        h in
    let kept =
      parse_file_config-keeps InRange config "task" (slide_task_config_items memory)
        (no_params memory) params
        (threshold-keeps, (swap_threshold-keeps memory, (dram_percent-keeps, tt)))
        (omega arith, omega arith) read.0 in
    (kept.0, read.1, kept.1)
