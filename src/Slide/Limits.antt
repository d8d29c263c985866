-- ===== src/Slide/Limits.antt =====
-- etmem/src/etmemd_src/etmemd_slide.c: the checks of memory where no number is too large for its type.
use native.Mathlib.Nat.{div-lt_iff_lt-mul}
use etmem.Slide.Sorting.{eq-ne}
use etmem.Scan.Recorded.{mod_small}
use etmem.Base.{
  zero, suc, ℕ, Bool, true, false, ◌≡◌, ◌≢◌, refl, ap, subst, sym, Option, some, ltb, ◌==◌, ◌+◌,
  ◌*◌, ◌/◌, ◌%◌, ◌^◌, ◌≤◌, ◌<◌, arith, if◌then◌else◌, ◌&&◌, Bool-cases, inl, inr,
}
use etmem.Base.Int.{ℤ, pos, negsuc, ltb_ℤ, eqb_ℤ}
use etmem.Config.{parse_to_int, low_32}
use etmem.Project.{Project}
use etmem.Migrate.{Reads}
use etmem.Slide.{SlideParams}
use etmem.Slide.Checks.{
  do_swap_if, check_sysmem_lower_threshold, free_percentage, sysmem_check, check_should_swap,
  check_pid_should_swap, check_pidmem_lower_threshold, after_sysmem, pidmem_check, do_swap,
}

small_int : (n : ℕ) → n < 2 ^ 31 → parse_to_int (pos n) ≡ pos n
unfolding parse_to_int low_32
small_int n h = ground arith

-- The memory of a process or a system, far below the largest unsigned long.
abbrev pub Moderate : ℕ → Type 0
Moderate n = n < 2 ^ 50

percentage_lt :
    (mem_free mem_total : ℕ)
    → mem_total ≢ 0
    → mem_free ≤ mem_total
    → mem_free * 100 / mem_total < 2 ^ 31
percentage_lt mem_free mem_total h le =
    (div-lt_iff_lt-mul {k = mem_total} {x = mem_free * 100} {y = 2 ^ 31} (omega (arith, h))).1
      (omega (arith, h))

no_wrap : (n : ℕ) → Moderate n → n * 100 % 2 ^ 64 ≡ n * 100
no_wrap n h = omega arith

ltb_pos : (a b : ℕ) → ltb_ℤ (pos a) (pos b) ≡ ltb a b
ltb_pos a b = ground arith

sysmem-exact :
    (mem_total mem_free percent : ℕ)
    → mem_total ≢ 0
    → mem_free ≤ mem_total
    → Moderate mem_total
    → sysmem_check (pos percent) (some mem_total) (some mem_free)
      ≡ some (do_swap_if (ltb (mem_free * 100 / mem_total) percent))
unfolding sysmem_check free_percentage
sysmem-exact mem_total mem_free percent h le moderate =
    rw
      (
        eq-ne mem_total 0 h,
        no_wrap mem_free (omega arith),
        small_int (mem_free * 100 / mem_total) (percentage_lt mem_free mem_total h le),
      )
      (ap (λ b. some (do_swap_if b)) (ltb_pos (mem_free * 100 / mem_total) percent))

scale : (q a b : ℕ) → a ≤ b → q * a ≤ q * b
scale zero a b h = omega arith
scale (suc q) a b h = omega (arith, scale q a b h)

pid-exact :
    (vmrss vmswap percent : ℕ)
    → percent ≤ 100
    → Moderate vmrss
    → Moderate vmswap
    → check_pid_should_swap (pos percent) vmrss (some vmswap)
      ≡ do_swap_if (ltb vmswap ((vmrss + vmswap) / 100 * percent))
unfolding check_pid_should_swap
pid-exact vmrss vmswap percent le moderate₁ moderate₂ =
    rw
      (
        mod_small (vmrss + vmswap) (omega arith),
        mod_small ((vmrss + vmswap) / 100 * percent)
            (omega (arith, scale ((vmrss + vmswap) / 100) percent 100 le)),
      )
      refl

-- The memory that was read, all of moderate size.
pub record Measured : Type 0 where
  pub mem_total : ℕ
  pub mem_free : ℕ
  pub vm_rss : ℕ
  pub vm_swap : ℕ
  pub total_pos : mem_total ≢ 0
  pub free_le : mem_free ≤ mem_total
  pub total_moderate : Moderate mem_total
  pub rss_moderate : Moderate vm_rss
  pub swap_moderate : Moderate vm_swap

abbrev pub reads_of : Measured → (swap_cached : Option ℕ) (pagesize : ℕ) → Reads
reads_of m swap_cached pagesize = record {
  mem_total = some m.mem_total;
  mem_free = some m.mem_free;
  swap_cached = swap_cached;
  vm_rss = some m.vm_rss;
  vm_swap = some m.vm_swap;
  pagesize = pagesize;
}

-- The amount that a process may have before it is swapped.
abbrev pub over : Measured → SlideParams → ℕ → Bool
over m params percent =
    if params.swap_threshold == 0
    then ltb m.vm_swap ((m.vm_rss + m.vm_swap) / 100 * percent)
    else ltb params.swap_threshold m.vm_rss

pidmem-exact :
    (params : SlideParams) (m : Measured) (percent : ℕ)
    → percent ≤ 100
    → pidmem_check (pos percent) params.swap_threshold (some m.vm_rss) (some m.vm_swap)
      ≡ do_swap_if (over m params percent)
unfolding pidmem_check
pidmem-exact params m percent le = elim (Bool-cases (params.swap_threshold == 0)) [
  | inl e ↦ simp e (pid-exact m.vm_rss m.vm_swap percent le m.rss_moderate m.swap_moderate)
  | inr e ↦ simp e refl
]

not_unset : (n : ℕ) → eqb_ℤ (pos n) (negsuc 0) ≡ false
not_unset n = ground arith

after_both :
    (b c : Bool) → after_sysmem (some (do_swap_if b)) (do_swap_if c) ≡ some (do_swap_if (b && c))
unfolding after_sysmem
after_both true c = refl
after_both false c = refl

-- If all values are read and below 2 ^ 50 KiB, the free memory is not above the total, the total
-- is not 0, the project's threshold is from 0 to 100, and the task has parameters, no arithmetic
-- of check_should_swap wraps around: it swaps exactly if the percentage of free memory is below
-- the threshold, and the process is above its own limit, or without one has less swapped than the
-- threshold's share.
pub check_should_swap-exact :
    (proj : Project) (params : SlideParams) (m : Measured) (percent : ℕ) (swap_cached : Option ℕ)
    (pagesize : ℕ)
    → proj.sysmem_threshold ≡ pos percent
    → percent ≤ 100
    → check_should_swap proj (some params) (reads_of m swap_cached pagesize)
      ≡ some (do_swap_if (ltb (m.mem_free * 100 / m.mem_total) percent && over m params percent))
unfolding check_should_swap check_sysmem_lower_threshold check_pidmem_lower_threshold
check_should_swap-exact proj params m percent swap_cached pagesize threshold le =
    let low = ltb (m.mem_free * 100 / m.mem_total) percent in
    subst
      (λ (th : ℤ).
        (if eqb_ℤ th (negsuc 0)
          then some do_swap
          else after_sysmem (sysmem_check th (some m.mem_total) (some m.mem_free))
              (pidmem_check th params.swap_threshold (some m.vm_rss) (some m.vm_swap)))
        ≡ some (do_swap_if (low && over m params percent)))
      (sym threshold)
      (rw
        (
          not_unset percent,
          sysmem-exact m.mem_total m.mem_free percent m.total_pos m.free_le m.total_moderate,
          pidmem-exact params m percent le,
        )
        (after_both low (over m params percent)))
