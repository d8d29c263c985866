-- ===== src/Scan.antt =====
-- etmem/src/etmemd_src/etmemd_scan.c: which pages a process used. This file has the page sizes and the
-- bytes that the kernel's idle_pages file gives; the children have the list of pages that is built from
-- them, and how it is sorted.
mod Sizes
pub mod Refs
pub mod Bytes
pub mod Walks
pub mod Touched
pub mod Recorded
pub mod Answer
pub mod Addresses
pub mod Reading
pub mod Process
pub mod Sorted
pub mod Faults
pub mod Exported
pub mod Samples
mod Tests
use Prim.Native.Nat.{zero, suc}
use etmem.Base.{
  ℕ, ◌+◌, ◌-◌, ◌*◌, ◌/◌, ◌%◌, ◌^◌, List, ◌∷◌, Option, none, some, ltb, ◌==◌, if◌then◌else◌,
}

-- enum page_type, with PAGE_TYPE_INVAL.
pub data PageType : Type 0 where
  pte_type pmd_type pud_type page_type_inval : PageType

-- enum page_idle_type. A byte can also hold a value beyond the enumeration.
pub data PageIdleType : Type 0 where
  pte_access pmd_access pud_present pte_dirty pmd_dirty : PageIdleType
  pte_idle pmd_idle pmd_idle_ptes pte_hole pmd_hole pip_cmd beyond : PageIdleType

-- g_page_size, and what the memory behind it holds.
pub record PageSizes : Type 0 where
  pub pte : ℕ
  pub pmd : ℕ
  pub pud : ℕ
  pub junk : ℕ

-- g_page_type_by_idle_kind
unfoldable pub page_type_by_idle_kind : PageIdleType → PageType
page_type_by_idle_kind pte_access = pte_type
page_type_by_idle_kind pmd_access = pmd_type
page_type_by_idle_kind pud_present = pud_type
page_type_by_idle_kind pte_dirty = pte_type
page_type_by_idle_kind pmd_dirty = pmd_type
page_type_by_idle_kind pte_idle = pte_type
page_type_by_idle_kind pmd_idle = pmd_type
page_type_by_idle_kind pmd_idle_ptes = pmd_type
page_type_by_idle_kind pte_hole = pte_type
page_type_by_idle_kind pmd_hole = pmd_type
page_type_by_idle_kind _ = page_type_inval

unfoldable pub page_type_to_size : PageSizes → PageType → ℕ
page_type_to_size sizes pte_type = sizes.pte
page_type_to_size sizes pmd_type = sizes.pmd
page_type_to_size sizes pud_type = sizes.pud
page_type_to_size sizes page_type_inval = sizes.junk

-- `while (pagesize != 0)` of get_page_shift, with a bound on the rounds.
unfoldable pub shift_loop : (fuel pagesize page_shift : ℕ) → ℕ
shift_loop zero pagesize page_shift = page_shift
shift_loop (suc fuel) pagesize page_shift =
    let more = shift_loop fuel (pagesize / 2) (page_shift + 1) in
    if pagesize == 0 then page_shift else more

unfoldable pub get_page_shift : ℕ → ℕ
unfolding shift_loop
get_page_shift pagesize = shift_loop pagesize (pagesize / 2) 0

-- `1 << k` in int: undefined where the result is no int.
unfoldable pub shift_one : ℕ → Option ℕ
shift_one k = if ltb k 31 then some (2 ^ k) else none

-- Sizes whose shift is defined; `sysconf` gives none where it fails.
pub record Shifted : Type 0 where
  pub pte : Option ℕ
  pub pmd : Option ℕ
  pub pud : Option ℕ

-- The shift of a level; `page_shift` is unsigned, so the subtraction wraps around below 3.
unfoldable pub level_shift : (page_shift levels : ℕ) → Option ℕ
unfolding shift_one
level_shift page_shift levels = shift_one (((page_shift + 2 ^ 32 - 3) * levels + 3) % 2 ^ 32)

unfoldable pub init_g_page_size : Option ℕ → Option Shifted
unfolding get_page_shift level_shift shift_one
init_g_page_size none = none
init_g_page_size (some pagesize) =
    let page_shift = get_page_shift pagesize in
    some (record {
      pte = shift_one page_shift;
      pmd = level_shift page_shift 2;
      pud = level_shift page_shift 3;
    })

-- The low and the high four bits of a byte.
unfoldable pub get_page_nr_from_buf : ℕ → ℕ
get_page_nr_from_buf byte = byte % 16

abbrev pub idle_type_of : ℕ → PageIdleType
idle_type_of n =
    if n == 0
    then pte_access
    else if n == 1
    then pmd_access
    else if n == 2
    then pud_present
    else if n == 3
    then pte_dirty
    else if n == 4
    then pmd_dirty
    else if n == 5
    then pte_idle
    else if n == 6
    then pmd_idle
    else if n == 7
    then pmd_idle_ptes
    else if n == 8
    then pte_hole
    else if n == 9
    then pmd_hole
    else if n == 10
    then pip_cmd
    else beyond

unfoldable pub get_page_type_from_buf : ℕ → PageIdleType
get_page_type_from_buf byte = idle_type_of (byte / 16 % 16)

-- PIP_CMD_SET_HVA
abbrev pub pip_cmd_set_hva : ℕ
pip_cmd_set_hva = 160

-- The eight bytes behind a PIP_CMD_SET_HVA, most significant first; none if the buffer ends before.
unfoldable pub get_address_from_buf : List ℕ → Option ℕ
get_address_from_buf (a ∷ b ∷ c ∷ d ∷ e ∷ f ∷ g ∷ h ∷ bytes) = some (
    a * 2 ^ 56
    + (b * 2 ^ 48 + (c * 2 ^ 40 + (d * 2 ^ 32 + (e * 2 ^ 24 + (f * 2 ^ 16 + (g * 2 ^ 8 + h)))))))
get_address_from_buf _ = none
