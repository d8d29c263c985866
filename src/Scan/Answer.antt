-- ===== src/Scan/Answer.antt =====
-- The answers that a reader of /proc/<pid>/idle_pages gives to etmem/src/etmemd_src/etmemd_scan.c: blocks,
-- each a start address and then bytes with a kind and a number of pages.
use Prim.Native.Nat.{zero, suc}
use etmem.Base.{
  ℕ, false, List, [], ◌∷◌, ◌++◌, ◌≡◌, ap, ◌==◌, ◌+◌, ◌*◌, ◌/◌, ◌^◌, ◌%◌, ◌<◌, ◌≤◌, arith, ◌≢◌,
}
use etmem.Scan.{
  pte_access, pmd_access, pud_present, pte_dirty, pmd_dirty, pte_idle, pmd_idle, pmd_idle_ptes,
  pte_hole, pmd_hole, pip_cmd, beyond, page_type_to_size, page_type_by_idle_kind, PageIdleType,
  PageSizes, idle_type_of, get_page_nr_from_buf, get_page_type_from_buf, page_type_to_size,
  page_type_by_idle_kind,
}
use etmem.Scan.Sizes.{bytes_of}
use etmem.Scan.Refs.{Floats, PageRefs}
use etmem.Scan.Recorded.{touch_run}
use etmem.Scan.Bytes.{Handling, recorded, passed_over, handling}
use etmem.Scan.Recorded.{size_of}

-- A byte: the number of a page_idle_type, and a number of pages.
pub record Item : Type 0 where
  pub code : ℕ
  pub nr : ℕ

pub record Block : Type 0 where
  pub start : ℕ
  pub items : List Item

abbrev pub IsItem : Item → Type 0
IsItem item = (item.code < 10) × (item.nr < 16)

abbrev pub kind_of : Item → PageIdleType
kind_of item = idle_type_of item.code

abbrev pub item_byte : Item → ℕ
item_byte item = item.code * 16 + item.nr

pub eq-ne : (a b : ℕ) → a ≢ b → (a == b) ≡ false
eq-ne a b h = ground arith

pub byte-ne : (item : Item) → IsItem item → item_byte item ≢ 160
byte-ne item valid = omega arith

pub nr-item_byte : (item : Item) → IsItem item → get_page_nr_from_buf (item_byte item) ≡ item.nr
unfolding get_page_nr_from_buf
nr-item_byte item valid = omega arith

pub type-item_byte :
    (item : Item) → IsItem item → get_page_type_from_buf (item_byte item) ≡ kind_of item
unfolding get_page_type_from_buf
type-item_byte item valid =
    ap idle_type_of {x = item_byte item / 16 % 16} {y = item.code} (omega arith)

unfoldable pub encode_items : List Item → List ℕ → List ℕ
encode_items [] more = more
encode_items (item ∷ items) more = item_byte item ∷ encode_items items more

-- The bytes of the blocks.
unfoldable pub encode : List Block → List ℕ
unfolding encode_items
encode [] = []
encode (block ∷ blocks) = 160 ∷ (bytes_of block.start ++ encode_items block.items (encode blocks))

module _ (sizes : PageSizes) where
  abbrev pub next_of : ℕ → Item → ℕ
  next_of addr item = addr + item.nr * size_of sizes (kind_of item)

  -- Where the items of a block end.
  abbrev pub end_of : ℕ → List Item → ℕ
  end_of addr [] = addr
  end_of addr (item ∷ items) = end_of (next_of addr item) items

  abbrev pub AllItems : List Item → Type 0
  AllItems [] = Unit
  AllItems (item ∷ items) = IsItem item × AllItems items

  -- Every block starts behind the one before, and none at 0.
  abbrev pub Ascending : ℕ → List Block → Type 0
  Ascending a [] = Unit
  Ascending a (block ∷ blocks) =
      (a ≤ block.start)
      × (1 ≤ block.start)
      × AllItems block.items
      × (end_of block.start block.items < 2 ^ 64)
      × Ascending (end_of block.start block.items) blocks

  abbrev pub last_end : ℕ → List Block → ℕ
  last_end a [] = a
  last_end a (block ∷ blocks) = last_end (end_of block.start block.items) blocks

  -- The pages of a byte end where the next byte's begin.
  abbrev pub Fits : (address next : ℕ) → Handling → Type 0
  Fits address next (recorded idle_type nr) =
      (1 ≤ size_of sizes idle_type) × (address + nr * size_of sizes idle_type ≤ next)
  Fits address next passed_over = address ≤ next

  -- What init_g_page_size gives where a page is of 4 KiB, in part.
  abbrev pub Sized : Type 0
  Sized = (1 ≤ sizes.pte) × (512 * sizes.pte ≤ sizes.pmd) × (1 ≤ sizes.pud)

  mul-le : (nr a b : ℕ) → 512 * a ≤ b → nr * 512 * a ≤ nr * b
  mul-le zero a b h = omega arith
  mul-le (suc nr) a b h = omega (arith, mul-le nr a b h)

  pub handling-Fits :
      Sized
      → (address nr : ℕ) (idle_type : PageIdleType)
      → Fits address (address + nr * size_of sizes idle_type) (handling idle_type nr)
  unfolding handling page_type_to_size page_type_by_idle_kind
  handling-Fits sized address nr pte_access = omega arith
  handling-Fits sized address nr pmd_access = omega arith
  handling-Fits sized address nr pud_present = omega arith
  handling-Fits sized address nr pte_dirty = omega arith
  handling-Fits sized address nr pmd_dirty = omega arith
  handling-Fits sized address nr pte_idle = omega arith
  handling-Fits sized address nr pmd_idle = omega arith
  handling-Fits sized address nr pmd_idle_ptes =
      (sized.0, omega (arith, mul-le nr sizes.pte sizes.pmd sized.1))
  handling-Fits sized address nr pte_hole = omega arith
  handling-Fits sized address nr pmd_hole = omega arith
  handling-Fits sized address nr pip_cmd = omega arith
  handling-Fits sized address nr beyond = omega arith

  pub end_of-le : (addr : ℕ) (items : List Item) → addr ≤ end_of addr items
  end_of-le addr [] = omega arith
  end_of-le addr (item ∷ items) = omega (arith, end_of-le (next_of addr item) items)

-- The list after the pages of a byte, of a block and of all, each page looked for from the head.
module _ (sizes : PageSizes) {D : Type 0} (fl : Floats D) (loop_index : ℕ) where
  abbrev pub touch_handling : ℕ → Handling → List (PageRefs D) → List (PageRefs D)
  touch_handling addr (recorded idle_type nr) list =
      touch_run fl sizes loop_index addr nr idle_type list
  touch_handling addr passed_over list = list

  abbrev pub touch_items : ℕ → List Item → List (PageRefs D) → List (PageRefs D)
  touch_items addr [] list = list
  touch_items addr (item ∷ items) list =
      touch_items (next_of sizes addr item) items
        (touch_handling addr (handling (kind_of item) item.nr) list)

  abbrev pub touch_blocks : List Block → List (PageRefs D) → List (PageRefs D)
  touch_blocks [] list = list
  touch_blocks (block ∷ blocks) list =
      touch_blocks blocks (touch_items block.start block.items list)
