-- ===== src/Scan/Sorted.antt =====
-- etmem/src/etmemd_src/etmemd_scan.c: the order of the list of used pages.
use etmem.Scan.Reading.{parse_vma_result-IsParsed}
use etmem.Base.{
  zero, ◌+◌, ◌%◌, ℕ, suc, List, [], ◌∷◌, ltb, ◌==◌, ◌≤◌, arith, Bool-cases, inl, inr, ltb→lt, ◌≡◌,
  false, Bool, true, Option,
}
use etmem.Scan.Walks.{rewind}
use etmem.Scan.{PageType, PageIdleType, PageSizes, page_type_by_idle_kind}
use etmem.Scan.Refs.{Floats, PageRefs, alloc_page_refs_node, est_time_of, moved}
use etmem.Scan.Bytes.{Handling, recorded, passed_over, handling, parse_vma_result}
use etmem.Scan.Touched.{touch, visit-addr, Below, Holds}
use etmem.Scan.Recorded.{touch_pages, touch_run, size_of, touch_page}
use etmem.Scan.Answer.{Item, Block, next_of, kind_of, Sized, Ascending, encode, last_end}
use etmem.Scan.Answer.{touch_handling, touch_items, touch_blocks}

-- Ascending addresses, none twice, all from a bound on.
abbrev pub SortedFrom : {D : Type 0} → ℕ → List (PageRefs D) → Type 0
SortedFrom a [] = Unit
SortedFrom a (pf ∷ list) = (a ≤ pf.addr) × SortedFrom (suc pf.addr) list

order : (a b : ℕ) → (a == b) ≡ false → ltb b a ≡ false → suc a ≤ b
order a b ne g = ground arith

module _ {D : Type 0} (fl : Floats D) where
  touch-SortedFrom :
      (addr a : ℕ) (est_time : D) (kind : PageType) (list : List (PageRefs D))
      → SortedFrom a list
      → a ≤ addr
      → SortedFrom a (touch fl addr est_time kind list)
  unfolding touch alloc_page_refs_node
  touch-SortedFrom addr a est_time kind [] sorted h = (h, tt)
  touch-SortedFrom addr a est_time kind (pf ∷ list) sorted h = elim (Bool-cases (addr == pf.addr)) [
    | inl e ↦ rw (e, visit-addr fl est_time pf) sorted
    | inr ne ↦ elim (Bool-cases (ltb pf.addr addr)) [
      | inl l ↦
          rw (ne, l)
            (
              sorted.0,
              touch-SortedFrom addr (suc pf.addr) est_time kind list sorted.1
                  (ltb→lt pf.addr addr l),
            )
      | inr g ↦ rw (ne, g) (h, (order addr pf.addr ne g, sorted.1))
    ]
  ]

  module _ (sizes : PageSizes) (loop_index : ℕ) where
    touch_pages-SortedFrom :
        (nr addr : ℕ) (idle_type : PageIdleType) (list : List (PageRefs D))
        → SortedFrom 0 list
        → SortedFrom 0 (touch_pages fl sizes loop_index nr addr idle_type list)
    unfolding touch_pages
    touch_pages-SortedFrom zero addr idle_type list sorted = sorted
    touch_pages-SortedFrom (suc nr) addr idle_type list sorted =
        touch_pages-SortedFrom nr (addr + size_of sizes idle_type) idle_type
          (touch_page fl sizes loop_index addr idle_type list)
          (touch-SortedFrom addr 0 (est_time_of fl idle_type loop_index)
            (page_type_by_idle_kind idle_type) list sorted (omega arith))

    touch_handling-SortedFrom :
        (addr : ℕ) (h : Handling) (list : List (PageRefs D))
        → SortedFrom 0 list
        → SortedFrom 0 (touch_handling sizes fl loop_index addr h list)
    unfolding touch_run
    touch_handling-SortedFrom addr (recorded idle_type nr) list sorted =
        elim (Bool-cases (ltb 0 (addr % size_of sizes idle_type))) [
          | inl e ↦ rw e sorted
          | inr e ↦ rw e (touch_pages-SortedFrom nr addr idle_type list sorted)
        ]
    touch_handling-SortedFrom addr passed_over list sorted = sorted

    touch_items-SortedFrom :
        (addr : ℕ) (items : List Item) (list : List (PageRefs D))
        → SortedFrom 0 list
        → SortedFrom 0 (touch_items sizes fl loop_index addr items list)
    touch_items-SortedFrom addr [] list sorted = sorted
    touch_items-SortedFrom addr (item ∷ items) list sorted =
        touch_items-SortedFrom (next_of sizes addr item) items
          (touch_handling sizes fl loop_index addr (handling (kind_of item) item.nr) list)
          (touch_handling-SortedFrom addr (handling (kind_of item) item.nr) list sorted)

    pub touch_blocks-SortedFrom :
        (blocks : List Block) (list : List (PageRefs D))
        → SortedFrom 0 list
        → SortedFrom 0 (touch_blocks sizes fl loop_index blocks list)
    touch_blocks-SortedFrom [] list sorted = sorted
    touch_blocks-SortedFrom (block ∷ blocks) list sorted =
        touch_blocks-SortedFrom blocks
          (touch_items sizes fl loop_index block.start block.items list)
          (touch_items-SortedFrom block.start block.items list sorted)

    -- In every round but the last, with memory for nodes, sizes where 512 small pages fit into a
    -- middle one, an answer of ascending blocks and the nodes behind the cursor below the first
    -- block, a list of used pages with strictly ascending addresses has them strictly ascending
    -- afterwards.
    pub parse_vma_result-SortedFrom :
        (calloc : ℕ → Bool) (memory : (n : ℕ) → calloc n ≡ true) (loop_end : ℕ)
        (not_last : (loop_index == loop_end) ≡ false)
        → Sized sizes
        → (blocks : List Block) (a : ℕ) (passed rest : List (PageRefs D)) (asked : ℕ)
          (use_rss : Option ℕ)
        → Ascending sizes a blocks
        → Below a passed
        → SortedFrom 0 (rewind passed rest)
        → (list : List (PageRefs D)) × SortedFrom 0 list
          × Holds
              (parse_vma_result fl calloc sizes loop_index loop_end
                (encode blocks)
                use_rss
                (moved passed rest asked)).walked
              (last_end sizes a blocks)
              list
    parse_vma_result-SortedFrom calloc memory loop_end not_last sized blocks a passed rest asked
          use_rss ascending below sorted =
        (
          touch_blocks sizes fl loop_index blocks (rewind passed rest),
          touch_blocks-SortedFrom blocks (rewind passed rest) sorted,
          (parse_vma_result-IsParsed sizes fl loop_index calloc memory loop_end not_last sized
              blocks a passed rest asked use_rss ascending below).1,
        )
