-- ===== src/Slide/Executor.antt =====
-- etmem/src/etmemd_src/etmemd_slide.c: slide_executor and slide_do_migrate, the work on one process, with
-- clean_page_sort_unexpected of etmemd_scan.c. The parts are joined as the code joins them.
use etmem.Base.{ℕ, zero, suc, Bool, List, [], ◌∷◌, Option, none, some, ◌+◌}
use etmem.Project.{Project}
use etmem.Migrate.{Files, Migrated, Reads, etmemd_grade_migrate, check_should_migrate}
use etmem.Migrate.Wmark.{Call, Cache, Result, etmemd_reclaim_swapcache}
use etmem.Scan.Refs.{Floats, PageRefs}
use etmem.Scan.Walks.{Scanned, scanned, scan_failed, scan_crashed}
use etmem.Slide.{SlideParams, MemoryGrade, PageSort, sort_page_refs, slide_policy_interface}
use etmem.Slide.Checks.{SwapType, do_swap, dont_swap, check_should_swap}

-- The loop of clean_page_sort_unexpected over `rounds` lists: those it never comes to, or none where it
-- leaves the array.
unfoldable pub clean_lists : {A : Type 0} → (rounds : ℕ) → List A → Option (List A)
clean_lists zero lists = some lists
clean_lists (suc rounds) [] = none
clean_lists (suc rounds) (list ∷ lists) = clean_lists rounds lists

unfoldable pub clean_page_sort_unexpected :
    {D : Type 0} → (loop : ℕ) → PageSort D → Option (List (List (PageRefs D)))
clean_page_sort_unexpected loop sort = clean_lists (loop + 1) sort.page_refs_sort

-- What a run meets: the checks' reads, memory, the swap file and the swap cache.
pub record Run : Type 0 where
  pub reads : Reads
  pub sort_calloc : Bool
  pub grade_calloc : Bool
  pub files : Files
  pub fuel : ℕ
  pub call : Call
  pub cache : Cache

-- What a run does: nothing, or it stops the daemon, or it migrates what it has graded.
pub data Outcome (D : Type 0) : Type 0 where
  not_swapped : Outcome D
  crashed : Outcome D
  without_grade : (leaked : List (List (PageRefs D))) → Outcome D
  ran :
      MemoryGrade D
      → (leaked : List (List (PageRefs D))) → Migrated
      → (reclaimed : Option Result) → Outcome D

abbrev pub addresses : {D : Type 0} → List (PageRefs D) → List ℕ
addresses [] = []
addresses (pf ∷ pages) = pf.addr ∷ addresses pages

unfoldable pub slide_do_migrate : {D : Type 0} → Files → ℕ → MemoryGrade D → Migrated
slide_do_migrate files fuel grade =
    etmemd_grade_migrate files fuel (addresses grade.hot_pages) (addresses grade.cold_pages)

abbrev pub dram_percent_of_params : Option SlideParams → Option ℕ
dram_percent_of_params none = none
dram_percent_of_params (some params) = some params.dram_percent

module _ {D : Type 0} (fl : Floats D) (proj : Project) (loop : ℕ) (params : Option SlideParams)
    (run : Run) where
  -- After the policy and the cleaning of page_sort.
  unfoldable pub finish : Option (MemoryGrade D) → Option (List (List (PageRefs D))) → Outcome D
  finish grade none = crashed
  finish none (some leaked) = without_grade leaked
  finish (some grade) (some leaked) =
      ran grade leaked (slide_do_migrate run.files run.fuel grade)
        (etmemd_reclaim_swapcache proj run.call run.cache)

  unfoldable pub grade_sorted : Option (PageSort D) → Outcome D
  grade_sorted none = without_grade []
  grade_sorted (some sort) =
      let policy =
        slide_policy_interface fl run.grade_calloc params
          (check_should_migrate run.reads (dram_percent_of_params params)) sort in
      finish policy.grade (clean_page_sort_unexpected loop policy.left)

  -- The pages of the scan; without any there is no page_sort.
  unfoldable pub grade_scanned : Scanned D → Outcome D
  grade_scanned (scanned [] asked) = without_grade []
  grade_scanned (scanned (pf ∷ page_refs) asked) =
      grade_sorted (sort_page_refs fl run.sort_calloc params (pf ∷ page_refs))
  grade_scanned (scan_failed page_refs asked) = without_grade []
  grade_scanned scan_crashed = crashed

  -- `scan` is what etmemd_do_scan gives.
  unfoldable pub executor : Option SwapType → Scanned D → Outcome D
  executor none scan = crashed
  executor (some dont_swap) scan = not_swapped
  executor (some do_swap) scan = grade_scanned scan

  unfoldable pub slide_executor : Scanned D → Outcome D
  slide_executor scan = executor (check_should_swap proj params run.reads) scan
