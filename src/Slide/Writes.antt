-- ===== src/Slide/Writes.antt =====
-- etmem/src/etmemd_src/etmemd_slide.c: what a run of slide_executor writes.
use etmem.Slide.Grading.{all_of, coldest, slide_policy_interface-coldest}
use etmem.Slide.Sorting.{of_kind, sort_page_refs-kinds}
use etmem.Project.{Project}
use etmem.Scan.Walks.{rewind, scanned}
use etmem.Migrate.{Migrated, migrated, check_should_migrate}
use etmem.Migrate.Batches.{InBatches, etmemd_grade_migrate-writes}
use etmem.Migrate.Wmark.{etmemd_reclaim_swapcache}
use etmem.Slide.Executor.{
  Run, ran, addresses, slide_executor, executor, grade_scanned, grade_sorted, finish,
  slide_do_migrate, clean_page_sort_unexpected,
}
use etmem.Slide.Checks.{SwapType, do_swap, check_should_swap}
use etmem.Slide.{
  sort_page_refs, PageSort, Floats, slide_policy_interface, PageRefs, SlideParams, MemoryGrade,
}
use etmem.Base.{
  refl, ap₂, Option, subst, ◌≢◌, ◌∙◌, true, ℕ, List, [], ◌∷◌, length, drop, ◌≡◌, some, ◌+◌, ◌≤◌,
  arith, ap, Bool,
}
use etmem.Slide.Cleaned.{
  clean_lists-drop, length-addresses, length-rewind, length-coldest, policy-length,
}

abbrev pub addrs_of : {D : Type 0} → List (PageRefs D) → List ℕ
addrs_of [] = []
addrs_of (pf ∷ pages) = pf.addr ∷ addrs_of pages

addresses-addrs_of : {D : Type 0} (pages : List (PageRefs D)) → addresses pages ≡ addrs_of pages
addresses-addrs_of [] = refl
addresses-addrs_of (pf ∷ pages) = ap (λ l. pf.addr ∷ l) (addresses-addrs_of pages)

module _ {D : Type 0} (fl : Floats D) where
  -- The lists that the pages are sorted into, one behind the other, the least likely first.
  abbrev pub by_kind : List (PageRefs D) → List (PageRefs D)
  by_kind pages = all_of (
      rewind (of_kind fl 0 pages) []
      ∷ rewind (of_kind fl 1 pages) []
      ∷ rewind (of_kind fl 2 pages) []
      ∷ rewind (of_kind fl 3 pages) []
      ∷ rewind (of_kind fl 4 pages) []
      ∷ [])

  module _ (proj : Project) (loop : ℕ) (params : SlideParams) (run : Run) (pf : PageRefs D)
      (pages : List (PageRefs D)) (asked : ℕ) where
    abbrev need : ℕ
    need = check_should_migrate run.reads (some params.dram_percent)

    abbrev sorted : PageSort D
    sorted = record {
      page_refs_sort =
          rewind (of_kind fl 0 (pf ∷ pages)) []
          ∷ rewind (of_kind fl 1 (pf ∷ pages)) []
          ∷ rewind (of_kind fl 2 (pf ∷ pages)) []
          ∷ rewind (of_kind fl 3 (pf ∷ pages)) []
          ∷ rewind (of_kind fl 4 (pf ∷ pages)) []
          ∷ [];
      page_refs = [];
    }

    abbrev left_lists : List (List (PageRefs D))
    left_lists = (slide_policy_interface fl true (some params) need sorted).left.page_refs_sort

    cleaned :
        loop ≤ 4
        → clean_page_sort_unexpected loop
            (slide_policy_interface fl true (some params) need sorted).left
          ≡ some (drop (loop + 1) left_lists)
    unfolding clean_page_sort_unexpected
    cleaned h =
        clean_lists-drop (loop + 1) left_lists (omega (arith, policy-length fl params need sorted))

    graded :
        (grade : MemoryGrade D)
        → loop ≤ 4
        → run.grade_calloc ≡ true
        → (slide_policy_interface fl true (some params) need sorted).grade ≡ some grade
        → grade_sorted fl proj loop (some params) run (some sorted)
          ≡ ran grade
              (drop (loop + 1) left_lists)
              (slide_do_migrate run.files run.fuel grade)
              (etmemd_reclaim_swapcache proj run.call run.cache)
    unfolding grade_sorted finish
    graded grade h memory found =
        ap
          (λ (calloc : Bool).
            finish fl proj loop (some params) run
              (slide_policy_interface fl calloc (some params) need sorted).grade
              (clean_page_sort_unexpected loop
                (slide_policy_interface fl calloc (some params) need sorted).left))
          memory
        ∙ ap₂ (finish fl proj loop (some params) run) found (cleaned h)

    scanned_to :
        params.dram_percent ≢ 0
        → run.sort_calloc ≡ true
        → check_should_swap proj (some params) run.reads ≡ some do_swap
        → slide_executor fl proj loop (some params) run (scanned (pf ∷ pages) asked)
          ≡ grade_sorted fl proj loop (some params) run (some sorted)
    unfolding slide_executor executor grade_scanned
    scanned_to percent memory swap =
        ap
          (λ (answer : Option SwapType).
            executor fl proj loop (some params) run answer (scanned (pf ∷ pages) asked))
          swap
        ∙ ap
            (λ (calloc : Bool).
              grade_sorted fl proj loop (some params) run
                (sort_page_refs fl calloc (some params) (pf ∷ pages)))
            memory
        ∙ ap (grade_sorted fl proj loop (some params) run)
            (sort_page_refs-kinds fl params (pf ∷ pages) percent)

    cold_fuel :
        (k : ℕ) (cold : List (PageRefs D))
        → need + k ≤ run.fuel
        → cold ≡ rewind (coldest fl params.t need (by_kind (pf ∷ pages))) []
        → length (addresses cold) + k ≤ run.fuel
    cold_fuel k cold fuel e =
        let list = coldest fl params.t need (by_kind (pf ∷ pages)) in
        omega (
          arith,
          ap length e,
          length-addresses cold,
          length-rewind list [],
          length-coldest fl params.t need (by_kind (pf ∷ pages)),
        )

    -- If the checks say that a process is swapped, its scan gave pages, dram_percent is set and
    -- pages are to be swapped, the round count is at most 4, memory for the sorting and the
    -- grades is there, the swap file opens and takes every text, memory for a text is there from
    -- round k on, and the loop may run k rounds more than pages are to be swapped, then the run
    -- ends with a call of etmemd_reclaim_swapcache, after it has written, in batches and as few
    -- as there can be, a line "0x" with the hexadecimal digits of its address for exactly each of
    -- these pages: of the lists by intervals of likelihood (cut at 0.05, 0.1, 0.2 and 0.4, the
    -- lowest first, in each the last page first), joined, those in front of the first whose
    -- likelihood in whole percent is not below the watermark, and not more than
    -- check_should_migrate asked for, the last chosen first.
    pub slide_executor-writes :
        (k : ℕ)
        → params.dram_percent ≢ 0
        → need ≢ 0
        → loop ≤ 4
        → run.sort_calloc ≡ true
        → run.grade_calloc ≡ true
        → check_should_swap proj (some params) run.reads ≡ some do_swap
        → run.files.opens ≡ true
        → ((n : ℕ) → k ≤ n → run.files.calloc n ≡ true)
        → ((n : ℕ) → run.files.fputs n ≡ true)
        → need + k ≤ run.fuel
        → (grade : MemoryGrade D) × (leaked : List (List (PageRefs D))) × (texts : List (List ℕ))
          × (slide_executor fl proj loop (some params) run (scanned (pf ∷ pages) asked)
              ≡ ran grade leaked
                  (migrated texts)
                  (etmemd_reclaim_swapcache proj run.call run.cache))
          × InBatches (addrs_of (rewind (coldest fl params.t need (by_kind (pf ∷ pages))) [])) texts
    unfolding slide_do_migrate
    slide_executor-writes k percent enough h sort_memory memory swap opens room writes fuel =
        let policy = slide_policy_interface-coldest fl params need sorted percent enough in
        let cold : List (PageRefs D) =
          rewind (coldest fl params.t need (by_kind (pf ∷ pages))) [] in
        let written =
          etmemd_grade_migrate-writes run.files k room writes run.fuel
            (addresses policy.0.hot_pages) (addresses policy.0.cold_pages) opens
            (cold_fuel k policy.0.cold_pages fuel policy.2) in
        (
          policy.0,
          drop (loop + 1) left_lists,
          written.0,
          scanned_to percent sort_memory swap
              ∙ graded policy.0 h memory policy.1
              ∙ ap
                  (λ (m : Migrated).
                    ran policy.0 (drop (loop + 1) left_lists) m
                      (etmemd_reclaim_swapcache proj run.call run.cache))
                  written.1,
          subst (λ (addrs : List ℕ). InBatches addrs written.0)
              (ap (λ (list : List (PageRefs D)). addresses list) policy.2 ∙ addresses-addrs_of cold)
              written.2,
        )
