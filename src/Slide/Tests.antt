-- ===== src/Slide/Tests.antt =====
-- Concrete pages for the slide engine, and what the theorems say of them.
use etmem.Common.Amounts.{read_gb, get_swap_threshold_in_kb}
use etmem.Base.{ℕ, true, false, List, [], ◌∷◌, ◌≡◌, refl, arith, some, none, ◌≤◌}
use etmem.Base.Int.{ℤ, pos, negsuc, ◌≤ℤ◌}
use etmem.Config.{parse_to_int, fill_item, parse_item, parse_file_config, KeyFile}
use etmem.Project.{Project, ScanParam}
use etmem.Migrate.{migrated, check_should_migrate}
use etmem.Migrate.Batches.{InBatches}
use etmem.Migrate.Wmark.{etmemd_reclaim_swapcache}
use etmem.Scan.{PageType}
use etmem.Scan.Samples.{whole_numbers}
use etmem.Scan.Refs.{PageRefs}
use etmem.Scan.Walks.{rewind, scanned}
use etmem.Slide.{SlideParams, MemoryGrade, PageSort, sort_page_refs, slide_policy_interface}
use etmem.Slide.Checks.{
  dram_percent_of, fill_task_dram_percent, fill_task_swap_threshold, fill_task_threshold,
  slide_task_config_items, check_t, check_should_swap, do_swap, slide_fill_task,
}
use etmem.Slide.Sorting.{of_kind, sort_page_refs-kinds}
use etmem.Slide.Grading.{
  coldest, all_of, hot_ones, cold_ones, slide_policy_interface-coldest,
  slide_policy_interface-split,
}
use etmem.Slide.Ranges.{slide_fill_task-range}
use etmem.Slide.Cleaned.{clean_page_sort-leaks}
use etmem.Slide.Limits.{Measured, reads_of, check_should_swap-exact}
use etmem.Slide.Executor.{Run, ran, slide_executor, clean_page_sort_unexpected}
use etmem.Slide.Lifecycle.{
  Luck, PoolCreated, IsWhole, slide_start_task, stopped_task, slide_start_task-IsWhole,
}
use etmem.Slide.Writes.{addrs_of, by_kind, slide_executor-writes}

abbrev page : ℕ → ℕ → PageRefs ℤ
page addr possibility = record {
  addr = addr;
  count = 0;
  page_type = PageType.pte_type;
  possibility = pos possibility;
  m = pos 1;
  avg = pos 0;
  std = pos 0;
  last_time = pos 0;
}

abbrev pages : List (PageRefs ℤ)
pages = page 4096 90 ∷ page 8192 3 ∷ page 12288 7 ∷ []

abbrev params : SlideParams
params = record { t = pos 50; swap_threshold = 0; dram_percent = 50 }

abbrev undivided : SlideParams
undivided = record { t = pos 50; swap_threshold = 0; dram_percent = 0 }

abbrev sort : PageSort ℤ
sort = record {
  page_refs_sort = [] ∷ (page 8192 3 ∷ []) ∷ [] ∷ (page 4096 90 ∷ []) ∷ [] ∷ [];
  page_refs = pages;
}

abbrev proj : ℤ → Project
proj sysmem_threshold = record {
  name = "p";
  scan_param = ScanParam.unset;
  sysmem_threshold = sysmem_threshold;
  swapcache_high_wmark = negsuc 0;
  swapcache_low_wmark = negsuc 0;
  start = true;
  engs = [];
}

abbrev measured : Measured
measured = record {
  mem_total = 1000;
  mem_free = 100;
  vm_rss = 1000;
  vm_swap = 0;
  total_pos = omega arith;
  free_le = omega arith;
  total_moderate = omega arith;
  rss_moderate = omega arith;
  swap_moderate = omega arith;
}

abbrev run : Run
run = record {
  reads = reads_of measured none 4096;
  sort_calloc = true;
  grade_calloc = true;
  files = record { opens = true; calloc = λ round. true; fputs = λ round. true };
  fuel = 200;
  call = record {
    reads = reads_of measured none 4096;
    opens_wmark = true;
    sets_wmark = true;
    opens = true;
    reclaims = true;
  };
  cache = record { wmark_set = false; sent = [] };
}

abbrev config : KeyFile
config = record {
  has_key = λ group key. true;
  get_int64 = λ group key. some (pos 70);
  get_string = λ group key. some "2g";
}

sort_page_refs-kinds_example :
    sort_page_refs whole_numbers true (some params) pages
    ≡ some (record {
      page_refs_sort =
          rewind (of_kind whole_numbers 0 pages) []
          ∷ rewind (of_kind whole_numbers 1 pages) []
          ∷ rewind (of_kind whole_numbers 2 pages) []
          ∷ rewind (of_kind whole_numbers 3 pages) []
          ∷ rewind (of_kind whole_numbers 4 pages) []
          ∷ [];
      page_refs = [];
    })
sort_page_refs-kinds_example = sort_page_refs-kinds whole_numbers params pages (omega arith)

slide_policy_interface-coldest_example :
    (grade : MemoryGrade ℤ) × ((slide_policy_interface whole_numbers true
        (some params)
        2
        sort).grade
      ≡ some grade)
    × (grade.cold_pages ≡ rewind (coldest whole_numbers (pos 50) 2 (all_of sort.page_refs_sort)) [])
slide_policy_interface-coldest_example =
    slide_policy_interface-coldest whole_numbers params 2 sort (omega arith) (omega arith)

slide_policy_interface-split_example :
    slide_policy_interface whole_numbers true (some undivided) 2 sort ≡ record {
      grade = some (record {
        hot_pages = rewind (hot_ones whole_numbers (pos 50) pages) [];
        cold_pages = rewind (cold_ones whole_numbers (pos 50) pages) [];
      });
      left = record sort { page_refs = [] };
    }
slide_policy_interface-split_example =
    slide_policy_interface-split whole_numbers undivided 2 sort refl

check_should_swap-exact_example :
    check_should_swap (proj (pos 20)) (some params) (reads_of measured none 4096) ≡ some do_swap
check_should_swap-exact_example =
    check_should_swap-exact (proj (pos 20)) params measured 20 none 4096 refl (omega arith)

slide_fill_task-range_example : (pos 0 ≤ℤ pos 70) × (pos 70 ≤ℤ pos 100) × (70 ≤ 100)
unfolding slide_fill_task check_t parse_file_config slide_task_config_items parse_item fill_item
    fill_task_threshold parse_to_int fill_task_swap_threshold get_swap_threshold_in_kb read_gb
    fill_task_dram_percent dram_percent_of
slide_fill_task-range_example =
    slide_fill_task-range true config
      (record { t = pos 70; swap_threshold = 2097152; dram_percent = 70 }) refl

clean_page_sort-leaks_example :
    clean_page_sort_unexpected 2 sort ≡ some ((page 4096 90 ∷ []) ∷ [] ∷ [])
clean_page_sort-leaks_example = clean_page_sort-leaks 2 sort refl

slide_executor-writes_example :
    (grade : MemoryGrade ℤ) × (leaked : List (List (PageRefs ℤ))) × (texts : List (List ℕ))
    × (slide_executor whole_numbers (proj (negsuc 0)) 3 (some params) run (scanned pages 3)
        ≡ ran grade leaked
            (migrated texts)
            (etmemd_reclaim_swapcache (proj (negsuc 0)) run.call run.cache))
    × InBatches
        (addrs_of (
          rewind
            (coldest whole_numbers
              (pos 50)
              (check_should_migrate run.reads (some 50))
              (by_kind whole_numbers pages))
            []))
        texts
unfolding check_should_migrate check_should_swap
slide_executor-writes_example =
    slide_executor-writes whole_numbers (proj (negsuc 0)) 3 params run (page 4096 90)
      (page 8192 3 ∷ page 12288 7 ∷ []) 3 0 (omega arith) (omega arith) (omega arith) refl refl refl
      refl (λ n h. refl) (λ n. refl) (omega arith)

abbrev late_failure : Luck
late_failure = record {
  malloc = true;
  pool = PoolCreated.created;
  creates_timer = true;
  starts_timer = false;
}

slide_start_task-IsWhole_example :
    IsWhole (slide_start_task late_failure (stopped_task true (5 ∷ [])))
slide_start_task-IsWhole_example = slide_start_task-IsWhole late_failure (5 ∷ [])
