-- ===== src/Slide.antt =====
-- etmem/src/etmemd_src/etmemd_slide.c, with sort_page_refs of etmemd_scan.c: which pages of a process are
-- hot and which are cold, whether it is swapped at all, and the parameters of a task of the slide engine.
pub mod Sorting
pub mod Grading
pub mod Checks
pub mod Limits
pub mod Ranges
pub mod Cleaned
pub mod Executor
pub mod Lifecycle
pub mod Writes
mod Tests
use etmem.Base.{
  ℕ, zero, suc, Bool, true, false, List, [], ◌∷◌, ◌++◌, Option, none, some, ltb, leb, ◌+◌, ◌-◌, ◌*◌,
  ◌==◌, if◌then◌else◌,
}
use etmem.Base.Int.{ℤ, pos, negsuc, leb_ℤ, ltb_ℤ}
use etmem.Config.{KeyFile, ConfigItem, int_val, str_val, parse_to_int, parse_file_config}
use etmem.Scan.Refs.{Floats, PageRefs}

-- struct slide_params, less its executor.
pub record SlideParams : Type 0 where
  pub t : ℤ
  pub swap_threshold : ℕ
  pub dram_percent : ℕ

-- struct memory_grade
pub record MemoryGrade (D : Type 0) : Type 0 where
  pub hot_pages : List (PageRefs D)
  pub cold_pages : List (PageRefs D)

-- struct page_sort, less its loop: the sorted lists, and the list that is left.
pub record PageSort (D : Type 0) : Type 0 where
  pub page_refs_sort : List (List (PageRefs D))
  pub page_refs : List (PageRefs D)

-- The place of a page in its list.
abbrev pub push_at : {A : Type 0} → ℕ → A → List (List A) → List (List A)
push_at i x [] = []
push_at zero x (xs ∷ lists) = (x ∷ xs) ∷ lists
push_at (suc i) x (xs ∷ lists) = xs ∷ push_at i x lists

module _ {D : Type 0} (fl : Floats D) where
  unfoldable pub sort_by_possibility : D → ℕ
  sort_by_possibility p =
      if fl.lt p (fl.ratio 5 100)
      then 0
      else if fl.lt p (fl.ratio 1 10)
      then 1
      else if fl.lt p (fl.ratio 2 10)
      then 2
      else if fl.lt p (fl.ratio 4 10)
      then 3
      else 4

  -- The loop of sort_page_refs moves each page to the head of its list.
  unfoldable pub distribute :
      List (PageRefs D) → List (List (PageRefs D)) → List (List (PageRefs D))
  distribute [] lists = lists
  distribute (pf ∷ page_refs) lists =
      distribute page_refs (push_at (sort_by_possibility pf.possibility) pf lists)

  abbrev pub five_lists : List (List (PageRefs D))
  five_lists = [] ∷ [] ∷ [] ∷ [] ∷ [] ∷ []

  -- `calloc`: whether alloc_page_sort gets its memory; `params` is none for NULL.
  unfoldable pub sort_page_refs :
      (calloc : Bool) → Option SlideParams → List (PageRefs D) → Option (PageSort D)
  sort_page_refs false params page_refs = none
  sort_page_refs true none page_refs =
      some (record { page_refs_sort = five_lists; page_refs = page_refs })
  sort_page_refs true (some params) page_refs =
      if params.dram_percent == 0
      then some (record { page_refs_sort = five_lists; page_refs = page_refs })
      else some (record { page_refs_sort = distribute page_refs five_lists; page_refs = [] })

  -- `(int)(possibility * 100) >= t`
  unfoldable pub is_hot : ℤ → PageRefs D → Bool
  is_hot t pf = leb_ℤ t (fl.trunc (fl.mul pf.possibility (fl.of_int (pos 100))))

  -- The loop without dram_percent: every page goes to the head of one of the lists.
  unfoldable pub grade_all : ℤ → List (PageRefs D) → MemoryGrade D → MemoryGrade D
  grade_all t [] grade = grade
  grade_all t (pf ∷ page_refs) grade =
      if is_hot t pf
      then grade_all t page_refs (record grade { hot_pages = pf ∷ grade.hot_pages })
      else grade_all t page_refs (record grade { cold_pages = pf ∷ grade.cold_pages })

-- Where the loops with dram_percent stand: `stop` after a `goto count_out`.
pub record Picked (D : Type 0) : Type 0 where
  pub grade : MemoryGrade D
  pub count : ℕ
  pub stop : Bool
  pub rest : List (PageRefs D)

module _ {D : Type 0} (fl : Floats D) (t : ℤ) (need_2_swap_num : ℕ) where
  -- The inner loop over one sorted list.
  unfoldable pub pick_list : List (PageRefs D) → MemoryGrade D → ℕ → Picked D
  pick_list [] grade count = record { grade = grade; count = count; stop = false; rest = [] }
  pick_list (pf ∷ rest) grade count =
      let colder = record grade { cold_pages = pf ∷ grade.cold_pages } in
      let later = pick_list rest colder (count + 1) in
      if is_hot fl t pf
      then record {
        grade = record grade { hot_pages = pf ∷ grade.hot_pages };
        count = count;
        stop = true;
        rest = rest;
      }
      else if leb need_2_swap_num (count + 1)
      then record { grade = colder; count = count + 1; stop = true; rest = rest }
      else later

  -- The outer loop, with what it leaves in the lists.
  abbrev pub next_lists :
      Picked D
      → List (List (PageRefs D))
      → (MemoryGrade D → ℕ → MemoryGrade D × List (List (PageRefs D)))
      → MemoryGrade D × List (List (PageRefs D))
  next_lists picked lists more =
      let later = more picked.grade picked.count in
      if picked.stop then (picked.grade, picked.rest ∷ lists) else (later.0, picked.rest ∷ later.1)

  unfoldable pub pick_lists :
      List (List (PageRefs D)) → MemoryGrade D → ℕ → MemoryGrade D × List (List (PageRefs D))
  pick_lists [] grade count = (grade, [])
  pick_lists (list ∷ lists) grade count =
      next_lists (pick_list list grade count) lists (pick_lists lists)

-- What slide_policy_interface leaves: the grades, if any, and the pages still in page_sort.
pub record Policy (D : Type 0) : Type 0 where
  pub grade : Option (MemoryGrade D)
  pub left : PageSort D

module _ {D : Type 0} (fl : Floats D) where
  abbrev pub no_pages : MemoryGrade D
  no_pages = record { hot_pages = []; cold_pages = [] }

  -- `need_2_swap_num` is what check_should_migrate answers.
  unfoldable pub slide_policy_interface :
      (calloc : Bool) → Option SlideParams → (need_2_swap_num : ℕ) → PageSort D → Policy D
  slide_policy_interface calloc none need_2_swap_num sort = record { grade = none; left = sort }
  slide_policy_interface false (some params) need_2_swap_num sort = record {
    grade = none;
    left = sort;
  }
  slide_policy_interface true (some params) need_2_swap_num sort =
      let picked = pick_lists fl params.t need_2_swap_num sort.page_refs_sort no_pages 0 in
      if params.dram_percent == 0
      then record {
        grade = some (grade_all fl params.t sort.page_refs no_pages);
        left = record sort { page_refs = [] };
      }
      else if need_2_swap_num == 0
      then record { grade = some no_pages; left = sort }
      else record { grade = some picked.0; left = record sort { page_refs_sort = picked.1 } }
