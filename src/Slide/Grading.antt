-- ===== src/Slide/Grading.antt =====
-- etmem/src/etmemd_src/etmemd_slide.c: which pages slide_policy_interface takes as hot and as cold.
use etmem.Slide.Sorting.{eq-ne, eq-eq}
use etmem.Base.{
  ℕ, zero, suc, Bool, true, false, List, [], ◌∷◌, ◌++◌, ◌≡◌, refl, leb, ◌+◌, ◌-◌, ◌<◌, arith,
  if◌then◌else◌, Bool-cases, inl, inr, Option, ◌≢◌, sym, some, ◌∙◌, ap, not, ltb,
}
use etmem.Base.Int.{ℤ, ltb_ℤ, pos}
use etmem.Scan.Refs.{Floats, PageRefs}
use etmem.Scan.Walks.{rewind}
use etmem.Slide.{
  is_hot, grade_all, pick_list, MemoryGrade, Picked, slide_policy_interface, pick_lists,
  SlideParams, PageSort, next_lists, Policy, no_pages,
}

abbrev pub all_of : {A : Type 0} → List (List A) → List A
all_of [] = []
all_of (list ∷ lists) = list ++ all_of lists

minus_zero : (n : ℕ) → n - 0 ≡ n
minus_zero n = omega arith

one_less : (need count : ℕ) → count < need → need - count ≡ suc (need - (count + 1))
one_less need count h = omega arith

no_room : (need count : ℕ) → leb need count ≡ true → need - count ≡ 0
no_room need count h = ground arith

some_room : (need count : ℕ) → leb need count ≡ false → count < need
some_room need count h = ground arith

leb-ltb : (n m : ℕ) → leb n m ≡ not (ltb m n)
leb-ltb n m = ground arith

module _ {D : Type 0} (fl : Floats D) (t : ℤ) where
  -- The likelihood of the page in whole percent is below the watermark.
  abbrev pub is_below : PageRefs D → Bool
  is_below pf = ltb_ℤ (fl.trunc (fl.mul pf.possibility (fl.of_int (pos 100)))) t

  is_hot-below : (pf : PageRefs D) → is_below pf ≡ not (is_hot fl t pf)
  unfolding is_hot
  is_hot-below pf = ground arith

  -- The hot pages of a list, and the others.
  abbrev pub hot_ones : List (PageRefs D) → List (PageRefs D)
  hot_ones [] = []
  hot_ones (pf ∷ list) = let more = hot_ones list in if is_below pf then more else pf ∷ more

  abbrev pub cold_ones : List (PageRefs D) → List (PageRefs D)
  cold_ones [] = []
  cold_ones (pf ∷ list) = let more = cold_ones list in if is_below pf then pf ∷ more else more

  grade_all-split :
      (list : List (PageRefs D)) (grade : MemoryGrade D)
      → grade_all fl t list grade ≡ record {
        hot_pages = rewind (hot_ones list) grade.hot_pages;
        cold_pages = rewind (cold_ones list) grade.cold_pages;
      }
  unfolding grade_all rewind
  grade_all-split [] grade = refl
  grade_all-split (pf ∷ list) grade = elim (Bool-cases (is_hot fl t pf)) [
    | inl e ↦
        rw (is_hot-below pf, e)
          (grade_all-split list (record grade { hot_pages = pf ∷ grade.hot_pages }))
    | inr e ↦
        rw (is_hot-below pf, e)
          (grade_all-split list (record grade { cold_pages = pf ∷ grade.cold_pages }))
  ]

  -- Up to `need` pages from the front of a list, ending before the first hot one.
  abbrev pub coldest : ℕ → List (PageRefs D) → List (PageRefs D)
  coldest zero list = []
  coldest (suc need) [] = []
  coldest (suc need) (pf ∷ list) =
      let more = coldest need list in if is_below pf then pf ∷ more else []

  coldest-hot :
      (need : ℕ) (pf : PageRefs D) (list : List (PageRefs D))
      → is_hot fl t pf ≡ true
      → coldest need (pf ∷ list) ≡ []
  coldest-hot zero pf list e = refl
  coldest-hot (suc need) pf list e = rw (is_hot-below pf, e) refl

  coldest-cold :
      (need count : ℕ) (pf : PageRefs D) (list : List (PageRefs D))
      → count < need
      → is_hot fl t pf ≡ false
      → coldest (need - count) (pf ∷ list) ≡ pf ∷ coldest (need - (count + 1)) list
  coldest-cold need count pf list h e = rw (one_less need count h, is_hot-below pf, e) refl

  coldest-nothing : (need : ℕ) → coldest need [] ≡ []
  coldest-nothing zero = refl
  coldest-nothing (suc need) = refl

  module _ (need : ℕ) where
    -- The cold pages after one list, where the loop stops or goes on with others.
    abbrev After : Bool → Picked D → List (PageRefs D) → List (PageRefs D) → Type 0
    After true picked more target = target ≡ picked.grade.cold_pages
    After false picked more target =
        (picked.count < need)
        × (target ≡ rewind (coldest (need - picked.count) more) picked.grade.cold_pages)

    pick_list-After :
        (list more : List (PageRefs D)) (grade : MemoryGrade D) (count : ℕ)
        → count < need
        → After
            (pick_list fl t need list grade count).stop
            (pick_list fl t need list grade count)
            more
            (rewind (coldest (need - count) (list ++ more)) grade.cold_pages)
    unfolding pick_list rewind
    pick_list-After [] more grade count h = (h, refl)
    pick_list-After (pf ∷ list) more grade count h = elim (Bool-cases (is_hot fl t pf)) [
      | inl e ↦ rw (e, coldest-hot (need - count) pf (list ++ more) e) refl
      | inr e ↦ elim (Bool-cases (leb need (count + 1))) [
        | inl full ↦
            rw (e, full, coldest-cold need count pf (list ++ more) h e)
              (rw (no_room need (count + 1) full) refl)
        | inr room ↦
            rw (e, room, coldest-cold need count pf (list ++ more) h e)
              (pick_list-After list more (record grade { cold_pages = pf ∷ grade.cold_pages })
                (count + 1) (some_room need (count + 1) room))
      ]
    ]

    stopped_or_not :
        (picked : Picked D) (lists : List (List (PageRefs D))) (target : List (PageRefs D))
        (stop : Bool)
        → picked.stop ≡ stop
        → After stop picked (all_of lists) target
        → ((grade : MemoryGrade D) (count : ℕ)
            → count < need
            → (pick_lists fl t need lists grade count).0.cold_pages
              ≡ rewind (coldest (need - count) (all_of lists)) grade.cold_pages)
        → (next_lists fl t need picked lists (pick_lists fl t need lists)).0.cold_pages ≡ target
    stopped_or_not picked lists target true e after later = rw e (sym after)
    stopped_or_not picked lists target false e after later =
        rw e (later picked.grade picked.count after.0 ∙ sym after.1)

    pick_lists-coldest :
        (lists : List (List (PageRefs D))) (grade : MemoryGrade D) (count : ℕ)
        → count < need
        → (pick_lists fl t need lists grade count).0.cold_pages
          ≡ rewind (coldest (need - count) (all_of lists)) grade.cold_pages
    unfolding pick_lists rewind
    pick_lists-coldest [] grade count h = rw (coldest-nothing (need - count)) refl
    pick_lists-coldest (list ∷ lists) grade count h =
        let picked = pick_list fl t need list grade count in
        stopped_or_not picked lists
          (rewind (coldest (need - count) (list ++ all_of lists)) grade.cold_pages) picked.stop refl
          (pick_list-After list (all_of lists) grade count h) (pick_lists-coldest lists)

abbrev policy : {D : Type 0} → Option (MemoryGrade D) → PageSort D → Policy D
policy grade left = record { grade = grade; left = left }

module _ {D : Type 0} (fl : Floats D) where
  -- With dram_percent set, memory for the grades and a number of pages to swap other than 0, the
  -- nested loops of slide_policy_interface take as cold the pages of all sorted lists, joined, up
  -- to that number and ending before the first whose likelihood in whole percent is not below the
  -- watermark, the last taken first.
  pub slide_policy_interface-coldest :
      (params : SlideParams) (need : ℕ) (sort : PageSort D)
      → params.dram_percent ≢ 0
      → need ≢ 0
      → (grade : MemoryGrade D) × ((slide_policy_interface fl true (some params) need sort).grade
          ≡ some grade)
        × (grade.cold_pages ≡ rewind (coldest fl params.t need (all_of sort.page_refs_sort)) [])
  unfolding slide_policy_interface
  slide_policy_interface-coldest params need sort percent enough = (
    (pick_lists fl params.t need sort.page_refs_sort (no_pages fl) 0).0,
    simp (eq-ne params.dram_percent 0 percent, eq-ne need 0 enough) refl,
    pick_lists-coldest fl params.t need sort.page_refs_sort (no_pages fl) 0 (omega arith)
        ∙ ap (λ n. rewind (coldest fl params.t n (all_of sort.page_refs_sort)) [])
            (minus_zero need),
  )

  -- Without dram_percent and with memory for the grades, slide_policy_interface takes as cold the
  -- pages of the list whose likelihood in whole percent is below the watermark and as hot all
  -- others, each grade in the reverse order of the list, and leaves none in the list.
  pub slide_policy_interface-split :
      (params : SlideParams) (need : ℕ) (sort : PageSort D)
      → params.dram_percent ≡ 0
      → slide_policy_interface fl true (some params) need sort ≡ record {
        grade = some (record {
          hot_pages = rewind (hot_ones fl params.t sort.page_refs) [];
          cold_pages = rewind (cold_ones fl params.t sort.page_refs) [];
        });
        left = record sort { page_refs = [] };
      }
  unfolding slide_policy_interface
  slide_policy_interface-split params need sort percent =
      simp (eq-eq params.dram_percent 0 percent) (
        ap (λ (g : MemoryGrade D). policy (some g) (record sort { page_refs = [] }))
          (grade_all-split fl params.t sort.page_refs (no_pages fl)))
