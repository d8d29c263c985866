-- ===== src/Slide/Cleaned.antt =====
-- The cleaning of etmem/src/etmemd_src/etmemd_scan.c (clean_page_sort_unexpected), and the lengths of the
-- lists in a run of etmemd_slide.c.
use etmem.Base.Int.{ℤ}
use etmem.Slide.Grading.{coldest, is_below}
use etmem.Scan.Walks.{rewind}
use etmem.Slide.Executor.{addresses, clean_lists, clean_page_sort_unexpected}
use etmem.Slide.{
  PageSort, Floats, slide_policy_interface, pick_lists, PageRefs, SlideParams, MemoryGrade,
  pick_list, no_pages,
}
use etmem.Base.{
  ◌==◌, true, zero, ◌<◌, leb, leb→le, if◌then◌else◌, Bool-cases, inl, inr, ℕ, suc, List, [], ◌∷◌,
  length, drop, ◌≡◌, refl, none, some, ◌+◌, ◌≤◌, arith, false, ap,
}

leb-false : (a b : ℕ) → leb a b ≡ false → b < a
leb-false a b h = ground arith

pub clean_lists-drop :
    {A : Type 0} (rounds : ℕ) (lists : List A)
    → rounds ≤ length lists
    → clean_lists rounds lists ≡ some (drop rounds lists)
unfolding clean_lists
clean_lists-drop zero lists h = refl
clean_lists-drop (suc rounds) [] h = absurd (omega arith)
clean_lists-drop (suc rounds) (list ∷ lists) h = clean_lists-drop rounds lists (omega arith)

clean_lists-none :
    {A : Type 0} (rounds : ℕ) (lists : List A)
    → length lists < rounds
    → clean_lists rounds lists ≡ none
unfolding clean_lists
clean_lists-none zero lists h = absurd (omega arith)
clean_lists-none (suc rounds) [] h = refl
clean_lists-none (suc rounds) (list ∷ lists) h = clean_lists-none rounds lists (omega arith)

-- For a page_sort with five sorted lists, the cleaning comes to the first loop + 1 of them: the
-- others are never freed, and for a loop above 4 it leaves the array.
pub clean_page_sort-leaks :
    {D : Type 0} (loop : ℕ) (sort : PageSort D)
    → length sort.page_refs_sort ≡ 5
    → clean_page_sort_unexpected loop sort
      ≡ (if leb loop 4 then some (drop (loop + 1) sort.page_refs_sort) else none)
unfolding clean_page_sort_unexpected
clean_page_sort-leaks loop sort five = elim (Bool-cases (leb loop 4)) [
  | inl e ↦ rw e (clean_lists-drop (loop + 1) sort.page_refs_sort (omega (arith, leb→le loop 4 e)))
  | inr e ↦
      rw e (clean_lists-none (loop + 1) sort.page_refs_sort (omega (arith, leb-false loop 4 e)))
]

pub length-addresses :
    {D : Type 0} (pages : List (PageRefs D)) → length (addresses pages) ≡ length pages
length-addresses [] = refl
length-addresses (pf ∷ pages) = ap suc (length-addresses pages)

pub length-rewind :
    {A : Type 0} (passed rest : List A) → length (rewind passed rest) ≡ length passed + length rest
unfolding rewind
length-rewind [] rest = omega arith
length-rewind (x ∷ passed) rest = omega (arith, length-rewind passed (x ∷ rest))

module _ {D : Type 0} (fl : Floats D) where
  pub length-coldest :
      (t : ℤ) (need : ℕ) (list : List (PageRefs D)) → length (coldest fl t need list) ≤ need
  length-coldest t zero list = omega arith
  length-coldest t (suc need) [] = omega arith
  length-coldest t (suc need) (pf ∷ list) = elim (Bool-cases (is_below fl t pf)) [
    | inl e ↦ rw e (omega (arith, length-coldest t need list))
    | inr e ↦ rw e (omega arith)
  ]

  pick_lists-length :
      (t : ℤ) (need : ℕ) (lists : List (List (PageRefs D))) (grade : MemoryGrade D) (count : ℕ)
      → length (pick_lists fl t need lists grade count).1 ≡ length lists
  unfolding pick_lists
  pick_lists-length t need [] grade count = refl
  pick_lists-length t need (list ∷ lists) grade count =
      let picked = pick_list fl t need list grade count in
      elim (Bool-cases picked.stop) [
        | inl e ↦ rw e refl
        | inr e ↦ rw e (ap suc (pick_lists-length t need lists picked.grade picked.count))
      ]

  pub policy-length :
      (params : SlideParams) (need : ℕ) (sort : PageSort D)
      → length (slide_policy_interface fl true (some params) need sort).left.page_refs_sort
        ≡ length sort.page_refs_sort
  unfolding slide_policy_interface
  policy-length params need sort = elim (Bool-cases (params.dram_percent == 0)) [
    | inl e ↦ simp e refl
    | inr e ↦ elim (Bool-cases (need == 0)) [
      | inl n ↦ simp (e, n) refl
      | inr n ↦ simp (e, n) (pick_lists-length params.t need sort.page_refs_sort (no_pages fl) 0)
    ]
  ]
