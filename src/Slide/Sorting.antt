-- ===== src/Slide/Sorting.antt =====
-- etmem/src/etmemd_src/etmemd_scan.c: where sort_page_refs puts each page.
use etmem.Base.{
  ◌≢◌, ◌+◌, ap₂, ℕ, zero, suc, true, false, List, [], ◌∷◌, ◌≡◌, refl, ap, sym, some, ◌==◌, ◌<◌,
  arith, if◌then◌else◌, ◌∙◌, Bool, not, ◌&&◌,
}
use etmem.Scan.Refs.{Floats, PageRefs}
use etmem.Scan.Walks.{rewind}
use etmem.Slide.{push_at, sort_by_possibility, distribute, five_lists, sort_page_refs, SlideParams}

pub eq-ne : (a b : ℕ) → a ≢ b → (a == b) ≡ false
eq-ne a b h = ground arith

pub eq-eq : (a b : ℕ) → a ≡ b → (a == b) ≡ true
eq-eq a b h = ground arith

zero_plus : (n : ℕ) → n ≡ 0 + n
zero_plus n = omega arith

module _ {D : Type 0} (fl : Floats D) where
  -- The likelihood p lies in interval k of those that 0.05, 0.1, 0.2 and 0.4 cut: not below the ends of the
  -- intervals before, and below its own end, if it has one.
  abbrev pub in_interval : ℕ → D → Bool
  in_interval zero p = fl.lt p (fl.ratio 5 100)
  in_interval (suc zero) p = not (fl.lt p (fl.ratio 5 100)) && fl.lt p (fl.ratio 1 10)
  in_interval (suc (suc zero)) p =
      not (fl.lt p (fl.ratio 5 100)) && (not (fl.lt p (fl.ratio 1 10)) && fl.lt p (fl.ratio 2 10))
  in_interval (suc (suc (suc zero))) p =
      not (fl.lt p (fl.ratio 5 100))
      && (not (fl.lt p (fl.ratio 1 10))
          && (not (fl.lt p (fl.ratio 2 10)) && fl.lt p (fl.ratio 4 10)))
  in_interval (suc (suc (suc (suc zero)))) p =
      not (fl.lt p (fl.ratio 5 100))
      && (not (fl.lt p (fl.ratio 1 10))
          && (not (fl.lt p (fl.ratio 2 10)) && not (fl.lt p (fl.ratio 4 10))))
  in_interval _ p = false

  sort_by_possibility-interval : (k : ℕ) (p : D) → in_interval k p ≡ (sort_by_possibility fl p == k)
  unfolding sort_by_possibility
  sort_by_possibility-interval zero p = ground arith
  sort_by_possibility-interval (suc zero) p = ground arith
  sort_by_possibility-interval (suc (suc zero)) p = ground arith
  sort_by_possibility-interval (suc (suc (suc zero))) p = ground arith
  sort_by_possibility-interval (suc (suc (suc (suc zero)))) p = ground arith
  sort_by_possibility-interval (suc (suc (suc (suc (suc k))))) p = ground arith

  -- The pages in an interval, in their order.
  abbrev pub of_kind : ℕ → List (PageRefs D) → List (PageRefs D)
  of_kind k [] = []
  of_kind k (pf ∷ page_refs) =
      let more = of_kind k page_refs in if in_interval k pf.possibility then pf ∷ more else more

  -- Every list gets the pages of its kind in front, the last one first.
  abbrev grown : ℕ → List (PageRefs D) → List (List (PageRefs D)) → List (List (PageRefs D))
  grown k page_refs [] = []
  grown k page_refs (list ∷ lists) =
      rewind (of_kind k page_refs) list ∷ grown (suc k) page_refs lists

  grown-nothing : (k : ℕ) (lists : List (List (PageRefs D))) → lists ≡ grown k [] lists
  unfolding rewind
  grown-nothing k [] = refl
  grown-nothing k (list ∷ lists) = ap (λ more. list ∷ more) (grown-nothing (suc k) lists)

  of_kind-other :
      (k : ℕ) (pf : PageRefs D) (page_refs : List (PageRefs D))
      → sort_by_possibility fl pf.possibility ≢ k
      → of_kind k (pf ∷ page_refs) ≡ of_kind k page_refs
  of_kind-other k pf page_refs h =
      rw
        (sort_by_possibility-interval k pf.possibility
          ∙ eq-ne (sort_by_possibility fl pf.possibility) k h)
        refl

  of_kind-same :
      (k : ℕ) (pf : PageRefs D) (page_refs : List (PageRefs D))
      → sort_by_possibility fl pf.possibility ≡ k
      → of_kind k (pf ∷ page_refs) ≡ pf ∷ of_kind k page_refs
  of_kind-same k pf page_refs h =
      rw
        (sort_by_possibility-interval k pf.possibility
          ∙ eq-eq (sort_by_possibility fl pf.possibility) k h)
        refl

  grown-later :
      (k : ℕ) (pf : PageRefs D) (page_refs : List (PageRefs D)) (lists : List (List (PageRefs D)))
      → sort_by_possibility fl pf.possibility < k
      → grown k page_refs lists ≡ grown k (pf ∷ page_refs) lists
  grown-later k pf page_refs [] h = refl
  grown-later k pf page_refs (list ∷ lists) h =
      ap₂ ◌∷◌
        (ap (λ (kind : List (PageRefs D)). rewind kind list)
          (sym (of_kind-other k pf page_refs (omega arith))))
        (grown-later (suc k) pf page_refs lists (omega arith))

  grown-push_at :
      (i k : ℕ) (pf : PageRefs D) (page_refs : List (PageRefs D)) (lists : List (List (PageRefs D)))
      → sort_by_possibility fl pf.possibility ≡ k + i
      → grown k page_refs (push_at i pf lists) ≡ grown k (pf ∷ page_refs) lists
  unfolding rewind
  grown-push_at zero k pf page_refs [] h = refl
  grown-push_at (suc i) k pf page_refs [] h = refl
  grown-push_at zero k pf page_refs (list ∷ lists) h =
      ap₂ ◌∷◌
        (ap (λ (kind : List (PageRefs D)). rewind kind list)
          (sym (of_kind-same k pf page_refs (omega arith))))
        (grown-later (suc k) pf page_refs lists (omega arith))
  grown-push_at (suc i) k pf page_refs (list ∷ lists) h =
      ap₂ ◌∷◌
        (ap (λ (kind : List (PageRefs D)). rewind kind list)
          (sym (of_kind-other k pf page_refs (omega arith))))
        (grown-push_at i (suc k) pf page_refs lists (omega arith))

  distribute-grown :
      (page_refs : List (PageRefs D)) (lists : List (List (PageRefs D)))
      → distribute fl page_refs lists ≡ grown 0 page_refs lists
  unfolding distribute
  distribute-grown [] lists = grown-nothing 0 lists
  distribute-grown (pf ∷ page_refs) lists =
      let i = sort_by_possibility fl pf.possibility in
      distribute-grown page_refs (push_at i pf lists)
      ∙ grown-push_at i 0 pf page_refs lists (zero_plus i)

  -- With dram_percent set and memory, sort_page_refs gives five lists, with exactly the pages
  -- whose likelihood is below 0.05, else below 0.1, else below 0.2, else below 0.4, and all
  -- others, in this order, in each the last page first, and leaves no page in the original list.
  pub sort_page_refs-kinds :
      (params : SlideParams) (page_refs : List (PageRefs D))
      → params.dram_percent ≢ 0
      → sort_page_refs fl true (some params) page_refs
        ≡ some (record {
          page_refs_sort =
              rewind (of_kind 0 page_refs) []
              ∷ rewind (of_kind 1 page_refs) []
              ∷ rewind (of_kind 2 page_refs) []
              ∷ rewind (of_kind 3 page_refs) []
              ∷ rewind (of_kind 4 page_refs) []
              ∷ [];
          page_refs = [];
        })
  unfolding sort_page_refs
  sort_page_refs-kinds params page_refs h = simp (eq-ne params.dram_percent 0 h) (
      ap (λ lists. some (record { page_refs_sort = lists; page_refs = [] }))
        (distribute-grown page_refs (five_lists fl)))
