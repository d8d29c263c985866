-- ===== src/Scan/Recorded.antt =====
-- etmem/src/etmemd_src/etmemd_scan.c: record_parse_result in every round but the last, next to the
-- reference that looks for each page from the head.
use Prim.Native.Nat.{zero, suc}
use etmem.Base.{
  ℕ, Bool, true, false, List, ◌≡◌, ap, subst, sym, ltb, ◌==◌, ◌+◌, ◌*◌, ◌^◌, ◌%◌, ◌<◌, ◌≤◌, arith,
  if◌then◌else◌, Bool-cases, inl, inr, ◌∙◌,
}
use etmem.Scan.{PageIdleType, PageSizes, page_type_by_idle_kind, page_type_to_size}
use etmem.Scan.Refs.{
  Floats, PageRefs, Walked, moved, null_pf, fault, est_time_of, update_page_refs, record_page,
  record_pages, record_parse_result,
}
use etmem.Scan.Touched.{Holds, Holds-mono, touch, Below-mono, touch-rewind, update-Holds}

suc-mul : (nr size addr : ℕ) → addr + suc nr * size ≡ addr + size + nr * size
suc-mul nr size addr = omega arith

pub mod_small : (n : ℕ) → n < 2 ^ 64 → n % 2 ^ 64 ≡ n
mod_small n h = omega arith

-- The size of the pages of a kind.
abbrev pub size_of : PageSizes → PageIdleType → ℕ
size_of sizes idle_type = page_type_to_size sizes (page_type_by_idle_kind idle_type)

module _ {D : Type 0} (fl : Floats D) (sizes : PageSizes) (loop_index : ℕ) where
  abbrev pub touch_page : ℕ → PageIdleType → List (PageRefs D) → List (PageRefs D)
  touch_page addr idle_type list =
      touch fl addr (est_time_of fl idle_type loop_index) (page_type_by_idle_kind idle_type) list

  -- A run of pages, each looked for from the head.
  unfoldable pub touch_pages : (nr addr : ℕ) → PageIdleType → List (PageRefs D) → List (PageRefs D)
  touch_pages zero addr idle_type list = list
  touch_pages (suc nr) addr idle_type list =
      touch_pages nr (addr + size_of sizes idle_type) idle_type (touch_page addr idle_type list)

  -- The same behind the test of the alignment.
  unfoldable pub touch_run : (addr nr : ℕ) → PageIdleType → List (PageRefs D) → List (PageRefs D)
  unfolding touch_pages
  touch_run addr nr idle_type list =
      if ltb 0 (addr % size_of sizes idle_type) then list else touch_pages nr addr idle_type list

  module _ (calloc : ℕ → Bool) (memory : (n : ℕ) → calloc n ≡ true) (loop_end : ℕ)
      (not_last : (loop_index == loop_end) ≡ false) where
    record_page-Holds :
        (addr a : ℕ) (idle_type : PageIdleType) (w : Walked D) (list : List (PageRefs D))
        → Holds w a list
        → a ≤ addr
        → Holds
            (record_page fl calloc sizes loop_index loop_end addr idle_type w)
            (suc addr)
            (touch_page addr idle_type list)
    unfolding record_page
    record_page-Holds addr a idle_type (moved passed rest asked) list holds h =
        let est_time = est_time_of fl idle_type loop_index in
        let kind = page_type_by_idle_kind idle_type in
        let below = Below-mono passed h holds.1 in
        let updated = update_page_refs fl calloc addr est_time kind passed rest asked in
        rw not_last (
          subst (λ l. Holds updated (suc addr) l)
            (sym (touch-rewind fl addr est_time kind passed rest below)
              ∙ ap (touch fl addr est_time kind) holds.0)
            (update-Holds fl calloc memory addr est_time kind passed rest asked below))
    record_page-Holds addr a idle_type (null_pf passed rest asked) list holds h = absurd holds
    record_page-Holds addr a idle_type fault list holds h = absurd holds

    record_pages-Holds :
        (nr addr a : ℕ) (idle_type : PageIdleType) (w : Walked D) (list : List (PageRefs D))
        → Holds w a list
        → a ≤ addr
        → 1 ≤ size_of sizes idle_type
        → addr + nr * size_of sizes idle_type < 2 ^ 64
        → Holds
            (record_pages fl calloc sizes loop_index loop_end nr addr idle_type w)
            (addr + nr * size_of sizes idle_type)
            (touch_pages nr addr idle_type list)
    unfolding record_pages touch_pages
    record_pages-Holds zero addr a idle_type w list holds h size bound =
        Holds-mono w list (omega arith) holds
    record_pages-Holds (suc nr) addr a idle_type w list holds h size bound =
        let next = addr + size_of sizes idle_type in
        let again = suc-mul nr (size_of sizes idle_type) addr in
        rw (mod_small next (omega (arith, again))) (
          subst
            (λ (end : ℕ).
              Holds
                (record_pages fl calloc sizes loop_index loop_end nr next idle_type
                  (record_page fl calloc sizes loop_index loop_end addr idle_type w))
                end (touch_pages nr next idle_type (touch_page addr idle_type list)))
            (sym again)
            (record_pages-Holds nr next (suc addr) idle_type
              (record_page fl calloc sizes loop_index loop_end addr idle_type w)
              (touch_page addr idle_type list) (record_page-Holds addr a idle_type w list holds h)
              (omega arith) size (omega (arith, again))))

    pub record_parse_result-Holds :
        (addr a nr : ℕ) (idle_type : PageIdleType) (w : Walked D) (list : List (PageRefs D))
        → Holds w a list
        → a ≤ addr
        → 1 ≤ size_of sizes idle_type
        → addr + nr * size_of sizes idle_type < 2 ^ 64
        → Holds
            (record_parse_result fl calloc sizes loop_index loop_end addr idle_type nr w)
            (addr + nr * size_of sizes idle_type)
            (touch_run addr nr idle_type list)
    unfolding record_parse_result touch_run
    record_parse_result-Holds addr a nr idle_type w list holds h size bound =
        elim (Bool-cases (ltb 0 (addr % size_of sizes idle_type))) [
          | inl e ↦ rw e (Holds-mono w list (omega arith) holds)
          | inr e ↦ rw e (record_pages-Holds nr addr a idle_type w list holds h size bound)
        ]
