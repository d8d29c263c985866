-- ===== src/Scan/Faults.antt =====
-- etmem/src/etmemd_src/etmemd_scan.c: record_parse_result in the last round.
use etmem.Base.{
  ◌+◌, ◌^◌, ℕ, zero, suc, Bool, true, List, [], ◌≡◌, refl, ◌==◌, ◌%◌, Bool-cases, inl, inr,
}
use etmem.Base.Int.{pos}
use etmem.Scan.{PageType, PageIdleType, PageSizes, page_type_by_idle_kind, page_type_to_size}
use etmem.Scan.Refs.{
  Floats, PageRefs, moved, fault, insert_node, update_page_refs, update_possibility, record_page,
  record_pages, record_parse_result, est_time_of,
}
use etmem.Scan.Recorded.{size_of}

module _ {D : Type 0} (fl : Floats D) (calloc : ℕ → Bool) where
  update_possibility-end :
      (addr : ℕ) (est_time : D) (kind : PageType) (l : ℕ) (passed : List (PageRefs D)) (asked : ℕ)
      → update_possibility fl
          (pos l)
          (update_page_refs fl calloc addr est_time kind passed [] asked)
        ≡ fault
  unfolding update_page_refs insert_node update_possibility
  update_possibility-end addr est_time kind l passed asked = elim (Bool-cases (calloc asked)) [
    | inl e ↦ rw e refl
    | inr e ↦ rw e refl
  ]

  module _ (sizes : PageSizes) (loop_index loop_end : ℕ) where
    record_pages-fault :
        (nr addr : ℕ) (idle_type : PageIdleType)
        → record_pages fl calloc sizes loop_index loop_end nr addr idle_type fault ≡ fault
    unfolding record_pages record_page
    record_pages-fault zero addr idle_type = refl
    record_pages-fault (suc nr) addr idle_type =
        record_pages-fault nr
          ((addr + page_type_to_size sizes (page_type_by_idle_kind idle_type)) % 2 ^ 64) idle_type

    -- In the last round, recording at least one page at an aligned address, with the cursor at
    -- the end of the list, reads through NULL, whether memory for the node is there or not.
    pub record_parse_result-fault :
        (loop_index == loop_end) ≡ true
        → (addr nr : ℕ) (idle_type : PageIdleType) (passed : List (PageRefs D)) (asked : ℕ)
        → addr % size_of sizes idle_type ≡ 0
        → record_parse_result fl calloc sizes loop_index loop_end addr idle_type
            (suc nr)
            (moved passed [] asked)
          ≡ fault
    unfolding record_parse_result record_pages record_page
    record_parse_result-fault last addr nr idle_type passed asked aligned =
        rw (aligned, last)
          (rw
            (update_possibility-end addr (est_time_of fl idle_type loop_index)
              (page_type_by_idle_kind idle_type) loop_index passed asked)
            (record_pages-fault nr
              ((addr + page_type_to_size sizes (page_type_by_idle_kind idle_type)) % 2 ^ 64)
              idle_type))
