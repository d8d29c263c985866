-- ===== src/Scan/Refs.antt =====
-- etmem/src/etmemd_src/etmemd_scan.c: the list of used pages, and how a page of the kernel's answer gets
-- into it (alloc_page_refs_node, update_page_refs, update_possibility, record_parse_result). A
-- `struct page_refs **` that moves along the list is a cursor: the nodes behind it, nearest first, and the
-- nodes from it on. C's double, with libm's log, sqrt, pow and erf, is a parameter.
use Prim.Native.Nat.{zero, suc}
use etmem.Base.{
  true, false, ℕ, Bool, List, [], ◌∷◌, ltb, ◌==◌, ◌+◌, ◌-◌, ◌%◌, ◌^◌, not, if◌then◌else◌, false,
  true,
}
use etmem.Base.Int.{ℤ, pos, negsuc}
use etmem.Scan.{
  PageType, PageIdleType, PageSizes, page_type_by_idle_kind, page_type_to_size, pte_access,
  pmd_access, pud_present, pte_dirty, pmd_dirty,
}

-- double: `ratio a b` is the constant nearest to a / b, `trunc` the conversion to int.
pub record Floats (D : Type 0) : Type 0 where
  pub of_int : ℤ → D
  pub ratio : ℕ → ℕ → D
  pub trunc : D → ℤ
  pub add : D → D → D
  pub sub : D → D → D
  pub mul : D → D → D
  pub div : D → D → D
  pub lt : D → D → Bool
  pub eq : D → D → Bool
  pub log : D → D
  pub sqrt : D → D
  pub pow : D → D → D
  pub erf : D → D

-- struct page_refs; `next` is the order of a list.
pub record PageRefs (D : Type 0) : Type 0 where
  pub addr : ℕ
  pub count : ℕ
  pub page_type : PageType
  pub possibility : D
  pub m : ℤ
  pub avg : D
  pub std : D
  pub last_time : D

-- A cursor, as the nodes behind it and those from it on, with how many nodes calloc has been asked for;
-- or NULL, where the list stays; or a read through NULL.
pub data Walked (D : Type 0) : Type 0 where
  moved : (passed rest : List (PageRefs D)) (asked : ℕ) → Walked D
  null_pf : (passed rest : List (PageRefs D)) (asked : ℕ) → Walked D
  fault : Walked D

abbrev pub next_m : ℤ → ℤ
next_m (pos n) = pos (suc n)
next_m (negsuc zero) = pos 0
next_m (negsuc (suc n)) = negsuc n

-- Whether the kernel found the page in use, as `type >= PTE_IDLE` tests.
abbrev pub is_idle : PageIdleType → Bool
is_idle pte_access = false
is_idle pmd_access = false
is_idle pud_present = false
is_idle pte_dirty = false
is_idle pmd_dirty = false
is_idle _ = true

module _ {D : Type 0} (fl : Floats D) where
  abbrev pub minus : ℕ → D
  minus n = fl.of_int (negsuc (n - 1))

  -- The time of an idle page is -1.
  abbrev pub is_visit : D → Bool
  is_visit est_time = not (fl.eq est_time (minus 1))

  -- alloc_page_refs_node, where calloc gives a node.
  unfoldable pub alloc_page_refs_node : ℕ → D → PageType → PageRefs D
  alloc_page_refs_node addr est_time page_type = record {
    addr = addr;
    count = 0;
    page_type = page_type;
    possibility = fl.of_int (pos 0);
    m = if is_visit est_time then negsuc 0 else negsuc 1;
    avg = fl.of_int (pos 0);
    std = minus 2;
    last_time = est_time;
  }

  -- `x`: the logarithm of the time since the last visit.
  unfoldable pub interval : D → D → D
  interval est_time last_time =
      let passed = fl.sub est_time last_time in
      if fl.lt (fl.of_int (pos 0)) passed then fl.log passed else minus 1

  unfoldable pub new_avg : (m u x : D) → D
  new_avg m u x = fl.div (fl.add (fl.mul m u) x) (fl.add m (fl.of_int (pos 1)))

  unfoldable pub new_std : (m u v x new_u : D) → D
  new_std m u v x new_u =
      let two = fl.of_int (pos 2) in
      let one = fl.of_int (pos 1) in
      let spread = fl.add (fl.pow v two) (fl.pow (fl.sub new_u u) two) in
      let new_v =
        fl.sqrt (fl.div (fl.add (fl.mul m spread) (fl.pow (fl.sub new_u x) two)) (fl.add m one)) in
      if fl.lt new_v one then one else new_v

  -- A further visit, by its number.
  unfoldable pub visit_again : ℤ → D → PageRefs D → PageRefs D
  unfolding new_avg new_std interval
  visit_again (negsuc zero) est_time pf = record pf { m = negsuc zero; last_time = est_time }
  visit_again (pos zero) est_time pf = record pf {
    m = pos zero;
    last_time = est_time;
    avg = interval est_time pf.last_time;
    std = fl.of_int (pos 2);
  }
  visit_again m est_time pf =
      let x = interval est_time pf.last_time in
      let new_u = new_avg (fl.of_int m) pf.avg x in
      record pf {
        m = m;
        last_time = est_time;
        avg = new_u;
        std = new_std (fl.of_int m) pf.avg pf.std x new_u;
      }

  -- The node with the address that is recorded.
  unfoldable pub visit : D → PageRefs D → PageRefs D
  unfolding visit_again
  visit est_time pf = if is_visit est_time then visit_again (next_m pf.m) est_time pf else pf

  module _ (calloc : ℕ → Bool) where
    -- A node in front of the cursor, and the cursor behind it.
    unfoldable pub insert_node : ℕ → D → PageType → (passed rest : List (PageRefs D)) → ℕ → Walked D
    unfolding alloc_page_refs_node
    insert_node addr est_time page_type passed rest asked =
        if calloc asked
        then moved (alloc_page_refs_node addr est_time page_type ∷ passed) rest (suc asked)
        else null_pf passed rest (suc asked)

    unfoldable pub update_page_refs :
        ℕ → D → PageType → (passed rest : List (PageRefs D)) → ℕ → Walked D
    unfolding insert_node visit
    update_page_refs addr est_time page_type passed [] asked =
        insert_node addr est_time page_type passed [] asked
    update_page_refs addr est_time page_type passed (pf ∷ rest) asked =
        let later = update_page_refs addr est_time page_type (pf ∷ passed) rest asked in
        if addr == pf.addr
        then moved (visit est_time pf ∷ passed) rest asked
        else if ltb pf.addr addr
        then later
        else insert_node addr est_time page_type passed (pf ∷ rest) asked

  -- The formula of update_possibility, as it is written.
  unfoldable pub possibility_of : ℤ → PageRefs D → D
  possibility_of l pf =
      let one = fl.of_int (pos 1) in
      let two = fl.of_int (pos 2) in
      let log_time = fl.log (fl.sub (fl.of_int l) pf.last_time) in
      let deviations = fl.sub log_time (fl.div pf.avg pf.std) in
      fl.sub one (fl.div (fl.add one (fl.erf (fl.div deviations (fl.sqrt two)))) two)

  -- update_possibility reads the node at the cursor.
  unfoldable pub update_possibility : ℤ → Walked D → Walked D
  unfolding possibility_of
  update_possibility l (moved passed (pf ∷ rest) asked) =
      let possibility : D =
        if fl.eq pf.std (minus 2) then fl.of_int (pos 0) else possibility_of l pf in
      moved passed (record pf { possibility = possibility } ∷ rest) asked
  update_possibility l _ = fault

  -- The time of a scan: the middle of its round.
  abbrev pub est_time_of : PageIdleType → ℕ → D
  est_time_of idle_type loop_index =
      if is_idle idle_type then minus 1 else fl.add (fl.of_int (pos loop_index)) (fl.ratio 1 2)

  module _ (calloc : ℕ → Bool) (sizes : PageSizes) (loop_index loop_end : ℕ) where
    -- What record_parse_result does to one page.
    unfoldable pub record_page : ℕ → PageIdleType → Walked D → Walked D
    unfolding update_page_refs update_possibility
    record_page addr idle_type (moved passed rest asked) =
        let updated =
          update_page_refs calloc addr (est_time_of idle_type loop_index)
            (page_type_by_idle_kind idle_type) passed rest asked in
        if loop_index == loop_end then update_possibility (pos loop_index) updated else updated
    record_page addr idle_type stopped = stopped

    unfoldable pub record_pages : (nr addr : ℕ) → PageIdleType → Walked D → Walked D
    unfolding record_page
    record_pages zero addr idle_type w = w
    record_pages (suc nr) addr idle_type w =
        record_pages nr
          ((addr + page_type_to_size sizes (page_type_by_idle_kind idle_type)) % 2 ^ 64) idle_type
          (record_page addr idle_type w)

    -- The size is a power of two, so that the mask is the remainder.
    unfoldable pub record_parse_result : ℕ → PageIdleType → ℕ → Walked D → Walked D
    unfolding record_pages
    record_parse_result addr idle_type nr w =
        let size = page_type_to_size sizes (page_type_by_idle_kind idle_type) in
        if ltb 0 (addr % size) then w else record_pages nr addr idle_type w
