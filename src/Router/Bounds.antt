-- ===== src/Router/Bounds.antt =====
-- The number of pages that a process of memRouter/src/memdcd_process.c holds.
use etmem.Base.{
  ◌*◌, ◌-◌, ℕ, ◌≡◌, refl, sym, ◌∙◌, ◌+◌, ◌/◌, ◌%◌, ◌^◌, ◌≤◌, ◌<◌, ◌==◌, true, false, not, ◌&&◌, [],
  Option, none, some, length, length-append, ltb, if◌then◌else◌, Bool-cases, inl, inr, arith,
  ==_iff, ◌++◌,
}
use etmem.Router.{
  MessageStatus, memdcd_send_start, memdcd_send_process, memdcd_send_end, SwapVmaWithCount, word,
}
use etmem.Router.Collect.{
  copy_faults, page_list_bytes, Process, Router, Moment, working, is_start, is_end, is_process,
  page_count, drop_process, migrate_process_add, migrate_process_remove, migrate_process_search,
  migrate_process_recycle, copy_pages, with_pages, check_collected, collect_into, collect_new,
  collect_first, collect_found, migrate_process_collect_pages,
}
use etmem.Router.Held.{
  RouterValid, Collected, length-copy_pages, remove-All, put-All, search-Valid,
  migrate_process_recycle-Valid, SizesValid, ProcessValid,
}

-- The sum does not wrap around, so the check on it bounds it.
pub no_wrap :
    (offset count total : ℕ)
    → offset ≤ total
    → total < 2 ^ 63
    → count < 2 ^ 63
    → (offset + count) % word ≡ offset + count
no_wrap offset count total h t c = omega arith

pub le→ltb : (a b : ℕ) → b ≤ a → ltb a b ≡ false
le→ltb a b h = ground arith

within_total :
    (offset count total : ℕ)
    → ltb total ((offset + count) % word) ≡ false
    → (offset + count) % word ≡ offset + count
    → offset + count ≤ total
within_total offset count total h same = ground arith

count_bound : (vma : SwapVmaWithCount) → SizesValid vma → vma.length / 24 < 2 ^ 63
count_bound vma z = omega (arith, z.bytes)

pub few : (total : ℕ) → 24 * total + 8 < 2 ^ 64 → total < 2 ^ 63
few total h = omega arith

few_entries : (vma : SwapVmaWithCount) → SizesValid vma → ltb 512 (vma.length / 24) ≡ false
few_entries vma z = le→ltb 512 (vma.length / 24) (omega (arith, z.bytes))

pub enough_room :
    (offset count total : ℕ)
    → 24 * total + 8 < 2 ^ 64
    → offset + count ≤ total
    → ltb (((24 * total + 8) % word - 8) / 24) (offset + count) ≡ false
enough_room offset count total h fits =
    le→ltb (((24 * total + 8) % word - 8) / 24) (offset + count) (omega arith)

-- A message that is not refused is copied within its array and within the block.
copy_faults-none :
    (vma : SwapVmaWithCount) (p : Process)
    → SizesValid vma
    → ProcessValid p
    → ltb p.total ((p.offset + page_count vma) % word) ≡ false
    → copy_faults vma p ≡ false
unfolding copy_faults
copy_faults-none vma p z v h = rw (few_entries vma z) (
    enough_room p.offset (vma.length / 24) p.total v.announced (
      within_total p.offset (vma.length / 24) p.total h (
        no_wrap p.offset (vma.length / 24) p.total v.within (few p.total v.announced)
          (count_bound vma z))))

pub add_faults-none :
    (total : ℕ) → 24 * total + 8 < 2 ^ 64 → ltb ((24 * total + 8) % word) 8 ≡ false
add_faults-none total h = le→ltb ((24 * total + 8) % word) 8 (omega arith)

block :
    (held offset total : ℕ)
    → held ≡ offset
    → offset ≤ total
    → 24 * total + 8 < 2 ^ 64
    → 24 * held + 8 ≤ (24 * total + 8) % word
block held offset total same within h = omega arith

with_pages-Valid :
    (m : Moment) (vma : SwapVmaWithCount) (p : Process)
    → SizesValid vma
    → ProcessValid p
    → ltb p.total ((p.offset + page_count vma) % word) ≡ false
    → ProcessValid (with_pages m vma p)
unfolding with_pages
with_pages-Valid m vma p z v h =
    let same =
      no_wrap p.offset (vma.length / 24) p.total v.within (few p.total v.announced)
        (count_bound vma z) in
    record {
      held =
          same
          ∙ omega (
            arith,
            v.held,
            length-append p.pages (copy_pages m vma.vma_addrs 0 (vma.length / 24)),
            length-copy_pages m vma.vma_addrs 0 (vma.length / 24),
          );
      within = ground arith;
      announced = v.announced;
      in_block =
          block (length (p.pages ++ copy_pages m vma.vma_addrs 0 (vma.length / 24)))
            (p.offset + vma.length / 24) p.total
            (omega (
              arith,
              v.held,
              length-append p.pages (copy_pages m vma.vma_addrs 0 (vma.length / 24)),
              length-copy_pages m vma.vma_addrs 0 (vma.length / 24),
            ))
            (within_total p.offset (vma.length / 24) p.total h same) v.announced;
    }

check_collected-Collected :
    (status : MessageStatus) (p : Process) (s : Router)
    → ProcessValid p
    → RouterValid s
    → Collected (check_collected status p s)
unfolding check_collected
check_collected-Collected status p s v w = elim (Bool-cases (p.offset == p.total)) [
  | inl e ↦ rw e (by_status_full status (sym v.held ∙ (==_iff p.offset p.total).0 e))
  | inr e ↦ rw e (by_status_short status)
]
  where
    by_status_full :
        (status : MessageStatus)
        → length p.pages ≡ p.total
        → Collected (
            if is_end status && false
            then (none, drop_process p s)
            else if not (is_process status) && true
            then (some p, s)
            else (none, s))
    by_status_full memdcd_send_start full = (full, v, w)
    by_status_full memdcd_send_process full = w
    by_status_full memdcd_send_end full = (full, v, w)

    by_status_short :
        (status : MessageStatus)
        → Collected (
            if is_end status && true
            then (none, drop_process p s)
            else if not (is_process status) && false
            then (some p, s)
            else (none, s))
    by_status_short memdcd_send_start = w
    by_status_short memdcd_send_process = w
    by_status_short memdcd_send_end = (w.0, remove-All p.pid s.processes w.1)

collect_into-Collected :
    (m : Moment) (vma : SwapVmaWithCount) (p : Process) (s : Router)
    → SizesValid vma
    → ProcessValid p
    → RouterValid s
    → Collected (collect_into m vma p s)
unfolding collect_into
collect_into-Collected m vma p s z v w =
    elim (Bool-cases (ltb p.total ((p.offset + page_count vma) % word))) [
      | inl e ↦ rw e (w.0, remove-All p.pid s.processes w.1)
      | inr e ↦
          let v' = with_pages-Valid m vma p z v e in
          rw e (
            check_collected-Collected vma.status (with_pages m vma p) _ v' (
              rw (w.0) (copy_faults-none vma p z v e),
              put-All (with_pages m vma p) s.processes v' w.1,
            ))
    ]

abbrev pub fresh : Moment → ℕ → SwapVmaWithCount → Process
fresh m pid vma = record {
  pid = pid;
  total = vma.total_length;
  pages = [];
  offset = 0;
  timestamp = m.junk;
  worker = 0;
}

fresh-Valid :
    (m : Moment) (pid : ℕ) (vma : SwapVmaWithCount)
    → SizesValid vma
    → ProcessValid (fresh m pid vma)
fresh-Valid m pid vma z = record {
  held = refl;
  within = omega arith;
  announced = z.total;
  in_block = block 0 0 vma.total_length refl (omega arith) z.total;
}

collect_new-Collected :
    (m : Moment) (pid : ℕ) (vma : SwapVmaWithCount) (s : Router)
    → SizesValid vma
    → RouterValid s
    → Collected (collect_new m vma s (migrate_process_add m pid vma.total_length))
unfolding collect_new migrate_process_add
collect_new-Collected m pid vma s z w =
    elim (Bool-cases (m.malloc_process && m.malloc_list (page_list_bytes vma.total_length))) [
      | inl e ↦ rw e (
          collect_into-Collected m vma _ _ z (fresh-Valid m pid vma z)
            (rw (w.0) (add_faults-none vma.total_length z.total), (fresh-Valid m pid vma z, w.1)))
      | inr e ↦ rw e w
    ]

collect_first-Collected :
    (m : Moment) (pid : ℕ) (vma : SwapVmaWithCount) (s : Router)
    → SizesValid vma
    → RouterValid s
    → Collected (collect_first m pid vma s)
unfolding collect_first
collect_first-Collected m pid vma s z w = elim (Bool-cases (is_start vma.status)) [
  | inl e ↦ rw e (collect_new-Collected m pid vma s z w)
  | inr e ↦ rw e w
]

collect_found-Collected :
    (m : Moment) (pid : ℕ) (vma : SwapVmaWithCount) (s : Router) (o : Option Process)
    → SizesValid vma
    → RouterValid s
    → migrate_process_search pid s.processes ≡ o
    → Collected (collect_found m pid vma s o)
unfolding collect_found
collect_found-Collected m pid vma s none z w h = collect_first-Collected m pid vma s z w
collect_found-Collected m pid vma s (some p) z w h = elim (Bool-cases (working m p)) [
  | inl e ↦ rw e w
  | inr e ↦ rw e (elim (Bool-cases (is_start vma.status)) [
    | inl f ↦ rw f (
        collect_new-Collected m pid vma
          (record s { processes = migrate_process_remove pid s.processes }) z
          (w.0, remove-All pid s.processes w.1))
    | inr f ↦ rw f (collect_into-Collected m vma p s z (search-Valid pid s.processes w.1 h) w)
  ])
]

-- If a message does not say that it has more than the 512 pages of its array, the total that it
-- announces is small enough for the size of a page list not to wrap around, and the state is
-- valid (no fault so far, no process holds more pages than announced, its offset counts them, and
-- the size of its list does not wrap around), then the state stays valid, so that no read or
-- write leaves the array or the block (what a process holds fits into its block), and a process
-- handed out for migration has exactly the announced number of pages.
pub collect_pages-Collected :
    (m : Moment) (pid : ℕ) (vma : SwapVmaWithCount) (s : Router)
    → SizesValid vma
    → RouterValid s
    → Collected (migrate_process_collect_pages m pid vma s)
unfolding migrate_process_collect_pages
collect_pages-Collected m pid vma s z w =
    collect_found-Collected m pid vma (migrate_process_recycle m s) _ z
      (migrate_process_recycle-Valid m s w) refl
