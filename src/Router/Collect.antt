-- ===== src/Router/Collect.antt =====
-- memRouter/src/memdcd_process.c: the pages of a process arrive in several messages and are collected
-- until all have come.
use Prim.Native.Nat.{zero, suc}
use etmem.Base.{
  ◌-◌, ℕ, ◌+◌, ◌*◌, ◌/◌, ◌%◌, Bool, true, false, ◌&&◌, ◌||◌, not, List, [], ◌∷◌, ◌++◌, Option, none,
  some, ltb, ◌==◌, if◌then◌else◌,
}
use etmem.Base.Int.{ℤ, pos}
use etmem.Router.{
  Page, VmaAddrWithCount, SwapVmaWithCount, MessageStatus, memdcd_send_start, memdcd_send_process,
  memdcd_send_end, word,
}

-- struct migrate_process. `pages` is what page_list->pages holds so far, `total` is
-- page_list->length, and a `worker` of 0 is none.
pub record Process : Type 0 where
  pub pid : ℕ
  pub total : ℕ
  pub pages : List Page
  pub offset : ℕ
  pub timestamp : ℕ
  pub worker : ℕ

-- The list behind g_process_head, first element first, the `last` of migrate_process_recycle, and
-- collect_page_timeout; times are seconds. `fault`: an array or an allocated block was left by a read or a
-- write, after which the rest of the state is undefined.
pub record Router : Type 0 where
  pub processes : List Process
  pub last : ℕ
  pub collect_page_timeout : ℕ
  pub fault : Bool

-- What the system answers while one message is handled: the time at the recycling and at the stamp,
-- whether a worker is still busy, whether the two mallocs succeed (the second by its size), and what
-- the fresh memory holds at the two fields that are not set.
pub record Moment : Type 0 where
  pub now : ℕ
  pub stamp : ℕ
  pub busy : ℕ → Bool
  pub malloc_process : Bool
  pub malloc_list : ℕ → Bool
  pub junk : ℕ

unfoldable pub migrate_process_remove : ℕ → List Process → List Process
migrate_process_remove pid [] = []
migrate_process_remove pid (p ∷ ps) =
    let rest = migrate_process_remove pid ps in if p.pid == pid then ps else p ∷ rest

unfoldable pub migrate_process_search : ℕ → List Process → Option Process
migrate_process_search pid [] = none
migrate_process_search pid (p ∷ ps) =
    let rest = migrate_process_search pid ps in if p.pid == pid then some p else rest

-- The list after the first process of that pid was changed in place.
unfoldable pub put_process : Process → List Process → List Process
put_process q [] = []
put_process q (p ∷ ps) = let rest = put_process q ps in if p.pid == q.pid then q ∷ ps else p ∷ rest

-- MAX_VMA_NUM
abbrev pub max_vma_num : ℕ
max_vma_num = 512

-- sizeof(struct migrate_page) * len + sizeof(struct migrate_page_list), in uint64_t.
abbrev pub page_list_bytes : ℕ → ℕ
page_list_bytes len = (24 * len + 8) % word

unfoldable pub migrate_process_add : Moment → ℕ → ℕ → Option Process
migrate_process_add m pid len =
    if m.malloc_process && m.malloc_list (page_list_bytes len)
    then some
        (record { pid = pid; total = len; pages = []; offset = 0; timestamp = m.junk; worker = 0 })
    else none

-- `worker && pthread_tryjoin_np(worker, NULL) == EBUSY`
abbrev pub working : Moment → Process → Bool
working m p = not (p.worker == 0) && m.busy p.worker

unfoldable pub expired : Moment → ℕ → Process → Bool
expired m timeout p = ltb (p.timestamp + timeout) m.now && not (working m p)

unfoldable pub recycle_loop : Moment → ℕ → List Process → List Process
unfolding expired
recycle_loop m timeout [] = []
recycle_loop m timeout (p ∷ ps) =
    let rest = recycle_loop m timeout ps in if expired m timeout p then rest else p ∷ rest

unfoldable pub migrate_process_recycle : Moment → Router → Router
unfolding recycle_loop
migrate_process_recycle m s =
    if s.collect_page_timeout == 0
    then s
    else if s.last == 0 || ltb m.now (s.last + s.collect_page_timeout)
    then record s { last = m.now }
    else record s { last = m.now; processes = recycle_loop m s.collect_page_timeout s.processes }

-- vma->length / sizeof(struct vma_addr_with_count)
abbrev pub page_count : SwapVmaWithCount → ℕ
page_count vma = vma.length / 24

-- numanode keeps what the memory held.
abbrev pub page_of : Moment → VmaAddrWithCount → Page
page_of m v = record {
  addr = v.start_addr;
  length = v.vma_len;
  visit_count = v.count;
  numanode = pos m.junk;
}

-- The copying loop, from entry `i` on, with `n` entries left; copy_faults says whether all of them are there.
unfoldable pub copy_pages : Moment → (ℕ → VmaAddrWithCount) → (i n : ℕ) → List Page
copy_pages m entries i zero = []
copy_pages m entries i (suc n) = page_of m (entries i) ∷ copy_pages m entries (i + 1) n

abbrev pub is_start : MessageStatus → Bool
is_start memdcd_send_start = true
is_start _ = false

abbrev pub is_process : MessageStatus → Bool
is_process memdcd_send_process = true
is_process _ = false

abbrev pub is_end : MessageStatus → Bool
is_end memdcd_send_end = true
is_end _ = false

abbrev pub drop_process : Process → Router → Router
drop_process p s = record s { processes = migrate_process_remove p.pid s.processes }

-- The process after the message's pages were copied behind those it has.
unfoldable pub with_pages : Moment → SwapVmaWithCount → Process → Process
unfolding copy_pages
with_pages m vma p = record p {
  pages = p.pages ++ copy_pages m vma.vma_addrs 0 (page_count vma);
  offset = (p.offset + page_count vma) % word;
  timestamp = m.stamp;
}

-- The end of migrate_process_collect_pages, from the copied pages on.
unfoldable pub check_collected : MessageStatus → Process → Router → Option Process × Router
check_collected status p s =
    if is_end status && not (p.offset == p.total)
    then (none, drop_process p s)
    else if not (is_process status) && p.offset == p.total
    then (some p, s)
    else (none, s)

-- How many pages the block of a page list for `total` pages has room for.
abbrev pub room : ℕ → ℕ
room total = (page_list_bytes total - 8) / 24

-- Copying the pages of the message reads behind vma_addrs[MAX_VMA_NUM], or writes behind the block.
unfoldable pub copy_faults : SwapVmaWithCount → Process → Bool
copy_faults vma p =
    ltb max_vma_num (page_count vma) || ltb (room p.total) (p.offset + page_count vma)

-- The block has no room for the length of the page list.
abbrev pub add_faults : Process → Bool
add_faults p = ltb (page_list_bytes p.total) 8

unfoldable pub collect_into : Moment → SwapVmaWithCount → Process → Router → Option Process × Router
unfolding with_pages check_collected copy_faults
collect_into m vma p s =
    if ltb p.total ((p.offset + page_count vma) % word)
    then (none, drop_process p s)
    else (let p' = with_pages m vma p in
        check_collected vma.status p' (record s {
          processes = put_process p' s.processes;
          fault = s.fault || copy_faults vma p;
        }))

unfoldable pub collect_new :
    Moment → SwapVmaWithCount → Router → Option Process → Option Process × Router
unfolding collect_into
collect_new m vma s none = (none, s)
collect_new m vma s (some p) =
    collect_into m vma p (record s { processes = p ∷ s.processes; fault = s.fault || add_faults p })

unfoldable pub collect_first : Moment → ℕ → SwapVmaWithCount → Router → Option Process × Router
unfolding collect_new
collect_first m pid vma s =
    if is_start vma.status
    then collect_new m vma s (migrate_process_add m pid vma.total_length)
    else (none, s)

unfoldable pub collect_found :
    Moment → ℕ → SwapVmaWithCount → Router → Option Process → Option Process × Router
unfolding collect_first
collect_found m pid vma s none = collect_first m pid vma s
collect_found m pid vma s (some p) =
    if working m p
    then (none, s)
    else if is_start vma.status
    then collect_first m pid vma (record s { processes = migrate_process_remove pid s.processes })
    else collect_into m vma p s

unfoldable pub migrate_process_collect_pages :
    Moment → ℕ → SwapVmaWithCount → Router → Option Process × Router
unfolding collect_found migrate_process_recycle migrate_process_search
migrate_process_collect_pages m pid vma s =
    let s' = migrate_process_recycle m s in
    collect_found m pid vma s' (migrate_process_search pid s'.processes)

-- The rest of migrate_process_get_pages: `thread` is the new thread's id if pthread_create works. The
-- new state has the worker; `true` is a return value 0.
unfoldable pub start_worker : Option ℕ → Option Process × Router → Bool × Router
start_worker thread (none, s) = (false, s)
start_worker none (some p, s) = (false, s)
start_worker (some thread) (some p, s) =
    (true, record s { processes = put_process (record p { worker = thread }) s.processes })

unfoldable pub migrate_process_get_pages :
    Moment → (pid_max : ℕ) (thread : Option ℕ) → ℤ → SwapVmaWithCount → Router → Bool × Router
unfolding migrate_process_collect_pages start_worker
migrate_process_get_pages m pid_max thread (pos zero) vma s = (false, s)
migrate_process_get_pages m pid_max thread (pos (suc pid)) vma s =
    if ltb pid_max (suc pid)
    then (false, s)
    else start_worker thread (migrate_process_collect_pages m (suc pid) vma s)
migrate_process_get_pages m pid_max thread _ vma s = (false, s)
