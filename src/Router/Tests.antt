-- ===== src/Router/Tests.antt =====
-- Concrete messages and pages of the memory router, and what the theorems say of them.
use Prim.Native.Nat.{zero, suc}
use etmem.Base.{
  false, subst, ◌<◌, ◌==◌, if◌then◌else◌, ℕ, ◌≡◌, refl, sym, ◌+◌, true, List, [], ◌∷◌, ◌++◌, some,
  arith, suc, length,
}
use etmem.Base.Int.{ℤ, pos, negsuc}
use etmem.Router.{
  Page, VmaAddrWithCount, SwapVmaWithCount, MessageStatus, memdcd_send_start, memdcd_send_process,
  memdcd_send_end, word,
}
use etmem.Router.Collect.{
  migrate_process_search, Process, Router, Moment, migrate_process_collect_pages,
}
use etmem.Router.Held.{Collected}
use etmem.Router.Bounds.{collect_pages-Collected}
use etmem.Router.Messages.{AllInArray, Prompt, AllProcess, count_of, Message, carried_by, feed}
use etmem.Router.Delivery.{collect_pages-delivers}
use etmem.Router.Threshold.{
  slice, System, array_of, initial_scan, scan_pages, threshold_policy_parse,
}
use etmem.Router.Selection.{expected, located, taken, rev_onto, chosen, scan_pages-chosen}
use etmem.Router.Retained.{size, Split, parse-Split}
use etmem.Router.Recycle.{recycle_all, Frequent, recycle_all-keeps}
use etmem.Router.Send.{Server}

abbrev at_time : ℕ → Moment
at_time t = record {
  now = t;
  stamp = t;
  busy = λ worker. true;
  malloc_process = true;
  malloc_list = λ bytes. true;
  junk = 0;
}

abbrev entry : ℕ → VmaAddrWithCount
entry i = record { start_addr = 4096 + i; vma_len = 4096; count = pos i }

-- A message of so many pages, of three in all.
abbrev message : ℕ → MessageStatus → SwapVmaWithCount
message bytes status = record {
  length = bytes;
  total_length = 3;
  status = status;
  vma_addrs = entry;
}

abbrev idle_router : Router
idle_router = record { processes = []; last = 100; collect_page_timeout = 3; fault = false }

collect_pages-Collected_example :
    Collected
      (migrate_process_collect_pages (at_time 101) 7 (message 24 memdcd_send_start) idle_router)
collect_pages-Collected_example =
    collect_pages-Collected (at_time 101) 7 (message 24 memdcd_send_start) idle_router
      (record { bytes = omega arith; total = omega arith }) (refl, tt)

abbrev first_two : List Message
first_two =
    (at_time 101, message 24 memdcd_send_start) ∷ (at_time 103, message 24 memdcd_send_process) ∷ []

collect_pages-delivers_example :
    let r =
      migrate_process_collect_pages
        (at_time 105)
        7
        (message 24 memdcd_send_end)
        (feed 7 first_two idle_router) in
    (p : Process) × (r.0 ≡ some p)
    × (p.pages ≡ carried_by (first_two ++ ((at_time 105, message 24 memdcd_send_end) ∷ [])))
    × (r.1.processes ≡ p ∷ [])
    × (r.1.fault ≡ false)
unfolding AllInArray Prompt AllProcess count_of migrate_process_search
collect_pages-delivers_example =
    collect_pages-delivers 7 (at_time 101) (message 24 memdcd_send_start)
      ((at_time 103, message 24 memdcd_send_process) ∷ []) (at_time 105)
      (message 24 memdcd_send_end) idle_router (λ e. omega (arith, e))
      (omega arith, (omega arith, omega arith)) refl refl (refl, tt) refl refl refl refl
      (omega arith, (omega arith, tt)) (omega arith) (omega arith)

abbrev page : ℕ → Page
page visits = record {
  addr = 4096 + visits;
  length = 10;
  visit_count = pos visits;
  numanode = pos 0;
}

abbrev sorted_pages : List Page
sorted_pages = page 1 ∷ page 2 ∷ page 3 ∷ page 4 ∷ []

-- The second page lies on no node.
abbrev nodes : ℕ → ℤ
nodes i = if i == 1 then negsuc 0 else pos 0

abbrev system : System
system = record { qsort = λ ps. ps; malloc = λ bytes. true; move_pages = λ pid addrs. some nodes }

size_of_them : size (located nodes (array_of sorted_pages) 4) ≡ 30
unfolding size located
size_of_them = refl

parse-Split_example :
    (split : Split 15 0 (located nodes (array_of sorted_pages) 4)) × (threshold_policy_parse system
        15 7 sorted_pages
      ≡ some (rev_onto split.swapped []))
parse-Split_example =
    parse-Split system 15 7 sorted_pages nodes (λ bytes. refl) refl
      (subst (λ n. n < word) (sym size_of_them) (omega arith))

small_pages : (j : ℕ) → j < 4 → (array_of sorted_pages j).length < word
small_pages zero h = omega arith
small_pages (suc zero) h = omega arith
small_pages (suc (suc zero)) h = omega arith
small_pages (suc (suc (suc zero))) h = omega arith
small_pages (suc (suc (suc (suc j)))) h = absurd (omega (arith, h))

scan_pages-chosen_example :
    chosen 4 (scan_pages nodes 15 4 4 (initial_scan sorted_pages))
    ≡ expected
        (slice (array_of sorted_pages) 4 0)
        (taken 15 0 (located nodes (array_of sorted_pages) 4))
scan_pages-chosen_example =
    scan_pages-chosen nodes 15 4 4 (array_of sorted_pages) (initial_scan sorted_pages) (omega arith)
      small_pages (omega arith) (λ j lt. refl)

abbrev server : Server
server = record { connect = λ sent. true; answer = λ sent message. true }

abbrev collected : Process
collected = record {
  pid = 7;
  total = 4;
  pages = sorted_pages;
  offset = 4;
  timestamp = 100;
  worker = 1;
}

abbrev holding : Router
holding = record { processes = collected ∷ []; last = 100; collect_page_timeout = 3; fault = false }

recycle_all-keeps_example :
    (recycle_all (at_time 102 ∷ at_time 104 ∷ []) holding).processes ≡ collected ∷ []
unfolding Frequent
recycle_all-keeps_example =
    recycle_all-keeps (at_time 102 ∷ at_time 104 ∷ []) holding (λ e. omega (arith, e))
      (omega arith, (omega arith, tt))
