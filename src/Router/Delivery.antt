-- ===== src/Router/Delivery.antt =====
-- One sending to memRouter/src/memdcd_process.c, from the START message to the END message.
use etmem.Base.{
  ◌*◌, ℕ, ◌≡◌, refl, ap, ◌∙◌, ◌≢◌, ◌+◌, ◌^◌, ◌≤◌, ◌<◌, true, false, List, [], ◌∷◌, ◌++◌, arith,
  some, none, ◌&&◌,
}
use etmem.Router.{memdcd_send_start, SwapVmaWithCount, memdcd_send_end}
use etmem.Router.Collect.{
  Process, Router, Moment, page_count, migrate_process_search, copy_pages, with_pages,
  migrate_process_collect_pages, page_list_bytes,
}
use etmem.Router.Bounds.{few, fresh}
use etmem.Router.Messages.{
  Message, pages_of, count_of, Prompt, AllProcess, AllInArray, feed, gather, append_assoc,
  gather-pages, pages_of-snoc, carried_by, pages_of-carried_by,
}
use etmem.Router.Arrival.{with_pages-offset, collect_rest, collect_start}

collected_pages :
    (pid : ℕ) (start : Moment) (v_start : SwapVmaWithCount) (ms : List Message) (end : Moment)
    (v_end : SwapVmaWithCount) (s : Router)
    → s.collect_page_timeout ≢ 0
    → Prompt s.collect_page_timeout s.last ((start, v_start) ∷ ms) end
    → migrate_process_search pid s.processes ≡ none
    → v_start.status ≡ memdcd_send_start
    → AllProcess ms
    → v_end.status ≡ memdcd_send_end
    → start.malloc_process && start.malloc_list (page_list_bytes v_start.total_length) ≡ true
    → count_of ((start, v_start) ∷ ms) + page_count v_end ≡ v_start.total_length
    → s.fault ≡ false
    → AllInArray ((start, v_start) ∷ ms)
    → v_end.length ≤ 512 * 24
    → 24 * v_start.total_length + 8 < 2 ^ 64
    → let r = migrate_process_collect_pages end pid v_end (feed pid ((start, v_start) ∷ ms) s) in
      (p : Process) × (r.0 ≡ some p)
      × (p.pages ≡ pages_of ((start, v_start) ∷ (ms ++ ((end, v_end) ∷ []))))
      × (r.1.processes ≡ p ∷ s.processes)
      × (r.1.fault ≡ false)
unfolding feed count_of Prompt with_pages pages_of AllInArray
collected_pages pid start v_start ms end v_end s t prompt new begins all is_end malloc sum well
      arrays array small =
    let p = with_pages start v_start (fresh start pid v_start) in
    let grown =
      with_pages-offset start v_start (fresh start pid v_start) (omega (arith, sum))
        (few v_start.total_length small) in
    let done =
      ap (λ s'. migrate_process_collect_pages end pid v_end (feed pid ms s'))
        (collect_start start pid v_start s t prompt.0 new begins malloc (omega (arith, sum)) well
          arrays.0 small)
      ∙ collect_rest ms end v_end p s.processes start.now s.collect_page_timeout all is_end t
          prompt.1 refl (omega (arith, sum, grown)) arrays.1 array small in
    let q = with_pages end v_end (gather ms p) in
    (
      q,
      ap (λ r. r.0) done,
      ap (λ l. l ++ copy_pages end v_end.vma_addrs 0 (page_count v_end)) (gather-pages ms p)
          ∙ append_assoc (copy_pages start v_start.vma_addrs 0 (page_count v_start)) (pages_of ms) _
          ∙ ap (λ l. copy_pages start v_start.vma_addrs 0 (page_count v_start) ++ l)
              (pages_of-snoc ms end v_end),
      ap (λ r. r.1.processes) done,
      ap (λ r. r.1.fault) done,
    )

-- If a START message, any number of PROCESS messages and an END message for a process come, each
-- less than the timeout (not 0) after the router last looked for stale processes, no message says
-- that it has more than the 512 pages of its array, the router does not know the process, both
-- allocations succeed, the pages are as many as announced, the size of a list for them does not
-- wrap around, and there was no fault so far, then there is none afterwards either, and the END
-- message hands out the process, with the addresses, lengths and counts of the pages of all these
-- messages in the order of arrival, at the head of the unchanged list of the other processes.
pub collect_pages-delivers :
    (pid : ℕ) (start : Moment) (v_start : SwapVmaWithCount) (ms : List Message) (end : Moment)
    (v_end : SwapVmaWithCount) (s : Router)
    → s.collect_page_timeout ≢ 0
    → Prompt s.collect_page_timeout s.last ((start, v_start) ∷ ms) end
    → migrate_process_search pid s.processes ≡ none
    → v_start.status ≡ memdcd_send_start
    → AllProcess ms
    → v_end.status ≡ memdcd_send_end
    → start.malloc_process && start.malloc_list (page_list_bytes v_start.total_length) ≡ true
    → count_of ((start, v_start) ∷ ms) + page_count v_end ≡ v_start.total_length
    → s.fault ≡ false
    → AllInArray ((start, v_start) ∷ ms)
    → v_end.length ≤ 512 * 24
    → 24 * v_start.total_length + 8 < 2 ^ 64
    → let r = migrate_process_collect_pages end pid v_end (feed pid ((start, v_start) ∷ ms) s) in
      (p : Process) × (r.0 ≡ some p)
      × (p.pages ≡ carried_by ((start, v_start) ∷ (ms ++ ((end, v_end) ∷ []))))
      × (r.1.processes ≡ p ∷ s.processes)
      × (r.1.fault ≡ false)
collect_pages-delivers pid start v_start ms end v_end s t prompt new begins all is_end malloc sum
      well arrays array small =
    let (p, ready, pages, kept, whole) =
      collected_pages pid start v_start ms end v_end s t prompt new begins all is_end malloc sum
        well arrays array small in
    (
      p,
      ready,
      pages ∙ pages_of-carried_by ((start, v_start) ∷ (ms ++ ((end, v_end) ∷ []))),
      kept,
      whole,
    )
