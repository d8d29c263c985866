-- ===== src/Router/Arrival.antt =====
-- One message of a sending, as memRouter/src/memdcd_process.c takes it.
use etmem.Base.{
  ◌*◌, ◌/◌, ℕ, ◌≡◌, refl, ap, ◌∙◌, ◌≢◌, ◌+◌, ◌%◌, ◌^◌, ◌≤◌, ◌<◌, ◌==◌, true, false, List, [], ◌∷◌,
  ltb, arith, ==_iff, some, Bool-cases, none, ◌&&◌, inl, inr, if◌then◌else◌,
}
use etmem.Router.{
  memdcd_send_start, MessageStatus, SwapVmaWithCount, memdcd_send_process, word, memdcd_send_end,
}
use etmem.Router.Collect.{
  copy_faults, Process, Router, Moment, page_count, is_start, migrate_process_search,
  migrate_process_recycle, put_process, with_pages, check_collected, collect_into, collect_found,
  migrate_process_collect_pages, collect_first, collect_new, migrate_process_add, page_list_bytes,
}
use etmem.Router.Bounds.{few, le→ltb, enough_room, add_faults-none, no_wrap, fresh}
use etmem.Router.Messages.{Message, count_of, Prompt, AllProcess, AllInArray, feed, gather}

pub prompt_recycle :
    (m : Moment) (s : Router)
    → s.collect_page_timeout ≢ 0
    → m.now < s.last + s.collect_page_timeout
    → migrate_process_recycle m s ≡ record s { last = m.now }
unfolding migrate_process_recycle
prompt_recycle m s t h = ground arith

self_eq : (a : ℕ) → (a == a) ≡ true
self_eq a = (==_iff a a).1 refl

passes :
    (offset count total : ℕ)
    → offset + count ≤ total
    → total < 2 ^ 63
    → ltb total ((offset + count) % word) ≡ false
passes offset count total fits small =
    let wraps = no_wrap offset count total (omega arith) small (omega arith) in
    rw wraps (ground arith)

-- Such a message is copied within its array and within the block.
in_bounds :
    (v : SwapVmaWithCount) (p : Process)
    → v.length ≤ 512 * 24
    → p.offset + page_count v ≤ p.total
    → 24 * p.total + 8 < 2 ^ 64
    → copy_faults v p ≡ false
unfolding copy_faults
in_bounds v p array fits small =
    rw (le→ltb 512 (v.length / 24) (omega (arith, array)))
      (enough_room p.offset (v.length / 24) p.total small fits)

-- A message that fits in extends the process at the head of the list.
collect_head :
    (m : Moment) (v : SwapVmaWithCount) (p : Process) (rest : List Process) (last timeout : ℕ)
    → timeout ≢ 0
    → m.now < last + timeout
    → p.worker ≡ 0
    → is_start v.status ≡ false
    → p.offset + page_count v ≤ p.total
    → v.length ≤ 512 * 24
    → 24 * p.total + 8 < 2 ^ 64
    → migrate_process_collect_pages m p.pid v (record {
      processes = p ∷ rest;
      last = last;
      collect_page_timeout = timeout;
      fault = false;
    })
      ≡ check_collected v.status (with_pages m v p) (record {
        processes = with_pages m v p ∷ rest;
        last = m.now;
        collect_page_timeout = timeout;
        fault = false;
      })
unfolding migrate_process_collect_pages migrate_process_search collect_found collect_into
    put_process with_pages
collect_head m v p rest last timeout t h idle st fits array small =
    ap (λ s'. collect_found m p.pid v s' (migrate_process_search p.pid s'.processes))
      (prompt_recycle m
        (record {
          processes = p ∷ rest;
          last = last;
          collect_page_timeout = timeout;
          fault = false;
        })
        t h)
    ∙ rw (self_eq p.pid) (
        rw idle (
          rw st (
            rw
              (
                passes p.offset (page_count v) p.total fits (few p.total small),
                in_bounds v p array fits small,
              )
              (rw (self_eq p.pid) refl))))

end_ready :
    (p : Process) (s : Router)
    → p.offset ≡ p.total
    → check_collected memdcd_send_end p s ≡ (some p, s)
unfolding check_collected
end_ready p s h = rw ((==_iff p.offset p.total).1 h) refl

process_keeps :
    (status : MessageStatus) (p : Process) (s : Router)
    → status ≡ memdcd_send_process
    → (check_collected status p s).1 ≡ s
unfolding check_collected
process_keeps memdcd_send_start p s h = cc
process_keeps memdcd_send_process p s h = refl
process_keeps memdcd_send_end p s h = cc

pub with_pages-offset :
    (m : Moment) (v : SwapVmaWithCount) (p : Process)
    → p.offset + page_count v ≤ p.total
    → p.total < 2 ^ 63
    → (with_pages m v p).offset ≡ p.offset + page_count v
unfolding with_pages
with_pages-offset m v p fits small =
    no_wrap p.offset (page_count v) p.total (omega arith) small (omega arith)

-- The messages after the first one.
pub collect_rest :
    (ms : List Message) (end : Moment) (v_end : SwapVmaWithCount) (p : Process)
    (rest : List Process) (last timeout : ℕ)
    → AllProcess ms
    → v_end.status ≡ memdcd_send_end
    → timeout ≢ 0
    → Prompt timeout last ms end
    → p.worker ≡ 0
    → p.offset + (count_of ms + page_count v_end) ≡ p.total
    → AllInArray ms
    → v_end.length ≤ 512 * 24
    → 24 * p.total + 8 < 2 ^ 64
    → migrate_process_collect_pages end p.pid v_end (
        feed p.pid ms (record {
          processes = p ∷ rest;
          last = last;
          collect_page_timeout = timeout;
          fault = false;
        }))
      ≡ (
        some (with_pages end v_end (gather ms p)),
        record {
          processes = with_pages end v_end (gather ms p) ∷ rest;
          last = end.now;
          collect_page_timeout = timeout;
          fault = false;
        },
      )
unfolding feed gather count_of Prompt AllProcess AllInArray with_pages
collect_rest [] end v_end p rest last timeout all is_end t prompt idle sum arrays array small =
    collect_head end v_end p rest last timeout t prompt idle (ap is_start is_end)
      (omega (arith, sum)) array small
    ∙ ap
        (λ st. check_collected st (with_pages end v_end p) (record {
          processes = with_pages end v_end p ∷ rest;
          last = end.now;
          collect_page_timeout = timeout;
          fault = false;
        }))
        is_end
    ∙ end_ready (with_pages end v_end p) _
        (omega (arith, sum, with_pages-offset end v_end p (omega (arith, sum)) (few p.total small)))
collect_rest ((m, v) ∷ ms) end v_end p rest last timeout all is_end t prompt idle sum arrays array
      small =
    let grown = with_pages-offset m v p (omega arith) (few p.total small) in
    ap (λ r. migrate_process_collect_pages end p.pid v_end (feed p.pid ms r.1))
      (collect_head m v p rest last timeout t prompt.0 idle (ap is_start all.0) (omega arith)
        arrays.0 small)
    ∙ ap (λ s. migrate_process_collect_pages end p.pid v_end (feed p.pid ms s))
        (process_keeps v.status (with_pages m v p) _ all.0)
    ∙ collect_rest ms end v_end (with_pages m v p) rest m.now timeout all.1 is_end t prompt.1 idle
        (ap (λ o. o + (count_of ms + page_count v_end)) grown ∙ omega (arith, sum)) arrays.1 array
        small

start_keeps : (p : Process) (s : Router) → (check_collected memdcd_send_start p s).1 ≡ s
unfolding check_collected
start_keeps p s = elim (Bool-cases (p.offset == p.total)) [ inl e ↦ rw e refl | inr e ↦ rw e refl ]

-- A START message for a process that is not known puts it at the head of the list, with its pages.
starts : (status : MessageStatus) → status ≡ memdcd_send_start → is_start status ≡ true
starts status h = ap is_start h

pub collect_start :
    (m : Moment) (pid : ℕ) (v : SwapVmaWithCount) (s : Router)
    → s.collect_page_timeout ≢ 0
    → m.now < s.last + s.collect_page_timeout
    → migrate_process_search pid s.processes ≡ none
    → v.status ≡ memdcd_send_start
    → m.malloc_process && m.malloc_list (page_list_bytes v.total_length) ≡ true
    → page_count v ≤ v.total_length
    → s.fault ≡ false
    → v.length ≤ 512 * 24
    → 24 * v.total_length + 8 < 2 ^ 64
    → (migrate_process_collect_pages m pid v s).1 ≡ record s {
      processes = with_pages m v (fresh m pid v) ∷ s.processes;
      last = m.now;
      fault = false;
    }
unfolding migrate_process_collect_pages collect_found collect_first collect_new collect_into
    migrate_process_add put_process with_pages
collect_start m pid v s t h new begins malloc fits well array small =
    ap (λ s'. (collect_found m pid v s' (migrate_process_search pid s'.processes)).1)
      (prompt_recycle m s t h)
    ∙ ap (λ o. (collect_found m pid v (record s { last = m.now }) o).1) new
    ∙ ap
        (λ b.
          (if b
            then collect_new m v (record s { last = m.now })
                (migrate_process_add m pid v.total_length)
            else (none, record s { last = m.now })).1)
        (starts v.status begins)
    ∙ rw malloc (
        rw
          (
            passes 0 (page_count v) v.total_length (omega arith) (few v.total_length small),
            well,
            add_faults-none v.total_length small,
            in_bounds v (fresh m pid v) array (omega arith) small,
          )
          (rw (self_eq pid) (
            ap
              (λ st.
                (check_collected st (with_pages m v (fresh m pid v)) (record s {
                  processes = with_pages m v (fresh m pid v) ∷ s.processes;
                  last = m.now;
                  fault = false;
                })).1)
              begins
            ∙ start_keeps (with_pages m v (fresh m pid v)) _)))
