-- ===== src/Router/Recycle.antt =====
-- The recycling of stale processes in memRouter/src/memdcd_process.c over time.
use etmem.Base.{ℕ, ◌≡◌, ◌≢◌, refl, ap, ◌∙◌, ◌+◌, ◌<◌, List, [], ◌∷◌}
use etmem.Router.Collect.{Router, Moment, migrate_process_recycle}
use etmem.Router.Arrival.{prompt_recycle}

-- The state after the recycling at each of these moments.
unfoldable pub recycle_all : List Moment → Router → Router
recycle_all [] s = s
recycle_all (m ∷ ms) s = recycle_all ms (migrate_process_recycle m s)

-- Each moment comes less than `timeout` seconds after the one before.
unfoldable pub Frequent : (timeout last : ℕ) → List Moment → Type 0
Frequent timeout last [] = Unit
Frequent timeout last (m ∷ ms) = (m.now < last + timeout) × Frequent timeout m.now ms

-- However many times the router looks for stale processes, if the timeout is not 0 and each time
-- is less than the timeout after the one before, then it frees no process, however old its last
-- pages are.
pub recycle_all-keeps :
    (ms : List Moment) (s : Router)
    → s.collect_page_timeout ≢ 0
    → Frequent s.collect_page_timeout s.last ms
    → (recycle_all ms s).processes ≡ s.processes
unfolding recycle_all Frequent
recycle_all-keeps [] s t h = refl
recycle_all-keeps (m ∷ ms) s t h =
    ap (λ s'. (recycle_all ms s').processes) (prompt_recycle m s t h.0)
    ∙ recycle_all-keeps ms (record s { last = m.now }) t h.1
