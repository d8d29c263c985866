-- ===== src/Router/Worker.antt =====
-- The worker thread of a process (memdcd_migrate in memRouter/src/memdcd_process.c): the policy chooses,
-- the sender sends, and the process is forgotten.
use etmem.Base.{ℕ, List, [], ◌∷◌, Option, none, some, length, if◌then◌else◌}
use etmem.Router.{Page}
use etmem.Router.Collect.{page_list_bytes, Process, Router, drop_process}
use etmem.Router.Threshold.{System, array_of, threshold_policy_parse}
use etmem.Router.Send.{Server, VmaAddr, send_to_userswap}

-- sizeof(struct swap_vma)
abbrev pub swap_vma_bytes : ℕ
swap_vma_bytes = 8208

unfoldable pub send_chosen :
    System → Server → Process → Router → Option (List Page) → List (List VmaAddr) × Router
send_chosen sys srv p s none = ([], drop_process p s)
send_chosen sys srv p s (some swap) = (
  (send_to_userswap srv (sys.malloc swap_vma_bytes) (length swap) (array_of swap)).1,
  drop_process p s,
)

-- The messages sent, and the state afterwards. A process that is handed to a worker has all its pages,
-- so the policy works on `p.pages` as a whole. Without memory for a copy of them the process stays.
unfoldable pub memdcd_migrate :
    System → Server → (threshold : ℕ) → Process → Router → List (List VmaAddr) × Router
unfolding send_chosen
memdcd_migrate sys srv threshold p s =
    if sys.malloc (page_list_bytes p.total)
    then send_chosen sys srv p s (threshold_policy_parse sys threshold p.pid p.pages)
    else ([], s)

pub vmas_of : List Page → List VmaAddr
vmas_of [] = []
vmas_of (p ∷ ps) = record { start_addr = p.addr; vma_len = p.length } ∷ vmas_of ps
