-- ===== src/Memdcd.antt =====
-- etmem/src/etmemd_src/etmemd_memdcd.c: how the memdcd engine cuts the pages of a process into messages
-- of at most 512 for the memory router.
use etmem.Base.{
  Option, none, some, ◌+◌, ◌^◌, ℕ, ◌*◌, Bool, true, false, ◌&&◌, List, [], ◌∷◌, ◌++◌, length,
  get_or, ltb, if◌then◌else◌,
}
use etmem.Base.Int.{pos}
use etmem.Router.{
  VmaAddrWithCount, SwapVmaWithCount, MessageStatus, memdcd_send_start, memdcd_send_process,
  memdcd_send_end,
}
pub mod Batches
mod Tests

-- What one message carries: its status, and the entries that are filled in vma_addrs.
pub record Batch : Type 0 where
  pub status : MessageStatus
  pub entries : List VmaAddrWithCount

-- The status of the last message: START stays if it is the only one.
unfoldable pub last_status : MessageStatus → MessageStatus
last_status memdcd_send_start = memdcd_send_start
last_status _ = memdcd_send_end

abbrev pub is_empty : List VmaAddrWithCount → Bool
is_empty [] = true
is_empty (_ ∷ _) = false

-- MAX_VMA_NUM
abbrev pub max_vma_num : ℕ
max_vma_num = 512

-- The loop of memdcd_do_migrate, with the status of the next message and the entries filled so far.
unfoldable pub cut : MessageStatus → List VmaAddrWithCount → List VmaAddrWithCount → List Batch
unfolding last_status
cut status filled [] = record { status = last_status status; entries = filled } ∷ []
cut status filled (r ∷ refs) =
    let full = filled ++ (r ∷ []) in
    let more = cut status full refs in
    let next = cut memdcd_send_process [] refs in
    if ltb (length full) max_vma_num
    then more
    else if is_empty refs
    then record { status = last_status status; entries = full } ∷ []
    else record { status = status; entries = full } ∷ next

abbrev pub no_entry : VmaAddrWithCount
no_entry = record { start_addr = 0; vma_len = 0; count = pos 0 }

-- The message of a batch; the rest of vma_addrs is zero.
abbrev pub message_of : (total : ℕ) → Batch → SwapVmaWithCount
message_of total batch = record {
  length = length batch.entries * 24;
  total_length = total;
  status = batch.status;
  vma_addrs = λ i. get_or batch.entries i no_entry;
}

-- Sends until send_data_to_memdcd fails: whether 0 is returned, and the messages that were sent.
unfoldable pub send_batches :
    (List SwapVmaWithCount → SwapVmaWithCount → Bool)
    → (total : ℕ) → List Batch
    → List SwapVmaWithCount
    → Bool × List SwapVmaWithCount
send_batches send total [] sent = (true, [])
send_batches send total (b ∷ bs) sent =
    let message = message_of total b in
    let rest = send_batches send total bs (message ∷ sent) in
    if send sent message then (rest.0, message ∷ rest.1) else (false, message ∷ [])

-- The loop that counts the pages, with total_count so far; none where that int overflows.
unfoldable pub count_pages : List VmaAddrWithCount → (total_count : ℕ) → Option ℕ
count_pages [] total_count = some total_count
count_pages (r ∷ refs) total_count =
    let more = count_pages refs (total_count + 1) in
    if ltb (total_count + 1) (2 ^ 31) then more else none

unfoldable pub send_counted :
    (alloc : Bool)
    → (List SwapVmaWithCount → SwapVmaWithCount → Bool)
    → List VmaAddrWithCount
    → Option ℕ
    → Option (Bool × List SwapVmaWithCount)
unfolding cut send_batches
send_counted alloc send refs none = none
send_counted alloc send refs (some total_count) = some (
    if alloc then send_batches send total_count (cut memdcd_send_start [] refs) [] else (false, []))

-- `refs` are the address, the size by page_type_to_size and the count of each page; `send` answers
-- send_data_to_memdcd by the messages before it. none is an overflow of total_count.
unfoldable pub memdcd_do_migrate :
    (alloc : Bool)
    → (List SwapVmaWithCount → SwapVmaWithCount → Bool)
    → List VmaAddrWithCount
    → Option (Bool × List SwapVmaWithCount)
unfolding send_counted count_pages
memdcd_do_migrate alloc send [] = some (true, [])
memdcd_do_migrate alloc send (r ∷ refs) =
    send_counted alloc send (r ∷ refs) (count_pages (r ∷ refs) 0)
