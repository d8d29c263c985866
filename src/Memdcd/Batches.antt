-- ===== src/Memdcd/Batches.antt =====
-- The batches that memdcd_do_migrate (etmem/src/etmemd_src/etmemd_memdcd.c) makes of the pages.
use Prim.Native.Nat.{zero, suc}
use etmem.Base.{
  ◌*◌, Option, none, get_or, ◌+◌, ◌^◌, some, lt→ltb, ℕ, ◌≡◌, refl, sym, ap, ◌∙◌, ◌≤◌, ◌<◌, Bool,
  true, List, [], ◌∷◌, ◌++◌, length, length-append, ltb, Bool-cases, inl, inr, arith, ltb→lt,
}
use etmem.Base.Named.{All}
use etmem.Router.{
  SwapVmaWithCount, VmaAddrWithCount, MessageStatus, memdcd_send_start, memdcd_send_process,
  memdcd_send_end,
}
use etmem.Memdcd.{
  no_entry, count_pages, send_counted, message_of, send_batches, memdcd_do_migrate, Batch, is_empty,
  cut, last_status, max_vma_num,
}

unfoldable pub entries_of : List Batch → List VmaAddrWithCount
entries_of [] = []
entries_of (b ∷ bs) = b.entries ++ entries_of bs

abbrev pub Fits : Batch → Type 0
Fits b = length b.entries ≤ max_vma_num

-- The statuses of the messages behind the first one, each PROCESS, and END for the last.
unfoldable pub Continues : List Batch → Type 0
Continues [] = ⊥
Continues (b ∷ []) = b.status ≡ memdcd_send_end
Continues (b ∷ c ∷ bs) = (b.status ≡ memdcd_send_process) × Continues (c ∷ bs)

-- START for the first message.
unfoldable pub Starts : List Batch → Type 0
unfolding Continues
Starts [] = ⊥
Starts (b ∷ []) = b.status ≡ memdcd_send_start
Starts (b ∷ c ∷ bs) = (b.status ≡ memdcd_send_start) × Continues (c ∷ bs)

append_assoc : (xs ys zs : List VmaAddrWithCount) → (xs ++ ys) ++ zs ≡ xs ++ (ys ++ zs)
append_assoc [] ys zs = refl
append_assoc (x ∷ xs) ys zs = ap (λ l. x ∷ l) (append_assoc xs ys zs)

append_nil : (xs : List VmaAddrWithCount) → xs ++ [] ≡ xs
append_nil [] = refl
append_nil (x ∷ xs) = ap (λ l. x ∷ l) (append_nil xs)

empty_nil : (xs : List VmaAddrWithCount) → is_empty xs ≡ true → xs ≡ []
empty_nil [] h = refl
empty_nil (x ∷ xs) h = cc

cut-entries :
    (status : MessageStatus) (filled refs : List VmaAddrWithCount)
    → entries_of (cut status filled refs) ≡ filled ++ refs
unfolding cut entries_of
cut-entries status filled [] = refl
cut-entries status filled (r ∷ refs) =
    elim (Bool-cases (ltb (length (filled ++ (r ∷ []))) max_vma_num)) [
      | inl e ↦
          rw e (cut-entries status (filled ++ (r ∷ [])) refs ∙ append_assoc filled (r ∷ []) refs)
      | inr e ↦ rw e (elim (Bool-cases (is_empty refs)) [
        | inl f ↦
            rw f (
              append_nil (filled ++ (r ∷ []))
              ∙ ap (λ l. filled ++ (r ∷ l)) (sym (empty_nil refs f)))
        | inr f ↦ rw f (
            ap (λ l. (filled ++ (r ∷ [])) ++ l) (cut-entries memdcd_send_process [] refs)
            ∙ append_assoc filled (r ∷ []) refs)
      ])
    ]

cut-Fits :
    (status : MessageStatus) (filled refs : List VmaAddrWithCount)
    → length filled < max_vma_num
    → All Fits (cut status filled refs)
unfolding cut
cut-Fits status filled [] h = (omega arith, tt)
cut-Fits status filled (r ∷ refs) h =
    elim (Bool-cases (ltb (length (filled ++ (r ∷ []))) max_vma_num)) [
      | inl e ↦ rw e (cut-Fits status (filled ++ (r ∷ [])) refs (ltb→lt _ _ e))
      | inr e ↦ rw e (elim (Bool-cases (is_empty refs)) [
        | inl f ↦ rw f (omega (arith, length-append filled (r ∷ [])), tt)
        | inr f ↦ rw f (
          omega (arith, length-append filled (r ∷ [])),
          cut-Fits memdcd_send_process [] refs (omega arith),
        )
      ])
    ]

continue :
    (b : Batch) (bs : List Batch)
    → b.status ≡ memdcd_send_process
    → Continues bs
    → Continues (b ∷ bs)
unfolding Continues
continue b [] h k = absurd k
continue b (c ∷ bs) h k = (h, k)

start :
    (b : Batch) (bs : List Batch) → b.status ≡ memdcd_send_start → Continues bs → Starts (b ∷ bs)
unfolding Starts Continues
start b [] h k = absurd k
start b (c ∷ bs) h k = (h, k)

cut-Continues :
    (filled refs : List VmaAddrWithCount) → Continues (cut memdcd_send_process filled refs)
unfolding cut Continues last_status
cut-Continues filled [] = refl
cut-Continues filled (r ∷ refs) =
    elim (Bool-cases (ltb (length (filled ++ (r ∷ []))) max_vma_num)) [
      | inl e ↦ rw e (cut-Continues (filled ++ (r ∷ [])) refs)
      | inr e ↦ rw e (elim (Bool-cases (is_empty refs)) [
        | inl f ↦ rw f refl
        | inr f ↦ rw f (
            continue (record { status = memdcd_send_process; entries = filled ++ (r ∷ []) })
              (cut memdcd_send_process [] refs) refl (cut-Continues [] refs))
      ])
    ]

cut-Starts : (filled refs : List VmaAddrWithCount) → Starts (cut memdcd_send_start filled refs)
unfolding cut Starts last_status
cut-Starts filled [] = refl
cut-Starts filled (r ∷ refs) = elim (Bool-cases (ltb (length (filled ++ (r ∷ []))) max_vma_num)) [
  | inl e ↦ rw e (cut-Starts (filled ++ (r ∷ [])) refs)
  | inr e ↦ rw e (elim (Bool-cases (is_empty refs)) [
    | inl f ↦ rw f refl
    | inr f ↦ rw f (
        start (record { status = memdcd_send_start; entries = filled ++ (r ∷ []) })
          (cut memdcd_send_process [] refs) refl (cut-Continues [] refs))
  ])
]

messages_of : (total : ℕ) → List Batch → List SwapVmaWithCount
messages_of total [] = []
messages_of total (b ∷ bs) = message_of total b ∷ messages_of total bs

send_batches-all :
    (send : List SwapVmaWithCount → SwapVmaWithCount → Bool) (total : ℕ) (bs : List Batch)
    (sent : List SwapVmaWithCount)
    → ((sent : List SwapVmaWithCount) (m : SwapVmaWithCount) → send sent m ≡ true)
    → send_batches send total bs sent ≡ (true, messages_of total bs)
unfolding send_batches messages_of
send_batches-all send total [] sent works = refl
send_batches-all send total (b ∷ bs) sent works = rw (works sent (message_of total b)) (
    ap (λ (r : Bool × List SwapVmaWithCount). (r.0, message_of total b ∷ r.1))
      (send_batches-all send total bs (message_of total b ∷ sent) works))

count_pages-length :
    (refs : List VmaAddrWithCount) (total_count : ℕ)
    → length refs + total_count < 2 ^ 31
    → count_pages refs total_count ≡ some (length refs + total_count)
unfolding count_pages
count_pages-length [] total_count h = ap some (omega arith)
count_pages-length (r ∷ refs) total_count h =
    rw (lt→ltb (total_count + 1) (2 ^ 31) (omega arith))
      (count_pages-length refs (total_count + 1) (omega arith) ∙ ap some (omega arith))

plus_zero : (n : ℕ) → n + 0 ≡ n
plus_zero n = omega arith

-- What stands at an index of a list; none behind its end.
abbrev pub entry_at : List VmaAddrWithCount → ℕ → Option VmaAddrWithCount
entry_at [] i = none
entry_at (x ∷ xs) zero = some x
entry_at (x ∷ xs) (suc i) = entry_at xs i

-- The message carries the status and the entries of the batch, and the total.
pub record Carries (total : ℕ) (b : Batch) (message : SwapVmaWithCount) : Type 0 where
  pub bytes : message.length ≡ 24 * length b.entries
  pub announced : message.total_length ≡ total
  pub status : message.status ≡ b.status
  pub entries : (i : ℕ) → i < length b.entries → entry_at b.entries i ≡ some (message.vma_addrs i)

-- One message for each batch, in order.
abbrev pub AllCarry : ℕ → List Batch → List SwapVmaWithCount → Type 0
AllCarry total [] messages = messages ≡ []
AllCarry total (b ∷ bs) [] = ⊥
AllCarry total (b ∷ bs) (message ∷ messages) = Carries total b message × AllCarry total bs messages

get_or-entry_at :
    (xs : List VmaAddrWithCount) (i : ℕ)
    → i < length xs
    → entry_at xs i ≡ some (get_or xs i no_entry)
get_or-entry_at [] i h = absurd (omega (arith, h))
get_or-entry_at (x ∷ xs) zero h = refl
get_or-entry_at (x ∷ xs) (suc i) h = get_or-entry_at xs i (omega arith)

message_of-Carries : (total : ℕ) (b : Batch) → Carries total b (message_of total b)
message_of-Carries total b = record {
  bytes = omega arith;
  announced = refl;
  status = refl;
  entries = get_or-entry_at b.entries;
}

messages_of-AllCarry : (total : ℕ) (bs : List Batch) → AllCarry total bs (messages_of total bs)
unfolding messages_of
messages_of-AllCarry total [] = refl
messages_of-AllCarry total (b ∷ bs) = (message_of-Carries total b, messages_of-AllCarry total bs)

-- With memory for a message and a router that takes every message, memdcd_do_migrate of at least
-- one page and of fewer than 2 ^ 31 returns 0 and sends messages whose entries, as far as the
-- lengths reach, are together the pages in order, at most 512 in each, all with the number of
-- pages as the total; the first has the status START, the last of several END, and those between
-- PROCESS.
pub memdcd_do_migrate-batches :
    (send : List SwapVmaWithCount → SwapVmaWithCount → Bool) (r : VmaAddrWithCount)
    (refs : List VmaAddrWithCount)
    → ((sent : List SwapVmaWithCount) (m : SwapVmaWithCount) → send sent m ≡ true)
    → length (r ∷ refs) < 2 ^ 31
    → (bs : List Batch) × (messages : List SwapVmaWithCount) × (memdcd_do_migrate true send
          (r ∷ refs)
        ≡ some (true, messages))
      × AllCarry (length (r ∷ refs)) bs messages
      × (entries_of bs ≡ r ∷ refs)
      × All Fits bs
      × Starts bs
unfolding memdcd_do_migrate send_counted
memdcd_do_migrate-batches send r refs works h = (
  cut memdcd_send_start [] (r ∷ refs),
  messages_of (length (r ∷ refs)) (cut memdcd_send_start [] (r ∷ refs)),
  ap (send_counted true send (r ∷ refs))
        (count_pages-length (r ∷ refs) 0 (omega arith) ∙ ap some (plus_zero (length (r ∷ refs))))
      ∙ ap some (
          send_batches-all send (length (r ∷ refs)) (cut memdcd_send_start [] (r ∷ refs)) [] works),
  messages_of-AllCarry (length (r ∷ refs)) (cut memdcd_send_start [] (r ∷ refs)),
  cut-entries memdcd_send_start [] (r ∷ refs),
  cut-Fits memdcd_send_start [] (r ∷ refs) (omega arith),
  cut-Starts [] (r ∷ refs),
)
