-- ===== src/Router/Send.antt =====
-- memRouter/src/memdcd_migrate.c: the chosen pages go to the userswap server of the process, at most
-- 512 in a message.
use Prim.Native.Nat.{zero, suc}
use etmem.Base.{
  Option, none, some, ℕ, ==_iff, ◌≢◌, ◌≡◌, refl, ap, ap₂, ◌∙◌, ◌+◌, ◌-◌, ◌%◌, ◌^◌, ◌≤◌, ◌<◌, ◌==◌,
  Bool, true, false, ◌&&◌, List, [], ◌∷◌, ◌++◌, length, ltb, if◌then◌else◌, arith, Bool-cases, inl,
  inr,
}
use etmem.Base.Named.{All}
use etmem.Router.{word}
use etmem.Router.Threshold.{Pages}

-- struct vma_addr
pub record VmaAddr : Type 0 where
  pub start_addr : ℕ
  pub vma_len : ℕ

abbrev pub max_vma_num : ℕ
max_vma_num = 512

-- min(rest, MAX_VMA_NUM) with int parameters, as uint64_t: a negative int is sign-extended.
unfoldable pub chunk_size : ℕ → ℕ
chunk_size rest =
    let low = rest % 2 ^ 32 in
    if ltb low (2 ^ 31)
    then (if ltb low max_vma_num then low else max_vma_num)
    else low + (2 ^ 64 - 2 ^ 32)

-- The copying loop, from page `dst` on.
unfoldable pub copy_vmas : Pages → (dst n : ℕ) → List VmaAddr
copy_vmas pages dst zero = []
copy_vmas pages dst (suc n) =
    record { start_addr = (pages dst).addr; vma_len = (pages dst).length }
    ∷ copy_vmas pages (dst + 1) n

-- The server, given the messages it got before (newest first): whether a connection is made, and
-- whether it answers "success".
pub record Server : Type 0 where
  pub connect : List (List VmaAddr) → Bool
  pub answer : List (List VmaAddr) → List VmaAddr → Bool

-- `while (rest > 0)`, with a bound on the rounds: whether 0 is returned, and the messages sent.
unfoldable pub send_loop :
    Server → Pages → (len fuel rest : ℕ) → List (List VmaAddr) → Bool × List (List VmaAddr)
unfolding chunk_size copy_vmas
send_loop srv pages len zero rest sent = (true, [])
send_loop srv pages len (suc fuel) rest sent =
    let chunk = chunk_size rest in
    let message = copy_vmas pages (len - rest) chunk in
    let tail = send_loop srv pages len fuel ((rest + word - chunk) % word) (message ∷ sent) in
    if rest == 0
    then (true, [])
    else if srv.connect sent
    then (srv.answer sent message && tail.0, message ∷ tail.1)
    else (false, [])

-- A round sends at least one page, so as many rounds as pages are enough. `malloc` is whether there is
-- memory for the message.
unfoldable pub send_to_userswap :
    Server → (malloc : Bool) → (len : ℕ) → Pages → Bool × List (List VmaAddr)
unfolding send_loop
send_to_userswap srv malloc len pages =
    if malloc then send_loop srv pages len len len [] else (false, [])

unfoldable pub concat : List (List VmaAddr) → List VmaAddr
concat [] = []
concat (xs ∷ xss) = xs ++ concat xss

-- Whether every message was answered with "success".
unfoldable pub all_answered : Server → List (List VmaAddr) → List (List VmaAddr) → Bool
all_answered srv sent [] = true
all_answered srv sent (m ∷ ms) = srv.answer sent m && all_answered srv (m ∷ sent) ms

abbrev pub Small : List VmaAddr → Type 0
Small message = length message ≤ max_vma_num

length-copy_vmas : (pages : Pages) (dst n : ℕ) → length (copy_vmas pages dst n) ≡ n
unfolding copy_vmas
length-copy_vmas pages dst zero = refl
length-copy_vmas pages dst (suc n) = ap suc (length-copy_vmas pages (dst + 1) n)

plus_zero : (n : ℕ) → n + 0 ≡ n
plus_zero n = omega arith

zero_plus : (n : ℕ) → n ≡ 0 + n
zero_plus n = omega arith

shift : (dst n : ℕ) → dst + suc n ≡ dst + 1 + n
shift dst n = omega arith

suc_out : (n m : ℕ) → suc (n + m) ≡ suc n + m
suc_out n m = omega arith

copy_vmas-append :
    (pages : Pages) (dst n m : ℕ)
    → copy_vmas pages dst n ++ copy_vmas pages (dst + n) m ≡ copy_vmas pages dst (n + m)
unfolding copy_vmas
copy_vmas-append pages dst zero m = ap₂ (copy_vmas pages) (plus_zero dst) (zero_plus m)
copy_vmas-append pages dst (suc n) m =
    ap (λ l. record { start_addr = (pages dst).addr; vma_len = (pages dst).length } ∷ l)
      (ap (λ d. copy_vmas pages (dst + 1) n ++ copy_vmas pages d m) (shift dst n)
        ∙ copy_vmas-append pages (dst + 1) n m)
    ∙ ap (copy_vmas pages dst) (suc_out n m)

-- Below 2 ^ 31, a chunk is some pages of the rest, at most 512.
chunk_size-bounds :
    (rest : ℕ)
    → rest < 2 ^ 31
    → rest ≢ 0
    → (1 ≤ chunk_size rest) × (chunk_size rest ≤ rest) × (chunk_size rest ≤ 512)
unfolding chunk_size
chunk_size-bounds rest h nonzero = ground arith

left : (rest chunk : ℕ) → rest < 2 ^ 31 → chunk ≤ rest → (rest + word - chunk) % word ≡ rest - chunk
left rest chunk h le = omega arith

next : (len rest chunk : ℕ) → chunk ≤ rest → rest ≤ len → len - (rest - chunk) ≡ len - rest + chunk
next len rest chunk part within = omega arith

rejoin : (rest chunk : ℕ) → chunk ≤ rest → chunk + (rest - chunk) ≡ rest
rejoin rest chunk part = omega arith

all_of_it : (len : ℕ) → len - len ≡ 0
all_of_it len = omega arith

nothing_left : (pages : Pages) (len rest : ℕ) → rest ≡ 0 → [] ≡ copy_vmas pages (len - rest) rest
unfolding copy_vmas
nothing_left pages len rest e = rw e refl

-- What the loop sends and answers for the last `rest` pages.
pub Sends :
    Server → Pages → (len rest : ℕ) → List (List VmaAddr) → Bool × List (List VmaAddr) → Type 0
Sends srv pages len rest sent r =
    (concat r.1 ≡ copy_vmas pages (len - rest) rest)
    × All Small r.1
    × (r.0 ≡ all_answered srv sent r.1)

add_message :
    (srv : Server) (pages : Pages) (len rest chunk : ℕ) (sent : List (List VmaAddr))
    (r : Bool × List (List VmaAddr))
    → chunk ≤ rest
    → rest ≤ len
    → chunk ≤ 512
    → let message = copy_vmas pages (len - rest) chunk in
      Sends srv pages len (rest - chunk) (message ∷ sent) r
      → Sends srv pages len rest sent (srv.answer sent message && r.0, message ∷ r.1)
unfolding Sends concat all_answered
add_message srv pages len rest chunk sent r part within small (flat, all, answered) = (
  ap (λ l. copy_vmas pages (len - rest) chunk ++ l) flat
      ∙ ap (λ d. copy_vmas pages (len - rest) chunk ++ copy_vmas pages d (rest - chunk))
          (next len rest chunk part within)
      ∙ copy_vmas-append pages (len - rest) chunk (rest - chunk)
      ∙ ap (copy_vmas pages (len - rest)) (rejoin rest chunk part),
  (omega (arith, length-copy_vmas pages (len - rest) chunk), all),
  ap (λ b. srv.answer sent (copy_vmas pages (len - rest) chunk) && b) answered,
)

send_loop-Sends :
    (srv : Server) (pages : Pages) (len fuel rest : ℕ) (sent : List (List VmaAddr))
    → ((sent : List (List VmaAddr)) → srv.connect sent ≡ true)
    → rest ≤ fuel
    → rest ≤ len
    → rest < 2 ^ 31
    → Sends srv pages len rest sent (send_loop srv pages len fuel rest sent)
unfolding send_loop Sends concat all_answered
send_loop-Sends srv pages len zero rest sent connects enough within h =
    (nothing_left pages len rest (omega arith), tt, refl)
send_loop-Sends srv pages len (suc fuel) rest sent connects enough within h =
    elim (Bool-cases (rest == 0)) [
      | inl e ↦ rw e (nothing_left pages len rest ((==_iff rest 0).0 e), tt, refl)
      | inr n ↦
          let (some_pages, part, small) = chunk_size-bounds rest h (ground arith) in
          rw n (
            rw (connects sent) (
              rw (left rest (chunk_size rest) h part) (
                add_message srv pages len rest (chunk_size rest) sent _ part within small (
                  send_loop-Sends srv pages len fuel (rest - chunk_size rest)
                    (copy_vmas pages (len - rest) (chunk_size rest) ∷ sent) connects (omega arith)
                    (omega arith) (omega arith)))))
    ]

pub send_to_userswap-flat :
    (srv : Server) (len : ℕ) (pages : Pages)
    → ((sent : List (List VmaAddr)) → srv.connect sent ≡ true)
    → len < 2 ^ 31
    → let r = send_to_userswap srv true len pages in
      (concat r.1 ≡ copy_vmas pages 0 len) × All Small r.1 × (r.0 ≡ all_answered srv [] r.1)
unfolding send_to_userswap Sends
send_to_userswap-flat srv len pages connects h =
    let (flat, all, answered) =
      send_loop-Sends srv pages len len len [] connects (omega arith) (omega arith) h in
    (flat ∙ ap (λ d. copy_vmas pages d len) (all_of_it len), all, answered)

-- What stands at an index of a list; none behind its end.
abbrev pub entry_at : List VmaAddr → ℕ → Option VmaAddr
entry_at [] i = none
entry_at (x ∷ xs) zero = some x
entry_at (x ∷ xs) (suc i) = entry_at xs i
