-- ===== src/Router/Messages.antt =====
-- The messages of one sending to memRouter/src/memdcd_process.c, and the pages that they carry.
use Prim.Native.Nat.{zero, suc}
use etmem.Base.Int.{pos}
use etmem.Base.{
  ap₂, ◌*◌, ◌/◌, ℕ, ◌≡◌, refl, sym, ap, ◌∙◌, ◌+◌, ◌≤◌, ◌<◌, List, [], ◌∷◌, ◌++◌, arith,
}
use etmem.Router.{VmaAddrWithCount, Page, SwapVmaWithCount, memdcd_send_process}
use etmem.Router.Collect.{
  page_of, Process, Router, Moment, page_count, copy_pages, with_pages,
  migrate_process_collect_pages,
}

abbrev pub Message : Type 0
Message = Moment × SwapVmaWithCount

-- What the copying loops make of these messages, one behind the other.
unfoldable pub pages_of : List Message → List Page
pages_of [] = []
pages_of ((m, v) ∷ ms) = copy_pages m v.vma_addrs 0 (page_count v) ++ pages_of ms

unfoldable pub count_of : List Message → ℕ
count_of [] = 0
count_of ((m, v) ∷ ms) = page_count v + count_of ms

-- Each message comes less than `timeout` seconds after the one before it, the last one included.
unfoldable pub Prompt : (timeout last : ℕ) → List Message → Moment → Type 0
Prompt timeout last [] end = end.now < last + timeout
Prompt timeout last ((m, v) ∷ ms) end = (m.now < last + timeout) × Prompt timeout m.now ms end

unfoldable pub AllProcess : List Message → Type 0
AllProcess [] = Unit {0}
AllProcess ((m, v) ∷ ms) = (v.status ≡ memdcd_send_process) × AllProcess ms

-- No message says that it has more pages than its array holds.
unfoldable pub AllInArray : List Message → Type 0
AllInArray [] = Unit {0}
AllInArray ((m, v) ∷ ms) = (v.length ≤ 512 * 24) × AllInArray ms

-- The state after these messages.
unfoldable pub feed : ℕ → List Message → Router → Router
feed pid [] s = s
feed pid ((m, v) ∷ ms) s = feed pid ms (migrate_process_collect_pages m pid v s).1

unfoldable pub gather : List Message → Process → Process
gather [] p = p
gather ((m, v) ∷ ms) p = gather ms (with_pages m v p)

pub append_assoc {ℓ} : {A : Type ℓ} (xs ys zs : List A) → (xs ++ ys) ++ zs ≡ xs ++ (ys ++ zs)
append_assoc [] ys zs = refl
append_assoc (x ∷ xs) ys zs = ap (λ l. x ∷ l) (append_assoc xs ys zs)

append_nil {ℓ} : {A : Type ℓ} (xs : List A) → xs ++ [] ≡ xs
append_nil [] = refl
append_nil (x ∷ xs) = ap (λ l. x ∷ l) (append_nil xs)

pub gather-pages : (ms : List Message) (p : Process) → (gather ms p).pages ≡ p.pages ++ pages_of ms
unfolding gather pages_of with_pages
gather-pages [] p = sym (append_nil p.pages)
gather-pages ((m, v) ∷ ms) p =
    gather-pages ms (with_pages m v p)
    ∙ append_assoc p.pages (copy_pages m v.vma_addrs 0 (page_count v)) (pages_of ms)

pub pages_of-snoc :
    (ms : List Message) (m : Moment) (v : SwapVmaWithCount)
    → pages_of ms ++ copy_pages m v.vma_addrs 0 (page_count v) ≡ pages_of (ms ++ ((m, v) ∷ []))
unfolding pages_of
pages_of-snoc [] m v = sym (append_nil _)
pages_of-snoc ((m₀, v₀) ∷ ms) m v =
    append_assoc (copy_pages m₀ v₀.vma_addrs 0 (page_count v₀)) (pages_of ms) _
    ∙ ap (λ l. copy_pages m₀ v₀.vma_addrs 0 (page_count v₀) ++ l) (pages_of-snoc ms m v)

-- The first pages of a function, in order.
abbrev pub tabulate : (ℕ → Page) → ℕ → List Page
tabulate f zero = []
tabulate f (suc n) = f 0 ∷ tabulate (λ i. f (suc i)) n

-- The pages that these messages carry, in order; numanode is what the memory held.
abbrev pub carried_by : List Message → List Page
carried_by [] = []
carried_by ((m, v) ∷ ms) =
    tabulate
      (λ i. record {
        addr = (v.vma_addrs i).start_addr;
        length = (v.vma_addrs i).vma_len;
        visit_count = (v.vma_addrs i).count;
        numanode = pos m.junk;
      })
      (v.length / 24)
    ++ carried_by ms

tabulate-cong : (f g : ℕ → Page) (n : ℕ) → ((i : ℕ) → f i ≡ g i) → tabulate f n ≡ tabulate g n
tabulate-cong f g zero h = refl
tabulate-cong f g (suc n) h =
    ap₂ ◌∷◌ (h 0) (tabulate-cong (λ i. f (suc i)) (λ i. g (suc i)) n (λ i. h (suc i)))

plus_zero : (i : ℕ) → i ≡ i + 0
plus_zero i = omega arith

zero_plus : (i : ℕ) → 0 + i ≡ i
zero_plus i = omega arith

plus_suc : (i j : ℕ) → i + 1 + j ≡ i + suc j
plus_suc i j = omega arith

copy_pages-tabulate :
    (m : Moment) (entries : ℕ → VmaAddrWithCount) (i n : ℕ)
    → copy_pages m entries i n ≡ tabulate (λ j. page_of m (entries (i + j))) n
unfolding copy_pages
copy_pages-tabulate m entries i zero = refl
copy_pages-tabulate m entries i (suc n) =
    ap₂ ◌∷◌ (ap (λ (k : ℕ). page_of m (entries k)) (plus_zero i)) (
      copy_pages-tabulate m entries (i + 1) n
      ∙ tabulate-cong (λ j. page_of m (entries (i + 1 + j))) (λ j. page_of m (entries (i + suc j)))
          n (λ j. ap (λ (k : ℕ). page_of m (entries k)) (plus_suc i j)))

pub pages_of-carried_by : (ms : List Message) → pages_of ms ≡ carried_by ms
unfolding pages_of
pages_of-carried_by [] = refl
pages_of-carried_by ((m, v) ∷ ms) =
    ap₂ ◌++◌
      (copy_pages-tabulate m v.vma_addrs 0 (page_count v)
        ∙ tabulate-cong (λ j. page_of m (v.vma_addrs (0 + j))) (λ j. page_of m (v.vma_addrs j))
            (page_count v) (λ j. ap (λ (k : ℕ). page_of m (v.vma_addrs k)) (zero_plus j)))
      (pages_of-carried_by ms)
