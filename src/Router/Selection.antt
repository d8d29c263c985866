-- ===== src/Router/Selection.antt =====
-- The loop of memRouter/src/memdcd_policy_threshold.c over an array, and the same choice on lists.
use Prim.Native.Nat.{zero, suc}
use etmem.Base.{
  false, true, ltb→lt, none, some, ℕ, ◌≡◌, refl, ap₂, ◌+◌, ◌-◌, ◌≤◌, ◌<◌, List, [], ◌∷◌, Option,
  ltb, if◌then◌else◌, arith, ◌∙◌, ap, Bool-cases, inl, inr,
}
use etmem.Base.Int.{ℤ, pos, ltb_ℤ}
use etmem.Base.Options.{◌>>=◌}
use etmem.Base.Named.{All}
use etmem.Router.{Page, word}
use etmem.Router.Threshold.{Pages, Scan, write, slice, add_size, scan_pages, scan_page, choose}

slice-cong : (a b : Pages) (i n : ℕ) → ((j : ℕ) → i ≤ j → a j ≡ b j) → slice a i n ≡ slice b i n
unfolding slice
slice-cong a b i zero h = refl
slice-cong a b i (suc n) h =
    ap₂ (λ x xs. x ∷ xs) (h i (omega arith)) (slice-cong a b (i + 1) n (λ j le. h j (omega arith)))

write_ne : (a : Pages) (i j : ℕ) (x : Page) → i < j → write a i x j ≡ a j
write_ne a i j x h = ground arith

write_ne_lt : (a : Pages) (i j : ℕ) (x : Page) → j < i → write a i x j ≡ a j
write_ne_lt a i j x h = ground arith

write_self : (a : Pages) (i : ℕ) (x : Page) → write a i x i ≡ x
write_self a i x = ground arith

-- The pages below index `k` that lie on a node, from the highest index down, with their node.
unfoldable pub located : (ℕ → ℤ) → Pages → ℕ → List Page
located status pages zero = []
located status pages (suc i) =
    let rest = located status pages i in
    if ltb_ℤ (status i) (pos 0) then rest else record (pages i) { numanode = status i } ∷ rest

-- Those behind the point where the sizes reach the threshold; none where the sizes overflow.
unfoldable pub beyond : (threshold sum : ℕ) → List Page → Option (List Page)
unfolding add_size
beyond threshold sum [] = some []
beyond threshold sum (p ∷ ps) = add_size sum p.length >>= λ sum'.
    beyond threshold sum' ps >>= λ rest. some (if ltb sum' threshold then rest else p ∷ rest)

-- The first list reversed in front of the second.
unfoldable pub rev_onto : List Page → List Page → List Page
rev_onto [] ys = ys
rev_onto (x ∷ xs) ys = rev_onto xs (x ∷ ys)

abbrev pub chosen : ℕ → Option Scan → Option (List Page)
chosen n r = r >>= λ s. some (slice s.pages (n - s.swap_count) s.swap_count)

abbrev pub expected : List Page → Option (List Page) → Option (List Page)
expected acc r = r >>= λ xs. some (rev_onto xs acc)

-- Both loops agree on what lies below: the in-place array and the list.
located-cong :
    (status : ℕ → ℤ) (a b : Pages) (k : ℕ)
    → ((j : ℕ) → j < k → a j ≡ b j)
    → located status a k ≡ located status b k
unfolding located
located-cong status a b zero h = refl
located-cong status a b (suc i) h =
    ap₂
      (λ (page : Page) (rest : List Page).
        if ltb_ℤ (status i) (pos 0) then rest else record page { numanode = status i } ∷ rest)
      (h i (omega arith)) (located-cong status a b i (λ j lt. h j (omega arith)))

-- The chosen pages after a step that left the page at `i` in memory.
kept_slice :
    (a : Pages) (i n sc : ℕ) (x : Page)
    → suc i + sc ≤ n
    → slice (write a i x) (n - sc) sc ≡ slice a (n - sc) sc
kept_slice a i n sc x h =
    slice-cong (write a i x) a (n - sc) sc (λ j le. write_ne a i j x (omega arith))

plus_one : (n : ℕ) → n + 1 ≡ suc n
plus_one n = omega arith

slice-suc : (a : Pages) (i sc : ℕ) → slice a i (sc + 1) ≡ a i ∷ slice a (i + 1) sc
unfolding slice
slice-suc a i sc = ap (slice a i) (plus_one sc)

index : (n sc : ℕ) → sc + 1 ≤ n → n - (sc + 1) + 1 ≡ n - sc
index n sc h = omega arith

-- The chosen pages after a step that wrote a page in front of them.
swapped_slice :
    (a : Pages) (i n sc : ℕ) (x : Page)
    → suc i + sc ≤ n
    → slice (write (write a i x) (n - (sc + 1)) x) (n - (sc + 1)) (sc + 1) ≡ x ∷ slice a (n - sc) sc
unfolding slice
swapped_slice a i n sc x h =
    let w = write (write a i x) (n - (sc + 1)) x in
    slice-suc w (n - (sc + 1)) sc
    ∙ ap₂ (λ y ys. y ∷ ys) (write_self (write a i x) (n - (sc + 1)) x)
        (ap (λ m. slice w m sc) (index n sc (omega arith))
          ∙ slice-cong w (write a i x) (n - sc) sc
              (λ j le. write_ne (write a i x) (n - (sc + 1)) j _ (omega arith))
          ∙ kept_slice a i n sc x h)

module _ (status : ℕ → ℤ) (threshold n i : ℕ) (orig : Pages) where
  -- The loop from `i` on chooses what `beyond` chooses among the located pages, in reverse order.
  abbrev pub Agrees : Scan → Type 0
  Agrees s =
      chosen n (scan_pages status threshold n i s)
      ≡ expected (slice s.pages (n - s.swap_count) s.swap_count)
          (beyond threshold s.sum_size (located status orig i))

  abbrev pub AllAgree : Type 0
  AllAgree = (s : Scan) → i + s.swap_count ≤ n → ((j : ℕ) → j < i → s.pages j ≡ orig j) → Agrees s

keep_rest :
    (acc : List Page) (r : Option (List Page))
    → expected acc r ≡ expected acc (r >>= λ rest. some rest)
keep_rest acc none = refl
keep_rest acc (some xs) = refl

add_page :
    (acc : List Page) (page : Page) (r : Option (List Page))
    → expected (page ∷ acc) r ≡ expected acc (r >>= λ rest. some (page ∷ rest))
unfolding rev_onto
add_page acc page none = refl
add_page acc page (some xs) = refl

-- The part of a step behind the size sum.
choose-chosen :
    (status : ℕ → ℤ) (threshold n i : ℕ) (orig : Pages) (page : Page) (s : Scan) (o : Option ℕ)
    → AllAgree status threshold n i orig
    → suc i + s.swap_count ≤ n
    → ((j : ℕ) → j < i → s.pages j ≡ orig j)
    → chosen n (
        o >>= (λ sum. some (choose threshold n page (write s.pages i page) s sum)) >>= λ s'.
        scan_pages status threshold n i s')
      ≡ expected (slice s.pages (n - s.swap_count) s.swap_count) (
          o >>= λ sum'. beyond threshold sum' (located status orig i) >>= λ rest.
          some (if ltb sum' threshold then rest else page ∷ rest))
unfolding choose
choose-chosen status threshold n i orig page s none ih h same = refl
choose-chosen status threshold n i orig page s (some sum) ih h same =
    elim (Bool-cases (ltb sum threshold)) [
      | inl below ↦ rw below (
          ih (record { pages = write s.pages i page; sum_size = sum; swap_count = s.swap_count })
            (omega arith) (λ j lt. write_ne_lt s.pages i j page lt ∙ same j lt)
          ∙ ap (λ l. expected l (beyond threshold sum (located status orig i)))
              (kept_slice s.pages i n s.swap_count page h)
          ∙ keep_rest _ (beyond threshold sum (located status orig i)))
      | inr over ↦ rw over (
          ih
            (record {
              pages = write (write s.pages i page) (n - (s.swap_count + 1)) page;
              sum_size = sum;
              swap_count = s.swap_count + 1;
            })
            (omega arith)
            (λ j lt.
              write_ne_lt (write s.pages i page) (n - (s.swap_count + 1)) j page (omega arith)
              ∙ write_ne_lt s.pages i j page lt
              ∙ same j lt)
          ∙ ap (λ l. expected l (beyond threshold sum (located status orig i)))
              (swapped_slice s.pages i n s.swap_count page h)
          ∙ add_page _ page (beyond threshold sum (located status orig i)))
    ]

pub scan_pages-beyond :
    (status : ℕ → ℤ) (threshold n k : ℕ) (orig : Pages) → AllAgree status threshold n k orig
unfolding scan_pages beyond rev_onto located scan_page
scan_pages-beyond status threshold n zero orig s h same = refl
scan_pages-beyond status threshold n (suc i) orig s h same =
    elim (Bool-cases (ltb_ℤ (status i) (pos 0))) [
      | inl off ↦ rw off (
          scan_pages-beyond status threshold n i orig
            (record s { pages = write s.pages i (record (s.pages i) { numanode = status i }) })
            (omega arith) (λ j lt. write_ne_lt s.pages i j _ lt ∙ same j (omega arith))
          ∙ ap (λ l. expected l (beyond threshold s.sum_size (located status orig i)))
              (kept_slice s.pages i n s.swap_count _ h))
      | inr on ↦ rw on (
          choose-chosen status threshold n i orig (record (s.pages i) { numanode = status i }) s
            (add_size s.sum_size (s.pages i).length) (scan_pages-beyond status threshold n i orig) h
            (λ j lt. same j (omega arith))
          ∙ ap
              (λ (page : Page). expected (slice s.pages (n - s.swap_count) s.swap_count) (
                add_size s.sum_size page.length >>= λ sum'.
                beyond threshold sum' (located status orig i) >>= λ rest.
                some (
                  if ltb sum' threshold then rest else record page { numanode = status i } ∷ rest)))
              (same i (omega arith)))
    ]

-- The pages of the list, from the highest index down, from the one on whose size lifts the sum to the
-- threshold; none where the sum does not fit into 64 bits.
unfoldable pub taken : (threshold sum : ℕ) → List Page → Option (List Page)
taken threshold sum [] = some []
taken threshold sum (p ∷ ps) =
    let rest = taken threshold (sum + p.length) ps in
    if ltb (sum + p.length) word
    then (rest >>= λ pages. some (if ltb (sum + p.length) threshold then pages else p ∷ pages))
    else none

abbrev pub InWord : Page → Type 0
InWord p = p.length < word

add_size-fits :
    (sum size : ℕ)
    → sum < word
    → size < word
    → ltb (sum + size) word ≡ true
    → add_size sum size ≡ some (sum + size)
unfolding add_size
add_size-fits sum size h k fits = ground arith

add_size-none :
    (sum size : ℕ)
    → sum < word
    → size < word
    → ltb (sum + size) word ≡ false
    → add_size sum size ≡ none
unfolding add_size
add_size-none sum size h k over = ground arith

beyond-taken :
    (threshold sum : ℕ) (pages : List Page)
    → sum < word
    → All InWord pages
    → beyond threshold sum pages ≡ taken threshold sum pages
unfolding beyond taken
beyond-taken threshold sum [] h all = refl
beyond-taken threshold sum (p ∷ ps) h all = elim (Bool-cases (ltb (sum + p.length) word)) [
  | inl fits ↦
      rw (fits, add_size-fits sum p.length h all.0 fits)
        (ap (λ r. r >>= λ pages. some (if ltb (sum + p.length) threshold then pages else p ∷ pages))
          (beyond-taken threshold (sum + p.length) ps (ltb→lt (sum + p.length) word fits) all.1))
  | inr over ↦ rw (over, add_size-none sum p.length h all.0 over) refl
]

located-InWord :
    (status : ℕ → ℤ) (pages : Pages) (k : ℕ)
    → ((j : ℕ) → j < k → InWord (pages j))
    → All InWord (located status pages k)
unfolding located
located-InWord status pages zero h = tt
located-InWord status pages (suc i) h =
    let more = located-InWord status pages i (λ j lt. h j (omega arith)) in
    elim (Bool-cases (ltb_ℤ (status i) (pos 0))) [
      | inl off ↦ rw off more
      | inr on ↦ rw on (h i (omega arith), more)
    ]

-- The in-place loop of the threshold policy over an array of `n` pages, run from any index and
-- any state with a size sum and page sizes of 64 bits, where the pages still to be read are the
-- given ones and end before the chosen ones, agrees with the selection on lists: it fails exactly
-- where a size sum is 2 ^ 64 or more, and else it ends with the pages that `taken` selects, those
-- with whose size the sum reaches the threshold or is beyond it, in the reverse order, in front
-- of those chosen before.
pub scan_pages-chosen :
    (status : ℕ → ℤ) (threshold n k : ℕ) (orig : Pages) (s : Scan)
    → s.sum_size < word
    → ((j : ℕ) → j < k → InWord (orig j))
    → k + s.swap_count ≤ n
    → ((j : ℕ) → j < k → s.pages j ≡ orig j)
    → chosen n (scan_pages status threshold n k s)
      ≡ expected
          (slice s.pages (n - s.swap_count) s.swap_count)
          (taken threshold s.sum_size (located status orig k))
scan_pages-chosen status threshold n k orig s sum sizes h same =
    scan_pages-beyond status threshold n k orig s h same
    ∙ ap (expected (slice s.pages (n - s.swap_count) s.swap_count)) (
        beyond-taken threshold s.sum_size (located status orig k) sum
          (located-InWord status orig k sizes))
