-- ===== src/Router/Retained.antt =====
-- What the policy of memRouter/src/memdcd_policy_threshold.c keeps in memory and what it gives away.
use etmem.Base.{
  none, some, ℕ, ◌-◌, ◌*◌, ltb→lt, subst, ◌≡◌, refl, ap, ◌⊎◌, inl, inr, ◌+◌, ◌≤◌, ◌<◌, false, List,
  [], ◌∷◌, ◌++◌, ltb, Bool-cases, arith, Option, true, length, ◌∙◌,
}
use etmem.Base.Options.{guard, ◌>>◌, ◌>>=◌}
use etmem.Router.{Page, word, ℤ}
use etmem.Router.Threshold.{
  addrs, initial_scan, slice, threshold_policy_parse, scan_pages, Scan, System, array_of, add_size,
}
use etmem.Router.Selection.{chosen, scan_pages-beyond, beyond, located, rev_onto}

unfoldable pub size : List Page → ℕ
size [] = 0
size (p ∷ ps) = p.length + size ps

-- The sizes reach the threshold with the first page of the list.
unfoldable pub Reaches : (threshold sum : ℕ) → List Page → Type 0
Reaches threshold sum [] = Unit
Reaches threshold sum (p ∷ ps) = threshold ≤ sum + p.length

-- `pages`, hottest first, are the kept ones followed by the swapped ones. The kept ones stay below
-- the threshold, and with one page more they would not.
pub record Split (threshold sum : ℕ) (pages : List Page) : Type 0 where
  pub kept : List Page
  pub swapped : List Page
  pub parts : pages ≡ kept ++ swapped
  pub below : (sum + size kept < threshold) ⊎ (kept ≡ [])
  pub reaches : Reaches threshold (sum + size kept) swapped

add_size-fits : (sum len : ℕ) → sum + len < word → add_size sum len ≡ some (sum + len)
unfolding add_size
add_size-fits sum len h = ground arith

not_below : (threshold sum : ℕ) → threshold ≤ sum → ltb sum threshold ≡ false
not_below threshold sum t = ground arith

-- Once the threshold is reached, everything is chosen.
beyond-all :
    (threshold sum : ℕ) (ps : List Page)
    → threshold ≤ sum
    → sum + size ps < word
    → beyond threshold sum ps ≡ some ps
unfolding beyond size
beyond-all threshold sum [] t h = refl
beyond-all threshold sum (p ∷ ps) t h = rw (add_size-fits sum p.length (omega (arith, h))) (
    rw (beyond-all threshold (sum + p.length) ps (omega arith) (omega (arith, h)))
      (rw (not_below threshold (sum + p.length) (omega arith)) refl))

stays_below :
    (threshold sum : ℕ) (p : Page) (kept : List Page)
    → sum + p.length < threshold
    → (sum + p.length + size kept < threshold) ⊎ (kept ≡ [])
    → sum + size (p ∷ kept) < threshold
unfolding size
stays_below threshold sum p kept first (inl h) = omega arith
stays_below threshold sum p kept first (inr h) = rw h (omega arith)

beyond-Split :
    (threshold sum : ℕ) (ps : List Page)
    → sum + size ps < word
    → (split : Split threshold sum ps) × (beyond threshold sum ps ≡ some split.swapped)
unfolding beyond size Reaches
beyond-Split threshold sum [] h =
    (record { kept = []; swapped = []; parts = refl; below = inr refl; reaches = tt }, refl)
beyond-Split threshold sum (p ∷ ps) h = elim (Bool-cases (ltb (sum + p.length) threshold)) [
  | inl below ↦
      let (rest, same) = beyond-Split threshold (sum + p.length) ps (omega (arith, h)) in
      (
        record {
          kept = p ∷ rest.kept;
          swapped = rest.swapped;
          parts = ap (λ l. p ∷ l) rest.parts;
          below = inl (stays_below threshold sum p rest.kept (ltb→lt _ _ below) rest.below);
          reaches = subst (λ n. Reaches threshold n rest.swapped) (omega arith) rest.reaches;
        },
        rw (add_size-fits sum p.length (omega (arith, h))) (rw same (rw below refl)),
      )
  | inr over ↦ (
    record { kept = []; swapped = p ∷ ps; parts = refl; below = inr refl; reaches = ground arith },
    rw (add_size-fits sum p.length (omega (arith, h))) (
        rw (beyond-all threshold (sum + p.length) ps (ground arith) (omega (arith, h)))
          (rw over refl)),
  )
]

finish :
    (sys : System) (n : ℕ) (r : Option Scan)
    → ((bytes : ℕ) → sys.malloc bytes ≡ true)
    → (r >>= λ s.
        guard (sys.malloc (24 * s.swap_count + 8))
        >> some (slice s.pages (n - s.swap_count) s.swap_count))
      ≡ chosen n r
finish sys n none malloc = refl
finish sys n (some s) malloc = rw (malloc (24 * s.swap_count + 8)) refl

parse-chosen :
    (sys : System) (threshold pid : ℕ) (pages : List Page) (status : ℕ → ℤ) (xs : List Page)
    → ((bytes : ℕ) → sys.malloc bytes ≡ true)
    → sys.move_pages pid (addrs (sys.qsort pages)) ≡ some status
    → beyond threshold 0 (located status (array_of (sys.qsort pages)) (length pages)) ≡ some xs
    → threshold_policy_parse sys threshold pid pages ≡ some (rev_onto xs [])
unfolding threshold_policy_parse slice
parse-chosen sys threshold pid pages status xs malloc moved h =
    let sorted = sys.qsort pages in
    let n = length pages in
    rw (malloc (4 * n)) (
      rw (malloc (8 * n)) (
        rw moved (
          finish sys n (scan_pages status threshold n n (initial_scan sorted)) malloc
          ∙ scan_pages-beyond status threshold n n (array_of sorted) (initial_scan sorted)
              (omega arith) (λ j lt. refl)
          ∙ rw h refl)))

-- If memory is there, the kernel tells the nodes, and the sizes of the pages on a node sum up to
-- less than 2 ^ 64, then the threshold policy answers with pages. The pages on a node, from the
-- last in qsort's order to the first, are the kept ones followed by the swapped ones: the kept
-- ones stay below the threshold (or there are none), with the first swapped one they would reach
-- it, and the answer is the swapped ones in qsort's order.
pub parse-Split :
    (sys : System) (threshold pid : ℕ) (pages : List Page) (status : ℕ → ℤ)
    → ((bytes : ℕ) → sys.malloc bytes ≡ true)
    → sys.move_pages pid (addrs (sys.qsort pages)) ≡ some status
    → size (located status (array_of (sys.qsort pages)) (length pages)) < word
    → (split : Split threshold 0 (located status (array_of (sys.qsort pages)) (length pages)))
      × (threshold_policy_parse sys threshold pid pages ≡ some (rev_onto split.swapped []))
parse-Split sys threshold pid pages status malloc moved fits =
    let (split, same) =
      beyond-Split threshold 0 (located status (array_of (sys.qsort pages)) (length pages))
        (omega (arith, fits)) in
    (split, parse-chosen sys threshold pid pages status split.swapped malloc moved same)
