-- ===== src/Router/Threshold.antt =====
-- memRouter/src/memdcd_policy_threshold.c: the hottest pages up to a threshold stay in memory, the
-- others are chosen for swapping.
use Prim.Native.Nat.{zero, suc}
use etmem.Base.{
  ℕ, ◌+◌, ◌-◌, ◌*◌, ◌%◌, Bool, List, [], ◌∷◌, Option, none, some, length, get_or, ltb, ◌==◌,
  if◌then◌else◌, String,
}
use etmem.Base.Int.{ℤ, pos, ltb_ℤ}
use etmem.Base.Options.{◌>>=◌, guard, ◌>>◌}
use etmem.Base.Text.{str_eq}
use etmem.Router.{Page, word}

-- A C array of pages, by index.
abbrev pub Pages : Type 0
Pages = ℕ → Page

abbrev pub write : Pages → ℕ → Page → Pages
write pages i page j = if j == i then page else pages j

-- memcpy of `n` pages from index `i` on.
unfoldable pub slice : Pages → (i n : ℕ) → List Page
slice pages i zero = []
slice pages i (suc n) = pages i ∷ slice pages (i + 1) n

-- The local variables of the loop of threshold_policy_parse.
pub record Scan : Type 0 where
  pub pages : Pages
  pub sum_size : ℕ
  pub swap_count : ℕ

-- The size sum, or none where it wraps around.
unfoldable pub add_size : ℕ → ℕ → Option ℕ
add_size sum size = if ltb ((sum + size) % word) sum then none else some ((sum + size) % word)

-- What becomes of the page at the loop's index, with the size sum that includes it.
unfoldable pub choose : (threshold length : ℕ) → Page → Pages → Scan → ℕ → Scan
choose threshold length page pages s sum =
    if ltb sum threshold
    then record { pages = pages; sum_size = sum; swap_count = s.swap_count }
    else record {
      pages = write pages (length - (s.swap_count + 1)) page;
      sum_size = sum;
      swap_count = s.swap_count + 1;
    }

-- The body of the loop at index `i`.
unfoldable pub scan_page : (ℕ → ℤ) → (threshold length i : ℕ) → Scan → Option Scan
unfolding add_size choose
scan_page status threshold length i s =
    let page = record (s.pages i) { numanode = status i } in
    let pages = write s.pages i page in
    if ltb_ℤ (status i) (pos 0)
    then some (record s { pages = pages })
    else (add_size s.sum_size (s.pages i).length >>= λ sum.
        some (choose threshold length page pages s sum))

-- The loop from index `k - 1` down to 0.
unfoldable pub scan_pages : (ℕ → ℤ) → (threshold length k : ℕ) → Scan → Option Scan
unfolding scan_page
scan_pages status threshold length zero s = some s
scan_pages status threshold length (suc i) s =
    scan_page status threshold length i s >>= λ s'. scan_pages status threshold length i s'

-- What the system does for one call: qsort, the three mallocs, and move_pages, which tells the node of
-- each address or fails.
pub record System : Type 0 where
  pub qsort : List Page → List Page
  pub malloc : ℕ → Bool
  pub move_pages : (pid : ℕ) → List ℕ → Option (ℕ → ℤ)

unfoldable pub addrs : List Page → List ℕ
addrs [] = []
addrs (p ∷ ps) = p.addr ∷ addrs ps

abbrev pub blank_page : Page
blank_page = record { addr = 0; length = 0; visit_count = pos 0; numanode = pos 0 }

-- Reads stay below the length, so the blank page is never read.
abbrev pub array_of : List Page → Pages
array_of ps i = get_or ps i blank_page

abbrev pub initial_scan : List Page → Scan
initial_scan sorted = record { pages = array_of sorted; sum_size = 0; swap_count = 0 }

-- `none` is a return value -1, else the pages of *pages_to_swap.
unfoldable pub threshold_policy_parse :
    System → (threshold pid : ℕ) → List Page → Option (List Page)
unfolding scan_pages slice addrs
threshold_policy_parse sys threshold pid pages = do
  let sorted = sys.qsort pages
  let n = length pages
  guard (sys.malloc (4 * n))
  guard (sys.malloc (8 * n))
  status ← sys.move_pages pid (addrs sorted)
  s ← scan_pages status threshold n n (initial_scan sorted)
  guard (sys.malloc (24 * s.swap_count + 8))
  some (slice s.pages (n - s.swap_count) s.swap_count)

-- The policy's part of the configuration, as json-c reads it; `none` is a missing object, a file that
-- does not parse included.
pub record PolicyFile : Type 0 where
  pub unit : Option (Option String)
  pub threshold : Option ℤ

unfoldable pub unit_bytes : String → Option ℕ
unit_bytes unit =
    if str_eq "B" unit
    then some 1
    else if str_eq "KB" unit
    then some 1024
    else if str_eq "MB" unit
    then some (1024 * 1024)
    else if str_eq "GB" unit
    then some (1024 * 1024 * 1024)
    else none

unfoldable pub threshold_in_range : ℤ → Option ℕ
threshold_in_range (pos value) = if value == 2147483647 then none else some value
threshold_in_range _ = none

-- The policy's threshold, or none for a return value -1.
unfoldable pub threshold_policy_init : (malloc : Bool) → Option PolicyFile → Option ℕ
unfolding unit_bytes threshold_in_range
threshold_policy_init malloc file = do
  guard malloc
  policy ← file
  unit ← policy.unit
  threshold ← policy.threshold
  value ← threshold_in_range threshold
  str ← unit
  bytes ← unit_bytes str
  some (value * bytes % word)
