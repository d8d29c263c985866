-- ===== src/Migrate/Wmark.antt =====
-- etmem/src/etmemd_src/etmemd_migrate.c: asking the kernel to reclaim the swap cache
-- (check_should_reclaim_swapcache, set_swapcache_wmark, etmemd_reclaim_swapcache).
use etmem.Base.{
  ℕ, suc, Bool, true, false, not, ◌&&◌, ◌||◌, List, [], ◌∷◌, Option, none, some, leb, ◌==◌, ◌+◌,
  ◌-◌, ◌*◌, ◌/◌, ◌%◌, ◌^◌, if◌then◌else◌,
}
use etmem.Base.Int.{ℤ, pos, negsuc, eqb_ℤ}
use etmem.Project.{Project}
use etmem.Migrate.{Reads}

-- MAX_SWAPCACHE_WMARK_VALUE
abbrev pub max_swapcache_wmark_value : ℕ
max_swapcache_wmark_value = 100

-- (unsigned long)(MAX_SWAPCACHE_WMARK_VALUE / high); none is a division by zero.
unfoldable pub wmark_ratio : ℤ → Option ℕ
wmark_ratio (pos n) = if n == 0 then none else some (max_swapcache_wmark_value / n)
wmark_ratio (negsuc n) = some ((2 ^ 64 - max_swapcache_wmark_value / suc n) % 2 ^ 64)

-- The test of the share of the swap cache in the memory; none where the code divides by zero.
unfoldable pub compare_ratio : (mem_total swapcache_total : ℕ) → ℤ → Option Bool
unfolding wmark_ratio
compare_ratio mem_total swapcache_total high =
    if swapcache_total == 0 then some false else elim (wmark_ratio high) [
      | none ↦ none
      | some ratio ↦ some (not (leb ratio (mem_total / swapcache_total)))
    ]

unfoldable pub check_should_reclaim_swapcache : Project → Reads → Option Bool
unfolding compare_ratio
check_should_reclaim_swapcache proj reads =
    let compared : Option Bool = elim reads.mem_total [
      | none ↦ some false
      | some mem_total ↦ elim reads.swap_cached [
        | none ↦ some false
        | some swapcache_total ↦ compare_ratio mem_total swapcache_total proj.swapcache_high_wmark
      ]
    ] in
    if eqb_ℤ proj.swapcache_high_wmark (negsuc 0) || eqb_ℤ proj.swapcache_low_wmark (negsuc 0)
    then some false
    else compared

-- `& 0x00ff` of an int.
unfoldable pub low_byte : ℤ → ℕ
low_byte (pos n) = n % 256
low_byte (negsuc n) = 255 - n % 256

-- The parameter of the ioctl: the low byte is the low mark, the next the high mark.
unfoldable pub swapcache_wmark : Project → ℕ
unfolding low_byte
swapcache_wmark proj = low_byte proj.swapcache_low_wmark + low_byte proj.swapcache_high_wmark * 256

-- The requests that the kernel takes.
pub data Ioctl : Type 0 where
  set_swapcache_wmark_cmd : ℕ → Ioctl
  reclaim_swapcache_on : Ioctl

-- One call: what it reads, and whether the file opens and the kernel takes the request, for the marks and
-- for the reclaiming.
pub record Call : Type 0 where
  pub reads : Reads
  pub opens_wmark : Bool
  pub sets_wmark : Bool
  pub opens : Bool
  pub reclaims : Bool

-- wmark_set, and the requests taken so far, the last first.
pub record Cache : Type 0 where
  pub wmark_set : Bool
  pub sent : List Ioctl

-- What a call leaves, and whether it returns 0; none where the code divides by zero.
pub record Result : Type 0 where
  pub cache : Cache
  pub returns_0 : Bool

unfoldable pub set_swapcache_wmark : Project → Call → Cache → Option Cache
set_swapcache_wmark proj call cache =
    if call.opens_wmark && call.sets_wmark
    then some (record {
      wmark_set = true;
      sent = set_swapcache_wmark_cmd (swapcache_wmark proj) ∷ cache.sent;
    })
    else none

unfoldable pub send_reclaim : Call → Cache → Result
send_reclaim call cache =
    if call.opens && call.reclaims
    then record {
      cache = record cache { sent = reclaim_swapcache_on ∷ cache.sent };
      returns_0 = true;
    }
    else record { cache = cache; returns_0 = false }

-- Without the marks nothing is reclaimed.
unfoldable pub after_wmark : Call → Cache → Option Cache → Result
after_wmark call cache none = record { cache = cache; returns_0 = false }
after_wmark call cache (some marked) = send_reclaim call marked

-- The part of etmemd_reclaim_swapcache behind its test.
unfoldable pub reclaim : Project → Call → Cache → Result
reclaim proj call cache =
    if cache.wmark_set
    then send_reclaim call cache
    else after_wmark call cache (set_swapcache_wmark proj call cache)

unfoldable pub answered : Project → Call → Cache → Option Bool → Option Result
answered proj call cache none = none
answered proj call cache (some false) = some (record { cache = cache; returns_0 = true })
answered proj call cache (some true) = some (reclaim proj call cache)

unfoldable pub etmemd_reclaim_swapcache : Project → Call → Cache → Option Result
etmemd_reclaim_swapcache proj call cache =
    answered proj call cache (check_should_reclaim_swapcache proj call.reads)

unfoldable pub continued : (Cache → Cache) → Cache → Option Result → Cache
continued more cache none = cache
continued more cache (some result) = more result.cache

-- Call after call, from a task that has sent nothing; a call that divides by zero ends them.
unfoldable pub reclaim_calls : Project → List Call → Cache → Cache
reclaim_calls proj [] cache = cache
reclaim_calls proj (call ∷ calls) cache =
    continued (reclaim_calls proj calls) cache (etmemd_reclaim_swapcache proj call cache)
