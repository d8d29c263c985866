-- ===== src/Migrate.antt =====
-- etmem/src/etmemd_src/etmemd_migrate.c: the addresses that are written to the kernel's swap file in
-- batches, how many pages a task may still swap, and the reclaiming of the swap cache. What the files under
-- /proc say, allocation and writing are parameters.
pub mod Lines
pub mod Batches
pub mod Wmark
pub mod Marked
mod Tests
use etmem.Base.{
  ℕ, zero, suc, Bool, true, false, List, [], ◌∷◌, ◌++◌, length, Option, none, some, ltb, leb, ◌+◌,
  ◌-◌, ◌*◌, ◌/◌, ◌%◌, ◌^◌, ◌==◌, if◌then◌else◌,
}
use etmem.Base.Int.{ℤ, pos, negsuc}

-- SWAP_LIMIT and SWAP_ADDR_LEN
abbrev pub swap_limit : ℕ
swap_limit = 200

abbrev pub swap_addr_len : ℕ
swap_addr_len = 20

-- A hexadecimal digit as a character code.
abbrev pub hex_digit : ℕ → ℕ
hex_digit n = if ltb n 10 then 48 + n else 87 + n

-- The digits of `%lx`, at most `fuel` + 1 of them, in front of others.
unfoldable pub hex_digits : (fuel n : ℕ) → List ℕ → List ℕ
hex_digits zero n more = hex_digit (n % 16) ∷ more
hex_digits (suc fuel) n more =
    let longer = hex_digits fuel (n / 16) (hex_digit (n % 16) ∷ more) in
    if ltb n 16 then hex_digit n ∷ more else longer

-- "0x%lx\n" of an unsigned long.
unfoldable pub address_line : ℕ → List ℕ
unfolding hex_digits
address_line addr = 48 ∷ 120 ∷ hex_digits 15 addr (10 ∷ [])

-- snprintf_s fails where the text and its end do not fit into temp_str; strcat_s where they do not fit
-- behind swap_str.
unfoldable pub fits : (swap_str_len : ℕ) (swap_str line : List ℕ) → Bool
fits swap_str_len swap_str line =
    if ltb (length line) swap_addr_len
    then ltb (length swap_str + length line) swap_str_len
    else false

-- The text of a batch and the pages behind it.
pub record Swap : Type 0 where
  pub swap_str : List ℕ
  pub page_refs : List ℕ

-- The loop of get_swap_string over the addresses of the pages; `room` is batchsize - count.
unfoldable pub swap_loop : (swap_str_len : ℕ) → List ℕ → (room : ℕ) → List ℕ → Swap
swap_loop swap_str_len [] room swap_str = record { swap_str = swap_str; page_refs = [] }
swap_loop swap_str_len (addr ∷ rest) zero swap_str = record {
  swap_str = swap_str;
  page_refs = addr ∷ rest;
}
swap_loop swap_str_len (addr ∷ rest) (suc room) swap_str =
    let more = swap_loop swap_str_len rest room (swap_str ++ address_line addr) in
    if fits swap_str_len swap_str (address_line addr)
    then more
    else record { swap_str = swap_str; page_refs = addr ∷ rest }

unfoldable pub get_swap_string : Bool → List ℕ → (batchsize : ℕ) → Option Swap
unfolding swap_loop
get_swap_string calloc page_refs batchsize =
    if calloc then some (swap_loop (batchsize * swap_addr_len) page_refs batchsize []) else none

-- Whether the file opens, and by rounds of the loop whether calloc and fputs succeed.
pub record Files : Type 0 where
  pub opens : Bool
  pub calloc : ℕ → Bool
  pub fputs : ℕ → Bool

-- The texts that were written when etmemd_migrate_mem returns 0 or -1, or is still in its loop.
pub data Migrated : Type 0 where
  migrated : List (List ℕ) → Migrated
  not_migrated : List (List ℕ) → Migrated
  still_running : List (List ℕ) → Migrated

abbrev pub wrote : List ℕ → Migrated → Migrated
wrote text (migrated texts) = migrated (text ∷ texts)
wrote text (not_migrated texts) = not_migrated (text ∷ texts)
wrote text (still_running texts) = still_running (text ∷ texts)

-- One round of the loop, and the rounds after it: without memory for a text it tries again.
unfoldable pub migrate_round :
    Files → (round : ℕ) → List ℕ → (more : List ℕ → Migrated) → Option Swap → Migrated
migrate_round files round page_refs more none = more page_refs
migrate_round files round page_refs more (some swap) =
    let later = more swap.page_refs in
    if files.fputs round then wrote swap.swap_str later else not_migrated []

-- `while (page_refs != NULL)`
unfoldable pub migrate_loop : Files → (fuel round : ℕ) → List ℕ → Migrated
migrate_loop files fuel round [] = migrated []
migrate_loop files zero round (addr ∷ page_refs) = still_running []
migrate_loop files (suc fuel) round (addr ∷ page_refs) =
    migrate_round files round (addr ∷ page_refs) (migrate_loop files fuel (suc round))
      (get_swap_string (files.calloc round) (addr ∷ page_refs) swap_limit)

unfoldable pub etmemd_migrate_mem : Files → (fuel : ℕ) → List ℕ → Migrated
unfolding migrate_loop
etmemd_migrate_mem files fuel [] = migrated []
etmemd_migrate_mem files fuel (addr ∷ page_refs) =
    if files.opens then migrate_loop files fuel 0 (addr ∷ page_refs) else not_migrated []

-- etmemd_grade_migrate reads the cold pages only.
unfoldable pub etmemd_grade_migrate :
    Files → (fuel : ℕ) → (hot_pages cold_pages : List ℕ) → Migrated
unfolding etmemd_migrate_mem
etmemd_grade_migrate files fuel hot_pages cold_pages = etmemd_migrate_mem files fuel cold_pages

-- What get_mem_from_proc_file gives of a process and the system, in KB; none where it fails.
pub record Reads : Type 0 where
  pub mem_total : Option ℕ
  pub mem_free : Option ℕ
  pub swap_cached : Option ℕ
  pub vm_rss : Option ℕ
  pub vm_swap : Option ℕ
  pub pagesize : ℕ

unfoldable pub pages_to_swap : (vm_rss vm_swap pagesize dram_percent : ℕ) → ℕ
pages_to_swap vm_rss vm_swap pagesize dram_percent =
    let vm_cmp = (vm_rss + vm_swap) % 2 ^ 64 / 100 * dram_percent % 2 ^ 64 in
    if ltb vm_rss vm_cmp then 0 else (vm_rss - vm_cmp) * 1024 % 2 ^ 64 / pagesize

-- `dram_percent` is none where the task has no parameters.
unfoldable pub check_should_migrate : Reads → Option ℕ → ℕ
unfolding pages_to_swap
check_should_migrate reads dram_percent = elim reads.vm_rss [
  | none ↦ 0
  | some vm_rss ↦ elim reads.vm_swap [
    | none ↦ 0
    | some vm_swap ↦ elim dram_percent [
      | none ↦ 0
      | some dram_percent ↦ pages_to_swap vm_rss vm_swap reads.pagesize dram_percent
    ]
  ]
]
