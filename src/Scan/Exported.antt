-- ===== src/Scan/Exported.antt =====
-- etmem/src/etmemd_src/etmemd_scan.c: etmemd_get_page_refs, one round of a scan for callers outside of etmemd.
use etmem.Base.{
  ◌+◌, ◌*◌, ◌/◌, ◌^◌, ℕ, suc, Bool, true, false, List, [], ◌∷◌, ◌++◌, ◌≡◌, refl, ap, ◌==◌, ◌%◌, ◌<◌,
  ◌≤◌, arith, Option, none, some, inl, inr, ◌||◌, ◌∙◌, ltb,
}
use etmem.Scan.{PageIdleType, PageSizes}
use etmem.Scan.Sizes.{bytes_of}
use etmem.Scan.Refs.{Floats, PageRefs, moved, fault}
use etmem.Scan.Recorded.{size_of}
use etmem.Scan.Bytes.{
  handling, recorded, Parse, Parsed, after_pages, handle, parse_byte, parse_loop, parse_vma_result,
}
use etmem.Scan.Walks.{
  Vma, IdlePages, ScanFile, Scanned, scan_failed, scan_crashed, scanned_of, WalkState, buffer_size,
  take_answer, walk_vmas, walk_from, walk_vma, walk_loop, get_page_refs,
}
use etmem.Scan.Answer.{Item, IsItem, kind_of, item_byte, next_of}
use etmem.Scan.Addresses.{state, parse_byte-item, parse_loop-start}
use etmem.Scan.Faults.{record_parse_result-fault}

-- flags & ALL_SCAN_FLAGS: bits 12, 24 and 25.
unfoldable pub all_scan_flags : ℕ → ℕ
all_scan_flags flags = flags / 2 ^ 12 % 2 * 2 ^ 12 + flags / 2 ^ 24 % 4 * 2 ^ 24

ltb-zero : (n : ℕ) → ltb n 0 ≡ false
ltb-zero n = ground arith

or-true : (b : Bool) → (b || true) ≡ true
or-true true = refl
or-true false = refl

module _ {D : Type 0} (fl : Floats D) (calloc : ℕ → Bool) (sizes : PageSizes) where
  -- `inited` is g_exp_scan_inited. A pid is the file of its process; NULL is none.
  unfoldable pub etmemd_get_page_refs :
      (inited : Bool)
      → IdlePages
      → Option (List Vma)
      → Option ScanFile
      → Option (List (PageRefs D))
      → (flags asked : ℕ) → Scanned D
  etmemd_get_page_refs false idle_pages vmas pid none flags asked = scan_failed [] asked
  etmemd_get_page_refs false idle_pages vmas pid (some page_refs) flags asked =
      scan_failed page_refs asked
  etmemd_get_page_refs true idle_pages (some vmas) (some pid) (some page_refs) flags asked =
      get_page_refs fl calloc sizes idle_pages
        (record pid { ioctl_parameter = all_scan_flags flags }) vmas 0 0 page_refs asked
  etmemd_get_page_refs true idle_pages none pid (some page_refs) flags asked =
      scan_failed page_refs asked
  etmemd_get_page_refs true idle_pages (some vmas) none (some page_refs) flags asked =
      scan_failed page_refs asked
  etmemd_get_page_refs true idle_pages vmas pid none flags asked = scan_failed [] asked

  parse_loop-inl :
      (byte : ℕ) (bytes : List ℕ) (s : Parse D) (stop : Parsed D)
      → parse_byte fl calloc sizes 0 0 byte bytes s ≡ inl stop
      → parse_loop fl calloc sizes 0 0 (byte ∷ bytes) s ≡ stop
  unfolding parse_loop
  parse_loop-inl byte bytes s stop e =
      ap
        (λ r. elim r [ inl parsed ↦ parsed | inr more ↦ parse_loop fl calloc sizes 0 0 bytes more ])
        e

  module _ (item : Item) (kind : PageIdleType) (m : ℕ)
      (kind_eq : handling (kind_of item) item.nr ≡ recorded kind (suc m)) (valid : IsItem item)
      (start : ℕ) (low : 1 ≤ start) (bound : next_of sizes start item < 2 ^ 64)
      (aligned : start % size_of sizes kind ≡ 0) where
    parse_byte-fault :
        (more : List ℕ) (asked : ℕ)
        → parse_byte fl calloc sizes 0 0
            (item_byte item)
            more
            (state start none (moved [] [] asked))
          ≡ inl (record { end = none; use_rss = none; walked = fault })
    unfolding handle after_pages
    parse_byte-fault more asked =
        parse_byte-item sizes fl 0 calloc 0 item more start none (moved [] [] asked) valid low bound
        ∙ rw
            (
              kind_eq,
              record_parse_result-fault fl calloc sizes 0 0 refl start m kind [] asked aligned,
            )
            refl

    abbrev first_bytes : List ℕ → List ℕ
    first_bytes more = 160 ∷ (bytes_of start ++ (item_byte item ∷ more))

    parse_vma_result-fault :
        (more : List ℕ) (asked : ℕ)
        → (parse_vma_result fl calloc sizes 0 0 (first_bytes more) none (moved [] [] asked)).walked
          ≡ fault
    unfolding parse_vma_result
    parse_vma_result-fault more asked =
        ap (λ p. p.walked)
          (parse_loop-start sizes fl 0 calloc 0 start (item_byte item ∷ more) 0 none
              (moved [] [] asked)
            ∙ parse_loop-inl (item_byte item) more (state start none (moved [] [] asked))
                (record { end = none; use_rss = none; walked = fault })
                (parse_byte-fault more asked))

    module _ (idle_pages : IdlePages) (vma : Vma) (more : List ℕ)
        (buffers : (size : ℕ) → idle_pages.buffer size ≡ true)
        (seeks : idle_pages.lseek vma.start ≡ true)
        (reads : (size : ℕ) → idle_pages.read vma.start size ≡ some (first_bytes more)) where
      abbrev entered : ℕ → WalkState D
      entered asked = record { last_walk_end = 0; use_rss = none; walked = moved [] [] asked }

      walk_vmas-fault :
          (asked : ℕ)
          → (walk_vmas fl calloc sizes 0 0 idle_pages vma.start vma.end (entered asked)).walked
            ≡ fault
      unfolding walk_vmas take_answer
      walk_vmas-fault asked =
          rw
            (
              buffers (buffer_size sizes vma.start vma.end),
              seeks,
              reads (buffer_size sizes vma.start vma.end),
            )
            (parse_vma_result-fault more asked)

      walk_vma-fault :
          (asked : ℕ) → (walk_vma fl calloc sizes 0 0 idle_pages vma (entered asked)).walked ≡ fault
      unfolding walk_vma walk_from
      walk_vma-fault asked = rw (ltb-zero vma.end, ltb-zero vma.start) (walk_vmas-fault asked)

      walk_loop-fault :
          (vmas : List Vma) (asked : ℕ)
          → (walk_loop fl calloc sizes 0 0 idle_pages (vma ∷ vmas) (entered asked)).walked ≡ fault
      unfolding walk_loop
      walk_loop-fault vmas asked = rw (walk_vma-fault asked) refl

      -- If a byte stands for at least one page of a kind that is recorded, at an aligned address
      -- that is not 0 and from which the pages stay below 2 ^ 64, then etmemd_get_page_refs,
      -- called on an empty list after the scan was started, with the idle_pages file open, taking
      -- its request and moving to the first area, and memory for the buffer, reads through NULL
      -- if the answer for the first area begins with that address and that byte, whatever the
      -- flags, the further bytes and the other areas.
      pub etmemd_get_page_refs-crashes :
          (vmas : List Vma) (pid : ScanFile) (flags asked : ℕ)
          → pid.opens ≡ true
          → pid.ioctl ≡ true
          → pid.fileno ≡ true
          → etmemd_get_page_refs true idle_pages
              (some (vma ∷ vmas))
              (some pid)
              (some [])
              flags
              asked
            ≡ scan_crashed
      unfolding etmemd_get_page_refs get_page_refs scanned_of
      etmemd_get_page_refs-crashes vmas pid flags asked opens ioctl fileno =
          rw (opens, ioctl, or-true (all_scan_flags flags == 0), fileno)
            (ap scanned_of (walk_loop-fault vmas asked))
