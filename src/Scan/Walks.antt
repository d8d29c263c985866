-- ===== src/Scan/Walks.antt =====
-- etmem/src/etmemd_src/etmemd_scan.c: the walk over the areas of a process, and the rounds of a scan
-- (walk_vmas, get_page_refs, etmemd_do_scan). What the kernel gives is a parameter.
use Prim.Native.Nat.{zero, suc}
use etmem.Base.{
  ◌/◌, ℕ, Bool, List, [], ◌∷◌, Option, none, some, ltb, ◌==◌, ◌+◌, ◌-◌, ◌%◌, ◌^◌, if◌then◌else◌,
  ◌&&◌, true, suc, ◌||◌, false,
}
use etmem.Scan.{PageSizes, page_type_to_size, pte_type}
use etmem.Scan.Refs.{fault, Floats, Walked, moved, null_pf, PageRefs}
use etmem.Scan.Bytes.{Parsed, to_null, ept_idle_buf_min, parse_vma_result}

-- struct vma, as far as the walk reads it.
pub record Vma : Type 0 where
  pub start : ℕ
  pub end : ℕ

-- What the system does in a walk: whether calloc gives the buffer, whether lseek moves to an address, and
-- what read gives there for a buffer of a size (none where it fails).
pub record IdlePages : Type 0 where
  pub buffer : ℕ → Bool
  pub lseek : ℕ → Bool
  pub read : ℕ → ℕ → Option (List ℕ)

abbrev pub is_cursor : {D : Type 0} → Walked D → Bool
is_cursor (moved passed rest asked) = true
is_cursor stopped = false

-- last_walk_end after a walk.
abbrev pub end_or : Option ℕ → ℕ → ℕ
end_or none last_walk_end = last_walk_end
end_or (some end) last_walk_end = end

-- Where the walk stands: `last_walk_end`, and the cursor.
pub record WalkState (D : Type 0) : Type 0 where
  pub last_walk_end : ℕ
  pub use_rss : Option ℕ
  pub walked : Walked D

-- Where the walk of an area begins, behind what was walked before.
abbrev pub walk_start : ℕ → Vma → ℕ
walk_start last_walk_end vma = if ltb vma.start last_walk_end then last_walk_end else vma.start

-- The size of the buffer for an area.
unfoldable pub buffer_size : PageSizes → (start end : ℕ) → ℕ
buffer_size sizes start end =
    let size = (end + 2 ^ 64 - start) % 2 ^ 64 / 8 / page_type_to_size sizes pte_type in
    if ltb size ept_idle_buf_min then ept_idle_buf_min else size

module _ {D : Type 0} (fl : Floats D) (calloc : ℕ → Bool) (sizes : PageSizes)
    (loop_index loop_end : ℕ) where
  abbrev pub parsed_state : ℕ → Parsed D → WalkState D
  parsed_state last_walk_end parsed = record {
    last_walk_end = end_or parsed.end last_walk_end;
    use_rss = parsed.use_rss;
    walked = parsed.walked;
  }

  -- The answer of read: an error or an empty answer leaves all as it is.
  unfoldable pub take_answer : Option (List ℕ) → WalkState D → WalkState D
  take_answer none s = s
  take_answer (some []) s = s
  take_answer (some (byte ∷ bytes)) s =
      parsed_state s.last_walk_end
        (parse_vma_result fl calloc sizes loop_index loop_end (byte ∷ bytes) s.use_rss s.walked)

  unfoldable pub walk_vmas : IdlePages → (start end : ℕ) → WalkState D → WalkState D
  walk_vmas idle_pages start end s =
      let size = buffer_size sizes start end in
      if idle_pages.buffer size && idle_pages.lseek start
      then take_answer (idle_pages.read start size) s
      else record s { walked = to_null s.walked }

  -- One area of the loop of get_page_refs, by last_walk_end.
  unfoldable pub walk_from : IdlePages → Vma → (last_walk_end : ℕ) → WalkState D → WalkState D
  walk_from idle_pages vma last_walk_end s =
      if ltb vma.end last_walk_end
      then s
      else walk_vmas idle_pages (walk_start last_walk_end vma) vma.end s

  unfoldable pub walk_vma : IdlePages → Vma → WalkState D → WalkState D
  walk_vma idle_pages vma s = walk_from idle_pages vma s.last_walk_end s

  -- The loop, which NULL ends.
  unfoldable pub walk_loop : IdlePages → List Vma → WalkState D → WalkState D
  walk_loop idle_pages [] s = s
  walk_loop idle_pages (vma ∷ vmas) s =
      let after = walk_vma idle_pages vma s in
      let rest = walk_loop idle_pages vmas after in if is_cursor after.walked then rest else after

-- What the system does in a scan, besides: opening and asking of the idle_pages file.
pub record ScanFile : Type 0 where
  pub opens : Bool
  pub ioctl_parameter : ℕ
  pub ioctl : Bool
  pub fileno : Bool

-- The list that a scan leaves: with 0, with -1, or a read through NULL in between.
pub data Scanned (D : Type 0) : Type 0 where
  scanned : (page_refs : List (PageRefs D)) (asked : ℕ) → Scanned D
  scan_failed : (page_refs : List (PageRefs D)) (asked : ℕ) → Scanned D
  scan_crashed : Scanned D

-- The nodes behind the cursor, nearest first, put back in front of the others.
unfoldable pub rewind : {A : Type 0} → (passed rest : List A) → List A
rewind [] rest = rest
rewind (x ∷ passed) rest = rewind passed (x ∷ rest)

unfoldable pub scanned_of : {D : Type 0} → Walked D → Scanned D
unfolding rewind
scanned_of (moved passed rest asked) = scanned (rewind passed rest) asked
scanned_of (null_pf passed rest asked) = scan_failed (rewind passed rest) asked
scanned_of fault = scan_crashed

module _ {D : Type 0} (fl : Floats D) (calloc : ℕ → Bool) (sizes : PageSizes) where
  unfoldable pub get_page_refs :
      IdlePages → ScanFile → List Vma → (loop_idx loop_end : ℕ) → List (PageRefs D) → ℕ → Scanned D
  get_page_refs idle_pages file vmas loop_idx loop_end page_refs asked =
      if file.opens && ((file.ioctl_parameter == 0 || file.ioctl) && file.fileno)
      then scanned_of
          (walk_loop fl calloc sizes loop_idx loop_end idle_pages vmas (record {
            last_walk_end = 0;
            use_rss = none;
            walked = moved [] page_refs asked;
          })).walked
      else scan_failed page_refs asked

  -- The rounds of etmemd_do_scan from round i on; a failed round frees the list.
  unfoldable pub scan_loop :
      (ℕ → IdlePages)
      → ScanFile
      → List Vma
      → (loop i rounds : ℕ) → List (PageRefs D)
      → ℕ
      → Scanned D
  scan_loop idle_pages file vmas loop i zero page_refs asked = scanned page_refs asked
  scan_loop idle_pages file vmas loop i (suc rounds) page_refs asked =
      elim (get_page_refs (idle_pages i) file vmas i (loop - 1) page_refs asked) [
        | scanned more n ↦ scan_loop idle_pages file vmas loop (suc i) rounds more n
        | scan_failed more n ↦ scanned [] n
        | scan_crashed ↦ scan_crashed
      ]

  -- etmemd_do_scan of a task, with the areas that get_vmas gives (none where it fails).
  unfoldable pub etmemd_do_scan :
      (ℕ → IdlePages) → ScanFile → Option (List Vma) → (loop : ℕ) → ℕ → Scanned D
  etmemd_do_scan idle_pages file none loop asked = scanned [] asked
  etmemd_do_scan idle_pages file (some vmas) loop asked =
      scan_loop idle_pages file vmas loop 0 loop [] asked
