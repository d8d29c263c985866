-- ===== src/Scan/Process.antt =====
-- etmem/src/etmemd_src/etmemd_scan.c: a round of a scan over all areas of a process (get_page_refs), next
-- to the reference that looks for each page from the head of the list.
use etmem.Base.{
  if◌then◌else◌, sym, subst, ℕ, Bool, true, false, List, [], ◌∷◌, ◌≡◌, refl, ap, ltb, ◌==◌, ◌&&◌,
  some, subst, sym, Bool-cases, inl, inr, none, ◌||◌, arith,
}
use etmem.Scan.{PageSizes}
use etmem.Scan.Refs.{Floats, PageRefs, Walked, moved, null_pf, fault}
use etmem.Scan.Walks.{
  Vma, IdlePages, WalkState, buffer_size, take_answer, walk_vmas, walk_start, walk_from, end_or,
  is_cursor, walk_loop, walk_vma, rewind, ScanFile, scanned_of, get_page_refs, scanned,
}
use etmem.Scan.Bytes.{parse_vma_result}
use etmem.Scan.Touched.{Holds}
use etmem.Scan.Answer.{Block, encode, Ascending, Sized, last_end, touch_blocks}
use etmem.Scan.Reading.{parse_blocks-IsParsed}

Holds-is_cursor :
    {D : Type 0} (a : ℕ) (w : Walked D) (list : List (PageRefs D))
    → Holds w a list
    → is_cursor w ≡ true
Holds-is_cursor a (moved passed rest asked) list holds = refl
Holds-is_cursor a (null_pf passed rest asked) list holds = absurd holds
Holds-is_cursor a fault list holds = absurd holds

module _ (sizes : PageSizes) (answers : ℕ → List Block) where
  -- The answers along a walk ascend: `a` bounds the nodes behind the cursor, `last` is last_walk_end.
  abbrev pub Along : (a last : ℕ) → List Vma → Type 0
  Along a last [] = Unit
  Along a last (vma ∷ vmas) =
      let blocks : List Block = answers (walk_start last vma) in
      if ltb vma.end last
      then Along a last vmas
      else (Ascending sizes a blocks
          × Along (last_end sizes a blocks) (last_end sizes last blocks) vmas)

  module _ {D : Type 0} (fl : Floats D) (loop_index : ℕ) where
    -- The list after the walk, each page looked for from the head.
    abbrev pub touch_walks : (last : ℕ) → List Vma → List (PageRefs D) → List (PageRefs D)
    touch_walks last [] list = list
    touch_walks last (vma ∷ vmas) list =
        let blocks : List Block = answers (walk_start last vma) in
        if ltb vma.end last
        then touch_walks last vmas list
        else touch_walks (last_end sizes last blocks) vmas
            (touch_blocks sizes fl loop_index blocks list)

module _ (sizes : PageSizes) (answers : ℕ → List Block) {D : Type 0} (fl : Floats D)
    (loop_index : ℕ) (calloc : ℕ → Bool) (memory : (n : ℕ) → calloc n ≡ true) (loop_end : ℕ)
    (not_last : (loop_index == loop_end) ≡ false) (sized : Sized sizes) (idle_pages : IdlePages)
    (works : (start size : ℕ) → (idle_pages.buffer size && idle_pages.lseek start) ≡ true)
    (reads : (start size : ℕ) → idle_pages.read start size ≡ some (encode (answers start))) where
  -- Where the walk stands, and in which list.
  abbrev HoldsAt : (last a : ℕ) → List (PageRefs D) → WalkState D → Type 0
  HoldsAt last a list s = (s.last_walk_end ≡ last) × Holds s.walked a list

  take-HoldsAt :
      (blocks : List Block) (s : WalkState D) (last a : ℕ) (list : List (PageRefs D))
      → HoldsAt last a list s
      → Ascending sizes a blocks
      → HoldsAt
          (last_end sizes last blocks)
          (last_end sizes a blocks)
          (touch_blocks sizes fl loop_index blocks list)
          (take_answer fl calloc sizes loop_index loop_end (some (encode blocks)) s)
  unfolding encode take_answer parse_vma_result
  take-HoldsAt [] s last a list at ascending = at
  take-HoldsAt (block ∷ blocks) s last a list at ascending =
      let parsed =
        parse_blocks-IsParsed sizes fl loop_index calloc memory loop_end not_last sized
          (block ∷ blocks) a 0 s.use_rss s.walked list ascending at.1 in
      (ap (λ end. end_or end s.last_walk_end) parsed.0, parsed.1)

  walk_vmas-HoldsAt :
      (start end : ℕ) (s : WalkState D) (last a : ℕ) (list : List (PageRefs D))
      → HoldsAt last a list s
      → Ascending sizes a (answers start)
      → HoldsAt
          (last_end sizes last (answers start))
          (last_end sizes a (answers start))
          (touch_blocks sizes fl loop_index (answers start) list)
          (walk_vmas fl calloc sizes loop_index loop_end idle_pages start end s)
  unfolding walk_vmas
  walk_vmas-HoldsAt start end s last a list at ascending =
      rw (works start (buffer_size sizes start end), reads start (buffer_size sizes start end))
        (take-HoldsAt (answers start) s last a list at ascending)

  -- An area that is not skipped.
  walked-HoldsAt :
      (vma : Vma) (s : WalkState D) (last a : ℕ) (list : List (PageRefs D))
      → ltb vma.end last ≡ false
      → HoldsAt last a list s
      → Ascending sizes a (answers (walk_start last vma))
      → HoldsAt
          (last_end sizes last (answers (walk_start last vma)))
          (last_end sizes a (answers (walk_start last vma)))
          (touch_blocks sizes fl loop_index (answers (walk_start last vma)) list)
          (walk_from fl calloc sizes loop_index loop_end idle_pages vma last s)
  unfolding walk_from
  walked-HoldsAt vma s last a list beyond at ascending =
      rw beyond (walk_vmas-HoldsAt (walk_start last vma) vma.end s last a list at ascending)

  -- The list of a walk that ends at a cursor.
  abbrev EndsIn : List (PageRefs D) → Walked D → Type 0
  EndsIn list w = (a : ℕ) × Holds w a list

  abbrev loop_after : List Vma → WalkState D → WalkState D
  loop_after vmas after =
      if is_cursor after.walked
      then walk_loop fl calloc sizes loop_index loop_end idle_pages vmas after
      else after

  walk_on :
      (vmas : List Vma) (after : WalkState D) (a : ℕ) (list here : List (PageRefs D))
      → Holds after.walked a here
      → EndsIn list (walk_loop fl calloc sizes loop_index loop_end idle_pages vmas after).walked
      → EndsIn list (loop_after vmas after).walked
  walk_on vmas after a list here holds ends = rw (Holds-is_cursor a after.walked here holds) ends

  skipped-EndsIn :
      (vma : Vma) (vmas : List Vma) (s : WalkState D) (last a : ℕ) (here list : List (PageRefs D))
      → ltb vma.end last ≡ true
      → HoldsAt last a here s
      → EndsIn list (walk_loop fl calloc sizes loop_index loop_end idle_pages vmas s).walked
      → EndsIn list
          (loop_after vmas
            (walk_from fl calloc sizes loop_index loop_end idle_pages vma last s)).walked
  unfolding walk_from
  skipped-EndsIn vma vmas s last a here list e at ends = rw e (walk_on vmas s a list here at.1 ends)

  walk_loop-EndsIn :
      (vmas : List Vma) (s : WalkState D) (last a : ℕ) (list : List (PageRefs D))
      → HoldsAt last a list s
      → Along sizes answers a last vmas
      → EndsIn
          (touch_walks sizes answers fl loop_index last vmas list)
          (walk_loop fl calloc sizes loop_index loop_end idle_pages vmas s).walked
  unfolding walk_loop walk_vma
  walk_loop-EndsIn [] s last a list at along = (a, at.1)
  walk_loop-EndsIn (vma ∷ vmas) s last a list at along =
      subst
        (λ (l : ℕ).
          EndsIn (touch_walks sizes answers fl loop_index last (vma ∷ vmas) list)
            (loop_after vmas
              (walk_from fl calloc sizes loop_index loop_end idle_pages vma l s)).walked)
        (sym at.0)
        (elim (Bool-cases (ltb vma.end last)) [
          | inl e ↦ rw e (
              skipped-EndsIn vma vmas s last a list
                (touch_walks sizes answers fl loop_index last vmas list) e at
                (walk_loop-EndsIn vmas s last a list at (rw e at along)))
          | inr e ↦
              let blocks : List Block = answers (walk_start last vma) in
              let after = walk_from fl calloc sizes loop_index loop_end idle_pages vma last s in
              let along' : Ascending sizes a blocks
                  × Along sizes answers (last_end sizes a blocks) (last_end sizes last blocks)
                      vmas =
                rw e at along in
              let there = walked-HoldsAt vma s last a list e at along'.0 in
              rw e (
                walk_on vmas after (last_end sizes a blocks)
                  (touch_walks sizes answers fl loop_index (last_end sizes last blocks) vmas
                    (touch_blocks sizes fl loop_index blocks list))
                  (touch_blocks sizes fl loop_index blocks list) there.1
                  (walk_loop-EndsIn vmas after (last_end sizes last blocks)
                    (last_end sizes a blocks) (touch_blocks sizes fl loop_index blocks list) there
                    along'.1))
        ])

  abbrev begin : List (PageRefs D) → ℕ → WalkState D
  begin page_refs asked = record {
    last_walk_end = 0;
    use_rss = none;
    walked = moved [] page_refs asked;
  }

  rewound : (list : List (PageRefs D)) → rewind [] list ≡ list
  unfolding rewind
  rewound list = refl

  ready :
      (file : ScanFile)
      → file.opens ≡ true
      → file.ioctl ≡ true
      → file.fileno ≡ true
      → (file.opens && ((file.ioctl_parameter == 0 || file.ioctl) && file.fileno)) ≡ true
  ready file opens ioctl fileno = ground arith

  scanned_of-EndsIn :
      (list : List (PageRefs D)) (w : Walked D)
      → EndsIn list w
      → (asked : ℕ) × (scanned_of w ≡ scanned list asked)
  unfolding scanned_of
  scanned_of-EndsIn list (moved passed rest asked) ends =
      (asked, ap (λ page_refs. scanned page_refs asked) ends.1.0)
  scanned_of-EndsIn list (null_pf passed rest asked) ends = absurd ends.1
  scanned_of-EndsIn list fault ends = absurd ends.1

  -- In every round but the last, with the idle_pages file open and taking its request, memory for
  -- buffers and nodes, and sizes where 512 small pages fit into a middle one: if each walk of an
  -- area is answered with blocks that ascend, from one area to the next as well, then
  -- get_page_refs succeeds, and the list is the one that comes from looking for each page from
  -- the head, area after area, each from its start or from where the walk before it ended.
  pub get_page_refs-touches :
      (file : ScanFile) (vmas : List Vma) (page_refs : List (PageRefs D)) (asked : ℕ)
      → file.opens ≡ true
      → file.ioctl ≡ true
      → file.fileno ≡ true
      → Along sizes answers 0 0 vmas
      → (asked' : ℕ) × (get_page_refs fl calloc sizes idle_pages file vmas loop_index loop_end
            page_refs asked
          ≡ scanned (touch_walks sizes answers fl loop_index 0 vmas page_refs) asked')
  unfolding get_page_refs
  get_page_refs-touches file vmas page_refs asked opens ioctl fileno along =
      rw (ready file opens ioctl fileno) (
        scanned_of-EndsIn (touch_walks sizes answers fl loop_index 0 vmas page_refs)
          (walk_loop fl calloc sizes loop_index loop_end idle_pages vmas
            (begin page_refs asked)).walked
          (walk_loop-EndsIn vmas (begin page_refs asked) 0 0 page_refs
            (refl, (rewound page_refs, tt)) along))
