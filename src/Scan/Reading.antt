-- ===== src/Scan/Reading.antt =====
-- etmem/src/etmemd_src/etmemd_scan.c: parse_vma_result on an answer that is made of blocks, next to the
-- reference that looks for each page from the head of the list.
use etmem.Base.{
  ℕ, Bool, true, false, List, [], ◌∷◌, ◌≡◌, refl, ap, ◌==◌, ◌^◌, ◌<◌, ◌≤◌, arith, inl, inr, ◌⊎◌,
  Option, ◌∙◌, some, subst, sym,
}
use etmem.Scan.{PageSizes}
use etmem.Scan.Refs.{Floats, PageRefs, Walked, moved, null_pf, fault, record_parse_result}
use etmem.Scan.Bytes.{
  Handling, recorded, passed_over, handling, Parse, Parsed, handle, parse_byte, parse_loop,
  after_pages, add_rss, get_process_use_rss, parse_vma_result,
}
use etmem.Scan.Addresses.{state, parse_byte-item, parse_loop-inr, parse_loop-start}
use etmem.Scan.Walks.{rewind}
use etmem.Scan.Touched.{Below, Holds, Holds-mono}
use etmem.Scan.Recorded.{touch_run, record_parse_result-Holds}
use etmem.Scan.Answer.{
  touch_handling, touch_items, touch_blocks, Item, Block, IsItem, kind_of, item_byte, encode_items,
  encode, next_of, end_of, end_of-le, AllItems, Fits, Sized, Ascending, last_end, handling-Fits,
}

-- The end that is stored, and the list that the cursor stands in.
abbrev pub IsParsed : {D : Type 0} → ℕ → ℕ → List (PageRefs D) → Parsed D → Type 0
IsParsed end a list r = (r.end ≡ some end) × Holds r.walked a list

module _ (sizes : PageSizes) {D : Type 0} (fl : Floats D) (loop_index : ℕ) (calloc : ℕ → Bool)
    (memory : (n : ℕ) → calloc n ≡ true) (loop_end : ℕ)
    (not_last : (loop_index == loop_end) ≡ false) where
  abbrev Goes : Parsed D ⊎ Parse D → ℕ → List (PageRefs D) → Type 0
  Goes (inl stop) addr list = ⊥
  Goes (inr s) addr list =
      (use_rss : Option ℕ) × (w : Walked D) × (s ≡ state addr use_rss w) × Holds w addr list

  after_pages-Goes :
      (next : ℕ) (use_rss : Option ℕ) (w : Walked D) (list : List (PageRefs D))
      → Holds w next list
      → Goes (after_pages fl calloc sizes loop_index loop_end next use_rss w) next list
  unfolding after_pages
  after_pages-Goes next use_rss (moved passed rest asked) list holds =
      (use_rss, moved passed rest asked, refl, holds)
  after_pages-Goes next use_rss (null_pf passed rest asked) list holds = absurd holds
  after_pages-Goes next use_rss fault list holds = absurd holds

  handle-Goes :
      (address next a : ℕ) (use_rss : Option ℕ) (w : Walked D) (h : Handling)
      (list : List (PageRefs D))
      → Holds w a list
      → a ≤ address
      → Fits sizes address next h
      → next < 2 ^ 64
      → Goes
          (handle fl calloc sizes loop_index loop_end address next use_rss w h)
          next
          (touch_handling sizes fl loop_index address h list)
  unfolding handle
  handle-Goes address next a use_rss w (recorded idle_type nr) list holds le fits bound =
      let pages = record_parse_result fl calloc sizes loop_index loop_end address idle_type nr w in
      let list' = touch_run fl sizes loop_index address nr idle_type list in
      after_pages-Goes next use_rss pages list' (
        Holds-mono pages list' fits.1 (
          record_parse_result-Holds fl sizes loop_index calloc memory loop_end not_last address a nr
            idle_type w list holds le fits.0 (omega arith)))
  handle-Goes address next a use_rss w passed_over list holds le fits bound =
      (use_rss, w, refl, Holds-mono w list (omega arith) holds)

  parse_item-Goes :
      Sized sizes
      → (item : Item) (bytes : List ℕ) (addr : ℕ) (use_rss : Option ℕ) (w : Walked D)
        (list : List (PageRefs D))
      → IsItem item
      → 1 ≤ addr
      → next_of sizes addr item < 2 ^ 64
      → Holds w addr list
      → Goes
          (parse_byte fl calloc sizes loop_index loop_end
            (item_byte item)
            bytes
            (state addr use_rss w))
          (next_of sizes addr item)
          (touch_handling sizes fl loop_index addr (handling (kind_of item) item.nr) list)
  parse_item-Goes sized item bytes addr use_rss w list valid low bound holds =
      subst
        (λ (r : Parsed D ⊎ Parse D).
          Goes r (next_of sizes addr item)
            (touch_handling sizes fl loop_index addr (handling (kind_of item) item.nr) list))
        (sym (
          parse_byte-item sizes fl loop_index calloc loop_end item bytes addr use_rss w valid low
            bound))
        (handle-Goes addr (next_of sizes addr item) addr
          (add_rss use_rss (get_process_use_rss item.nr (kind_of item))) w
          (handling (kind_of item) item.nr) list holds (omega arith)
          (handling-Fits sizes sized addr item.nr (kind_of item)) bound)

  after_byte :
      (byte : ℕ) (bytes : List ℕ) (s : Parse D) (next : ℕ) (list : List (PageRefs D))
      (r : Parsed D ⊎ Parse D)
      → parse_byte fl calloc sizes loop_index loop_end byte bytes s ≡ r
      → Goes r next list
      → (use_rss : Option ℕ) × (w : Walked D) × (parse_loop fl calloc sizes loop_index loop_end
            (byte ∷ bytes)
            s
          ≡ parse_loop fl calloc sizes loop_index loop_end bytes (state next use_rss w))
        × Holds w next list
  after_byte byte bytes s next list (inl stop) e goes = absurd goes
  after_byte byte bytes s next list (inr s') e goes = (
    goes.0,
    goes.1,
    parse_loop-inr sizes fl loop_index calloc loop_end byte bytes s s' e
        ∙ ap (parse_loop fl calloc sizes loop_index loop_end bytes) goes.2,
    goes.3,
  )

  parse_loop-next :
      (byte : ℕ) (bytes : List ℕ) (s : Parse D) (next : ℕ) (list : List (PageRefs D))
      → Goes (parse_byte fl calloc sizes loop_index loop_end byte bytes s) next list
      → (use_rss : Option ℕ) × (w : Walked D) × (parse_loop fl calloc sizes loop_index loop_end
            (byte ∷ bytes)
            s
          ≡ parse_loop fl calloc sizes loop_index loop_end bytes (state next use_rss w))
        × Holds w next list
  parse_loop-next byte bytes s next list goes =
      after_byte byte bytes s next list
        (parse_byte fl calloc sizes loop_index loop_end byte bytes s) refl goes

  -- The loop over the items of a block comes to the bytes behind them.
  parse_items-Goes :
      Sized sizes
      → (items : List Item) (more : List ℕ) (addr : ℕ) (use_rss : Option ℕ) (w : Walked D)
        (list : List (PageRefs D))
      → AllItems sizes items
      → 1 ≤ addr
      → end_of sizes addr items < 2 ^ 64
      → Holds w addr list
      → (use_rss' : Option ℕ) × (w' : Walked D) × (parse_loop fl calloc sizes loop_index loop_end
            (encode_items items more)
            (state addr use_rss w)
          ≡ parse_loop fl calloc sizes loop_index loop_end more
              (state (end_of sizes addr items) use_rss' w'))
        × Holds w' (end_of sizes addr items) (touch_items sizes fl loop_index addr items list)
  unfolding encode_items
  parse_items-Goes sized [] more addr use_rss w list valid low bound holds =
      (use_rss, w, refl, holds)
  parse_items-Goes sized (item ∷ items) more addr use_rss w list valid low bound holds =
      let next = next_of sizes addr item in
      let behind = end_of-le sizes next items in
      let goes =
        parse_item-Goes sized item (encode_items items more) addr use_rss w list valid.0 low
          (omega (arith, behind)) holds in
      let step =
        parse_loop-next (item_byte item) (encode_items items more) (state addr use_rss w) next
          (touch_handling sizes fl loop_index addr (handling (kind_of item) item.nr) list) goes in
      let rest =
        parse_items-Goes sized items more next step.0 step.1
          (touch_handling sizes fl loop_index addr (handling (kind_of item) item.nr) list) valid.1
          (omega arith) bound step.3 in
      (rest.0, rest.1, step.2 ∙ rest.2, rest.3)

  pub parse_blocks-IsParsed :
      Sized sizes
      → (blocks : List Block) (a address : ℕ) (use_rss : Option ℕ) (w : Walked D)
        (list : List (PageRefs D))
      → Ascending sizes a blocks
      → Holds w a list
      → IsParsed
          (last_end sizes address blocks)
          (last_end sizes a blocks)
          (touch_blocks sizes fl loop_index blocks list)
          (parse_loop fl calloc sizes loop_index loop_end (encode blocks) (state address use_rss w))
  unfolding encode parse_loop
  parse_blocks-IsParsed sized [] a address use_rss w list ascending holds = (refl, holds)
  parse_blocks-IsParsed sized (block ∷ blocks) a address use_rss w list ascending holds =
      let end = end_of sizes block.start block.items in
      let items =
        parse_items-Goes sized block.items (encode blocks) block.start use_rss w list ascending.2
          ascending.1 ascending.3 (Holds-mono w list ascending.0 holds) in
      let start =
        parse_loop-start sizes fl loop_index calloc loop_end block.start
          (encode_items block.items (encode blocks)) address use_rss w in
      subst
        (IsParsed (last_end sizes end blocks) (last_end sizes end blocks) (
          touch_blocks sizes fl loop_index blocks
            (touch_items sizes fl loop_index block.start block.items list)))
        (sym (start ∙ items.2))
        (parse_blocks-IsParsed sized blocks end end items.0 items.1
          (touch_items sizes fl loop_index block.start block.items list) ascending.4 items.3)

  -- In every round but the last, with memory for nodes and sizes where 512 small pages fit into a
  -- middle one, an answer of the kernel that is made of ascending blocks is recorded by the
  -- moving cursor exactly as if each page were looked for from the head of the list, provided the
  -- nodes behind the cursor are below the first block; the end that is stored is where the last
  -- block ends, or 0 if there is none.
  pub parse_vma_result-IsParsed :
      Sized sizes
      → (blocks : List Block) (a : ℕ) (passed rest : List (PageRefs D)) (asked : ℕ)
        (use_rss : Option ℕ)
      → Ascending sizes a blocks
      → Below a passed
      → IsParsed
          (last_end sizes 0 blocks)
          (last_end sizes a blocks)
          (touch_blocks sizes fl loop_index blocks (rewind passed rest))
          (parse_vma_result fl calloc sizes loop_index loop_end
            (encode blocks)
            use_rss
            (moved passed rest asked))
  unfolding parse_vma_result
  parse_vma_result-IsParsed sized blocks a passed rest asked use_rss ascending below =
      parse_blocks-IsParsed sized blocks a 0 use_rss (moved passed rest asked) (rewind passed rest)
        ascending (refl, below)
