-- ===== src/Scan/Addresses.antt =====
-- etmem/src/etmemd_src/etmemd_scan.c: what parse_vma_result does with an address and with a byte of pages.
use etmem.Base.{
  ℕ, Bool, List, ◌∷◌, ◌++◌, ◌≡◌, refl, ap, ◌^◌, ◌<◌, ◌≤◌, arith, inl, inr, Option, ◌∙◌,
}
use etmem.Scan.{PageSizes}
use etmem.Scan.Sizes.{bytes_of, get_address-bytes_of}
use etmem.Scan.Refs.{Floats, Walked}
use etmem.Scan.Bytes.{
  handling, Parse, handle, parse_page, parse_byte, parse_loop, add_rss, get_process_use_rss,
  set_address,
}
use etmem.Scan.Recorded.{mod_small}
use etmem.Scan.Answer.{
  Item, IsItem, kind_of, item_byte, nr-item_byte, type-item_byte, eq-ne, byte-ne, next_of,
}

-- Between two bytes.
abbrev pub state : {D : Type 0} → ℕ → Option ℕ → Walked D → Parse D
state address use_rss w = record { skip = 0; address = address; use_rss = use_rss; walked = w }

module _ (sizes : PageSizes) {D : Type 0} (fl : Floats D) (loop_index : ℕ) (calloc : ℕ → Bool)
    (loop_end : ℕ) where
  -- A byte with pages is handled by its kind.
  pub parse_byte-item :
      (item : Item) (bytes : List ℕ) (addr : ℕ) (use_rss : Option ℕ) (w : Walked D)
      → IsItem item
      → 1 ≤ addr
      → next_of sizes addr item < 2 ^ 64
      → parse_byte fl calloc sizes loop_index loop_end (item_byte item) bytes (state addr use_rss w)
        ≡ handle fl calloc sizes loop_index loop_end addr
            (next_of sizes addr item)
            (add_rss use_rss (get_process_use_rss item.nr (kind_of item)))
            w
            (handling (kind_of item) item.nr)
  unfolding parse_byte parse_page
  parse_byte-item item bytes addr use_rss w valid low bound =
      rw
        (
          eq-ne (item_byte item) 160 (byte-ne item valid),
          eq-ne addr 0 (omega arith),
          nr-item_byte item valid,
          type-item_byte item valid,
          mod_small (next_of sizes addr item) bound,
        )
        refl

  pub parse_loop-inr :
      (byte : ℕ) (bytes : List ℕ) (s s' : Parse D)
      → parse_byte fl calloc sizes loop_index loop_end byte bytes s ≡ inr s'
      → parse_loop fl calloc sizes loop_index loop_end (byte ∷ bytes) s
        ≡ parse_loop fl calloc sizes loop_index loop_end bytes s'
  unfolding parse_loop
  parse_loop-inr byte bytes s s' e =
      ap
        (λ r. elim r [
          | inl stop ↦ stop
          | inr more ↦ parse_loop fl calloc sizes loop_index loop_end bytes more
        ])
        e

  parse_byte-start :
      (start : ℕ) (more : List ℕ) (address : ℕ) (use_rss : Option ℕ) (w : Walked D)
      → parse_byte fl calloc sizes loop_index loop_end 160
          (bytes_of start ++ more)
          (state address use_rss w)
        ≡ inr (record (state start use_rss w) { skip = 8 })
  unfolding parse_byte set_address
  parse_byte-start start more address use_rss w =
      ap (λ found. set_address fl calloc sizes loop_index loop_end found (state address use_rss w))
        (get_address-bytes_of start more)

  parse_loop-skip :
      (start : ℕ) (more : List ℕ) (use_rss : Option ℕ) (w : Walked D)
      → parse_loop fl calloc sizes loop_index loop_end
          (bytes_of start ++ more)
          (record (state start use_rss w) { skip = 8 })
        ≡ parse_loop fl calloc sizes loop_index loop_end more (state start use_rss w)
  unfolding parse_loop parse_byte
  parse_loop-skip start more use_rss w = refl

  -- The eight bytes of an address are read and skipped.
  pub parse_loop-start :
      (start : ℕ) (more : List ℕ) (address : ℕ) (use_rss : Option ℕ) (w : Walked D)
      → parse_loop fl calloc sizes loop_index loop_end
          (160 ∷ (bytes_of start ++ more))
          (state address use_rss w)
        ≡ parse_loop fl calloc sizes loop_index loop_end more (state start use_rss w)
  parse_loop-start start more address use_rss w =
      parse_loop-inr 160 (bytes_of start ++ more) (state address use_rss w)
        (record (state start use_rss w) { skip = 8 })
        (parse_byte-start start more address use_rss w)
      ∙ parse_loop-skip start more use_rss w
