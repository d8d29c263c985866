-- ===== src/Scan/Bytes.antt =====
-- etmem/src/etmemd_src/etmemd_scan.c: reading the bytes that the kernel gives for an area of memory
-- (parse_vma_result, get_process_use_rss).
use etmem.Base.{
  ℕ, Bool, List, [], ◌∷◌, Option, none, some, ltb, ◌==◌, ◌+◌, ◌-◌, ◌*◌, ◌%◌, ◌^◌, ◌⊎◌, inl, inr,
  if◌then◌else◌,
}
use etmem.Scan.{
  PageIdleType, pte_hole, pmd_hole, pip_cmd, beyond, pte_idle, pmd_idle_ptes, PageSizes,
  page_type_by_idle_kind, page_type_to_size, get_page_nr_from_buf, get_page_type_from_buf,
  get_address_from_buf, pip_cmd_set_hva,
}
use etmem.Scan.Refs.{Floats, Walked, moved, null_pf, is_idle, record_parse_result}

-- PMD_IDLE_PTES_PARAMETER
abbrev pub pmd_idle_ptes_parameter : ℕ
pmd_idle_ptes_parameter = 512

-- EPT_IDLE_BUF_MIN
abbrev pub ept_idle_buf_min : ℕ
ept_idle_buf_min = (8 + 2) * 2

unfoldable pub get_process_use_rss : ℕ → PageIdleType → ℕ
get_process_use_rss nr idle_type = if is_idle idle_type then 0 else nr

-- How a byte is handled: recorded as pages of a kind, or passed over (`type > PMD_IDLE_PTES`).
pub data Handling : Type 0 where
  recorded : PageIdleType → (nr : ℕ) → Handling
  passed_over : Handling

unfoldable pub handling : PageIdleType → ℕ → Handling
handling pmd_idle_ptes nr = recorded pte_idle (nr * pmd_idle_ptes_parameter)
handling pte_hole nr = passed_over
handling pmd_hole nr = passed_over
handling pip_cmd nr = passed_over
handling beyond nr = passed_over
handling idle_type nr = recorded idle_type nr

-- The loop of parse_vma_result between two bytes: `skip` bytes are the rest of an address.
pub record Parse (D : Type 0) : Type 0 where
  pub skip : ℕ
  pub address : ℕ
  pub use_rss : Option ℕ
  pub walked : Walked D

-- `end`: what is stored for the caller, none where nothing is.
pub record Parsed (D : Type 0) : Type 0 where
  pub end : Option ℕ
  pub use_rss : Option ℕ
  pub walked : Walked D

abbrev pub to_null : {D : Type 0} → Walked D → Walked D
to_null (moved passed rest asked) = null_pf passed rest asked
to_null stopped = stopped

abbrev pub add_rss : Option ℕ → ℕ → Option ℕ
add_rss none n = none
add_rss (some rss) n = some ((rss + n) % 2 ^ 64)

module _ {D : Type 0} (fl : Floats D) (calloc : ℕ → Bool) (sizes : PageSizes)
    (loop_index loop_end : ℕ) where
  -- After the pages of a byte: NULL ends the loop, else the address moves on.
  unfoldable pub after_pages : ℕ → Option ℕ → Walked D → Parsed D ⊎ Parse D
  after_pages address use_rss (moved passed rest asked) =
      inr (record {
        skip = 0;
        address = address;
        use_rss = use_rss;
        walked = moved passed rest asked;
      })
  after_pages address use_rss stopped =
      inl (record { end = none; use_rss = use_rss; walked = stopped })

  unfoldable pub handle : (address next : ℕ) → Option ℕ → Walked D → Handling → Parsed D ⊎ Parse D
  unfolding after_pages
  handle address next use_rss walked (recorded idle_type nr) =
      after_pages next use_rss
        (record_parse_result fl calloc sizes loop_index loop_end address idle_type nr walked)
  handle address next use_rss walked passed_over =
      inr (record { skip = 0; address = next; use_rss = use_rss; walked = walked })

  unfoldable pub parse_page : ℕ → Parse D → Parsed D ⊎ Parse D
  unfolding handle handling get_process_use_rss
  parse_page byte s =
      let nr = get_page_nr_from_buf byte in
      let idle_type = get_page_type_from_buf byte in
      let next =
        (s.address + nr * page_type_to_size sizes (page_type_by_idle_kind idle_type)) % 2 ^ 64 in
      handle s.address next (add_rss s.use_rss (get_process_use_rss nr idle_type)) s.walked
        (handling idle_type nr)

  -- PIP_CMD_SET_HVA: fewer than eight bytes behind it end the loop.
  unfoldable pub set_address : Option ℕ → Parse D → Parsed D ⊎ Parse D
  set_address none s = inl (record { end = some s.address; use_rss = s.use_rss; walked = s.walked })
  set_address (some address) s = inr (record s { skip = 8; address = address })

  unfoldable pub parse_byte : ℕ → List ℕ → Parse D → Parsed D ⊎ Parse D
  unfolding parse_page set_address
  parse_byte byte bytes s =
      if ltb 0 s.skip
      then inr (record s { skip = s.skip - 1 })
      else if byte == pip_cmd_set_hva
      then set_address (get_address_from_buf bytes) s
      else if s.address == 0
      then inl (record { end = none; use_rss = s.use_rss; walked = to_null s.walked })
      else parse_page byte s

  unfoldable pub parse_loop : List ℕ → Parse D → Parsed D
  parse_loop [] s = record { end = some s.address; use_rss = s.use_rss; walked = s.walked }
  parse_loop (byte ∷ bytes) s = elim (parse_byte byte bytes s) [
    | inl stop ↦ stop
    | inr more ↦ parse_loop bytes more
  ]

  unfoldable pub parse_vma_result : List ℕ → Option ℕ → Walked D → Parsed D
  unfolding parse_loop
  parse_vma_result buf use_rss pf =
      parse_loop buf (record { skip = 0; address = 0; use_rss = use_rss; walked = pf })
