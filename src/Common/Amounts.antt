-- ===== src/Common/Amounts.antt =====
-- etmem/src/etmemd_src/etmemd_common.c: an amount of memory in a configuration file
-- (get_swap_threshold_inKB).
use etmem.Base.{
  ℕ, Bool, List, [], ◌∷◌, Option, none, some, ltb, leb, ◌==◌, ◌+◌, ◌-◌, ◌*◌, ◌%◌, ◌^◌, ◌||◌, ◌&&◌,
  if◌then◌else◌, String,
}
use etmem.Base.Text.{strlen, codes}

-- SWAP_THRESHOLD_MAX_LEN
abbrev pub swap_threshold_max_len : ℕ
swap_threshold_max_len = 10

abbrev pub is_digit : ℕ → Bool
is_digit c = leb 48 c && leb c 57

-- 'g' or 'G'
abbrev pub is_gb : ℕ → Bool
is_gb c = c == 103 || c == 71

-- The characters: digits, whose value strtoul gives, and then the unit.
unfoldable pub read_gb : (value : ℕ) → List ℕ → Option ℕ
read_gb value [] = none
read_gb value (c ∷ []) = if is_gb c then some value else none
read_gb value (c ∷ d ∷ cs) =
    let more = read_gb (value * 10 + (c - 48)) (d ∷ cs) in if is_digit c then more else none

-- GB_TO_KB of an unsigned long.
abbrev pub gb_to_kb : Option ℕ → Option ℕ
gb_to_kb none = none
gb_to_kb (some gb) = some (gb * 2 ^ 20 % 2 ^ 64)

-- none where it returns -1.
unfoldable pub get_swap_threshold_in_kb : (calloc : Bool) → String → Option ℕ
get_swap_threshold_in_kb calloc string =
    if strlen string == 0 || ltb swap_threshold_max_len (strlen string)
    then none
    else if calloc
    then gb_to_kb (read_gb 0 (codes string))
    else none
