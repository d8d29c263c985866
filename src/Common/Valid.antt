-- ===== src/Common/Valid.antt =====
-- The texts that check_str_valid of etmem/src/etmemd_src/etmemd_common.c lets through.
use Prim.Native.Nat.{zero, suc}
use etmem.Base.{
  leb, sym, ◌∙◌, ℕ, ◌≢◌, ◌≡◌, ◌≤◌, ◌==◌, Bool, true, false, ◌&&◌, List, [], ◌∷◌, some, String,
  length, ltb, ◌||◌, Bool-cases, inl, inr, arith, ==_iff,
}
use Prim.Native.String.len
use text.Mathlib.TextPositions.{len_utf8-pos}
use etmem.Base.Named.{All}
use etmem.Base.Text.{strlen, codes}
use etmem.Common.{
  is_alpha, is_digit, is_valid_char_for_value, check_value_valid, get_valid_conf_str, valid_symbol,
  check_str_valid, check_result_str_valid,
}

suc_inj : {a b : ℕ} → suc a ≡ suc b → a ≡ b
suc_inj h = omega arith

zero_ne_suc : {b : ℕ} → 0 ≢ suc b
zero_ne_suc h = omega arith

-- A character takes at least a byte.
length-codes : (s : String) → length (codes s) ≤ strlen s
length-codes String.[] = omega arith
length-codes (String.◌∷◌ c s) =
    let (k, wide) = len_utf8-pos c in omega (arith, length-codes s, len.cons c s, wide)

get_valid_conf_str-length :
    (valid : List ℕ) (room : ℕ) (str : List ℕ)
    → length (get_valid_conf_str valid room str) ≤ length str
unfolding get_valid_conf_str
get_valid_conf_str-length valid zero str = omega arith
get_valid_conf_str-length valid (suc room) [] = omega arith
get_valid_conf_str-length valid (suc room) (c ∷ str) =
    elim (Bool-cases (check_value_valid valid c)) [
      | inl e ↦ rw e (omega (arith, get_valid_conf_str-length valid room str))
      | inr e ↦ rw e (omega arith)
    ]

-- A text that is kept whole has accepted characters only.
get_valid_conf_str-whole :
    (valid : List ℕ) (room : ℕ) (str : List ℕ)
    → length (get_valid_conf_str valid room str) ≡ length str
    → All (λ c. check_value_valid valid c ≡ true) str
unfolding get_valid_conf_str
get_valid_conf_str-whole valid room [] h = tt
get_valid_conf_str-whole valid zero (c ∷ str) h = absurd (omega (arith, h))
get_valid_conf_str-whole valid (suc room) (c ∷ str) h =
    elim (Bool-cases (check_value_valid valid c)) [
      | inl e ↦ (e, get_valid_conf_str-whole valid room str (suc_inj (rw e at h)))
      | inr e ↦ absurd (zero_ne_suc (rw e at h))
    ]

-- A digit, a letter of A to Z or a to z, or one of % - . / and _, by its code.
abbrev pub is_plain : ℕ → Bool
is_plain c =
    (leb 48 c && leb c 57)
    || (leb 65 c && leb c 90)
    || (leb 97 c && leb c 122)
    || c == 37
    || c == 45
    || c == 46
    || c == 47
    || c == 95

check_value_valid-plain : (c : ℕ) → check_value_valid valid_symbol c ≡ is_plain c
unfolding check_value_valid is_alpha is_digit is_valid_char_for_value
check_value_valid-plain c = ground arith

All-plain :
    (str : List ℕ)
    → All (λ c. check_value_valid valid_symbol c ≡ true) str
    → All (λ c. is_plain c ≡ true) str
All-plain [] all = tt
All-plain (c ∷ str) all = (sym (check_value_valid-plain c) ∙ all.0, All-plain str all.1)

false_ne_true : false ≢ true
false_ne_true h = cc

second : (a b : Bool) → a && b ≡ true → b ≡ true
second true b h = h
second false b h = cc

-- A text that check_str_valid accepts has 1 to 15 bytes, and each of its characters is a letter
-- of A to Z or a to z, a digit or one of . % / _ and -.
pub check_str_valid-plain :
    (str : String)
    → check_str_valid (some str) ≡ true
    → (1 ≤ strlen str) × (strlen str ≤ 15) × All (λ c. is_plain c ≡ true) (codes str)
unfolding check_str_valid check_result_str_valid
check_str_valid-plain str h = elim (Bool-cases (strlen str == 0 || ltb 15 (strlen str))) [
  | inl e ↦ absurd (false_ne_true (rw e at h))
  | inr e ↦
      let h' = rw e at h in
      let kept = get_valid_conf_str valid_symbol 63 (codes str) in
      let same =
        (==_iff (length kept) (strlen str)).0 (second (check_result_str_valid kept) _ h') in
      let longest = get_valid_conf_str-length valid_symbol 63 (codes str) in
      let short = length-codes str in
      (
        ground arith,
        ground arith,
        All-plain (codes str) (
            get_valid_conf_str-whole valid_symbol 63 (codes str)
              (omega (arith, same, longest, short))),
      )
]
