-- ===== src/Common.antt =====
-- etmem/src/etmemd_src/etmemd_common.c: checks on texts and on files.
pub mod Amounts
pub mod Valid
use etmem.Base.{
  ℕ, zero, suc, ◌-◌, ◌%◌, Bool, true, false, ◌&&◌, ◌||◌, List, [], ◌∷◌, Option, none, some, ltb,
  leb, ◌==◌, if◌then◌else◌, length, String,
}
use etmem.Base.Text.{strlen, codes}

-- isdigit and isalpha of the C locale.
unfoldable pub is_digit : ℕ → Bool
is_digit c = leb b'0' c && leb c b'9'

unfoldable pub is_alpha : ℕ → Bool
is_alpha c = (leb b'a' c && leb c b'z') || (leb b'A' c && leb c b'Z')

-- strchr(valid, c) != NULL, for a character that is not the terminator.
unfoldable pub is_valid_char_for_value : List ℕ → ℕ → Bool
is_valid_char_for_value [] c = false
is_valid_char_for_value (v ∷ valid) c = c == v || is_valid_char_for_value valid c

unfoldable pub check_value_valid : List ℕ → ℕ → Bool
check_value_valid valid c = is_alpha c || is_digit c || is_valid_char_for_value valid c

abbrev pub key_value_max_len : ℕ
key_value_max_len = 64

abbrev pub name_str_max_len : ℕ
name_str_max_len = 15

-- The longest prefix of accepted characters that fits the `room` left in the buffer.
unfoldable pub get_valid_conf_str : List ℕ → (room : ℕ) → List ℕ → List ℕ
get_valid_conf_str valid zero str = []
get_valid_conf_str valid (suc room) [] = []
get_valid_conf_str valid (suc room) (c ∷ str) =
    if check_value_valid valid c then c ∷ get_valid_conf_str valid room str else []

abbrev pub valid_symbol : List ℕ
valid_symbol = codes ".%/_-"

unfoldable pub check_result_str_valid : List ℕ → Bool
check_result_str_valid [] = false
check_result_str_valid (_ ∷ _) = true

-- `true` is the return value 0; `none` is a NULL argument.
unfoldable pub check_str_valid : Option String → Bool
unfolding check_result_str_valid
check_str_valid none = false
check_str_valid (some str) =
    if strlen str == 0 || ltb name_str_max_len (strlen str)
    then false
    else let val = get_valid_conf_str valid_symbol (key_value_max_len - 1) (codes str) in
      check_result_str_valid val && length val == strlen str

-- What access(2) and stat(2) tell of a path that exists.
pub record Stat : Type 0 where
  pub stat_fails : Bool
  pub is_dir : Bool
  pub uid : ℕ
  pub gid : ℕ
  pub mode : ℕ
  pub size : ℕ

-- S_IRWX_VALID is 0777, so the mask keeps the low nine bits.
abbrev pub s_irwx_valid : ℕ
s_irwx_valid = 512

unfoldable pub owned_by_root : Stat → Bool
owned_by_root buf = buf.uid == 0 && buf.gid == 0

-- `true` is the return value 0; `files` answers access(2) and stat(2).
unfoldable pub file_permission_check : (String → Option Stat) → String → ℕ → Bool
unfolding owned_by_root
file_permission_check files path mode =
    if mode % s_irwx_valid == 0 then false else elim (files path) [
      | none ↦ false
      | some buf ↦
          if buf.stat_fails
          then false
          else if buf.is_dir
          then false
          else if owned_by_root buf
          then buf.mode % s_irwx_valid == mode
          else false
    ]
