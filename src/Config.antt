-- ===== src/Config.antt =====
-- etmem/src/etmemd_src/etmemd_file.c and etmemd_inc/etmemd_file.h: reading a group of a
-- configuration file into a structure. The key file itself is glib's, and is a parameter.
pub mod Keeps
use etmem.Base.{
  ℕ, ◌-◌, ◌%◌, ◌^◌, Bool, List, [], ◌∷◌, Option, none, some, ltb, ◌==◌, if◌then◌else◌, String,
}
use etmem.Base.Int.{ℤ, pos, negsuc}
use etmem.Base.Options.{◌>>=◌}
use etmem.Base.Text.{strlen}

-- What the code asks glib's GKeyFile, by group and key. `none` is an error of the typed getter.
pub record KeyFile : Type 0 where
  pub has_key : String → String → Bool
  pub get_int64 : String → String → Option ℤ
  pub get_string : String → String → Option String

-- The low 32 bits of an int64_t.
unfoldable pub low_32 : ℤ → ℕ
low_32 (pos n) = n % 2 ^ 32
low_32 (negsuc n) = 2 ^ 32 - 1 - n % 2 ^ 32

-- (int)(long long)val
unfoldable pub parse_to_int : ℤ → ℤ
unfolding low_32
parse_to_int z = if ltb (low_32 z) (2 ^ 31) then pos (low_32 z) else negsuc (2 ^ 32 - 1 - low_32 z)

-- (unsigned long)(long long)val
unfoldable pub parse_to_ulong : ℤ → ℕ
parse_to_ulong (pos n) = n % 2 ^ 64
parse_to_ulong (negsuc n) = 2 ^ 64 - 1 - n % 2 ^ 64

-- A fill function changes the object or fails; its constructor is the item's val_type.
pub data Fill {ℓ} (O : Type ℓ) : Type ℓ where
  int_val : (O → ℤ → Option O) → Fill O
  str_val : (O → String → Option O) → Fill O

pub record ConfigItem {ℓ} (O : Type ℓ) : Type ℓ where
  pub key : String
  pub fill : Fill O
  pub option : Bool

module _ {ℓ} {O : Type ℓ} (config : KeyFile) (group : String) where
  unfoldable pub fill_item : Fill O → String → O → Option O
  fill_item (int_val fill) key obj = do val ← config.get_int64 group key; fill obj val
  fill_item (str_val fill) key obj = do
    val ← config.get_string group key
    if strlen val == 0 then none else fill obj val

  unfoldable pub parse_item : ConfigItem O → O → Option O
  parse_item item obj =
      if config.has_key group item.key
      then fill_item item.fill item.key obj
      else if item.option
      then some obj
      else none

  unfoldable pub parse_file_config : List (ConfigItem O) → O → Option O
  parse_file_config [] obj = some obj
  parse_file_config (item ∷ items) obj = do next ← parse_item item obj; parse_file_config items next
