-- ===== src/Config/Keeps.antt =====
-- Invariants of an object through the items of its configuration group.
use etmem.Base.{◌≡◌, refl, ap, ◌∙◌, subst, List, [], ◌∷◌, ◌++◌, some, arith, String}
use etmem.Base.Int.{ℤ}
use etmem.Base.Options.{◌>>=◌, >>=-eq-some, some_inj}
use etmem.Base.Named.{All}
use etmem.Config.{
  KeyFile, ConfigItem, Fill, int_val, str_val, fill_item, parse_item, parse_file_config,
}

module _ {O : Type 0} (P : O → Type 0) where
  abbrev pub Keeps : Fill O → Type 0
  Keeps (int_val fill) = (o : O) (v : ℤ) (o' : O) → P o → fill o v ≡ some o' → P o'
  Keeps (str_val fill) = (o : O) (v : String) (o' : O) → P o → fill o v ≡ some o' → P o'

  fill_item-keeps :
      (config : KeyFile) (group key : String) (fill : Fill O) (o o' : O)
      → Keeps fill
      → P o
      → fill_item config group fill key o ≡ some o'
      → P o'
  unfolding fill_item
  fill_item-keeps config group key (int_val fill) o o' k p h =
      let (v, _, e) = >>=-eq-some (config.get_int64 group key) _ h in k o v o' p e
  fill_item-keeps config group key (str_val fill) o o' k p h =
      let (v, _, e) = >>=-eq-some (config.get_string group key) _ h in k o v o' p (ground arith)

  parse_item-keeps :
      (config : KeyFile) (group : String) (item : ConfigItem O) (o o' : O)
      → Keeps item.fill
      → P o
      → parse_item config group item o ≡ some o'
      → P o'
  unfolding parse_item
  parse_item-keeps config group item o o' k p h =
      ground (arith, fill_item-keeps config group item.key item.fill o o' k p)

  -- What every fill function keeps, the whole group keeps.
  pub parse_file_config-keeps :
      (config : KeyFile) (group : String) (items : List (ConfigItem O)) (o o' : O)
      → All (λ item. Keeps item.fill) items
      → P o
      → parse_file_config config group items o ≡ some o'
      → P o'
  unfolding parse_file_config
  parse_file_config-keeps config group [] o o' k p h = subst P (some_inj h) p
  parse_file_config-keeps config group (item ∷ items) o o' k p h =
      let (mid, first, rest) = >>=-eq-some (parse_item config group item o) _ h in
      parse_file_config-keeps config group items mid o' k.1
        (parse_item-keeps config group item o mid k.0 p first) rest

-- A group read in two parts.
pub parse_file_config-append :
    {O : Type 0} (config : KeyFile) (group : String) (items more : List (ConfigItem O)) (o o' : O)
    → parse_file_config config group (items ++ more) o ≡ some o'
    → (mid : O) × (parse_file_config config group items o ≡ some mid)
      × (parse_file_config config group more mid ≡ some o')
unfolding parse_file_config
parse_file_config-append config group [] more o o' h = (o, refl, h)
parse_file_config-append config group (item ∷ items) more o o' h =
    let (next, first, rest) = >>=-eq-some (parse_item config group item o) _ h in
    let (mid, early, late) = parse_file_config-append config group items more next o' rest in
    (mid, ap (λ r. r >>= λ t. parse_file_config config group items t) first ∙ early, late)
