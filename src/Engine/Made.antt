-- ===== src/Engine/Made.antt =====
-- What etmemd_engine_add makes of a configuration group.
use etmem.Base.{◌≡◌, refl, sym, subst, ◌⊎◌, inr, Bool, false, some, arith, [], String}
use etmem.Base.Options.{>>=-eq-some, guard}
use etmem.Base.Text.{str_eq, str_eq→eq}
use etmem.Config.{KeyFile, parse_item, fill_item, parse_file_config}
use etmem.Engine.{
  Engine, eng_group, EngineType, slide_engine, cslide_engine, memdcd_engine, damon_engine,
  thirdparty_engine, Symbol, fill_eng_func, Linker, etmemd_engine_add, find_engine_add_item,
  fill_engine_type_thirdparty, Filled, engine_with_ops, found,
}

-- The name that an engine of the group goes by: a thirdparty engine's stands under "eng_name".
abbrev pub EngineNamed : KeyFile → String → Type 0
EngineNamed config name =
    ((config.get_string eng_group "name" ≡ some name) × (str_eq name "thirdparty" ≡ false))
    ⊎ ((config.get_string eng_group "name" ≡ some "thirdparty")
        × (config.get_string eng_group "eng_name" ≡ some name))

table_name : EngineType → String
table_name slide_engine = "slide"
table_name cslide_engine = "cslide"
table_name memdcd_engine = "memdcd"
table_name damon_engine = "damon"
table_name thirdparty_engine = "thirdparty"

thirdparty-eng_name :
    (linker : Linker) (config : KeyFile) (f : Filled)
    → fill_engine_type_thirdparty linker config ≡ some f
    → config.get_string eng_group "eng_name" ≡ some f.eng_name
unfolding fill_engine_type_thirdparty parse_file_config parse_item fill_item
thirdparty-eng_name linker config f h = ground arith

-- The name in the table is the one that the fill function sets, but for a thirdparty engine.
abbrev Fills : KeyFile → String → Filled → Type 0
Fills config name f =
    ((name ≡ f.eng_name) × (str_eq name "thirdparty" ≡ false))
    ⊎ ((name ≡ "thirdparty") × (config.get_string eng_group "eng_name" ≡ some f.eng_name))

find_engine_add_item-name :
    (name : String) (type : EngineType)
    → find_engine_add_item name ≡ some type
    → name ≡ table_name type
unfolding find_engine_add_item table_name
find_engine_add_item-name name type h = ground (
  arith,
  str_eq→eq name "slide",
  str_eq→eq name "cslide",
  str_eq→eq name "memdcd",
  str_eq→eq name "damon",
  str_eq→eq name "thirdparty",
)

fill_eng_func-Fills :
    (linker : Linker) (config : KeyFile) (type : EngineType) (f : Filled)
    → fill_eng_func linker config type ≡ some f
    → Fills config (table_name type) f
unfolding fill_eng_func table_name
fill_eng_func-Fills linker config slide_engine f h = ground arith
fill_eng_func-Fills linker config thirdparty_engine f h =
    inr (refl, thirdparty-eng_name linker config f h)
fill_eng_func-Fills linker config _ f h = ground arith

engine_with_ops-made :
    (f : Filled) (ops : Symbol) (eng : Engine)
    → engine_with_ops f ops ≡ some eng
    → (eng.name ≡ f.eng_name) × (eng.tasks ≡ [])
unfolding engine_with_ops
engine_with_ops-made f (found ops) eng h = ground arith
engine_with_ops-made f _ eng h = cc

-- An engine that etmemd_engine_add makes has the name that its configuration group gives (under
-- "name", or under "eng_name" for a thirdparty engine), and no tasks.
pub etmemd_engine_add-EngineNamed :
    (alloc : Bool) (linker : Linker) (config : KeyFile) (eng : Engine)
    → etmemd_engine_add alloc linker config ≡ some eng
    → EngineNamed config eng.name × (eng.tasks ≡ [])
unfolding etmemd_engine_add
etmemd_engine_add-EngineNamed alloc linker config eng h =
    let (_, _, h₁) = >>=-eq-some (guard (config.has_key eng_group "name")) _ h in
    let (name, got, h₂) = >>=-eq-some (config.get_string eng_group "name") _ h₁ in
    let (type, listed, h₃) = >>=-eq-some (find_engine_add_item name) _ h₂ in
    let (_, _, h₄) = >>=-eq-some (guard alloc) _ h₃ in
    let (f, filled, h₅) = >>=-eq-some (fill_eng_func linker config type) _ h₄ in
    let (same, fresh) = engine_with_ops-made f f.ops eng h₅ in
    let named =
      subst (λ n. Fills config n f) (sym (find_engine_add_item-name name type listed))
        (fill_eng_func-Fills linker config type f filled) in
    (ground arith, fresh)
