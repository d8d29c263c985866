-- ===== src/Base/Options.antt =====
-- Fallible steps whose failure carries no code: `none` is the C code's -1 or NULL.
use mathlib.Core.Option.{Option, none, some}
use mathlib.Core.Bool.{Bool, true, false}
use mathlib.Core.Path.{◌≡◌, refl}

abbrev pub ◌>>=◌ {i j} : {X : Type i} {Y : Type j} (m : Option X) (next : X → Option Y) → Option Y
none >>= next = none
some x >>= next = next x

abbrev pub ◌>>◌ {i} : {Y : Type i} (test : Option (Unit {0})) (rest : Option Y) → Option Y
test >> rest = test >>= λ _. rest

infixl 5 ◌>>=◌ ◌>>◌
-- Goes on only if the test holds.
abbrev pub guard : Bool → Option (Unit {0})
guard false = none
guard true = some tt

pub >>=-eq-some {i j} :
    {X : Type i} {Y : Type j} (m : Option X) (next : X → Option Y) {y : Y}
    → (m >>= next) ≡ some y
    → (x : X) × (m ≡ some x) × (next x ≡ some y)
>>=-eq-some none next h = cc
>>=-eq-some (some x) next h = (x, refl, h)

pub some_inj {ℓ} : {A : Type ℓ} {a b : A} → some a ≡ some b → a ≡ b
some_inj h = cc

pub guard-eq-some {ℓ} :
    {A : Type ℓ} (test : Bool) (a : A) {b : A}
    → (guard test >> some a) ≡ some b
    → (test ≡ true) × (a ≡ b)
guard-eq-some true a h = (refl, some_inj h)
guard-eq-some false a h = cc
