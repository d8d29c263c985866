-- ===== src/Base/Text.antt =====
-- Texts as the C code uses them: strcmp, strlen and the characters one by one.
use Prim.Native.Char.{code}
use Prim.Native.String.{String, len}
use text.Mathlib.Text.{◌==◌}
use text.Mathlib.TextEquality.{eq_iff}
use text.Mathlib.TextPositions.{eq_refl}
use etmem.Base.{ℕ, ◌≡◌, ◌≢◌, ◌⊎◌, inl, inr, Bool, true, false, List, [], ◌∷◌, Bool-cases}

-- strcmp(s, t) == 0
abbrev pub str_eq : String → String → Bool
str_eq s t = s == t

-- strlen counts bytes, as `len` does.
abbrev pub strlen : String → ℕ
strlen s = len s

abbrev pub codes : String → List ℕ
codes String.[] = []
codes (String.◌∷◌ c s) = code c ∷ codes s

pub str_eq_refl : (s : String) → str_eq s s ≡ true
str_eq_refl s = eq_refl s

pub str_eq→eq : (s t : String) → str_eq s t ≡ true → s ≡ t
str_eq→eq s t h = (eq_iff s t).0 h

pub str_eq-cases :
    (s t : String) → ((s ≡ t) × (str_eq s t ≡ true)) ⊎ ((s ≢ t) × (str_eq s t ≡ false))
str_eq-cases s t = elim (Bool-cases (str_eq s t)) [
  | inl e ↦ inl (str_eq→eq s t e, e)
  | inr e ↦ inr ((λ p. cc ((eq_iff s t).1 p)), e)
]
