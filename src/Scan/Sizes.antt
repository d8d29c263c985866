-- ===== src/Scan/Sizes.antt =====
-- The page sizes that etmem/src/etmemd_src/etmemd_scan.c computes, and its decoding of addresses.
use Prim.Native.Nat.{zero, suc}
use etmem.Base.{
  ℕ, ◌≡◌, refl, ap, ◌∙◌, ◌+◌, ◌-◌, ◌*◌, ◌/◌, ◌%◌, ◌^◌, ◌≤◌, ◌<◌, ◌==◌, false, List, [], ◌∷◌, ◌++◌,
  Option, none, some, arith, ltb, lt→ltb,
}
use native.Mathlib.Numerals.{unary_clauses}
use etmem.Scan.{
  shift_loop, get_page_shift, shift_one, level_shift, init_g_page_size, get_address_from_buf,
}

nonzero : (n : ℕ) → 1 ≤ n → (n == 0) ≡ false
nonzero n h = ground arith

half_pow : (k : ℕ) → 2 ^ suc k / 2 ≡ 2 ^ k
half_pow k = simp unary_clauses (omega arith)

pow_pos : (k : ℕ) → 1 ≤ 2 ^ k
pow_pos zero = omega arith
pow_pos (suc k) = simp unary_clauses (omega (arith, pow_pos k))

lt_pow : (k : ℕ) → k < 2 ^ k
lt_pow zero = omega arith
lt_pow (suc k) = simp unary_clauses (omega (arith, lt_pow k))

shift_loop-zero : (fuel page_shift : ℕ) → shift_loop fuel 0 page_shift ≡ page_shift
unfolding shift_loop
shift_loop-zero zero page_shift = refl
shift_loop-zero (suc fuel) page_shift = refl

-- One round for each halving that leaves something.
shift_loop-pow :
    (fuel k page_shift : ℕ) → k < fuel → shift_loop fuel (2 ^ k) page_shift ≡ page_shift + k + 1
unfolding shift_loop
shift_loop-pow zero k page_shift h = absurd (omega arith)
shift_loop-pow (suc fuel) zero page_shift h = shift_loop-zero fuel (page_shift + 1) ∙ omega arith
shift_loop-pow (suc fuel) (suc k) page_shift h = rw (nonzero (2 ^ suc k) (pow_pos (suc k))) (
    ap (λ p. shift_loop fuel p (page_shift + 1)) (half_pow k)
    ∙ shift_loop-pow fuel k (page_shift + 1) (omega arith)
    ∙ omega arith)

get_page_shift-pow : (k : ℕ) → get_page_shift (2 ^ k) ≡ k
unfolding get_page_shift
get_page_shift-pow zero = shift_loop-zero 1 0
get_page_shift-pow (suc k) =
    ap (λ p. shift_loop (2 ^ suc k) p 0) (half_pow k)
    ∙ shift_loop-pow (2 ^ suc k) k 0 (omega (arith, lt_pow (suc k)))
    ∙ omega arith

level-pmd : (k : ℕ) → 3 ≤ k → k ≤ 30 → ((k + 2 ^ 32 - 3) * 2 + 3) % 2 ^ 32 ≡ 2 * k - 3
level-pmd k low high = omega arith

level-pud : (k : ℕ) → 3 ≤ k → k ≤ 30 → ((k + 2 ^ 32 - 3) * 3 + 3) % 2 ^ 32 ≡ 3 * k - 6
level-pud k low high = omega arith

shift_one-small : (k : ℕ) → k < 31 → shift_one k ≡ some (2 ^ k)
unfolding shift_one
shift_one-small k h = rw (lt→ltb k 31 h) refl

ltb-le : (a b : ℕ) → b ≤ a → ltb a b ≡ false
ltb-le a b h = ground arith

shift_one-large : (k : ℕ) → 31 ≤ k → shift_one k ≡ none
unfolding shift_one
shift_one-large k h = rw (ltb-le k 31 h) refl

pmd_shift : (k : ℕ) → 3 ≤ k → k ≤ 30 → level_shift k 2 ≡ shift_one (2 * k - 3)
unfolding level_shift
pmd_shift k low high = ap shift_one (level-pmd k low high)

pud_shift : (k : ℕ) → 3 ≤ k → k ≤ 30 → level_shift k 3 ≡ shift_one (3 * k - 6)
unfolding level_shift
pud_shift k low high = ap shift_one (level-pud k low high)

init_parts :
    (k : ℕ) {a b c : Option ℕ}
    → shift_one k ≡ a
    → level_shift k 2 ≡ b
    → level_shift k 3 ≡ c
    → init_g_page_size (some (2 ^ k)) ≡ some (record { pte = a; pmd = b; pud = c })
unfolding init_g_page_size
init_parts k p q r = rw (get_page_shift-pow k, p, q, r) refl

-- For page sizes 2 ^ k from 8 bytes to 4 KiB the three sizes are defined: 2 ^ k, 2 ^ (2 k - 3)
-- and 2 ^ (3 k - 6).
init_g_page_size-defined :
    (k : ℕ)
    → 3 ≤ k
    → k ≤ 12
    → init_g_page_size (some (2 ^ k))
      ≡ some (record {
        pte = some (2 ^ k);
        pmd = some (2 ^ (2 * k - 3));
        pud = some (2 ^ (3 * k - 6));
      })
init_g_page_size-defined k low high =
    init_parts k (shift_one-small k (omega arith))
      (pmd_shift k low (omega arith) ∙ shift_one-small (2 * k - 3) (omega arith))
      (pud_shift k low (omega arith) ∙ shift_one-small (3 * k - 6) (omega arith))

-- For page sizes 2 ^ k from 8 KiB to 1 GiB the smallest size is 2 ^ k, and the largest is a shift
-- of an int beyond its width, which is undefined.
pub init_g_page_size-undefined :
    (k : ℕ)
    → 13 ≤ k
    → k ≤ 30
    → init_g_page_size (some (2 ^ k))
      ≡ some (record { pte = some (2 ^ k); pmd = shift_one (2 * k - 3); pud = none })
init_g_page_size-undefined k low high =
    init_parts k (shift_one-small k (omega arith)) (pmd_shift k (omega arith) high)
      (pud_shift k (omega arith) high ∙ shift_one-large (3 * k - 6) (omega arith))

abbrev pub bytes_of : ℕ → List ℕ
bytes_of address =
    (address / 2 ^ 56)
    ∷ (address / 2 ^ 48 % 256)
    ∷ (address / 2 ^ 40 % 256)
    ∷ (address / 2 ^ 32 % 256)
    ∷ (address / 2 ^ 24 % 256)
    ∷ (address / 2 ^ 16 % 256)
    ∷ (address / 2 ^ 8 % 256)
    ∷ (address % 256)
    ∷ []

pub get_address-bytes_of :
    (address : ℕ) (bytes : List ℕ) → get_address_from_buf (bytes_of address ++ bytes) ≡ some address
unfolding get_address_from_buf
get_address-bytes_of address bytes = ap some (omega arith)
