-- ===== src/Migrate/Lines.antt =====
-- etmem/src/etmemd_src/etmemd_migrate.c: the length of a line with an address, and the text of a batch.
use mathlib.Core.List.{append-nil, append_assoc}
use native.Mathlib.Nat.{div-add-mod, mul_assoc, add-mul-mod_self_left, mod-eq_of_lt, mod-lt}
use etmem.Base.{
  ◌^◌, leb, ◌&&◌, Option, if◌then◌else◌, ◌<◌, ◌-◌, ltb→lt, none, false, ◌%◌, sym, ℕ, zero, suc,
  true, List, [], ◌∷◌, ◌++◌, length, length-append, take, drop, ◌≡◌, refl, ap, ltb, ◌+◌, ◌*◌, ◌/◌,
  ◌≤◌, arith, Bool-cases, inl, inr, lt→ltb, some, ◌∙◌, ◌<◌, Option, ltb→lt,
}
use etmem.Migrate.{hex_digits, address_line, fits, Swap, swap_loop, get_swap_string, hex_digit}

length-hex_digits :
    (fuel n : ℕ) (more : List ℕ) → length (hex_digits fuel n more) ≤ suc fuel + length more
unfolding hex_digits
length-hex_digits zero n more = omega arith
length-hex_digits (suc fuel) n more = elim (Bool-cases (ltb n 16)) [
  | inl e ↦ rw e (omega arith)
  | inr e ↦ rw e (omega (arith, length-hex_digits fuel (n / 16) (hex_digit (n % 16) ∷ more)))
]

pub length-address_line : (addr : ℕ) → length (address_line addr) ≤ 19
unfolding address_line
length-address_line addr = omega (arith, length-hex_digits 15 addr (10 ∷ []))

-- The value of a hexadecimal digit, as a reader of the text takes it.
abbrev pub digit_value : ℕ → Option ℕ
digit_value c =
    if leb 48 c && leb c 57
    then some (c - 48)
    else if leb 97 c && leb c 102
    then some (c - 87)
    else none

-- The value of hexadecimal digits behind those of `value`; none where a character is no digit.
unfoldable pub hex_value : (value : ℕ) → List ℕ → Option ℕ
hex_value value [] = some value
hex_value value (c ∷ digits) = elim (digit_value c) [
  | none ↦ none
  | some d ↦ hex_value (value * 16 + d) digits
]

-- The text is a line "0x<hexadecimal digits>" for each address, which is an unsigned long.
abbrev pub Written : List ℕ → List ℕ → Type 0
Written [] text = text ≡ []
Written (addr ∷ addrs) text =
    (digits : List ℕ) × (rest : List ℕ) × (text ≡ 48 ∷ 120 ∷ (digits ++ (10 ∷ rest)))
    × (hex_value 0 digits ≡ some (addr % 2 ^ 64))
    × Written addrs rest

digit_value-hex_digit : (n : ℕ) → n < 16 → digit_value (hex_digit n) ≡ some n
digit_value-hex_digit n h = ground arith

hex_value-digit :
    (value n : ℕ) (more : List ℕ)
    → n < 16
    → hex_value value (hex_digit n ∷ more) ≡ hex_value (value * 16 + n) more
unfolding hex_value
hex_value-digit value n more h =
    ap
      (λ (r : Option ℕ). elim r as (λ _. Option ℕ) [
        | none ↦ none
        | some d ↦ hex_value (value * 16 + d) more
      ])
      (digit_value-hex_digit n h)

-- 16 ^ (fuel + 1)
abbrev power : ℕ → ℕ
power zero = 16
power (suc fuel) = 16 * power fuel

power-pos : (fuel : ℕ) → 1 ≤ power fuel
power-pos zero = omega arith
power-pos (suc fuel) = omega (arith, power-pos fuel)

whole : (n m : ℕ) → n ≡ n / 16 % m * 16 + n % 16 + 16 * m * (n / 16 / m)
whole n m = omega (arith, div-add-mod (n / 16) m, mul_assoc 16 m (n / 16 / m))

remainder : (n m : ℕ) → 1 ≤ m → n / 16 % m * 16 + n % 16 ≡ n % (16 * m)
remainder n m h =
    let low = n / 16 % m * 16 + n % 16 in
    sym (
      ap (λ x. x % (16 * m)) (whole n m)
      ∙ add-mul-mod_self_left low (16 * m) (n / 16 / m)
      ∙ mod-eq_of_lt {n = low} {m = 16 * m} (omega (arith, mod-lt (n / 16) {m = m} (omega arith))))

zero_plus : (n : ℕ) → n ≡ 0 * 16 + n
zero_plus n = omega arith

small_digit : (n m : ℕ) → n < 16 → 1 ≤ m → n ≡ n % (16 * m)
small_digit n m h pos = sym (mod-eq_of_lt {n = n} {m = 16 * m} (omega arith))

one_digit :
    (n value : ℕ) (more : List ℕ)
    → n < 16
    → n ≡ value
    → hex_value 0 (hex_digit n ∷ more) ≡ hex_value value more
one_digit n value more h e =
    hex_value-digit 0 n more h ∙ ap (λ v. hex_value v more) (sym (zero_plus n) ∙ e)

-- The digits of `%lx` are read as the number, as far as there are digits for it.
hex_value-hex_digits :
    (fuel n : ℕ) (more : List ℕ)
    → hex_value 0 (hex_digits fuel n more) ≡ hex_value (n % power fuel) more
unfolding hex_digits
hex_value-hex_digits zero n more = one_digit (n % 16) (n % 16) more (omega arith) refl
hex_value-hex_digits (suc fuel) n more = elim (Bool-cases (ltb n 16)) [
  | inl e ↦ rw e (
      one_digit n (n % (16 * power fuel)) more (ltb→lt n 16 e)
        (small_digit n (power fuel) (ltb→lt n 16 e) (power-pos fuel)))
  | inr e ↦ rw e (
      hex_value-hex_digits fuel (n / 16) (hex_digit (n % 16) ∷ more)
      ∙ hex_value-digit (n / 16 % power fuel) (n % 16) more (omega arith)
      ∙ ap (λ v. hex_value v more) (remainder n (power fuel) (power-pos fuel)))
]

hex_digits-append :
    (fuel n : ℕ) (more rest : List ℕ)
    → hex_digits fuel n (more ++ rest) ≡ hex_digits fuel n more ++ rest
unfolding hex_digits
hex_digits-append zero n more rest = refl
hex_digits-append (suc fuel) n more rest = elim (Bool-cases (ltb n 16)) [
  | inl e ↦ rw e refl
  | inr e ↦ rw e (hex_digits-append fuel (n / 16) (hex_digit (n % 16) ∷ more) rest)
]

-- The lines of a list of addresses.
abbrev pub lines : List ℕ → List ℕ
lines [] = []
lines (addr ∷ addrs) = address_line addr ++ lines addrs

-- The test for room always passes: 20 bytes are there for each line of at most 19.
fits-line :
    (swap_str_len room addr : ℕ) (swap_str : List ℕ)
    → length swap_str + 20 * suc room ≤ swap_str_len
    → fits swap_str_len swap_str (address_line addr) ≡ true
unfolding fits
fits-line swap_str_len room addr swap_str h =
    rw
      (
        lt→ltb (length (address_line addr)) 20 (omega (arith, length-address_line addr)),
        lt→ltb (length swap_str + length (address_line addr)) swap_str_len
            (omega (arith, length-address_line addr)),
      )
      refl

abbrev pub swapped : List ℕ → List ℕ → Swap
swapped text rest = record { swap_str = text; page_refs = rest }

swap_loop-take :
    (swap_str_len : ℕ) (addrs : List ℕ) (room : ℕ) (swap_str : List ℕ)
    → length swap_str + 20 * room ≤ swap_str_len
    → swap_loop swap_str_len addrs room swap_str
      ≡ swapped (swap_str ++ lines (take room addrs)) (drop room addrs)
unfolding swap_loop
swap_loop-take swap_str_len [] zero swap_str h =
    ap (λ text. swapped text []) (sym (append-nil swap_str))
swap_loop-take swap_str_len [] (suc room) swap_str h =
    ap (λ text. swapped text []) (sym (append-nil swap_str))
swap_loop-take swap_str_len (addr ∷ addrs) zero swap_str h =
    ap (λ text. swapped text (addr ∷ addrs)) (sym (append-nil swap_str))
swap_loop-take swap_str_len (addr ∷ addrs) (suc room) swap_str h =
    rw (fits-line swap_str_len room addr swap_str h) (
      swap_loop-take swap_str_len addrs room (swap_str ++ address_line addr)
        (omega (arith, length-append swap_str (address_line addr), length-address_line addr))
      ∙ ap (λ text. swapped text (drop room addrs))
          (append_assoc swap_str (address_line addr) (lines (take room addrs))))

pub get_swap_string-take :
    (addrs : List ℕ) (batchsize : ℕ)
    → get_swap_string true addrs batchsize
      ≡ some (swapped (lines (take batchsize addrs)) (drop batchsize addrs))
unfolding get_swap_string
get_swap_string-take addrs batchsize =
    ap some (swap_loop-take (batchsize * 20) addrs batchsize [] (omega arith))

pub get_swap_string-none :
    (addrs : List ℕ) (batchsize : ℕ) → get_swap_string false addrs batchsize ≡ none
unfolding get_swap_string
get_swap_string-none addrs batchsize = refl

pub lines-append : (xs ys : List ℕ) → lines (xs ++ ys) ≡ lines xs ++ lines ys
lines-append [] ys = refl
lines-append (x ∷ xs) ys =
    ap (λ more. address_line x ++ more) (lines-append xs ys)
    ∙ sym (append_assoc (address_line x) (lines xs) (lines ys))

pub length-lines : (addrs : List ℕ) → length (lines addrs) ≤ 19 * length addrs
length-lines [] = omega arith
length-lines (addr ∷ addrs) = omega (
  arith,
  length-append (address_line addr) (lines addrs),
  length-address_line addr,
  length-lines addrs,
)

line_of :
    (addr : ℕ) (rest : List ℕ)
    → address_line addr ++ rest ≡ 48 ∷ 120 ∷ (hex_digits 15 addr [] ++ (10 ∷ rest))
unfolding address_line
line_of addr rest =
    ap (λ l. 48 ∷ 120 ∷ l)
      (ap (λ l. l ++ rest) (hex_digits-append 15 addr [] (10 ∷ []))
        ∙ append_assoc (hex_digits 15 addr []) (10 ∷ []) rest)

pub lines-Written : (addrs : List ℕ) → Written addrs (lines addrs)
unfolding hex_value
lines-Written [] = refl
lines-Written (addr ∷ addrs) = (
  hex_digits 15 addr [],
  lines addrs,
  line_of addr (lines addrs),
  hex_value-hex_digits 15 addr [],
  lines-Written addrs,
)
