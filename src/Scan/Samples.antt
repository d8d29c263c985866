-- ===== src/Scan/Samples.antt =====
-- Percentages as whole numbers in the place of double, for concrete runs.
use etmem.Base.{◌*◌, ◌/◌, ◌&&◌}
use etmem.Base.Int.{ℤ, pos, ltb_ℤ, leb_ℤ}
use etmem.Scan.Refs.{Floats}

abbrev pub whole_numbers : Floats ℤ
whole_numbers = record {
  of_int = λ n. n;
  ratio = λ a b. pos (100 * a / b);
  trunc = λ n. n;
  add = λ a b. a;
  sub = λ a b. a;
  mul = λ a b. a;
  div = λ a b. a;
  lt = ltb_ℤ;
  eq = λ a b. leb_ℤ a b && leb_ℤ b a;
  log = λ n. n;
  sqrt = λ n. n;
  pow = λ a b. a;
  erf = λ n. n;
}
