-- ===== src/Math/Percent.antt =====
-- logics/impls/percent_math.rs.
use starlay_protocol_wasm.Prelude.{
  ℕ, ◌||◌, ltb, ◌==◌, if◌then◌else◌, Outcome, ok, err, fail_if, ◌>>=◌, ◌>>◌,
}
use starlay_protocol_wasm.Words.{u256_max, add256, sub256, mul256, div256}
use starlay_protocol_wasm.Math.WadRay.{Error, math_multiplication_overflow, math_division_by_zero}

abbrev pub percentage_factor : ℕ
percentage_factor = 10000

abbrev pub half_percent : ℕ
half_percent = 5000

pub record Percent : Type 0 where
  pub percentage : ℕ

unfoldable pub percent_mul : Percent → ℕ → Outcome Error ℕ
unfolding add256 sub256 mul256 div256
percent_mul self value =
    let percentage = self.percentage in
    if value == 0 || percentage == 0 then ok 0 else do
      d ← sub256 u256_max half_percent
      room ← div256 d percentage
      fail_if (ltb room value) math_multiplication_overflow
      p ← mul256 value percentage
      s ← add256 p half_percent
      div256 s percentage_factor

unfoldable pub percent_div : Percent → ℕ → Outcome Error ℕ
unfolding add256 sub256 mul256 div256
percent_div self value =
    let percentage = self.percentage in
    if percentage == 0 then err math_division_by_zero else do
      half_percentage ← div256 percentage 2
      d ← sub256 u256_max half_percentage
      room ← div256 d percentage_factor
      fail_if (ltb room value) math_multiplication_overflow
      p ← mul256 value percentage_factor
      s ← add256 p half_percentage
      div256 s percentage
