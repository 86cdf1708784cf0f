-- ===== src/Rates.antt =====
-- The default interest rate model, logics/impls/interest_rate_model.rs: rates per millisecond,
-- scaled by 10^18, with a second slope beyond the kink.
pub mod Bounds
use starlay_protocol_wasm.Prelude.{
  ℕ, ◌+◌, ◌*◌, ◌^◌, ◌≡◌, leb, ◌==◌, if◌then◌else◌, Outcome, ok, ◌>>=◌, ◌>>◌,
}
use starlay_protocol_wasm.Words.{add256, sub256, mul256, div256}

-- `Data`
pub record Model : Type 0 where
  pub multiplier_per_milli_second_slope_1 : ℕ
  pub multiplier_per_milli_second_slope_2 : ℕ
  pub base_rate_per_milli_second : ℕ
  pub kink : ℕ

abbrev pub base : ℕ
base = 1_000_000_000_000_000_000

abbrev pub milliseconds_per_year : ℕ
milliseconds_per_year = 60 * 60 * 24 * 365 * 1000

module _ {E : Type 0} where
  -- The free function `supply_rate`, of which `Data::_supply_rate` is a copy.
  pub supply_rate_of : (utilization_rate borrow_rate one_minus_reserve_factor : ℕ) → Outcome E ℕ
  unfolding mul256 div256
  supply_rate_of utilization_rate borrow_rate one_minus_reserve_factor = do
    p ← mul256 borrow_rate one_minus_reserve_factor
    rate_to_pol ← div256 p base
    q ← mul256 utilization_rate rate_to_pol
    div256 q base

  unfoldable pub utilization_rate : (cash borrows reserves : ℕ) → Outcome E ℕ
  unfolding add256 sub256 mul256 div256
  utilization_rate cash borrows reserves =
      if borrows == 0
      then ok 0
      else do n ← mul256 borrows base; s ← add256 cash borrows; d ← sub256 s reserves; div256 n d

  -- `Data::new`
  pub new :
      (base_rate_per_year multiplier_per_year_slope_1 multiplier_per_year_slope_2 kink : ℕ)
      → Outcome E Model
  unfolding div256
  new base_rate slope_1 slope_2 kink = do
    m1 ← div256 slope_1 milliseconds_per_year
    m2 ← div256 slope_2 milliseconds_per_year
    b ← div256 base_rate milliseconds_per_year
    ok (record {
      multiplier_per_milli_second_slope_1 = m1;
      multiplier_per_milli_second_slope_2 = m2;
      base_rate_per_milli_second = b;
      kink = kink;
    })

  -- The two branches of `borrow_rate`, below and above the kink.
  unfoldable pub rate_up_to_kink : Model → ℕ → Outcome E ℕ
  unfolding add256 mul256 div256
  rate_up_to_kink m util = do
    p ← mul256 util m.multiplier_per_milli_second_slope_1
    q ← div256 p base
    add256 q m.base_rate_per_milli_second

  pub rate_beyond_kink : Model → ℕ → Outcome E ℕ
  unfolding rate_up_to_kink sub256
  rate_beyond_kink m util = do
    normal_rate ← rate_up_to_kink m m.kink
    excess_util ← sub256 util m.kink
    p ← mul256 excess_util m.multiplier_per_milli_second_slope_2
    excess_rate ← div256 p base
    add256 normal_rate excess_rate

  unfoldable pub borrow_rate : Model → (cash borrows reserves : ℕ) → Outcome E ℕ
  unfolding rate_beyond_kink utilization_rate
  borrow_rate m cash borrows reserves = do
    util ← utilization_rate cash borrows reserves
    if leb util m.kink then rate_up_to_kink m util else rate_beyond_kink m util

  pub supply_rate : Model → (cash borrows reserves reserve_factor_mantissa : ℕ) → Outcome E ℕ
  unfolding borrow_rate supply_rate_of
  supply_rate m cash borrows reserves reserve_factor_mantissa = do
    one_minus_reserve_factor ← sub256 base reserve_factor_mantissa
    rate ← borrow_rate m cash borrows reserves
    util ← utilization_rate cash borrows reserves
    supply_rate_of util rate one_minus_reserve_factor
