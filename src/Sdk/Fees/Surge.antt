-- ===== src/Sdk/Fees/Surge.antt =====
-- The surged base fee, and the pair of fees.
use basin.Prelude.{ℕ, ◌+◌, ◌*◌, ◌/◌, ◌≤◌, ◌<◌, ◌≡◌, leb, ltb, if◌then◌else◌, arith, List}
use basin.Prelude.Int.{ℤ}
use basin.Result.{ok}
use basin.Foreign.Int256.{Int256, IsExact, u256_mod}
use basin.Sdk.Fees.{base_fee_surged, estimate_priority_fee, fees_of}

surged : ℕ → ℕ
surged fee =
    if leb fee 40000000000
    then fee * 2
    else if leb fee 100000000000
    then fee * 16 / 10
    else if leb fee 200000000000
    then fee * 14 / 10
    else fee * 12 / 10

surged_lem :
    (I : Int256) (fee : ℕ)
    → IsExact I
    → fee * 16 < u256_mod
    → base_fee_surged I fee ≡ ok (surged fee)
unfolding base_fee_surged surged
surged_lem I fee exact h =
    rw
      (
        exact.mul fee 2 (omega arith),
        exact.mul fee 16 h,
        exact.mul fee 14 (omega arith),
        exact.mul fee 12 (omega arith),
      )
      (ground arith)

surged_bounds : (fee : ℕ) → (fee ≤ surged fee) × (surged fee ≤ 2 * fee)
unfolding surged
surged_bounds fee = ground arith

-- If the 256-bit arithmetic is exact in range and 16 times the base fee is in range, the surged
-- base fee is computed, is at least the base fee and at most twice it.
pub base_fee_surged_bounds :
    (I : Int256) (fee : ℕ)
    → IsExact I
    → fee * 16 < u256_mod
    → (v : ℕ) × (base_fee_surged I fee ≡ ok v) × (fee ≤ v) × (v ≤ 2 * fee)
base_fee_surged_bounds I fee exact h =
    let (low, high) = surged_bounds fee in (surged fee, surged_lem I fee exact h, low, high)

cap_of : ℕ → ℕ → ℕ
cap_of fee potential = if ltb potential fee then fee + potential else potential

-- If the 256-bit arithmetic is exact in range, the sums and products are in range, and the
-- priority fee is estimated, the estimate of the fees returns that fee and a cap that is at least
-- that fee and at least the base fee.
pub fees_of_cover :
    (I : Int256) (threshold : ℤ) (base_fee fee : ℕ) (rewards : List (List ℕ))
    → IsExact I
    → base_fee * 16 < u256_mod
    → fee + 2 * base_fee < u256_mod
    → estimate_priority_fee I threshold rewards ≡ ok fee
    → (cap : ℕ) × (fees_of I threshold base_fee rewards ≡ ok (fee, cap))
      × (fee ≤ cap)
      × (base_fee ≤ cap)
unfolding fees_of cap_of
fees_of_cover I threshold base_fee fee rewards exact h room e =
    let (v, computed, low, high) = base_fee_surged_bounds I base_fee exact h in
    (
      cap_of fee v,
      rw (e, computed, exact.add fee v (omega arith)) (ground arith),
      ground arith,
      ground arith,
    )
