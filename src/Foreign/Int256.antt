-- ===== src/Foreign/Int256.antt =====
-- The 256-bit integers of `ethers`, as far as the fee estimate uses them. What happens out of range
-- (a panic, or a wrap-around) is the library's matter: `IsExact` speaks of results in range only.
use basin.Prelude.{ℕ, ◌+◌, ◌*◌, ◌/◌, ◌^◌, ◌<◌, ◌≡◌}
use basin.Prelude.Int.{ℤ, pos, pos_part, neg_part, sub_ℕ}
use basin.Result.{Result, ok}

-- A U256 is the number that it stands for, and an I256 the integer.
pub record Int256 : Type 0 where
  pub u_add : ℕ → ℕ → Result ℕ
  pub u_mul : ℕ → ℕ → Result ℕ
  -- `I256::try_from(U256)`
  pub i_try_from : ℕ → Result ℤ
  pub i_sub : ℤ → ℤ → Result ℤ
  pub i_mul : ℤ → ℤ → Result ℤ
  pub i_div : ℤ → ℤ → Result ℤ

abbrev pub u256_mod : ℕ
u256_mod = 2 ^ 256

abbrev pub i256_half : ℕ
i256_half = 2 ^ 255

-- Division of signed integers rounds towards 0.
abbrev pub trunc_div : ℤ → ℕ → ℤ
trunc_div x n = sub_ℕ (pos_part x / n) (neg_part x / n)

abbrev pub scale : ℤ → ℕ → ℤ
scale x n = sub_ℕ (pos_part x * n) (neg_part x * n)

pub record IsExact (I : Int256) : Type 0 where
  pub add : (a b : ℕ) → a + b < u256_mod → I.u_add a b ≡ ok (a + b)
  pub mul : (a b : ℕ) → a * b < u256_mod → I.u_mul a b ≡ ok (a * b)
  pub signed : (n : ℕ) → n < i256_half → I.i_try_from n ≡ ok (pos n)
  pub sub : (a b : ℕ) → a < i256_half → b < i256_half → I.i_sub (pos a) (pos b) ≡ ok (sub_ℕ a b)
  pub times :
      (x : ℤ) (n : ℕ)
      → pos_part x * n < i256_half
      → neg_part x * n < i256_half
      → I.i_mul x (pos n) ≡ ok (scale x n)
  pub over : (x : ℤ) (n : ℕ) → 0 < n → I.i_div x (pos n) ≡ ok (trunc_div x n)
