-- ===== src/Tests/OfFees.antt =====
-- The theorems on the fee estimate, in the small world.
use mathlib.Core.List.{Perm, Permᴰ}
use basin.Prelude.{ℕ, ◌≤◌, List, [], ◌∷◌, ◌≡◌, refl, arith}
use basin.Prelude.Int.{pos}
use basin.Result.{ok}
use basin.Sdk.Fees.{first_rewards, positive, estimate_positive, estimate_priority_fee, fees_of}
use basin.Sdk.Fees.Order.{estimate-perm}
use basin.Sdk.Fees.Surge.{fees_of_cover}
use basin.Sdk.Fees.Laws.{IsEstimate, estimate_priority_fee-IsEstimate}
use basin.Tests.Encodings.{unbounded, unbounded-IsExact}

abbrev history : List (List ℕ)
history = (7 ∷ []) ∷ (0 ∷ []) ∷ (5 ∷ []) ∷ (90 ∷ []) ∷ []

estimate_priority_fee-IsEstimate_example :
    (x : ℕ) × (estimate_priority_fee unbounded (pos 200) history ≡ ok x)
    × IsEstimate (positive (7 ∷ 0 ∷ 5 ∷ 90 ∷ [])) x
unfolding first_rewards
estimate_priority_fee-IsEstimate_example =
    estimate_priority_fee-IsEstimate unbounded (pos 200) history (7 ∷ 0 ∷ 5 ∷ 90 ∷ [])
      unbounded-IsExact refl (omega arith, (omega arith, (omega arith, (omega arith, tt))))

estimate-perm_example :
    estimate_priority_fee unbounded (pos 200) ((7 ∷ []) ∷ (5 ∷ []) ∷ [])
    ≡ estimate_priority_fee unbounded (pos 200) ((5 ∷ []) ∷ (7 ∷ []) ∷ [])
estimate-perm_example =
    estimate-perm unbounded (pos 200) ((7 ∷ []) ∷ (5 ∷ []) ∷ []) ((5 ∷ []) ∷ (7 ∷ []) ∷ []) p
  where
    p : Perm {A = List ℕ} ((7 ∷ []) ∷ (5 ∷ []) ∷ []) ((5 ∷ []) ∷ (7 ∷ []) ∷ [])
    p = ∣ Permᴰ.swap refl refl ∣₁

fees_of_cover_example :
    (cap : ℕ) × (fees_of unbounded (pos 200) 100 ((90 ∷ []) ∷ []) ≡ ok (90, cap))
    × (90 ≤ cap)
    × (100 ≤ cap)
unfolding estimate_priority_fee first_rewards positive estimate_positive
fees_of_cover_example =
    fees_of_cover unbounded (pos 200) 100 90 ((90 ∷ []) ∷ []) unbounded-IsExact (omega arith)
      (omega arith) refl
