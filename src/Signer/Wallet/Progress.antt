-- ===== src/Signer/Wallet/Progress.antt =====
-- signer/src/wallet.rs: the mutex never stops the calls for good.
use basin.Prelude.{ℕ, ◌+◌, ◌%◌, List, ◌∷◌, u64_mod}
use basin.Signer.Wallet.Clones.{
  Guard, free, locked, has_read, has_advanced, Shared, state_at, Step, lock_step, read_step,
  advance_step, return_step, Steps, stay, then_step,
}

join : (x y z : Shared) → Steps x y → Steps y z → Steps x z
join x y _ front (stay z) = front
join x y _ front (then_step r s t rest step) = then_step x s t (join x y s front rest) step

first : (x y z : Shared) → Step x y → Steps y z → Steps x z
first x y z step rest = join x y z (then_step x x y (stay x) step) rest

-- What is left of a call, from each of its phases on.
from_advanced :
    (t n : ℕ) (l : List (ℕ × ℕ)) (k : ℕ)
    → Steps (state_at n (has_advanced t k) l) (state_at n free ((t, k) ∷ l))
from_advanced t n l k = first _ _ _ (return_step t k n l) (stay _)

module _ (t n : ℕ) (l : List (ℕ × ℕ)) where
  from_read :
      (k : ℕ) → Steps (state_at n (has_read t k) l) (state_at ((n + 1) % u64_mod) free ((t, k) ∷ l))
  from_read k = first _ _ _ (advance_step t k n l) (from_advanced t ((n + 1) % u64_mod) l k)

  from_locked : Steps (state_at n (locked t) l) (state_at ((n + 1) % u64_mod) free ((t, n) ∷ l))
  from_locked = first _ _ _ (read_step t n l) (from_read n)

  from_free : Steps (state_at n free l) (state_at ((n + 1) % u64_mod) free ((t, n) ∷ l))
  from_free = first _ _ _ (lock_step t n l) from_locked

-- The call that has the mutex, if any, returns.
release :
    (n : ℕ) (g : Guard) (l : List (ℕ × ℕ))
    → (m : ℕ) × (k : List (ℕ × ℕ)) × Steps (state_at n g l) (state_at m free k)
release n free l = (n, l, stay _)
release n (locked t) l = (_, _, from_locked t n l)
release n (has_read t k) l = (_, _, from_read t n l k)
release n (has_advanced t k) l = (_, _, from_advanced t n l k)

-- The calls never block each other for good: from every state there are steps after which a given call
-- has returned, with the sequence that stood there when it took the mutex, and the mutex is free again.
pub can_return :
    (t : ℕ) (x : Shared)
    → (n : ℕ) × (l : List (ℕ × ℕ)) × Steps x (state_at ((n + 1) % u64_mod) free ((t, n) ∷ l))
can_return t x =
    let (n, l, steps) = release x.sequence x.guard x.issued in
    (n, l, join _ _ _ steps (from_free t n l))
