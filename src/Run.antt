-- ===== src/Run.antt =====
-- Code that reads and writes a state and may fail: `async` functions that talk to the network, and
-- methods on `&mut self`. What was done before a failure stays done.
pub mod Laws
use basin.Result.{Result, ok, err, halt}

abbrev pub Run {ℓ} : Type ℓ → Type ℓ → Type ℓ
Run S A = S → Result A × S

module _ {ℓ} {S A : Type ℓ} where
  abbrev pub done : A → Run S A
  done a s = (ok a, s)

  -- A step that leaves the state alone.
  abbrev pub lift : Result A → Run S A
  lift r s = (r, s)

module _ {ℓ} {S A B : Type ℓ} where
  abbrev pub proceed : Result A → (A → Run S B) → Run S B
  proceed (ok a) f s = f a s
  proceed (err e) f s = (err e, s)
  proceed (halt h) f s = (halt h, s)

  -- `.await?` and what follows it.
  infixl 5 ◌>>=◌
  abbrev pub ◌>>=◌ : Run S A → (A → Run S B) → Run S B
  ◌>>=◌ m f s = proceed (m s).0 f (m s).1

module _ {ℓ} {S W A : Type ℓ} where
  -- A step on the world beside a local state.
  abbrev pub on_world : Run W A → Run (S × W) A
  on_world m s = ((m s.1).0, (s.0, (m s.1).1))

  -- A step on the local state beside a world.
  abbrev pub on_local : Run S A → Run (S × W) A
  on_local m s = ((m s.0).0, ((m s.0).1, s.1))
