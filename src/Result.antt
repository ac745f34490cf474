-- ===== src/Result.antt =====
-- `anyhow::Result` and what the code does with it: errors with a message and added context, and the
-- two ways in which a call does not come back at all, a panic and a process exit.
pub mod Laws
use basin.Prelude.{String, Option, none, some, Bool, true, false}

-- `anyhow!(…)` makes a message, `.context(…)` wraps another error. An error of a foreign library
-- stands as its own text.
pub data Error : Type 0 where
  message : String → Error
  context : String → Error → Error

-- What `{e}` prints: the outermost message.
abbrev pub text : Error → String
text (message s) = s
text (context s e) = s

pub data Halt : Type 0 where
  panic : String → Halt
  exit : String → Halt

pub data Result {ℓ} (A : Type ℓ) : Type ℓ where
  ok : A → Result A
  err : Error → Result A
  halt : Halt → Result A

-- The `?` operator.
infixl 5 ◌>>=◌
abbrev pub ◌>>=◌ {ℓ κ} : {A : Type ℓ} {B : Type κ} → Result A → (A → Result B) → Result B
ok a >>= f = f a
err e >>= f = err e
halt h >>= f = halt h

module _ {ℓ} {A : Type ℓ} where
  -- `.map_err(f)`
  abbrev pub map_err : (Error → Error) → Result A → Result A
  map_err f (ok a) = ok a
  map_err f (err e) = err (f e)
  map_err f (halt h) = halt h

  -- `.context(s)`
  abbrev pub with_context : String → Result A → Result A
  with_context s = map_err (context s)

  -- `.or_else(f)`
  abbrev pub or_else : (Error → Result A) → Result A → Result A
  or_else f (ok a) = ok a
  or_else f (err e) = f e
  or_else f (halt h) = halt h

  -- `Option::ok_or_else`
  abbrev pub ok_or : Error → Option A → Result A
  ok_or e none = err e
  ok_or e (some a) = ok a

  -- `Option::expect`
  abbrev pub expect : String → Option A → Result A
  expect s none = halt (panic s)
  expect s (some a) = ok a

abbrev pub map_ok {ℓ κ} : {A : Type ℓ} {B : Type κ} → (A → B) → Result A → Result B
map_ok f (ok a) = ok (f a)
map_ok f (err e) = err e
map_ok f (halt h) = halt h

abbrev pub is_ok {ℓ} : {A : Type ℓ} → Result A → Bool
is_ok (ok a) = true
is_ok (err e) = false
is_ok (halt h) = false
