-- ===== src/Effects/Success.antt =====
-- Runs that submit a transaction whenever they succeed.
pub mod Sdk
pub mod Evm
pub mod Cli
use basin.Prelude.{ℕ, ◌≡◌, refl, Bool, true, false, if◌then◌else◌}
use basin.Result.{Result, ok, err, halt, is_ok}
use basin.Run.{Run, proceed, lift, on_world, ◌>>=◌}
use basin.Foreign.{Foreign}
use basin.Effects.{Within, Reaches, Submits, stay, none-then, alone, beside}

-- One transaction was submitted on the way from a world to another.
abbrev pub Submitted : (F : Foreign) → F.World → F.World → Type 0
Submitted F u w = (v v' : F.World) × Reaches F 0 u v × Submits F v v' × Reaches F 0 v' w

-- A run that submits exactly one transaction if it succeeds.
abbrev pub Sends : (F : Foreign) {S A : Type 0} → (S → F.World) → Run S A → Type 0
Sends F world m = (s : _) → is_ok (m s).0 ≡ true → Submitted F (world s) (world (m s).1)

module _ (F : Foreign) {S A B : Type 0} (world : S → F.World) where
  proceed-before :
      (r : Result A) (f : A → Run S B) (s t : S)
      → Reaches F 0 (world s) (world t)
      → ((a : A) → Sends F world (f a))
      → is_ok (proceed r f t).0 ≡ true
      → Submitted F (world s) (world (proceed r f t).1)
  proceed-before (ok a) f s t reads rest h =
      let (v, v', before, submits, after) = rest a t h in
      (v, v', none-then F 0 _ _ _ reads before, submits, after)
  proceed-before (err e) f s t reads rest h = cc
  proceed-before (halt x) f s t reads rest h = cc

  proceed-after :
      (r : Result A) (f : A → Run S B) (s t : S)
      → (is_ok r ≡ true → Submitted F (world s) (world t))
      → ((a : A) → Within F world 0 (f a))
      → is_ok (proceed r f t).0 ≡ true
      → Submitted F (world s) (world (proceed r f t).1)
  proceed-after (ok a) f s t sent rest h =
      let (v, v', before, submits, after) = sent refl in
      (v, v', before, submits, none-then F 0 _ _ _ after (rest a t))
  proceed-after (err e) f s t sent rest h = cc
  proceed-after (halt x) f s t sent rest h = cc

  -- A run that submits nothing, and then one that does.
  pub quiet_first :
      (m : Run S A) (f : A → Run S B)
      → Within F world 0 m
      → ((a : A) → Sends F world (f a))
      → Sends F world (m >>= f)
  quiet_first m f reads rest s h = proceed-before (m s).0 f s (m s).1 (reads s) rest h

  -- A run that submits a transaction, and then one that submits nothing.
  pub quiet_last :
      (m : Run S A) (f : A → Run S B)
      → Sends F world m
      → ((a : A) → Within F world 0 (f a))
      → Sends F world (m >>= f)
  quiet_last m f sends rest s h = proceed-after (m s).0 f s (m s).1 (sends s) rest h

  pub result_first :
      (r : Result A) (f : A → Run S B)
      → ((a : A) → Sends F world (f a))
      → Sends F world (lift r >>= f)
  result_first r f rest s h = proceed-before r f s s (stay 0 (world s)) rest h

module _ (F : Foreign) {S A : Type 0} (world : S → F.World) where
  -- A test that stops the run, else a run that submits a transaction.
  pub unless-Sends :
      (b : Bool) (m m' : Run S A)
      → ((s : S) → is_ok (m s).0 ≡ false)
      → Sends F world m'
      → Sends F world (if b then m else m')
  unless-Sends true m m' stops sends s h = let stop = stops s in cc
  unless-Sends false m m' stops sends s h = sends s h

pub one-Sends :
    (F : Foreign) {A : Type 0} (m : Run F.World A)
    → ((w : F.World) → Submits F w (m w).1)
    → Sends F (alone F) m
one-Sends F m submits w h = (w, (m w).1, stay 0 w, submits w, stay 0 (m w).1)

pub on_world-Sends :
    (F : Foreign) {S A : Type 0} (m : Run F.World A)
    → Sends F (alone F) m
    → Sends F (beside F) (on_world {S = S} m)
on_world-Sends F m sends s h = sends s.1 h
