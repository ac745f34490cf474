-- ===== src/Signer/Subnet/Split.antt =====
-- `str::split` at a character, with the cuts undone by joining.
use Prim.Native.Char.{Char, code}
use text.Mathlib.TextLemmas.{nil-append, cons-append}
use basin.Prelude.{ℕ, String, ◌<>◌, ◌≡◌, refl, List, [], ◌∷◌, ◌==◌, if◌then◌else◌, arith, Lacks}

abbrev pub extend : Char → List String → List String
extend c [] = String.◌∷◌ c "" ∷ []
extend c (s ∷ ss) = String.◌∷◌ c s ∷ ss

unfoldable pub split : ℕ → String → List String
split k String.[] = "" ∷ []
split k (String.◌∷◌ c s) = let rest = split k s in if code c == k then "" ∷ rest else extend c rest

module _ (k : ℕ) where
  -- A piece with no separator in it is what stands in front of the first cut.
  pub split-append :
      (d : Char) (a b : String)
      → (code d ≡ k)
      → Lacks k a
      → split k (a <> String.◌∷◌ d b) ≡ a ∷ split k b
  unfolding split
  split-append d String.[] b e h = rw nil-append (ground arith)
  split-append d (String.◌∷◌ c a) b e h = rw cons-append (ground (arith, split-append d a b e h.1))

  pub split-Lacks : (a : String) → Lacks k a → split k a ≡ a ∷ []
  unfolding split
  split-Lacks String.[] h = refl
  split-Lacks (String.◌∷◌ c a) h = ground (arith, split-Lacks a h.1)
