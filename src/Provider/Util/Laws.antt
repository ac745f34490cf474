-- ===== src/Provider/Util/Laws.antt =====
-- What the parsers of provider/src/util.rs accept, and what they return.
use Prim.Native.Char.{Char, code}
use text.Mathlib.TextEquality.{Char-path}
use text.Mathlib.TextLemmas.{nil-append, cons-append}
use basin.Prelude.{
  ℕ, ◌<◌, String, ◌<>◌, ◌≡◌, ap, ◌∙◌, ◌↔◌, false, ◌==◌, some, arith, decimal, parse_u64, u64_mod,
  Lacks, lowers_to, lower, Bool-cases, Option-cases, inl, inr, subst,
}
use basin.Prelude.Decimal.{parse_u64-decimal}
use mathlib.Core.Option.{none-ne-some, some-injective}
use basin.Result.{ok}
use basin.Foreign.Data.{at_height}
use basin.Provider.Util.{split_once, parse_metadata, parse_query_height}

-- How the two halves of a cut make up the text.
abbrev IsCut : Char → String → String × String → Type 0
IsCut d s t = (s ≡ t.0 <> String.◌∷◌ d t.1) × Lacks (code d) t.0

split_once-IsCut :
    (d : Char) (s : String) (t : String × String) → split_once (code d) s ≡ some t → IsCut d s t
unfolding split_once
split_once-IsCut d String.[] t h = absurd (none-ne-some t h)
split_once-IsCut d (String.◌∷◌ c s) t h = elim (Bool-cases (code c == code d)) [
  | inl same ↦
      subst (IsCut d (String.◌∷◌ c s)) (some-injective _ _ (rw same at h))
        (rw (nil-append) (ap (λ x. String.◌∷◌ x s) (Char-path c d (ground arith))), tt)
  | inr differ ↦ elim (Option-cases (split_once (code d) s)) [
    | inl gone ↦ absurd (none-ne-some t (rw (differ, gone) at h))
    | inr (u, found) ↦
        let rest = split_once-IsCut d s u found in
        subst (IsCut d (String.◌∷◌ c s)) (some-injective _ _ (rw (differ, found) at h))
          (rw cons-append (ap (String.◌∷◌ c) rest.0), (ground arith, rest.1))
  ]
]

split_once-append :
    (d : Char) (a b : String)
    → Lacks (code d) a
    → split_once (code d) (a <> String.◌∷◌ d b) ≡ some (a, b)
unfolding split_once
split_once-append d String.[] b h =
    rw nil-append (elim (Bool-cases (code d == code d)) [ inl e ↦ rw e | inr e ↦ ground arith ])
split_once-append d (String.◌∷◌ c a) b h =
    rw cons-append (ground (arith, split_once-append d a b h.1))

abbrev equals_sign : Char
equals_sign = "="

behind_sign : (v : String) → "=" <> v ≡ String.◌∷◌ equals_sign v
behind_sign v = cons-append equals_sign "" v ∙ ap (String.◌∷◌ equals_sign) (nil-append v)

-- A metadata argument is accepted exactly if it holds `=`. The key is what stands before the first
-- one, and the value is all that stands behind it.
pub parse_metadata_iff :
    (s k v : String) → (parse_metadata s ≡ ok (k, v)) ↔ ((s ≡ k <> ("=" <> v)) × Lacks b'=' k)
unfolding parse_metadata
parse_metadata_iff s k v = (accepted, made)
  where
    accepted : parse_metadata s ≡ ok (k, v) → (s ≡ k <> ("=" <> v)) × Lacks b'=' k
    accepted h = rw behind_sign (split_once-IsCut equals_sign s (k, v) (ground arith))

    made : (s ≡ k <> ("=" <> v)) × Lacks b'=' k → parse_metadata s ≡ ok (k, v)
    made (e, lacks) = rw (e, behind_sign, split_once-append equals_sign k v lacks)

-- A text that is a number is neither of the two words.
number_no_word :
    (s : String) (n : ℕ)
    → parse_u64 s ≡ some n
    → (lowers_to s "committed" ≡ false) × (lowers_to s "pending" ≡ false)
unfolding parse_u64 lowers_to lower
number_no_word String.[] n h = absurd (none-ne-some n h)
number_no_word (String.◌∷◌ c s) n h = ground arith

-- A height below 2^64 that is written in decimal is read back as that height.
pub parse_query_height-decimal :
    (n : ℕ) → n < u64_mod → parse_query_height (decimal n) ≡ ok (at_height n)
unfolding parse_query_height
parse_query_height-decimal n h =
    let number = parse_u64-decimal n h in
    let (plain, plain') = number_no_word (decimal n) n number in rw (plain, plain', number)
