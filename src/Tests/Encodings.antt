-- ===== src/Tests/Encodings.antt =====
-- Codecs, base64 and integers of the small world, with their laws.
use Prim.Native.Char.{code}
use text.Mathlib.TextLemmas.{cons-append, nil-append}
use basin.Prelude.{
  ℕ, zero, suc, ◌+◌, ◌*◌, ◌/◌, ◌≡◌, refl, ap, ◌∙◌, ◌==◌, if◌then◌else◌, String, ◌<>◌, Option, none,
  some, [], ◌∷◌, arith,
}
use basin.Prelude.Int.{ℤ, pos, pos_part, neg_part, sub_ℕ}
use basin.Prelude.Bytes.{Bytes}
use basin.Result.{Result, ok, err, message}
use basin.Foreign.{Codec}
use basin.Foreign.Laws.{IsRoundTrip}
use basin.Foreign.Int256.{Int256, IsExact, trunc_div, scale}

-- A codec of which only the encoding is used.
abbrev pub encode_only : (A : Type 0) → Codec A
encode_only A = record { encode = λ _. ok []; decode = λ _. err (message "no value") }

-- A codec that always reads the same value.
abbrev pub always : (A : Type 0) → A → Codec A
always A a = record { encode = λ _. ok []; decode = λ _. ok a }

abbrev number_of_bytes : Bytes → Result ℕ
number_of_bytes (n ∷ []) = ok n
number_of_bytes _ = err (message "no number")

abbrev pub numbers : Codec ℕ
numbers = record { encode = λ n. ok (n ∷ []); decode = number_of_bytes }

pub numbers-IsRoundTrip : IsRoundTrip numbers
numbers-IsRoundTrip = record { decode-encode = λ a b h. ground arith }

abbrev pub plain : Codec Bytes
plain = record { encode = ok; decode = ok }

abbrev maybe_to_bytes : Option Bytes → Bytes
maybe_to_bytes none = 0 ∷ []
maybe_to_bytes (some b) = 1 ∷ b

abbrev maybe_of_bytes : Bytes → Result (Option Bytes)
maybe_of_bytes [] = err (message "no option")
maybe_of_bytes (zero ∷ b) = ok none
maybe_of_bytes (suc _ ∷ b) = ok (some b)

abbrev pub maybes : Codec (Option Bytes)
maybes = record { encode = λ o. ok (maybe_to_bytes o); decode = maybe_of_bytes }

maybe_read : (o : Option Bytes) (b : Bytes) → ok (maybe_to_bytes o) ≡ ok b → maybe_of_bytes b ≡ ok o
maybe_read none b h = ground arith
maybe_read (some a) b h = ground arith

pub maybes-IsRoundTrip : IsRoundTrip maybes
maybes-IsRoundTrip = record { decode-encode = maybe_read }

-- In place of base64: each number in unary, with an end mark.
abbrev unary : ℕ → String → String
unary zero s = "b" <> s
unary (suc n) s = "a" <> unary n s

abbrev pub to_text : Bytes → String
to_text [] = ""
to_text (n ∷ b) = unary n (to_text b)

abbrev read_from : ℕ → String → Bytes
read_from k String.[] = []
read_from k (String.◌∷◌ c s) = if code c == b'a' then read_from (suc k) s else k ∷ read_from 0 s

abbrev pub of_text : String → Result Bytes
of_text s = ok (read_from 0 s)

read_unary : (k n : ℕ) (s : String) → read_from k (unary n s) ≡ (k + n) ∷ read_from 0 s
read_unary k zero s = rw (cons-append, nil-append) (ap (λ m. m ∷ read_from 0 s) (omega arith))
read_unary k (suc n) s =
    rw (cons-append, nil-append)
      (read_unary (suc k) n s ∙ ap (λ m. m ∷ read_from 0 s) (omega arith))

read_text : (b : Bytes) → read_from 0 (to_text b) ≡ b
read_text [] = refl
read_text (n ∷ b) =
    read_unary 0 n (to_text b)
    ∙ ap (λ m. m ∷ read_from 0 (to_text b)) (omega arith)
    ∙ ap (◌∷◌ n) (read_text b)

pub of_text-to_text : (b : Bytes) → of_text (to_text b) ≡ ok b
of_text-to_text b = ap ok (read_text b)

-- Text as bytes, for the two letters.
abbrev pub codes : String → Bytes
codes String.[] = []
codes (String.◌∷◌ c s) = code c ∷ codes s

abbrev letters : Bytes → String
letters [] = ""
letters (n ∷ b) = if n == b'a' then "a" <> letters b else "b" <> letters b

abbrev pub of_codes : Bytes → Result String
of_codes b = ok (letters b)

letters-unary : (n : ℕ) (s : String) → letters (codes (unary n s)) ≡ unary n (letters (codes s))
letters-unary zero s = rw (cons-append, nil-append) refl
letters-unary (suc n) s = rw (cons-append, nil-append) (ap (λ t. "a" <> t) (letters-unary n s))

letters_text : (b : Bytes) → letters (codes (to_text b)) ≡ to_text b
letters_text [] = refl
letters_text (n ∷ b) = letters-unary n (to_text b) ∙ ap (unary n) (letters_text b)

pub of_codes-codes : (b : Bytes) → of_codes (codes (to_text b)) ≡ ok (to_text b)
of_codes-codes b = ap ok (letters_text b)

abbrev minus : ℤ → ℤ → ℤ
minus (pos a) (pos b) = sub_ℕ a b
minus x y = sub_ℕ (pos_part x + neg_part y) (neg_part x + pos_part y)

abbrev times : ℤ → ℤ → ℤ
times x (pos n) = scale x n
times x y = sub_ℕ (neg_part x * neg_part y) (pos_part x * neg_part y)

abbrev over : ℤ → ℤ → ℤ
over x (pos n) = trunc_div x n
over x y = sub_ℕ (neg_part x / neg_part y) (pos_part x / neg_part y)

-- Integers without bounds.
abbrev pub unbounded : Int256
unbounded = record {
  u_add = λ a b. ok (a + b);
  u_mul = λ a b. ok (a * b);
  i_try_from = λ n. ok (pos n);
  i_sub = λ x y. ok (minus x y);
  i_mul = λ x y. ok (times x y);
  i_div = λ x y. ok (over x y);
}

pub unbounded-IsExact : IsExact unbounded
unbounded-IsExact = record {
  add = λ a b h. refl;
  mul = λ a b h. refl;
  signed = λ n h. refl;
  sub = λ a b h k. refl;
  times = λ x n h k. refl;
  over = λ x n h. refl;
}
