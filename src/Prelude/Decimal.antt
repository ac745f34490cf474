-- ===== src/Prelude/Decimal.antt =====
-- `u64::to_string` and `str::parse::<u64>` of Rust's standard library.
use Prim.Native.Nat.{ℕ, zero, suc, ◌+◌, ◌-◌, ◌*◌, ◌/◌, ◌%◌, ◌^◌, ◌<◌}
use Prim.Native.Char.{code}
use Prim.Native.String.{String}
use mathlib.Core.Path.{◌≡◌, refl, ◌∙◌, ap}
use mathlib.Core.Bool.{Bool, ◌&&◌, false}
use mathlib.Core.Option.{Option, none, some, none-ne-some}
use native.Mathlib.Omega.{arith}
use text.Mathlib.TextLemmas.{nil-append, cons-append, cons≢nil, append-ne-nil_of_right_ne-nil}
use basin.Prelude.Tests.{◌==◌, ltb, leb, if◌then◌else◌, Bool-cases}
use basin.Prelude.Strings.{◌<>◌, Lacks}
use mathlib.Core.Logic.{inl, inr, ◌≢◌}

abbrev pub u64_mod : ℕ
u64_mod = 2 ^ 64

digit : ℕ → String
digit zero = "0"
digit (suc zero) = "1"
digit (suc (suc zero)) = "2"
digit (suc (suc (suc zero))) = "3"
digit (suc (suc (suc (suc zero)))) = "4"
digit (suc (suc (suc (suc (suc zero))))) = "5"
digit (suc (suc (suc (suc (suc (suc zero)))))) = "6"
digit (suc (suc (suc (suc (suc (suc (suc zero))))))) = "7"
digit (suc (suc (suc (suc (suc (suc (suc (suc zero)))))))) = "8"
digit _ = "9"

-- The last digit is written last. The fuel bounds the number of digits.
print : ℕ → ℕ → String
print zero n = ""
print (suc f) n =
    let more = print f (n / 10) <> digit (n % 10) in if ltb n 10 then digit n else more

unfoldable pub decimal : ℕ → String
unfolding print digit
decimal n = print (suc n) n

unfoldable pub is_digit : ℕ → Bool
is_digit c = leb b'0' c && leb c b'9'

-- One digit more, unless the number leaves the 64 bits.
unfoldable pub scan : String → ℕ → Option ℕ
scan String.[] n = some n
scan (String.◌∷◌ c s) n =
    if is_digit (code c) && ltb (n * 10 + (code c - b'0')) u64_mod
    then scan s (n * 10 + (code c - b'0'))
    else none

after_sign : String → Option ℕ
after_sign String.[] = none
after_sign (String.◌∷◌ c s) = scan (String.◌∷◌ c s) 0

-- A leading `+` is allowed, and at least one digit is asked for.
unfoldable pub parse_u64 : String → Option ℕ
unfolding scan is_digit after_sign
parse_u64 String.[] = none
parse_u64 (String.◌∷◌ c s) = if code c == b'+' then after_sign s else scan (String.◌∷◌ c s) 0

decimal_test : decimal 649564385343980 ≡ "649564385343980"
unfolding decimal
decimal_test = refl

parse_test : parse_u64 "+42" ≡ some 42
unfolding parse_u64
parse_test = refl

parse_overflow_test : parse_u64 "18446744073709551616" ≡ none
unfolding parse_u64
parse_overflow_test = refl

scan-digit : (d m : ℕ) → d < 10 → m * 10 + d < u64_mod → scan (digit d) m ≡ some (m * 10 + d)
unfolding scan digit is_digit
scan-digit zero m h k = ground arith
scan-digit (suc zero) m h k = ground arith
scan-digit (suc (suc zero)) m h k = ground arith
scan-digit (suc (suc (suc zero))) m h k = ground arith
scan-digit (suc (suc (suc (suc zero)))) m h k = ground arith
scan-digit (suc (suc (suc (suc (suc zero))))) m h k = ground arith
scan-digit (suc (suc (suc (suc (suc (suc zero)))))) m h k = ground arith
scan-digit (suc (suc (suc (suc (suc (suc (suc zero))))))) m h k = ground arith
scan-digit (suc (suc (suc (suc (suc (suc (suc (suc zero)))))))) m h k = ground arith
scan-digit (suc (suc (suc (suc (suc (suc (suc (suc (suc zero))))))))) m h k = ground arith
scan-digit (suc (suc (suc (suc (suc (suc (suc (suc (suc (suc d)))))))))) m h k =
    absurd (omega arith)

scan-append : (s t : String) (m k : ℕ) → scan s m ≡ some k → scan (s <> t) m ≡ scan t k
unfolding scan
scan-append String.[] t m k h = rw (nil-append t) (ground arith)
scan-append (String.◌∷◌ c s) t m k h =
    rw (cons-append c s t) (ground (arith, scan-append s t (m * 10 + (code c - b'0')) k))

-- Reading the printed digits gives the number back.
scan-print : (f n : ℕ) → n < f → n < u64_mod → scan (print f n) 0 ≡ some n
unfolding print
scan-print zero n h k = absurd (omega arith)
scan-print (suc f) n h k = elim (Bool-cases (ltb n 10)) [
  | inl small ↦ rw small (scan-digit n 0 (ground arith) (omega arith) ∙ ap some (omega arith))
  | inr large ↦ rw large (
      scan-append (print f (n / 10)) (digit (n % 10)) 0 (n / 10)
        (scan-print f (n / 10) (ground arith) (omega arith))
      ∙ scan-digit (n % 10) (n / 10) (omega arith) (omega arith)
      ∙ ap some (omega arith))
]

digit-ne-nil : (d : ℕ) → digit d ≢ ""
unfolding digit
digit-ne-nil zero e = cons≢nil e
digit-ne-nil (suc zero) e = cons≢nil e
digit-ne-nil (suc (suc zero)) e = cons≢nil e
digit-ne-nil (suc (suc (suc zero))) e = cons≢nil e
digit-ne-nil (suc (suc (suc (suc zero)))) e = cons≢nil e
digit-ne-nil (suc (suc (suc (suc (suc zero))))) e = cons≢nil e
digit-ne-nil (suc (suc (suc (suc (suc (suc zero)))))) e = cons≢nil e
digit-ne-nil (suc (suc (suc (suc (suc (suc (suc zero))))))) e = cons≢nil e
digit-ne-nil (suc (suc (suc (suc (suc (suc (suc (suc zero)))))))) e = cons≢nil e
digit-ne-nil _ e = cons≢nil e

print-ne-nil : (f n : ℕ) → 0 < f → print f n ≢ ""
unfolding print
print-ne-nil zero n h e = absurd (omega arith)
print-ne-nil (suc f) n h e = elim (Bool-cases (ltb n 10)) [
  | inl small ↦ digit-ne-nil n (rw small at e)
  | inr large ↦ append-ne-nil_of_right_ne-nil _ (digit-ne-nil (n % 10)) (rw large at e)
]

scanned : (s : String) (k : ℕ) → s ≢ "" → scan s 0 ≡ some k → parse_u64 s ≡ some k
unfolding parse_u64 scan is_digit after_sign
scanned String.[] k ne h = absurd (ne refl)
scanned (String.◌∷◌ c s) k ne h = ground arith

-- Reading the digits of a decimal text, which is not empty.
pub scan-decimal : (n : ℕ) → n < u64_mod → scan (decimal n) 0 ≡ some n
unfolding decimal
scan-decimal n h = scan-print (suc n) n (omega arith) h

pub decimal-ne-nil : (n : ℕ) → decimal n ≢ ""
unfolding decimal
decimal-ne-nil n = print-ne-nil (suc n) n (omega arith)

pub parse_u64-decimal : (n : ℕ) → n < u64_mod → parse_u64 (decimal n) ≡ some n
unfolding decimal
parse_u64-decimal n h =
    scanned (print (suc n) n) n (print-ne-nil (suc n) n (omega arith))
      (scan-print (suc n) n (omega arith) h)

scan-lt : (s : String) (m k : ℕ) → m < u64_mod → scan s m ≡ some k → k < u64_mod
unfolding scan
scan-lt String.[] m k h e = ground arith
scan-lt (String.◌∷◌ c s) m k h e = ground (arith, scan-lt s (m * 10 + (code c - b'0')) k)

-- A number that was read fits 64 bits.
pub parse_u64-lt : (s : String) (n : ℕ) → parse_u64 s ≡ some n → n < u64_mod
unfolding parse_u64
parse_u64-lt String.[] n e = absurd (none-ne-some n e)
parse_u64-lt (String.◌∷◌ c String.[]) n e = ground (arith, scan-lt (String.◌∷◌ c "") 0 n)
parse_u64-lt (String.◌∷◌ c (String.◌∷◌ d s)) n e =
    ground (arith, scan-lt (String.◌∷◌ c (String.◌∷◌ d s)) 0 n, scan-lt (String.◌∷◌ d s) 0 n)

scan-Lacks : (k : ℕ) (s : String) (m n : ℕ) → is_digit k ≡ false → scan s m ≡ some n → Lacks k s
unfolding scan is_digit
scan-Lacks k String.[] m n h e = tt
scan-Lacks k (String.◌∷◌ c s) m n h e =
    ground (arith, scan-Lacks k s (m * 10 + (code c - b'0')) n h)

pub decimal-Lacks : (n : ℕ) → n < u64_mod → Lacks b'/' (decimal n)
unfolding decimal is_digit
decimal-Lacks n h =
    scan-Lacks b'/' (print (suc n) n) 0 n refl (scan-print (suc n) n (omega arith) h)
