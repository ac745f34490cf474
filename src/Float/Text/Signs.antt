-- ===== src/Float/Text/Signs.antt =====
-- A text is the text of a number with a sign in front of it exactly if it is one without.
use Prim.Native.Char.{code}
use basin.Prelude.{
  ℕ, ◌+◌, String, Bool, true, false, ◌≡◌, ◌==◌, ◌||◌, if◌then◌else◌, Option, none, some, lowers_to,
}
use basin.Float.{F64}
use basin.Float.Text.{
  scan_digits, scan_fraction, exponent_digits, signed_exponent, parse_exponent, parse_number,
  parse_unsigned, parse_f64,
}

-- Both are numbers, or neither is.
abbrev pub Alike : Option F64 → Option F64 → Type 0
Alike none none = Unit
Alike none (some g) = ⊥
Alike (some f) none = ⊥
Alike (some f) (some g) = Unit

-- A text that does not begin with a sign.
abbrev pub IsUnsigned : String → Type 0
IsUnsigned String.[] = Unit
IsUnsigned (String.◌∷◌ c s) = (code c == b'-' ≡ false) × (code c == b'+' ≡ false)

if-Alike :
    (b : Bool) (x y x' y' : Option F64)
    → Alike x x'
    → Alike y y'
    → Alike (if b then x else y) (if b then x' else y')
if-Alike true x y x' y' h k = h
if-Alike false x y x' y' h k = k

exponent-Alike :
    (f g : ℕ → F64) (o : Option ℕ)
    → Alike
        (elim o [ none ↦ none | some e ↦ some (f e) ])
        (elim o [ none ↦ none | some e ↦ some (g e) ])
exponent-Alike f g none = tt
exponent-Alike f g (some e) = tt

signed_exponent-Alike :
    (m down : ℕ) (s : String)
    → Alike (signed_exponent true m down s) (signed_exponent false m down s)
unfolding signed_exponent
signed_exponent-Alike m down String.[] = tt
signed_exponent-Alike m down (String.◌∷◌ c s) =
    if-Alike (code c == b'-') _ _ _ _ (exponent-Alike _ _ (exponent_digits s))
      (exponent-Alike _ _ (exponent_digits (if code c == b'+' then s else String.◌∷◌ c s)))

parse_exponent-Alike :
    (m down : ℕ) (s : String) → Alike (parse_exponent true m down s) (parse_exponent false m down s)
unfolding parse_exponent
parse_exponent-Alike m down String.[] = tt
parse_exponent-Alike m down (String.◌∷◌ c s) =
    if-Alike (code c == b'e' || code c == b'E') _ _ _ _ (signed_exponent-Alike m down s) tt

parse_unsigned-Alike : (s : String) → Alike (parse_unsigned true s) (parse_unsigned false s)
unfolding parse_unsigned parse_number
parse_unsigned-Alike s = if-Alike (lowers_to s "nan") _ _ _ _ tt (
    if-Alike (lowers_to s "inf" || lowers_to s "infinity") _ _ _ _ tt (
      let whole = scan_digits 0 0 s in
      let fraction = scan_fraction whole.value whole.rest in
      if-Alike (whole.count + fraction.count == 0) _ _ _ _ tt
        (parse_exponent-Alike fraction.value fraction.count fraction.rest)))

pub parse_f64-Alike :
    (s : String) → IsUnsigned s → Alike (parse_f64 (String.◌∷◌ "-" s)) (parse_f64 s)
unfolding parse_f64 lowers_to
parse_f64-Alike String.[] h = parse_unsigned-Alike ""
parse_f64-Alike (String.◌∷◌ c s) (no_minus, no_plus) =
    rw (no_minus, no_plus) (parse_unsigned-Alike (String.◌∷◌ c s))
