-- ===== src/Prelude/Trim.antt =====
-- What `str::trim` leaves of a text between blanks.
use Prim.Native.Char.{Char, code}
use Prim.Native.String.{String}
use mathlib.Core.Path.{◌≡◌, refl, sym, ap, ◌∙◌}
use mathlib.Core.Bool.{true, false}
use text.Mathlib.TextLemmas.{nil-append, append-nil, cons-append}
use basin.Prelude.Strings.{◌<>◌, is_whitespace, trim, trim_start, trim_end, keep}

abbrev pub AllBlank : String → Type 0
AllBlank String.[] = Unit
AllBlank (String.◌∷◌ c s) = (is_whitespace (code c) ≡ true) × AllBlank s

abbrev pub NoBlank : String → Type 0
NoBlank String.[] = Unit
NoBlank (String.◌∷◌ c s) = (is_whitespace (code c) ≡ false) × NoBlank s

trim_end-blank : (b : String) → AllBlank b → trim_end b ≡ ""
unfolding trim_end
trim_end-blank String.[] h = refl
trim_end-blank (String.◌∷◌ c b) h = rw (trim_end-blank b h.1, h.0) refl

keep-solid : (c : Char) (s : String) → is_whitespace (code c) ≡ false → keep c s ≡ String.◌∷◌ c s
unfolding keep
keep-solid c String.[] h = rw h
keep-solid c (String.◌∷◌ d s) h = refl

trim_end-append : (x b : String) → NoBlank x → AllBlank b → trim_end (x <> b) ≡ x
unfolding trim_end
trim_end-append String.[] b h k = ap trim_end (nil-append b) ∙ trim_end-blank b k
trim_end-append (String.◌∷◌ c x) b h k =
    ap trim_end (cons-append c x b) ∙ ap (keep c) (trim_end-append x b h.1 k) ∙ keep-solid c x h.0

trim_start-append : (a t : String) → AllBlank a → trim_start (a <> t) ≡ trim_start t
unfolding trim_start
trim_start-append String.[] t h = ap trim_start (nil-append t)
trim_start-append (String.◌∷◌ c a) t h =
    ap trim_start (cons-append c a t) ∙ rw (h.0) (trim_start-append a t h.1)

trim_start-blank : (b : String) → AllBlank b → trim_start b ≡ ""
unfolding trim_start
trim_start-blank String.[] h = refl
trim_start-blank (String.◌∷◌ c b) h = rw (h.0) (trim_start-blank b h.1)

trim_start-solid : (x b : String) → NoBlank x → AllBlank b → trim_end (trim_start (x <> b)) ≡ x
unfolding trim_start trim_end
trim_start-solid String.[] b h k =
    ap (λ t. trim_end (trim_start t)) (nil-append b) ∙ ap trim_end (trim_start-blank b k)
trim_start-solid (String.◌∷◌ c x) b h k =
    ap (λ t. trim_end (trim_start t)) (cons-append c x b)
    ∙ rw (h.0) (ap trim_end (sym (cons-append c x b)) ∙ trim_end-append (String.◌∷◌ c x) b h k)

-- Blanks on both sides are taken off a text that has none.
pub trim-between : (a x b : String) → AllBlank a → NoBlank x → AllBlank b → trim (a <> (x <> b)) ≡ x
unfolding trim
trim-between a x b h k l = ap trim_end (trim_start-append a (x <> b) h) ∙ trim_start-solid x b k l

pub trim-solid : (x : String) → NoBlank x → trim x ≡ x
trim-solid x h = ap trim (sym (nil-append (x <> "") ∙ append-nil x)) ∙ trim-between "" x "" tt h tt
