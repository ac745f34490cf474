-- ===== src/Signer/Key/Laws.antt =====
-- How a secret key may be written.
use text.Mathlib.TextLemmas.{nil-append, cons-append}
use text.Mathlib.TextPositions.{starts_with-append}
use basin.Prelude.{
  String, ◌<>◌, ◌≡◌, refl, sym, subst, ap, ◌∙◌, false, trim, starts_with, drop_text,
}
use basin.Prelude.Trim.{AllBlank, NoBlank, trim-between, trim-solid}
use basin.Foreign.{Foreign}
use basin.Signer.Key.{parse_secret_key}

module _ (F : Foreign) where
  trimmed-same : (s t : String) → trim s ≡ trim t → parse_secret_key F s ≡ parse_secret_key F t
  unfolding parse_secret_key
  trimmed-same s t h = rw h refl

  prefix-eq : (hex : String) → "0x" <> hex ≡ String.◌∷◌ "0" (String.◌∷◌ "x" hex)
  prefix-eq hex =
      cons-append "0" "x" hex
      ∙ ap (String.◌∷◌ "0") (cons-append "x" "" hex ∙ ap (String.◌∷◌ "x") (nil-append hex))

  -- The prefix is taken off a trimmed text once.
  prefixed-same :
      (s hex : String)
      → trim s ≡ "0x" <> hex
      → trim hex ≡ hex
      → starts_with hex "0x" ≡ false
      → parse_secret_key F s ≡ parse_secret_key F hex
  unfolding parse_secret_key
  prefixed-same s hex h solid plain =
      let off : drop_text 2 ("0x" <> hex) ≡ hex = ap (drop_text 2) (prefix-eq hex) in
      rw (h, starts_with-append "0x" hex, off, solid, plain) refl

  -- Whatever the blanks around a key that has none in it, it is read as without them. So it is with
  -- `0x` in front of it, unless the key begins with `0x` itself.
  pub parse_secret_key-written :
      (a hex b : String)
      → AllBlank a
      → NoBlank hex
      → AllBlank b
      → starts_with hex "0x" ≡ false
      → (parse_secret_key F (a <> (hex <> b)) ≡ parse_secret_key F hex)
        × (parse_secret_key F (a <> (("0x" <> hex) <> b)) ≡ parse_secret_key F hex)
  parse_secret_key-written a hex b h k l plain = (
    trimmed-same _ _ (trim-between a hex b h k l ∙ sym (trim-solid hex k)),
    prefixed-same _ hex
        (trim-between a ("0x" <> hex) b h (subst NoBlank (sym (prefix-eq hex)) (refl, (refl, k))) l)
        (trim-solid hex k) plain,
  )
