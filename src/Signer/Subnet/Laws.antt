-- ===== src/Signer/Subnet/Laws.antt =====
-- Printing and reading subnet IDs.
use text.Mathlib.TextLemmas.{nil-append, cons-append, append-nil}
use text.Mathlib.TextPositions.{starts_with-append}
use Prim.Native.Char.{Char}
use basin.Prelude.{
  ℕ, ◌<◌, String, ◌<>◌, str_eq, eq_iff, starts_with, drop_text, ◌≡◌, refl, ◌∙◌, ap, sym, subst,
  List, [], ◌∷◌, map, false, arith, Lacks, decimal, u64_mod, Bool-cases, inl, inr,
}
use basin.Prelude.Decimal.{parse_u64-decimal, parse_u64-lt, decimal-Lacks}
use basin.Result.{Result, ok, err, halt, ◌>>=◌}
use basin.Result.Laws.{ok_or-eq-ok}
use basin.Foreign.{Foreign}
use basin.Provider.Util.{parse_address}
use basin.Signer.Subnet.{
  SubnetId, subnet_text, subnet_of_text, children_text, parse_children, parse_segments, skip_one,
}
use basin.Signer.Subnet.Split.{split, split-append, split-Lacks}

-- What the code relies on of `ipc_api::subnet_id::SubnetID` and of addresses: a subnet made of a
-- root and children has them, the default subnet is the root 0, and an address is read back from
-- its text, in which no `/` stands.
pub record IsSubnetText (F : Foreign) : Type 0 where
  pub root_id-new : (r : ℕ) (cs : List F.Address) → F.real_root_id (F.real_new r cs) ≡ r
  pub children-new : (r : ℕ) (cs : List F.Address) → F.real_children (F.real_new r cs) ≡ cs
  pub default-new : F.real_default ≡ F.real_new 0 []
  pub parse-text : (a : F.Address) → parse_address F (F.address_text a) ≡ ok a
  pub text-Lacks : (a : F.Address) → Lacks b'/' (F.address_text a)

abbrev slash : Char
slash = "/"

drop_text-r : (s : String) → drop_text 1 ("r" <> s) ≡ s
drop_text-r s = rw (cons-append, nil-append)

module _ (F : Foreign) where
  abbrev real_subnet : ℕ → List F.Address → SubnetId F
  real_subnet root cs = record { faux = ""; real = F.real_new root cs }

  both_read :
      (r : Result ℕ) (c : Result (List F.Address)) (id : SubnetId F)
      → (r >>= λ root. c >>= λ cs. ok (real_subnet root cs)) ≡ ok id
      → (root : ℕ) × (cs : List F.Address) × (r ≡ ok root) × (real_subnet root cs ≡ id)
  both_read (ok root) (ok cs) id h = (root, cs, refl, cc)
  both_read (ok root) (err e) id h = cc
  both_read (ok root) (halt e) id h = cc
  both_read (err e) c id h = cc
  both_read (halt e) c id h = cc

module _ (F : Foreign) (law : IsSubnetText F) where
  split_children :
      (cs : List F.Address) (p : String)
      → Lacks b'/' p
      → split b'/' (p <> children_text F cs) ≡ p ∷ map F.address_text cs
  unfolding children_text
  split_children [] p h = rw append-nil (split-Lacks b'/' p h)
  split_children (a ∷ cs) p h =
      rw (cons-append, nil-append, cons-append)
        (split-append b'/' slash p (F.address_text a <> children_text F cs) refl h
          ∙ ap (◌∷◌ p) (split_children cs (F.address_text a) (law.text-Lacks a)))

  parse_children-text :
      (id : String) (cs : List F.Address) → parse_children F id (map F.address_text cs) ≡ ok cs
  unfolding parse_children
  parse_children-text id [] = refl
  parse_children-text id (a ∷ cs) = rw (law.parse-text a, parse_children-text id cs)

  split_subnet :
      (r : ℕ) (cs : List F.Address)
      → r < u64_mod
      → skip_one F (split b'/' ("/r" <> (decimal r <> children_text F cs)))
        ≡ ("r" <> decimal r) ∷ map F.address_text cs
  unfolding skip_one split
  split_subnet r cs h = rw (
    cons-append,
    cons-append,
    nil-append,
    split_children cs (decimal r) (decimal-Lacks r h),
    cons-append,
    nil-append,
  )

  pub subnet_of_text-real :
      (r : ℕ) (cs : List F.Address)
      → r < u64_mod
      → subnet_of_text F (subnet_text F (record { faux = ""; real = F.real_new r cs }))
        ≡ ok (record { faux = ""; real = F.real_new r cs })
  unfolding subnet_of_text subnet_text
  subnet_of_text-real r cs h = rw (
    law.root_id-new,
    law.children-new,
    starts_with-append "/r" (decimal r <> children_text F cs),
    split_subnet r cs h,
    drop_text-r,
    parse_u64-decimal r h,
    parse_children-text,
  )

  abbrev Reads : SubnetId F → Type 0
  Reads id = subnet_of_text F (subnet_text F id) ≡ ok id

  segments-Reads :
      (text : String) (segments : List String) (id : SubnetId F)
      → parse_segments F text segments ≡ ok id
      → Reads id
  unfolding parse_segments
  segments-Reads text [] id h = cc
  segments-Reads text (s ∷ segments) id h =
      let (root, cs, r, same) = both_read F _ (parse_children F text segments) id h in
      subst Reads same
        (subnet_of_text-real root cs (parse_u64-lt (drop_text 1 s) root (ok_or-eq-ok _ _ r)))

  named-Reads :
      (s : String) (id : SubnetId F)
      → starts_with s "/r" ≡ false
      → record { faux = s; real = F.real_default } ≡ id
      → Reads id
  unfolding subnet_of_text subnet_text
  named-Reads s id name same = elim (Bool-cases (str_eq s "")) [
    | inl nameless ↦ subst Reads (rw ((eq_iff s "").0 nameless) at same) (
        subst (λ x. Reads (record { faux = ""; real = x })) (sym law.default-new)
          (subnet_of_text-real 0 [] (omega arith)))
    | inr named ↦ subst Reads same (rw (named, name))
  ]

  -- If the library keeps the root and the children of a subnet that is made of them, and reads an
  -- address back from its text, which has no `/`: every subnet ID that is read from a text, a
  -- plain name or a path, prints to a text that is read as the same ID.
  pub subnet_text-Reads : (s : String) (id : SubnetId F) → subnet_of_text F s ≡ ok id → Reads id
  unfolding subnet_of_text
  subnet_text-Reads s id h = elim (Bool-cases (starts_with s "/r")) [
    | inl path ↦ segments-Reads s (skip_one F (split b'/' s)) id (rw path at h)
    | inr name ↦ named-Reads s id name (ground (arith, rw name at h))
  ]
