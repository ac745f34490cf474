-- ===== src/Signer/Subnet/Chain.antt =====
-- The chain IDs of subnet IDs, and their parents.
use native.Mathlib.Nat.{mod-lt}
use basin.Prelude.{
  ◌<◌, String, str_eq, eq_iff, starts_with, ◌≡◌, ◌≢◌, true, false, none, arith, subst, Bool-cases,
  inl, inr,
}
use basin.Result.{ok, err, message}
use basin.Foreign.{Foreign}
use basin.Signer.Subnet.{SubnetId, subnet_of_text, chain_id, parent}

module _ (F : Foreign) where
  abbrev IsOrphan : SubnetId F → Type 0
  IsOrphan id =
      (chain_id F id < F.max_chain_id) × (parent F id ≡ err (message "subnet has no parent"))

  named : String → SubnetId F
  named s = record { faux = s; real = F.real_default }

  named-IsOrphan :
      (s : String)
      → F.real_is_root F.real_default ≡ true
      → F.real_parent F.real_default ≡ none
      → 0 < F.max_chain_id
      → s ≢ ""
      → IsOrphan (named s)
  unfolding named chain_id parent
  named-IsOrphan s root orphan bound ne = elim (Bool-cases (str_eq s "")) [
    | inl empty ↦ absurd (ne ((eq_iff s "").0 empty))
    | inr full ↦ (rw (root, full) (mod-lt _ bound), rw (orphan, parent))
  ]

  -- If the default subnet is a root with no parent: a name that is not empty and does not begin
  -- with `/r` is read as a network with no parent, whose chain ID is below the greatest one.
  pub named_network :
      (s : String) (id : SubnetId F)
      → F.real_is_root F.real_default ≡ true
      → F.real_parent F.real_default ≡ none
      → 0 < F.max_chain_id
      → starts_with s "/r" ≡ false
      → s ≢ ""
      → subnet_of_text F s ≡ ok id
      → (chain_id F id < F.max_chain_id) × (parent F id ≡ err (message "subnet has no parent"))
  unfolding subnet_of_text named
  named_network s id root orphan bound name ne h =
      subst IsOrphan (ground (arith, rw name at h)) (named-IsOrphan s root orphan bound ne)
