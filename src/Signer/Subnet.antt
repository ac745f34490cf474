-- ===== src/Signer/Subnet.antt =====
-- signer/src/subnet.rs: subnet IDs, which stand for a named network or for a path in the hierarchy.
pub mod Split
pub mod Laws
pub mod Chain
use basin.Prelude.{
  ℕ, ◌%◌, String, ◌<>◌, str_eq, starts_with, drop_text, decimal, parse_u64, Option, none, some,
  List, [], ◌∷◌, if◌then◌else◌,
}
use basin.Result.{Result, ok, err, halt, panic, message, text, map_err, ok_or, ◌>>=◌}
use basin.Foreign.{Foreign}
use basin.Provider.Util.{parse_address}
use Split.{split}

module _ (F : Foreign) where
  pub record SubnetId : Type 0 where
    -- the name of a network with no real parent, or empty
    pub faux : String
    pub real : F.RealSubnet

  unfoldable pub inner : SubnetId → F.RealSubnet
  inner id = id.real

  unfoldable pub parent : SubnetId → Result SubnetId
  unfolding inner
  parent id = elim (F.real_parent (inner id)) [
    | some p ↦ ok (record { faux = ""; real = p })
    | none ↦ err (message "subnet has no parent")
  ]

  name_hash : String → ℕ
  name_hash name = F.fnv_hash (F.as_bytes name) % F.max_chain_id

  unfoldable pub chain_id : SubnetId → ℕ
  unfolding name_hash
  chain_id id =
      if F.real_is_root id.real
      then (if str_eq id.faux "" then F.real_root_id id.real else name_hash id.faux)
      else F.real_chain_id id.real

  children_text : List F.Address → String
  children_text [] = ""
  children_text (a ∷ others) = ("/" <> F.address_text a) <> children_text others

  -- `Display`
  unfoldable pub subnet_text : SubnetId → String
  unfolding children_text
  subnet_text id =
      if str_eq id.faux ""
      then "/r" <> (decimal (F.real_root_id id.real) <> children_text (F.real_children id.real))
      else id.faux

  -- The loop over `segments[1..]`.
  parse_children : String → List String → Result (List F.Address)
  parse_children id [] = ok []
  parse_children id (s ∷ segments) = do
    a ←
        map_err (λ e. F.invalid_id id ("invalid child address " <> s <> ": " <> text e))
          (parse_address F s)
    others ← parse_children id segments
    ok (a ∷ others)

  -- From `segments[0]` on, which a text that begins with `/r` always has.
  parse_segments : String → List String → Result SubnetId
  parse_segments id [] = halt (panic "index out of bounds")
  parse_segments id (first ∷ segments) = do
    root ← ok_or (F.invalid_id id "invalid root ID") (parse_u64 (drop_text 1 first))
    children ← parse_children id segments
    ok (record { faux = ""; real = F.real_new root children })

  skip_one : List String → List String
  skip_one [] = []
  skip_one (s ∷ segments) = segments

  -- `FromStr`
  unfoldable pub subnet_of_text : String → Result SubnetId
  unfolding parse_segments parse_children skip_one
  subnet_of_text id =
      if starts_with id "/r"
      then parse_segments id (skip_one (split b'/' id))
      else ok (record { faux = id; real = F.real_default })
