-- ===== src/Cli/Account/Networks.antt =====
-- The networks on which the commands of the account move no funds.
use basin.Prelude.{◌≡◌, ◌≢◌, refl, ap, ◌∙◌, inl, inr, Bool, true, false, String, none}
use basin.Result.{Result, ok, err, halt, is_ok}
use basin.Run.{Run, proceed}
use basin.Foreign.{Foreign}
use basin.Provider.JsonRpc.{JsonRpcProvider}
use basin.Signer.Subnet.{SubnetId}
use basin.Cli.Choice
use basin.Cli.{Cli, get_subnet_id, get_subnet_config, get_parent_subnet_config}
use basin.Cli.Laws.{subnet_config_testnet}
use basin.Cli.Command.{Document, rpc_provider, printing}
use basin.Cli.Account.{
  AccountCommands, create, info, deposit_funds, withdraw_funds, transfer_funds, handle_account,
  run_account, deposit_from_parent, withdraw_to_parent, transfer_within,
}

-- The commands that move funds.
abbrev pub moves_funds : {F : Foreign} → AccountCommands F → Bool
moves_funds create = false
moves_funds (info a) = false
moves_funds (deposit_funds a) = true
moves_funds (withdraw_funds a) = true
moves_funds (transfer_funds a) = true

-- No success, and the state as it was.
abbrev pub Stops : {S A : Type 0} → Run S A → S → Type 0
Stops m s = ((m s).1 ≡ s) × (is_ok (m s).0 ≡ false)

proceed-Stops :
    {S A B : Type 0} (r : Result A) (f : A → Run S B) (s : S)
    → ((a : A) → r ≡ ok a → Stops (f a) s)
    → Stops (proceed r f) s
proceed-Stops (ok a) f s h = h a refl
proceed-Stops (err e) f s h = (refl, refl)
proceed-Stops (halt x) f s h = (refl, refl)

module _ (F : Foreign) (cli : Cli F) (elsewhere : cli.network ≢ Choice.testnet) where
  run_account-Stops :
      (id : SubnetId F) (p : JsonRpcProvider F) (command : AccountCommands F) (w : F.World)
      → moves_funds command ≡ true
      → Stops (run_account F cli id p command) w
  unfolding run_account deposit_from_parent withdraw_to_parent transfer_within
  run_account-Stops id p create w h = cc
  run_account-Stops id p (info a) w h = cc
  run_account-Stops id p (deposit_funds a) w h =
      proceed-Stops (get_parent_subnet_config F cli id a.subnet) _ w
        λ config e. absurd (elsewhere (subnet_config_testnet F cli id a.subnet config (inr e)).0)
  run_account-Stops id p (withdraw_funds a) w h =
      proceed-Stops (get_subnet_config F cli id a.subnet) _ w
        λ config e. absurd (elsewhere (subnet_config_testnet F cli id a.subnet config (inl e)).0)
  run_account-Stops id p (transfer_funds a) w h =
      proceed-Stops (get_subnet_config F cli id a.subnet) _ w
        λ config e. absurd (elsewhere (subnet_config_testnet F cli id a.subnet config (inl e)).0)

printing-Stops :
    (F : Foreign) (pretty : Document F → Result String) (m : Run F.World (Document F))
    (c : F.Console) (w : F.World)
    → Stops m w
    → Stops (printing F pretty m) (c, w)
unfolding printing
printing-Stops F pretty m c w (same, failed) =
    let (kept, stopped) = proceed-Stops (m w).0 _ (c, (m w).1) λ d e. cc in
    (kept ∙ ap (λ v. (c, v)) same, stopped)

-- On any network but the test network no command of the account moves funds: a deposit, a withdrawal
-- and a transfer fail whatever their arguments and the overrides are, nothing is sent and nothing
-- printed.
pub funds-elsewhere :
    (F : Foreign) (pretty : Document F → Result String) (cli : Cli F) (command : AccountCommands F)
    (c : F.Console) (w : F.World)
    → cli.network ≢ Choice.testnet
    → moves_funds command ≡ true
    → Stops (handle_account F pretty cli command) (c, w)
unfolding handle_account
funds-elsewhere F pretty cli command c w elsewhere moves =
    proceed-Stops (rpc_provider F cli none) _ (c, w)
      λ p _.
        proceed-Stops (get_subnet_id F cli) _ (c, w)
          λ id _.
            printing-Stops F pretty _ c w (run_account-Stops F cli elsewhere id p command w moves)
