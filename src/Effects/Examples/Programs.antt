-- ===== src/Effects/Examples/Programs.antt =====
-- sdk/examples: all programs.
use basin.Prelude.{ℕ, String, List, ◌≡◌, true}
use basin.Result.{is_ok}
use basin.Run.{Run}
use basin.Foreign.{Foreign}
use basin.Examples.Account.{account_create, account_balance, account_deposit}
use basin.Examples.Accumulator.{accumulator_push}
use basin.Examples.Objectstore.{objectstore_add}
use basin.Effects.{Reaches, beside}
use basin.Effects.Examples.{Counts, Submissions}
use basin.Effects.Examples.Account.{
  account_create-Counts, account_balance-Counts, account_deposit-Counts,
}
use basin.Effects.Examples.Accumulator.{accumulator_push-Counts}
use basin.Effects.Examples.Objectstore.{objectstore_add-Counts}

pub data Program : Type 0 where
  new_account own_balance fund_account fill_accumulator fill_store : Program

-- How many transactions a program is to submit: one deposits funds, one creates an accumulator and
-- pushes, and one creates an object store and adds an object.
abbrev pub program_submits : Program → ℕ
program_submits new_account = 0
program_submits own_balance = 0
program_submits fund_account = 1
program_submits fill_accumulator = 2
program_submits fill_store = 2

module _ (F : Foreign) where
  abbrev pub run_program : Program → List String → Run (F.Console × F.World) (Unit {0})
  run_program new_account args = account_create F
  run_program own_balance args = account_balance F args
  run_program fund_account args = account_deposit F args
  run_program fill_accumulator args = accumulator_push F args
  run_program fill_store args = objectstore_add F args

  program-Counts :
      (program : Program) (args : List String)
      → Counts F (beside F) (program_submits program) (run_program program args)
  program-Counts new_account args = account_create-Counts F
  program-Counts own_balance args = account_balance-Counts F args
  program-Counts fund_account args = account_deposit-Counts F args
  program-Counts fill_accumulator args = accumulator_push-Counts F args
  program-Counts fill_store args = objectstore_add-Counts F args

  module _ (program : Program) (args : List String) (c : F.Console) (w : F.World) where
    -- Whatever its outcome, the example that deposits submits at most one transaction, those that
    -- create a machine and write to it submit at most two, and the other examples submit none.
    pub program-at_most :
        Reaches F (program_submits program) w (run_program program args (c, w)).1.1
    program-at_most = (program-Counts program args).at_most (c, w)

    -- If it succeeds, the example that deposits submitted exactly one transaction, those that create
    -- a machine and write to it exactly two, one after the other, and the other examples none.
    pub program-exactly :
        is_ok (run_program program args (c, w)).0 ≡ true
        → Submissions F (program_submits program) w (run_program program args (c, w)).1.1
    program-exactly h = (program-Counts program args).exactly (c, w) h
