-- ===== src/Effects.antt =====
-- Which steps a run makes in the world: those of the crates' calls that submit a transaction, to the
-- node or to an Ethereum endpoint, and all others.
pub mod Provider
pub mod Sdk
pub mod Queries
pub mod Evm
pub mod Cli
pub mod Success
pub mod Examples
use basin.Prelude.{
  ℕ, zero, suc, ◌≡◌, sym, subst, String, Option, List, map, Bool, if◌then◌else◌, true, false, some,
  get_elem?,
}
use basin.Prelude.Bytes.{Bytes}
use basin.Result.{Result, ok, err, halt}
use basin.Run.{Run, proceed, done, lift, on_world, on_local, ◌>>=◌}
use basin.Foreign.{Foreign}
use basin.Foreign.Data.{FvmNetwork}
use basin.Foreign.Evm.{Middleware, ContractCall, Eip1559Request}

module _ (F : Foreign) where
  -- The calls that submit a transaction.
  pub data Submits : F.World → F.World → Type 0 where
    async_step :
        (c : F.HttpClient) (b : Bytes) (w : F.World) → Submits w (F.broadcast_tx_async c b w).1
    sync_step :
        (c : F.HttpClient) (b : Bytes) (w : F.World) → Submits w (F.broadcast_tx_sync c b w).1
    commit_step :
        (c : F.HttpClient) (b : Bytes) (w : F.World) → Submits w (F.broadcast_tx_commit c b w).1
    call_step : (c : ContractCall F.types) (w : F.World) → Submits w (F.send_call c w).1
    transfer_step :
        (m : Middleware F.types) (t : Eip1559Request F.types) (w : F.World)
        → Submits w (F.send_transaction m t w).1

  -- All other calls.
  pub data Reads : F.World → F.World → Type 0 where
    query_step :
        (c : F.HttpClient) (b : Bytes) (h : F.Height) (w : F.World)
        → Reads w (F.abci_query c b h w).1
    post_step :
        (url id msg : String) (body : List (Result Bytes)) (n : ℕ) (w : F.World)
        → Reads w (F.post_object url id msg body n w).1
    get_step : (url : String) (r : Option String) (w : F.World) → Reads w (F.get_object url r w).1
    head_step : (url : String) (w : F.World) → Reads w (F.head_object url w).1
    text_step : (r : F.Response) (w : F.World) → Reads w (F.body_text r w).1
    chunk_step :
        (r : F.Response) (i : ℕ) (w v : F.World)
        → get_elem? (map (λ x. x.1) (F.body_chunks r w).0) i ≡ some v
        → Reads w v
    end_step : (r : F.Response) (w : F.World) → Reads w (F.body_chunks r w).1
    balance_step :
        (p : F.EthProvider) (a : F.EthAddress) (w : F.World) → Reads w (F.get_balance p a w).1
    block_step : (m : Middleware F.types) (w : F.World) → Reads w (F.latest_base_fee m w).1
    history_step : (m : Middleware F.types) (w : F.World) → Reads w (F.fee_history m w).1
    await_step : (t : F.PendingTx) (n : ℕ) (w : F.World) → Reads w (F.await_retries t n w).1
    receipt_step : (t : F.PendingTx) (w : F.World) → Reads w (F.await_receipt t w).1
    open_step : (s : String) (w : F.World) → Reads w (F.file_open s w).1
    is_file_step : (f : F.File) (w : F.World) → Reads w (F.file_is_file f w).1
    input_step : (i : F.Input) (w : F.World) → Reads w (F.open_input i w).1
    read_step : (r : F.InputReader) (w : F.World) → Reads w (F.read_to_end r w).1
    key_step : (w : F.World) → Reads w (F.random_key w).1
    temp_step : (w : F.World) → Reads w (F.temp_file w).1
    write_step : (b : Bytes) (f : F.File) (w : F.World) → Reads w (F.file_write_all b f w).1
    flush_step : (f : F.File) (w : F.World) → Reads w (F.file_flush f w).1
    seek_step : (f : F.File) (w : F.World) → Reads w (F.file_seek_start f w).1
    random_step : (n : ℕ) (w : F.World) → Reads w (F.random_bytes n w).1
    sleep_step : (n : ℕ) (w : F.World) → Reads w (F.sleep n w)
    network_step : (n : FvmNetwork) (w : F.World) → Reads w (F.set_current_network n w)

  -- Any number of other steps, and at most so many that submit a transaction.
  pub data Reaches : ℕ → F.World → F.World → Type 0 where
    stay : (n : ℕ) (w : F.World) → Reaches n w w
    then_read : (n : ℕ) (u v w : F.World) → Reaches n u v → Reads v w → Reaches n u w
    then_submit : (n : ℕ) (u v w : F.World) → Reaches n u v → Submits v w → Reaches (suc n) u w

  pub raise : (n : ℕ) (u v : F.World) → Reaches n u v → Reaches (suc n) u v
  raise _ u _ (stay n w) = stay (suc n) u
  raise _ _ _ (then_read n u v w rest step) = then_read (suc n) u v w (raise n u v rest) step
  raise _ _ _ (then_submit n u v w rest step) = then_submit (suc n) u v w (raise n u v rest) step

  pub from_none : (n : ℕ) (u v : F.World) → Reaches 0 u v → Reaches n u v
  from_none zero u v h = h
  from_none (suc n) u v h = raise n u v (from_none n u v h)

  pub none-then : (n : ℕ) (u v w : F.World) → Reaches 0 u v → Reaches n v w → Reaches n u w
  none-then _ u _ _ h (stay n v) = from_none n u v h
  none-then _ u _ _ h (then_read n v x w rest step) =
      then_read n u x w (none-then n u v x h rest) step
  none-then _ u _ _ h (then_submit n v x w rest step) =
      then_submit n u x w (none-then n u v x h rest) step

  then-none : (n : ℕ) (u v w : F.World) → Reaches n u v → Reaches 0 v w → Reaches n u w
  then-none n u v _ h (stay _ _) = h
  then-none n u v _ h (then_read _ _ x w rest step) =
      then_read n u x w (then-none n u v x h rest) step

module _ (F : Foreign) where
  pub widen : (n : ℕ) (u v : F.World) → Reaches F 1 u v → Reaches F (suc n) u v
  widen zero u v h = h
  widen (suc n) u v h = raise F (suc n) u v (widen n u v h)

  pub one-then :
      (n : ℕ) (u v w : F.World) → Reaches F 1 u v → Reaches F n v w → Reaches F (suc n) u w
  one-then _ u _ _ h (stay n v) = widen n u v h
  one-then _ u _ _ h (then_read n v x w rest step) =
      then_read (suc n) u x w (one-then n u v x h rest) step
  one-then _ u _ _ h (then_submit n v x w rest step) =
      then_submit (suc n) u x w (one-then n u v x h rest) step

-- A run that submits at most so many transactions, on a state that holds the world.
abbrev pub Within : (F : Foreign) {S A : Type 0} → (S → F.World) → ℕ → Run S A → Type 0
Within F world n m = (s : _) → Reaches F n (world s) (world (m s).1)

-- Where the world stands: it is the whole state, or it stands beside a local state.
abbrev pub alone : (F : Foreign) → F.World → F.World
alone F w = w

abbrev pub beside : (F : Foreign) {S : Type 0} → S × F.World → F.World
beside F s = s.1

module _ (F : Foreign) {S A B : Type 0} (world : S → F.World) (n : ℕ) where
  proceed-after :
      (r : Result A) (f : A → Run S B) (s t : S)
      → Reaches F 0 (world s) (world t)
      → ((a : A) → Within F world n (f a))
      → Reaches F n (world s) (world (proceed r f t).1)
  proceed-after (ok a) f s t h rest = none-then F n (world s) (world t) _ h (rest a t)
  proceed-after (err e) f s t h rest = from_none F n (world s) (world t) h
  proceed-after (halt x) f s t h rest = from_none F n (world s) (world t) h

  proceed-before :
      (r : Result A) (f : A → Run S B) (s t : S)
      → Reaches F n (world s) (world t)
      → ((a : A) → Within F world 0 (f a))
      → Reaches F n (world s) (world (proceed r f t).1)
  proceed-before (ok a) f s t h rest = then-none F n (world s) (world t) _ h (rest a t)
  proceed-before (err e) f s t h rest = h
  proceed-before (halt x) f s t h rest = h

  -- First a run that submits nothing.
  pub none>>= :
      (m : Run S A) (f : A → Run S B)
      → Within F world 0 m
      → ((a : A) → Within F world n (f a))
      → Within F world n (m >>= f)
  none>>= m f h rest s = proceed-after (m s).0 f s (m s).1 (h s) rest

  -- Then runs that submit nothing.
  pub >>=none :
      (m : Run S A) (f : A → Run S B)
      → Within F world n m
      → ((a : A) → Within F world 0 (f a))
      → Within F world n (m >>= f)
  >>=none m f h rest s = proceed-before (m s).0 f s (m s).1 (h s) rest

  pub lift>>= :
      (r : Result A) (f : A → Run S B)
      → ((a : A) → Within F world n (f a))
      → Within F world n (lift r >>= f)
  lift>>= r f rest s = proceed-after r f s s (stay 0 (world s)) rest

module _ (F : Foreign) {S : Type 0} (world : S → F.World) (n : ℕ) where
  -- A run that leaves the world alone.
  pub unmoved :
      (after : S → F.World)
      → ((s : S) → after s ≡ world s)
      → (s : S) → Reaches F n (world s) (after s)
  unmoved after same s = subst (Reaches F n (world s)) (sym (same s)) (stay n (world s))

  pub if-Within :
      {A : Type 0} (b : Bool) (m m' : Run S A)
      → Within F world n m
      → Within F world n m'
      → Within F world n (if b then m else m')
  if-Within true m m' h h' = h
  if-Within false m m' h h' = h'

module _ (F : Foreign) (after : F.World → F.World) where
  pub one_read : ((w : F.World) → Reads F w (after w)) → (w : F.World) → Reaches F 0 w (after w)
  one_read h w = then_read 0 w w (after w) (stay 0 w) (h w)

  pub one_submit : ((w : F.World) → Submits F w (after w)) → (w : F.World) → Reaches F 1 w (after w)
  one_submit h w = then_submit 0 w w (after w) (stay 0 w) (h w)

-- A step on the world beside a local state.
pub on_world-Reaches :
    (F : Foreign) {S : Type 0} (n : ℕ) (after : F.World → F.World)
    → ((w : F.World) → Reaches F n w (after w))
    → (s : S × F.World) → Reaches F n s.1 (after s.1)
on_world-Reaches F n after h s = h s.1
