-- ===== src/Sdk/ObjectStore/Content.antt =====
-- sdk/src/machine/objectstore.rs: the CID of an object's content, and the copying of a download.
use basin.Prelude.{ℕ, ◌+◌, ◌%◌, u64_mod, Option, none, some, List, [], ◌∷◌, length}
use basin.Prelude.Bytes.{Bytes}
use basin.Result.{Result, ok, err, halt, ◌>>=◌}
use basin.Run.{Run}
use basin.Foreign.{Foreign}

module _ (F : Foreign) where
  -- What `generate_cid` returns, and the two counters to which it adds.
  pub record Generated : Type 0 where
    pub cid : F.Cid
    pub reader_size : ℕ
    pub object_size : ℕ

  -- `for (c, _) in leaf`: the CID of the last block, else the one before.
  unfoldable pub last_chunk : F.Cid → List Bytes → Result F.Cid
  last_chunk chunk [] = ok chunk
  last_chunk chunk (b ∷ blocks) = do c ← F.cid_of_bytes b; last_chunk c blocks

  unfoldable pub last : List Bytes → Option Bytes
  last [] = none
  last (b ∷ []) = some b
  last (b ∷ c ∷ blocks) = last (c ∷ blocks)

  unfoldable pub finish_cid : F.Adder → F.Cid → Result F.Cid
  finish_cid adder chunk = elim (last (F.adder_finish adder)) [
    | some b ↦ F.cid_of_bytes b
    | none ↦ ok chunk
  ]

  -- The loop. A read of no bytes ends it, as the end of the list does. A `usize` has 64 bits.
  unfoldable pub generate_loop : F.Adder → List (Result Bytes) → Generated → Result Generated
  unfolding last_chunk finish_cid last
  generate_loop adder [] g = finish_cid adder g.cid >>= λ c. ok (record g { cid = c })
  generate_loop adder (ok [] ∷ reads) g = finish_cid adder g.cid >>= λ c. ok (record g { cid = c })
  generate_loop adder (ok (b ∷ bs) ∷ reads) g = do
    let pushed = F.adder_push adder (b ∷ bs)
    chunk ← last_chunk g.cid pushed.0.0
    generate_loop pushed.1 reads (record {
      cid = chunk;
      reader_size = (g.reader_size + length (b ∷ bs)) % u64_mod;
      object_size = (g.object_size + pushed.0.1) % u64_mod;
    })
  generate_loop adder (err e ∷ reads) g = err e
  generate_loop adder (halt h ∷ reads) g = halt h

  unfoldable pub generate_cid : F.Adder → List (Result Bytes) → F.Cid → Result Generated
  unfolding generate_loop
  generate_cid adder reads chunk =
      generate_loop adder reads (record { cid = chunk; reader_size = 0; object_size = 0 })

module _ {W O : Type 0} (write_all : Bytes → Run O (Unit {0})) where
  -- `while let Some(item) = stream.next().await`
  unfoldable pub copy_chunks : List (Result Bytes × W) × W → Run (O × W) (Unit {0})
  copy_chunks ([], end) s = (ok tt, (s.0, end))
  copy_chunks ((ok b, w) ∷ chunks, end) s = elim (write_all b s.0).0 [
    | ok _ ↦ copy_chunks (chunks, end) ((write_all b s.0).1, w)
    | err e ↦ (err e, ((write_all b s.0).1, w))
    | halt h ↦ (halt h, ((write_all b s.0).1, w))
  ]
  copy_chunks ((err e, w) ∷ chunks, end) s = (err e, (s.0, w))
  copy_chunks ((halt h, w) ∷ chunks, end) s = (halt h, (s.0, w))
