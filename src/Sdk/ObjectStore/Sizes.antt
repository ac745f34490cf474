-- ===== src/Sdk/ObjectStore/Sizes.antt =====
-- The two sizes that `generate_cid` counts: the bytes read, and the bytes that the adder consumed.
use basin.Prelude.{ℕ, ◌+◌, ◌≤◌, ◌<◌, ◌≡◌, u64_mod, List, [], ◌∷◌, length, arith}
use basin.Prelude.Bytes.{Bytes}
use basin.Result.{Result, ok, err, halt, ◌>>=◌}
use basin.Result.Laws.{>>=-eq-ok}
use basin.Foreign.{Foreign}
use basin.Sdk.ObjectStore.Content.{Generated, generate_cid, generate_loop, last_chunk}

-- The bytes that are read up to the end.
abbrev pub read_total : List (Result Bytes) → ℕ
read_total (ok (b ∷ bs) ∷ reads) = length (b ∷ bs) + read_total reads
read_total _ = 0

module _ (F : Foreign) where
  -- An adder consumes at most the bytes that it is given.
  pub record IsAdder : Type 0 where
    pub consumed : (adder : F.Adder) (b : Bytes) → (F.adder_push adder b).0.1 ≤ length b

  -- An adder that consumes all that it is given.
  pub record IsGreedy : Type 0 where
    pub consumed : (adder : F.Adder) (b : Bytes) → (F.adder_push adder b).0.1 ≡ length b

  abbrev Counts : List (Result Bytes) → Generated F → Generated F → Type 0
  Counts reads g r =
      (r.reader_size ≡ g.reader_size + read_total reads) × (r.object_size ≤ r.reader_size)

  finish-sizes :
      (c : Result F.Cid) (g r : Generated F)
      → (c >>= λ x. ok (record g { cid = x })) ≡ ok r
      → (r.reader_size ≡ g.reader_size) × (r.object_size ≡ g.object_size)
  finish-sizes (ok c) g r h = ground arith
  finish-sizes (err e) g r h = cc
  finish-sizes (halt x) g r h = cc

  loop-Counts :
      (adder : F.Adder) (reads : List (Result Bytes)) (g r : Generated F)
      → IsAdder
      → g.object_size ≤ g.reader_size
      → g.reader_size + read_total reads < u64_mod
      → generate_loop F adder reads g ≡ ok r
      → Counts reads g r
  unfolding generate_loop
  loop-Counts adder [] g r law le room h =
      let (e, f) = finish-sizes _ g r h in (omega arith, omega arith)
  loop-Counts adder (ok [] ∷ reads) g r law le room h =
      let (e, f) = finish-sizes _ g r h in (omega arith, omega arith)
  loop-Counts adder (ok (b ∷ bs) ∷ reads) g r law le room h =
      let p = F.adder_push adder (b ∷ bs) in
      let small = law.consumed adder (b ∷ bs) in
      let (c, _, h') = >>=-eq-ok (last_chunk F g.cid p.0.0) _ h in
      let (e, f) = loop-Counts p.1 reads _ r law (omega arith) (omega arith) h' in (omega arith, f)
  loop-Counts adder (err e ∷ reads) g r law le room h = cc
  loop-Counts adder (halt x ∷ reads) g r law le room h = cc

  -- If the adder consumes at most what it is given, and fewer than 2^64 bytes are read, the reader's
  -- size is the number of bytes read, and the object's size is at most that.
  pub generate_cid_sizes :
      (adder : F.Adder) (reads : List (Result Bytes)) (chunk : F.Cid) (r : Generated F)
      → IsAdder
      → read_total reads < u64_mod
      → generate_cid F adder reads chunk ≡ ok r
      → (r.reader_size ≡ read_total reads) × (r.object_size ≤ read_total reads)
  unfolding generate_cid
  generate_cid_sizes adder reads chunk r law room h =
      let (e, f) = loop-Counts adder reads _ r law (omega arith) (omega arith) h in
      (omega arith, omega arith)

  loop-whole :
      (adder : F.Adder) (reads : List (Result Bytes)) (g r : Generated F)
      → IsGreedy
      → g.object_size + read_total reads < u64_mod
      → generate_loop F adder reads g ≡ ok r
      → r.object_size ≡ g.object_size + read_total reads
  unfolding generate_loop
  loop-whole adder [] g r law room h = let (e, f) = finish-sizes _ g r h in omega arith
  loop-whole adder (ok [] ∷ reads) g r law room h = let (e, f) = finish-sizes _ g r h in omega arith
  loop-whole adder (ok (b ∷ bs) ∷ reads) g r law room h =
      let p = F.adder_push adder (b ∷ bs) in
      let all = law.consumed adder (b ∷ bs) in
      let (c, _, h') = >>=-eq-ok (last_chunk F g.cid p.0.0) _ h in
      let e = loop-whole p.1 reads _ r law (omega arith) h' in omega arith
  loop-whole adder (err e ∷ reads) g r law room h = cc
  loop-whole adder (halt x ∷ reads) g r law room h = cc

  -- If the adder consumes all that it is given, and fewer than 2^64 bytes are read, the object's
  -- size is the number of bytes read.
  pub generate_cid_whole :
      (adder : F.Adder) (reads : List (Result Bytes)) (chunk : F.Cid) (r : Generated F)
      → IsGreedy
      → read_total reads < u64_mod
      → generate_cid F adder reads chunk ≡ ok r
      → r.object_size ≡ read_total reads
  unfolding generate_cid
  generate_cid_whole adder reads chunk r law room h =
      let e = loop-whole adder reads _ r law (omega arith) h in omega arith
