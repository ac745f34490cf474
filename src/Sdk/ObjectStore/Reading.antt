-- ===== src/Sdk/ObjectStore/Reading.antt =====
-- When the CID of a content is computed, and what a download that breaks off has written.
use basin.Prelude.{◌≡◌, refl, ap, ◌∙◌, sym, String, List, [], ◌∷◌, ◌++◌, none, some}
use basin.Prelude.Bytes.{Bytes}
use basin.Result.{Result, ok, err, halt, map_ok, ◌>>=◌}
use basin.Run.{Run, proceed, on_world, ◌>>=◌ as ◌>>>◌}
use mathlib.Core.List.{append-nil, append_assoc}
use basin.Foreign.{Foreign}
use basin.Foreign.Data.{StoredObject}
use basin.Provider.Interface.{Provider}
use basin.Sdk.ObjectStore.{ObjectStore, GetOptions}
use basin.Sdk.ObjectStore.Content.{
  Generated, generate_cid, generate_loop, last, last_chunk, finish_cid, copy_chunks,
}
use basin.Sdk.ObjectStore.Access.{get, get_info, open_object}
use basin.Sdk.ObjectStore.Laws.{content, copy_chunks-ok}

-- How the reads end: well at the first one of no bytes or after the last, else with the first failure.
abbrev pub reads_end : List (Result Bytes) → Result (Unit {0})
reads_end [] = ok tt
reads_end (ok [] ∷ reads) = ok tt
reads_end (ok (b ∷ bs) ∷ reads) = reads_end reads
reads_end (err e ∷ reads) = err e
reads_end (halt h ∷ reads) = halt h

module _ (F : Foreign) where
  -- The bytes of each of the blocks are those of a CID.
  abbrev pub AreCids : List Bytes → Type 0
  AreCids [] = Unit
  AreCids (b ∷ blocks) = ((c : F.Cid) × (F.cid_of_bytes b ≡ ok c)) × AreCids blocks

  -- The adder gives its blocks with the bytes of their CIDs.
  pub record GivesCids : Type 0 where
    pub pushed : (adder : F.Adder) (b : Bytes) → AreCids (F.adder_push adder b).0.0
    pub finished : (adder : F.Adder) → AreCids (F.adder_finish adder)

  module _ (gives : GivesCids) where
    last_chunk-ok :
        (chunk : F.Cid) (blocks : List Bytes)
        → AreCids blocks
        → (c : F.Cid) × (last_chunk F chunk blocks ≡ ok c)
    unfolding last_chunk
    last_chunk-ok chunk [] h = (chunk, refl)
    last_chunk-ok chunk (b ∷ blocks) ((c, e), h) =
        let (d, f) = last_chunk-ok c blocks h in (d, rw e f)

    last_or :
        (chunk : F.Cid) (blocks : List Bytes)
        → AreCids blocks
        → (c : F.Cid) × ((elim (last F blocks) [ some b ↦ F.cid_of_bytes b | none ↦ ok chunk ])
            ≡ ok c)
    unfolding last
    last_or chunk [] h = (chunk, refl)
    last_or chunk (b ∷ []) h = h.0
    last_or chunk (b ∷ d ∷ blocks) h = last_or chunk (d ∷ blocks) h.1

    finish_cid-ok :
        (adder : F.Adder) (chunk : F.Cid) → (c : F.Cid) × (finish_cid F adder chunk ≡ ok c)
    unfolding finish_cid
    finish_cid-ok adder chunk = last_or chunk (F.adder_finish adder) (gives.finished adder)

    finish-end :
        (adder : F.Adder) (g : Generated F)
        → map_ok (λ _. tt) (finish_cid F adder g.cid >>= λ c. ok (record g { cid = c }))
          ≡ reads_end []
    finish-end adder g = let (c, e) = finish_cid-ok adder g.cid in rw e refl

    generate_loop-end :
        (adder : F.Adder) (reads : List (Result Bytes)) (g : Generated F)
        → map_ok (λ _. tt) (generate_loop F adder reads g) ≡ reads_end reads
    unfolding generate_loop
    generate_loop-end adder [] g = finish-end adder g
    generate_loop-end adder (ok [] ∷ reads) g = finish-end adder g
    generate_loop-end adder (ok (b ∷ bs) ∷ reads) g =
        let (c, e) = last_chunk-ok g.cid _ (gives.pushed adder (b ∷ bs)) in
        rw e (generate_loop-end (F.adder_push adder (b ∷ bs)).1 reads _)
    generate_loop-end adder (err e ∷ reads) g = refl
    generate_loop-end adder (halt h ∷ reads) g = refl

    -- If the adder gives each of its blocks with the bytes of a CID, the computation of a CID ends as
    -- the reads do: it returns if they reach the end, and else gives the first failure.
    pub generate_cid-end :
        (adder : F.Adder) (reads : List (Result Bytes)) (chunk : F.Cid)
        → map_ok (λ _. tt) (generate_cid F adder reads chunk) ≡ reads_end reads
    unfolding generate_cid
    generate_cid-end adder reads chunk = generate_loop-end adder reads _

module _ {W : Type 0} (write_all : Bytes → Run Bytes (Unit {0}))
    (appends : (b o : Bytes) → write_all b o ≡ (ok tt, o ++ b)) where
  copy_chunks-written :
      (chunks : List (Result Bytes × W)) (end w : W) (out : Bytes)
      → (copy_chunks write_all (chunks, end) (out, w)).1.0 ≡ out ++ content chunks
  unfolding copy_chunks
  copy_chunks-written [] end w out = sym (append-nil out)
  copy_chunks-written ((ok b, v) ∷ chunks) end w out =
      ap (λ x. x.1.0) (copy_chunks-ok write_all b chunks end v w out (out ++ b) (appends b out))
      ∙ copy_chunks-written chunks end v (out ++ b)
      ∙ append_assoc out b (content chunks)
  copy_chunks-written ((err e, v) ∷ chunks) end w out = sym (append-nil out)
  copy_chunks-written ((halt e, v) ∷ chunks) end w out = sym (append-nil out)

module _ (F : Foreign) (provider : Provider F) (store : ObjectStore F) (key : String)
    (o : GetOptions) where
  -- The bytes of a get, where the response has been opened, up to the first chunk that failed.
  abbrev pub arriving : Result F.Response → F.World → Bytes
  arriving (ok response) w = content (F.body_chunks response w).0
  arriving (err e) w = []
  arriving (halt h) w = []

  -- What `get` does before the stream.
  abbrev pub opening : Run F.World F.Response
  opening = get_info F provider store key o >>> open_object F provider store key o

  module _ (write_all : Bytes → Run Bytes (Unit {0})) (out : Bytes)
      (appends : (b out : Bytes) → write_all b out ≡ (ok tt, out ++ b)) where
    abbrev copy : F.Response → Run (Bytes × F.World) (Unit {0})
    copy response s = copy_chunks write_all (F.body_chunks response s.1) s

    opened-written :
        (r : Result F.Response) (w : F.World) → (proceed r copy (out, w)).1.0 ≡ out ++ arriving r w
    opened-written (ok response) w =
        copy_chunks-written write_all appends (F.body_chunks response w).0
          (F.body_chunks response w).1 w out
    opened-written (err e) w = sym (append-nil out)
    opened-written (halt h) w = sym (append-nil out)

    found-written :
        (r : Result StoredObject) (w : F.World)
        → (proceed r
            (λ object. on_world (open_object F provider store key o object) >>> copy)
            (out, w)).1.0
          ≡ out
            ++ arriving
                (proceed r (open_object F provider store key o) w).0
                (proceed r (open_object F provider store key o) w).1
    found-written (ok object) w = opened-written (open_object F provider store key o object w).0 _
    found-written (err e) w = sym (append-nil out)
    found-written (halt h) w = sym (append-nil out)

  -- Whatever becomes of a get into a writer that appends, the writer has got the bytes of the chunks
  -- of the response up to the first that failed, in their order, and nothing if there was no response.
  pub get-written :
      (write_all : Bytes → Run Bytes (Unit {0})) (out : Bytes) (w : F.World)
      → ((b out : Bytes) → write_all b out ≡ (ok tt, out ++ b))
      → (get F provider store write_all key o (out, w)).1.0
        ≡ out ++ arriving (opening w).0 (opening w).1
  unfolding get
  get-written write_all out w appends =
      found-written write_all out appends (get_info F provider store key o w).0
        (get_info F provider store key o w).1
