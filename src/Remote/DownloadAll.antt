-- ===== src/Remote/DownloadAll.antt =====
-- `DownloadAllOutputBlocks` of internal/remote/core/download.go: the outputs are read from the blob in
-- chunks, and each chunk is cut into its outputs.
pub mod Order
pub mod Plan
pub mod Deliver
pub mod Chunks
pub mod Stored
use gocica.Base.{
  ℕ, zero, suc, ◌+◌, ◌*◌, ◌^◌, Bool, true, false, List, [], ◌∷◌, ◌++◌, map, String, Option, none,
  some, length, ltb, if◌then◌else◌,
}
use gocica.Base.Int64.{Int64, add64, sub64, lt64}
use gocica.Base.Go.{
  Error, sentinel, wrap, Result, ok, err, wrapped, Io, pure, raise, within, continue, ◌>>=◌,
  first_error,
}
use gocica.Proto.{ActionsOutput}
use gocica.PkgIo.JoinedWriter.{WriterWithSize, JoinedWriter, new_joined_writer}
use gocica.Remote.Download.{BlobClient, Downloader, download_block}
use gocica.Remote.Sinks.{Files, Sink, sink_io, new_sink, close_output}

abbrev pub max_chunk_size : Int64
max_chunk_size = 4 * 2 ^ 20

abbrev pub open_file_limit : ℕ
open_file_limit = 100000

-- `int(x.Offset - y.Offset) < 0` for `x = b` and `y = a`: a sort that returns does not put `a` in
-- front of such a `b`.
abbrev pub sorts_before : ActionsOutput → ActionsOutput → Bool
sorts_before b a = lt64 (sub64 b.offset a.offset) 0

-- An output with its writer.
pub record Target (W Z : Type 0) : Type 0 where
  pub id : String
  pub size : Int64
  pub sink : Sink W Z

-- What the inner loop has collected, and the outputs that it left.
pub record Filled (W Z : Type 0) : Type 0 where
  pub targets : List (Target W Z)
  pub size : Int64
  pub left : List ActionsOutput

pub record Chunk (W Z : Type 0) : Type 0 where
  pub offset : Int64
  pub size : Int64
  pub targets : List (Target W Z)

-- The chunks whose download was started, and the error that ended the loop early.
pub record Started (W Z : Type 0) : Type 0 where
  pub chunks : List (Chunk W Z)
  pub failure : Result (Unit {0})

-- An output's file, after its writers are closed.
pub record Delivered (W : Type 0) : Type 0 where
  pub id : String
  pub file : W

module _ {S W Z : Type 0} (f : Files W Z) (object_writer : String → Io S W) where
  abbrev pub add_target : Target W Z → Filled W Z → Filled W Z
  add_target t r = record r { targets = t ∷ r.targets }

  abbrev pub add_chunk : Chunk W Z → Started W Z → Started W Z
  add_chunk c r = record r { chunks = c ∷ r.chunks }

  -- The inner loop. Every output takes a permit of the semaphore, and the permits of a chunk come back
  -- when its download ends; those of earlier chunks do in time. A chunk that holds all permits itself
  -- waits until the context is cancelled.
  unfoldable pub fill_chunk : ℕ → Int64 → List ActionsOutput → Io S (Filled W Z)
  fill_chunk permits size [] = pure (record { targets = []; size = size; left = [] })
  fill_chunk permits size (o ∷ os) = elim (lt64 size max_chunk_size) [
    | false ↦ pure (record { targets = []; size = size; left = o ∷ os })
    | true ↦ elim (ltb permits open_file_limit) [
      | false ↦ raise (wrap "acquire semaphore" (sentinel "context canceled"))
      | true ↦ do
        w ← within "get object writer" (object_writer o.id)
        rest ← fill_chunk (permits + 1) (add64 size o.size) os
        pure (
            add_target (record { id = o.id; size = o.size; sink = new_sink f o.compression w })
              rest)
    ]
  ]

  abbrev pub start_round :
      Result (Filled W Z) → Int64 → (Filled W Z → S → Started W Z × S) → S → Started W Z × S
  start_round (err e) offset rest s = (record { chunks = []; failure = err e }, s)
  start_round (ok filled) offset rest s =
      let (r, s') = rest filled s in
      (add_chunk (record { offset = offset; size = filled.size; targets = filled.targets }) r, s')

  -- The outer loop, on fuel: each round takes an output or more. A chunk of which a writer could not
  -- be made is not started.
  unfoldable pub start_chunks : ℕ → Int64 → List ActionsOutput → S → Started W Z × S
  start_chunks fuel offset [] s = (record { chunks = []; failure = ok tt }, s)
  start_chunks zero offset (o ∷ os) s = (record { chunks = []; failure = ok tt }, s)
  start_chunks (suc fuel) offset (o ∷ os) s =
      let (r, s1) = fill_chunk 0 0 (o ∷ os) s in
      start_round r offset (λ filled. start_chunks fuel (add64 offset filled.size) filled.left) s1

module _ {W Z : Type 0} (f : Files W Z) where
  abbrev pub writer_of : Target W Z → WriterWithSize (Sink W Z)
  writer_of t = record { writer = t.sink; size = t.size }

  -- The deferred closes: the writers keep their places in the joined writer.
  unfoldable pub deliver : List (Target W Z) → List (WriterWithSize (Sink W Z)) → List (Delivered W)
  deliver [] ws = []
  deliver (t ∷ ts) [] = []
  deliver (t ∷ ts) (w ∷ ws) = record { id = t.id; file = close_output f w.writer } ∷ deliver ts ws

  unfoldable pub run_chunk : BlobClient → Chunk W Z → List (Delivered W) × Result (Unit {0})
  run_chunk c k =
      let (j, failure) =
        download_block (sink_io f) c k.offset k.size
          (new_joined_writer (map writer_of k.targets)) in
      (
        deliver k.targets (j.before ++ j.rest),
        elim failure [ none ↦ ok tt | some e ↦ err (wrap "download block" e) ],
      )

  -- The started chunks: what each delivers, and the first error.
  unfoldable pub run_chunks : BlobClient → List (Chunk W Z) → List (Delivered W) × Result (Unit {0})
  unfolding run_chunk
  run_chunks c [] = ([], ok tt)
  run_chunks c (k ∷ ks) =
      let (files, r) = run_chunk c k in
      let (more, rest) = run_chunks c ks in (files ++ more, first_error r rest)

-- `sort` is slices.SortFunc. A loop that fails returns without waiting for the chunks; here they have
-- run by then.
unfoldable pub download_all :
    {S W Z : Type 0}
    → Files W Z
    → (String → Io S W)
    → (List ActionsOutput → List ActionsOutput)
    → Downloader
    → S
    → (List (Delivered W) × Result (Unit {0})) × S
unfolding start_chunks run_chunks
download_all f object_writer sort d s = elim d.client [
  | none ↦ (([], ok tt), s)
  | some c ↦
      let outputs = sort d.header.outputs in
      let (r, s') = start_chunks f object_writer (length outputs) d.header_size outputs s in
      let (files, done) = run_chunks f c r.chunks in ((files, first_error r.failure done), s')
]
