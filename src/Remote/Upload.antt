-- ===== src/Remote/Upload.antt =====
-- internal/remote/core/upload.go
pub mod Layout
pub mod Tiles
pub mod Staging
pub mod Outputs
pub mod Added
pub mod Names
pub mod Committed
pub mod Header
pub mod Commit
use Prim.Native.Nat.{bit_xor}
use gocica.Base.{
  ℕ, zero, suc, ◌*◌, ◌/◌, ◌%◌, ◌^◌, Bool, true, false, ◌||◌, List, [], ◌∷◌, ◌++◌, map, String,
  Option, none, some, Bytes, length, ◌==◌, if◌then◌else◌,
}
use gocica.Base.Int64.{Int64, add64, sub64, lt64, min64}
use gocica.Base.Go.{
  Error, Result, ok, err, wrap, wrapped, and_then, Io, pure, lift, within, continue, ◌>>=◌, ◌>>◌,
  first_error, wait_all,
}
use gocica.Base.Table.{Table, contains}
use gocica.Proto.{ActionsOutput, Compression, unspecified, zstd, IndexEntry, ActionsCache}
use gocica.Remote.{UploadClient, UrlRange, BaseBlobProvider, Random, Protobuf, Zstd}

-- What `waitBaseFunc` returns beside its error.
pub record BaseBlob : Type 0 where
  pub block_ids : List String
  pub output_size : Int64
  pub outputs : List ActionsOutput

-- `world` is the state of the remote storage. A nil client means that nothing is uploaded.
pub record Uploader (S : Type 0) : Type 0 where
  pub client : Option (UploadClient S)
  pub outputs : List ActionsOutput
  pub wait_base : Result BaseBlob
  pub world : S

abbrev pub max_upload_chunk_size : Int64
max_upload_chunk_size = 4 * 2 ^ 20

-- One task of `setupBase`: the block and the range of the old blob that it copies.
pub record BaseChunk : Type 0 where
  pub block_id : String
  pub offset : Int64
  pub size : Int64

-- The chunks planned before the loop ended, and the error that ended it early.
pub record Plan : Type 0 where
  pub chunks : List BaseChunk
  pub failure : Result (Unit {0})

abbrev pub empty_base : BaseBlob
empty_base = record { block_ids = []; output_size = 0; outputs = [] }

abbrev more_chunks : BaseChunk → Plan → Plan
more_chunks c p = record p { chunks = c ∷ p.chunks }

module _ {S : Type 0} where
  unfoldable pub generate_block_id : Random S → Io S String
  generate_block_id rand = do
    buf ← within "read random" (rand.read 32)
    pure (rand.std_encoding buf)

  -- One round of the loop: an error of the random source ends it.
  unfoldable pub plan_round : Result String → Int64 → Int64 → (S → Plan × S) → S → Plan × S
  plan_round (err e) offset size rest s = (record { chunks = []; failure = err e }, s)
  plan_round (ok block_id) offset size rest s =
      let (p, s') = rest s in
      (more_chunks (record { block_id = block_id; offset = offset; size = size }) p, s')

  -- `for i := int64(0); i < size; i += uploadSize`, on fuel: each round moves `i` by 1 or more.
  unfoldable pub plan_chunks : Random S → ℕ → Int64 → Int64 → Int64 → S → Plan × S
  unfolding plan_round
  plan_chunks rand zero offset size i s = (record { chunks = []; failure = ok tt }, s)
  plan_chunks rand (suc fuel) offset size i s = elim (lt64 i size) [
    | false ↦ (record { chunks = []; failure = ok tt }, s)
    | true ↦
        let n = min64 max_upload_chunk_size (sub64 size i) in
        let (r, s1) = within "generate block ID" (generate_block_id rand) s in
        plan_round r (add64 offset i) n (plan_chunks rand fuel offset size (add64 i n)) s1
  ]

  unfoldable pub upload_chunk : UploadClient S → String → BaseChunk → Io S (Unit {0})
  upload_chunk c url k =
      within "upload block from URL" (c.upload_block_from_url k.block_id url k.offset k.size)

  -- The tasks run in the order that `schedule` gives them; the outputs are read beside them.
  unfoldable pub copy_base :
      UploadClient S
      → Random S
      → (List BaseChunk → List BaseChunk)
      → Result (List ActionsOutput)
      → UrlRange
      → Io S BaseBlob
  copy_base c rand schedule outputs r s =
      let (plan, s1) = plan_chunks rand r.size r.offset r.size 0 s in
      let (done, s2) = wait_all (map (upload_chunk c r.url) (schedule plan.chunks)) s1 in
      (
        first_error plan.failure (
            first_error done (
              and_then (wrapped "download outputs" outputs) λ os. ok (record {
                block_ids = map (λ k. k.block_id) plan.chunks;
                output_size = r.size;
                outputs = os;
              }))),
        s2,
      )

  -- setupBase and the function that it returns, called once.
  unfoldable pub setup_base :
      Option (UploadClient S)
      → Random S
      → (List BaseChunk → List BaseChunk)
      → BaseBlobProvider
      → Io S BaseBlob
  setup_base none rand schedule base s = (ok empty_base, s)
  setup_base (some c) rand schedule base s =
      if base.is_empty
      then (ok empty_base, s)
      else (lift (wrapped "get output block URL" base.get_output_block_url)
            >>= copy_base c rand schedule base.get_outputs)
          s

-- `size > 100*(2^10)`, where Go's `^` is the exclusive or: the limit is 800.
abbrev pub compress_limit : Int64
compress_limit = 100 * bit_xor 2 10

pub record Encoded : Type 0 where
  pub reader : Bytes
  pub compression : Compression

unfoldable pub encode_output : Zstd → Int64 → Bytes → Result Encoded
encode_output z size r =
    if lt64 compress_limit size
    then and_then (wrapped "compress data" (z.copy r)) (λ copied.
      and_then (wrapped "close compressor" (z.close copied))
        (λ buf. ok (record { reader = buf; compression = zstd })))
    else ok (record { reader = r; compression = unspecified })

-- The loop of `constructOutputs`: the block ids, the outputs with their offsets, the total size.
pub record Constructed : Type 0 where
  pub new_output_ids : List String
  pub outputs : List ActionsOutput
  pub size : Int64

abbrev pub placed : ActionsOutput → Int64 → Constructed → Constructed
placed o offset rest = record {
  new_output_ids = if o.size == 0 then rest.new_output_ids else o.id ∷ rest.new_output_ids;
  outputs = record o { offset = offset } ∷ rest.outputs;
  size = rest.size;
}

unfoldable pub place_outputs : List String → Int64 → List ActionsOutput → Constructed
place_outputs seen offset [] = record { new_output_ids = []; outputs = []; size = offset }
place_outputs seen offset (o ∷ os) = elim (contains o.id seen) [
  | true ↦ place_outputs seen offset os
  | false ↦ placed o offset (place_outputs (o.id ∷ seen) (add64 offset o.size) os)
]

-- The offsets that it writes into the uploader's own outputs are never read from there.
unfoldable pub construct_outputs : Int64 → List ActionsOutput → List ActionsOutput → Constructed
construct_outputs base_size base_outputs new_outputs =
    let c = place_outputs (map (λ o. o.id) base_outputs) base_size new_outputs in
    record c { outputs = base_outputs ++ c.outputs }

-- binary.BigEndian.PutUint64
unfoldable pub put_uint64 : Int64 → Bytes
put_uint64 v =
    (v / 2 ^ 56 % 256)
    ∷ (v / 2 ^ 48 % 256)
    ∷ (v / 2 ^ 40 % 256)
    ∷ (v / 2 ^ 32 % 256)
    ∷ (v / 2 ^ 24 % 256)
    ∷ (v / 2 ^ 16 % 256)
    ∷ (v / 2 ^ 8 % 256)
    ∷ (v % 256)
    ∷ []

unfoldable pub create_header :
    Protobuf → Table IndexEntry → List ActionsOutput → Int64 → Result Bytes
create_header pb entries outputs size =
    and_then
      (wrapped "marshal actions cache"
        (pb.marshal (record { entries = entries; outputs = outputs; output_total_size = size })))
      λ b. ok (put_uint64 (length b) ++ b)

-- What `Commit` uses when the copy of the old blob failed.
abbrev pub base_or_empty : Result BaseBlob → BaseBlob
base_or_empty (ok b) = b
base_or_empty (err e) = empty_base

module _ {S : Type 0} where
  abbrev pub on_world : {A : Type 0} → Io S A → Io (Uploader S) A
  on_world m u = let (r, w) = m u.world in (r, record u { world = w })

  abbrev pub add_output : ActionsOutput → Io (Uploader S) (Unit {0})
  add_output o u = (ok tt, record u { outputs = u.outputs ++ o ∷ [] })

  unfoldable pub upload_encoded :
      UploadClient S → String → Int64 → Encoded → Io (Uploader S) (Unit {0})
  upload_encoded c id size e = do
    upload_size ←
        if size == 0 then pure 0 else on_world (within "upload block" (c.upload_block id e.reader))
    add_output (record { offset = 0; size = upload_size; compression = e.compression; id = id })

  unfoldable pub upload_output : Zstd → String → Int64 → Bytes → Io (Uploader S) (Unit {0})
  unfolding upload_encoded
  upload_output z id size r u = elim u.client [
    | none ↦ (ok tt, u)
    | some c ↦ (lift (encode_output z size r) >>= upload_encoded c id size) u
  ]

  -- `Commit`, from the header on.
  unfoldable pub commit_header :
      UploadClient S → Random S → List String → Constructed → Bytes → Io S (Unit {0})
  commit_header c rand base_ids built header = do
    header_id ← within "generate header block ID" (generate_block_id rand)
    within "upload header" (c.upload_block header_id header)
    within "commit"
        (c.commit (header_id ∷ base_ids ++ built.new_output_ids) (add64 (length header) built.size))

  -- `Commit`, from `createHeader` on.
  unfoldable pub commit_built :
      UploadClient S
      → Protobuf
      → Random S
      → Table IndexEntry
      → List String
      → Constructed
      → Io S (Unit {0})
  unfolding commit_header
  commit_built c pb rand entries base_ids built =
      lift (wrapped "create header" (create_header pb entries built.outputs built.size))
      >>= commit_header c rand base_ids built

  unfoldable pub commit : Protobuf → Random S → Table IndexEntry → Io (Uploader S) (Unit {0})
  unfolding commit_built
  commit pb rand entries u = elim u.client [
    | none ↦ (ok tt, u)
    | some c ↦
        let base = base_or_empty u.wait_base in
        on_world
          (commit_built c pb rand entries base.block_ids
            (construct_outputs base.output_size base.outputs u.outputs))
          u
  ]

-- NewUploader. The copy of the old blob runs beside the program; here it has run.
unfoldable pub new_uploader :
    {S : Type 0}
    → Option (UploadClient S)
    → Random S
    → (List BaseChunk → List BaseChunk)
    → BaseBlobProvider
    → S
    → Uploader S
unfolding setup_base
new_uploader client rand schedule base s =
    let (r, s') = setup_base client rand schedule base s in
    record { client = client; outputs = []; wait_base = r; world = s' }
