-- ===== src/Examples/Uploads.antt =====
-- Two outputs, one of them empty, are uploaded behind an old blob of three bytes of outputs.
use mathlib.Core.List.Permᴰ
use gocica.Base.{
  ℕ, ◌≡◌, refl, sym, subst, false, List, [], ◌∷◌, map, String, some, Bytes, arith, str_eq,
  if◌then◌else◌,
}
use gocica.Base.Go.{ok, wait_all}
use gocica.Base.Int64.{lt64, add64, min64, sub64}
use gocica.Base.Table.{contains, Distinct}
use gocica.Proto.{ActionsOutput, unspecified}
use gocica.Remote.{UrlRange}
use gocica.Remote.Layout.{IsLayout, total_size}
use gocica.Remote.Blob.{gather, HoldsOutputs}
use gocica.Remote.Upload.{
  Uploader, BaseBlob, Encoded, encode_output, plan_chunks, upload_chunk, copy_base,
  construct_outputs, generate_block_id, upload_output,
}
use gocica.Remote.Upload.Layout.{construct_outputs-IsLayout}
use gocica.Remote.Upload.Tiles.{Tiles, plan_chunks-Tiles}
use gocica.Remote.Upload.Staging.{copy_base_stages}
use gocica.Remote.Upload.Outputs.{IsReady, upload_output-IsReady}
use gocica.Examples.Storage.{
  World, empty_world, no_blocks, put_block, old_blob, client, random, zstd_writer, store,
}

abbrev pub output : String → ℕ → ℕ → ActionsOutput
output id offset size = record { offset = offset; size = size; compression = unspecified; id = id }

abbrev pub old_outputs : List ActionsOutput
old_outputs = output "a" 0 2 ∷ output "b" 2 1 ∷ []

abbrev new_outputs : List ActionsOutput
new_outputs = output "c" 0 2 ∷ output "a" 0 2 ∷ output "d" 0 0 ∷ []

abbrev pub content : String → Bytes
content id =
    if str_eq id "a"
    then 1 ∷ 2 ∷ []
    else if str_eq id "b"
    then 3 ∷ []
    else if str_eq id "c"
    then 4 ∷ 5 ∷ []
    else []

abbrev old_range : UrlRange
old_range = record { url = "https://old"; offset = 2; size = 3 }

pub old-IsLayout : IsLayout 0 old_outputs 3
old-IsLayout = (refl, (refl, refl))

construct_outputs-IsLayout_example :
    IsLayout 0
      (construct_outputs 3 old_outputs new_outputs).outputs
      (construct_outputs 3 old_outputs new_outputs).size
construct_outputs-IsLayout_example =
    construct_outputs-IsLayout 3 old_outputs new_outputs old-IsLayout
      (unfold total_size in omega arith)

planned : (plan_chunks random 3 2 3 0 empty_world).0.failure ≡ ok tt
unfolding plan_chunks generate_block_id lt64 add64 min64 sub64
planned = refl

plan_chunks-Tiles_example : Tiles 2 3 (plan_chunks random 3 2 3 0 empty_world).0.chunks
plan_chunks-Tiles_example = plan_chunks-Tiles random 2 3 empty_world (omega arith) planned

planned_ids :
    map (λ k. k.block_id) (plan_chunks random 3 2 3 0 empty_world).0.chunks ≡ "block 0" ∷ []
unfolding plan_chunks generate_block_id lt64 add64 min64 sub64
planned_ids = refl

Distinct-ids : Distinct ("block 0" ∷ [])
unfolding contains
Distinct-ids = (refl, tt)

abbrev pub old_base : BaseBlob
old_base = record { block_ids = "block 0" ∷ []; output_size = 3; outputs = old_outputs }

copied : (copy_base client random (λ ks. ks) (ok old_outputs) old_range empty_world).0 ≡ ok old_base
unfolding copy_base lt64 add64 min64 sub64 plan_chunks generate_block_id upload_chunk wait_all
copied = refl

copy_base_stages_example :
    (gather
        (copy_base client random (λ ks. ks) (ok old_outputs) old_range empty_world).1.blocks
        old_base.block_ids
      ≡ some (1 ∷ 2 ∷ 3 ∷ []))
    × (old_base.output_size ≡ 3)
    × (ok old_outputs ≡ ok old_base.outputs)
copy_base_stages_example =
    copy_base_stages client random old_blob store (λ ks. ks) (ok old_outputs) old_range empty_world
      old_base (omega arith) (Permᴰ.refl _) (subst Distinct (sym planned_ids) Distinct-ids) copied

-- An uploader whose old blob is staged.
abbrev pub staged_world : World
staged_world = record empty_world {
  blocks = put_block "block 0" (1 ∷ 2 ∷ 3 ∷ []) no_blocks;
  seed = 1;
}

abbrev pub uploader : Uploader World
uploader = record {
  client = some client;
  outputs = [];
  wait_base = ok old_base;
  world = staged_world;
}

pub uploader-IsReady : IsReady client random old_blob store content (1 ∷ 2 ∷ 3 ∷ []) uploader
unfolding gather
uploader-IsReady = record { has_client = refl; base = refl; outputs = tt }

pub not_old : contains "c" old_base.block_ids ≡ false
unfolding contains
not_old = refl

pub encoded_same :
    (e : Encoded) → encode_output zstd_writer 2 (4 ∷ 5 ∷ []) ≡ ok e → e.reader ≡ content "c"
unfolding encode_output lt64
encoded_same e h = cc

upload_output-IsReady_example :
    IsReady client random old_blob store content
      (1 ∷ 2 ∷ 3 ∷ [])
      (upload_output zstd_writer "c" 2 (4 ∷ 5 ∷ []) uploader).1
upload_output-IsReady_example =
    upload_output-IsReady client random old_blob store content (1 ∷ 2 ∷ 3 ∷ []) zstd_writer "c" 2
      (4 ∷ 5 ∷ []) uploader (λ h. absurd (ground arith)) (λ _ e h. encoded_same e h) not_old
      uploader-IsReady

-- The uploader with what it has recorded, and its commit.
abbrev recorded_world : World
recorded_world = record staged_world { blocks = put_block "c" (4 ∷ 5 ∷ []) staged_world.blocks }

abbrev recorded_outputs : List ActionsOutput
recorded_outputs = output "c" 0 2 ∷ output "d" 0 0 ∷ []

abbrev recorder : Uploader World
recorder = record uploader { outputs = recorded_outputs; world = recorded_world }

pub old_held : HoldsOutputs content (1 ∷ 2 ∷ 3 ∷ []) old_outputs 3
old_held = record { layout = old-IsLayout; size = refl; contents = (refl, (refl, tt)) }
