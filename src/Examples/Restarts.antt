-- ===== src/Examples/Restarts.antt =====
-- A backend that writes an output behind two old ones, and the start of the next one.
use mathlib.Core.List.Permᴰ
use gocica.Base.{
  ℕ, ◌+◌, ◌^◌, ◌≡◌, ◌<◌, refl, subst, inr, false, List, [], ◌∷◌, ◌++◌, String, none, some, Bytes,
  length, arith, ◌≤◌,
}
use gocica.Base.Go.{Io, ok}
use gocica.Base.Int64.{lt64, sub64, add64}
use gocica.Base.Table.{contains, Table}
use gocica.Proto.{IndexEntry, ActionsOutput}
use gocica.Remote.{Protobuf}
use gocica.Remote.Layout.{total_size}
use gocica.Remote.Blob.{gather}
use gocica.Remote.Upload.{
  Uploader, construct_outputs, put_uint64, generate_block_id, commit, commit_built, commit_header,
  create_header, place_outputs,
}
use gocica.Remote.Upload.Outputs.{IsReady}
use gocica.Remote.Download.{Downloader, new_downloader}
use gocica.Remote.DownloadAll.{open_file_limit, start_chunks, fill_chunk}
use gocica.Remote.DownloadAll.Order.{IsSorted}
use gocica.Remote.DownloadAll.Deliver.{IsNew}
use gocica.Remote.DownloadAll.Stored.{Stored, NoEmptyChunk}
use gocica.Remote.Backend.{Backend, new_backend, meta_data, write_meta_data, download_outputs}
use gocica.Remote.Backend.Restart.{restart-Stored, header}
use gocica.Examples.Storage.{World, put_block, old_blob, client, random, store}
use gocica.Examples.Uploads.{output, content, old_base, old_held, staged_world, uploader}
use gocica.Examples.Files.{unpack, files, files-IsFileSystem, blob_client, blob_client-Serves}

abbrev pub ready : Uploader World
ready = record uploader {
  outputs = output "c" 0 2 ∷ [];
  world = record staged_world { blocks = put_block "c" (4 ∷ 5 ∷ []) staged_world.blocks };
}

ready-IsReady : IsReady client random old_blob store content (1 ∷ 2 ∷ 3 ∷ []) ready
unfolding gather
ready-IsReady = record { has_client = refl; base = refl; outputs = ((refl, inr refl), tt) }

abbrev pub downloader : Downloader
downloader = record {
  client = none;
  header_size = 0;
  header = record { entries = []; outputs = []; output_total_size = 0 };
}

abbrev pub backend : Backend World
backend = record { uploader = ready; downloader = downloader; cancel = none }

abbrev pub entries : Table IndexEntry
entries = ("k", record { output_id = "c"; size = 2; timenano = 0; last_used_at = 0 }) ∷ []

abbrev pub message : Bytes
message = 7 ∷ 7 ∷ []

abbrev pub protobuf : Protobuf
protobuf = record { marshal = λ cache. ok message; unmarshal = λ b. ok (header backend entries) }

abbrev pub blob : Bytes
blob = put_uint64 2 ++ (message ++ (1 ∷ 2 ∷ 3 ∷ 4 ∷ 5 ∷ []))

abbrev local_put : String → ℕ → Io ℕ Bytes
local_put id size n = (ok [], n + 1)

makes :
    (id : String) (n : ℕ)
    → (w : Bytes) × ((local_put id 0 n).0 ≡ ok w) × IsNew files unpack files-IsFileSystem w
makes id n = ([], refl, refl)

pub fits : 3 + total_size ready.outputs < 2 ^ 63
unfolding total_size
fits = omega arith

pub header_fresh :
    (id : String)
    → (generate_block_id random ready.world).0 ≡ ok id
    → contains id
        (old_base.block_ids ++ (construct_outputs 3 old_base.outputs ready.outputs).new_output_ids)
      ≡ false
unfolding generate_block_id contains construct_outputs place_outputs add64
header_fresh id h =
    let e : "block 1" ≡ id = cc in subst (λ j. contains j ("block 0" ∷ "c" ∷ []) ≡ false) e refl

pub writes : (write_meta_data protobuf random entries backend).0 ≡ ok tt
unfolding write_meta_data commit commit_built commit_header create_header generate_block_id
writes = refl

pub written : (write_meta_data protobuf random entries backend).1.uploader.world.blob ≡ some blob
unfolding write_meta_data commit commit_built commit_header create_header generate_block_id
    construct_outputs place_outputs contains add64 gather put_uint64
written = refl

abbrev outputs : List ActionsOutput
outputs = (construct_outputs 3 old_base.outputs ready.outputs).outputs

pub blob_length : length blob < 2 ^ 63
unfolding put_uint64
blob_length = omega arith

in_order : IsSorted outputs
unfolding construct_outputs place_outputs contains add64 lt64 sub64
in_order = ((refl, (refl, tt)), ((refl, tt), (tt, tt)))

some_size : 0 < (construct_outputs 3 old_base.outputs ready.outputs).size
unfolding construct_outputs place_outputs contains add64
some_size = omega arith

positive : NoEmptyChunk files (λ id. local_put id 0) outputs 0
unfolding construct_outputs place_outputs contains add64 start_chunks fill_chunk lt64
positive offset = (omega arith, tt)

few : length outputs ≤ open_file_limit
unfolding construct_outputs place_outputs contains add64
few = omega arith

restart-Stored_example :
    (d : Downloader) × (new_downloader protobuf (some (blob_client blob)) ≡ ok d)
    × ((meta_data (new_backend ready d)).0 ≡ ok entries)
    × Stored files-IsFileSystem.file_content unpack content outputs
        (download_outputs files local_put (λ os. os) d 0).0
restart-Stored_example =
    restart-Stored client random old_blob store content (1 ∷ 2 ∷ 3 ∷ []) backend files unpack
      files-IsFileSystem local_put makes (λ os. os) protobuf entries (blob_client blob) blob 0 ready
      (λ b h. refl) ready-IsReady old_held fits header_fresh writes written (λ offset size h. refl)
      (blob_client-Serves blob blob_length) blob_length some_size positive few (Permᴰ.refl outputs)
      in_order
