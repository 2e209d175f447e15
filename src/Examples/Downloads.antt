-- ===== src/Examples/Downloads.antt =====
-- Streams into joined writers, and the download of a blob of two outputs.
use mathlib.Core.List.Permᴰ
use gocica.Base.{
  ℕ, ◌+◌, ◌*◌, ◌^◌, ◌≡◌, ◌<◌, ◌≤◌, refl, List, [], ◌∷◌, ◌++◌, String, none, some, Bytes, length,
  concat, arith, str_eq, if◌then◌else◌,
}
use gocica.Base.Go.{Io, ok}
use gocica.Base.Int64.{lt64, sub64, add64}
use gocica.Proto.{ActionsCache, ActionsOutput, unspecified, zstd}
use gocica.PkgIo.JoinedWriter.{JoinedWriter, write}
use gocica.PkgIo.JoinedWriter.Pour.{pour, capacity}
use gocica.PkgIo.JoinedWriter.Rounds.{IsCut, slots}
use gocica.PkgIo.JoinedWriter.Write.{Pours, write-Pours}
use gocica.PkgIo.JoinedWriter.Copy.{copy, copy-pour}
use gocica.Remote.Layout.{IsLayout, total_size}
use gocica.Remote.Blob.{HoldsOutputs}
use gocica.Remote.Upload.{put_uint64}
use gocica.Remote.Download.Committed.{new_downloader-Committed}
use gocica.Examples.Storage.{protobuf}
use gocica.Remote.Download.{new_downloader, Downloader}
use gocica.Remote.DownloadAll.{start_chunks, fill_chunk, download_all}
use gocica.Remote.DownloadAll.Order.{IsSorted, StartsAt, sorted-StartsAt}
use gocica.Remote.DownloadAll.Plan.{ChunksOf, start_chunks-ChunksOf}
use gocica.Remote.DownloadAll.Deliver.{IsNew}
use gocica.Remote.DownloadAll.Stored.{Stored, NoEmptyChunk, download_all-Stored}
use gocica.Examples.Files.{
  memory, memory-IsReliable, unpack, files, files-IsFileSystem, blob_client, blob_client-Serves,
}

-- Writers of 2, 0 and 3 bytes.
abbrev joined : JoinedWriter Bytes
joined = record {
  before = [];
  rest =
      record { writer = []; size = 2 }
      ∷ record { writer = []; size = 0 }
      ∷ record { writer = []; size = 3 }
      ∷ [];
}

joined-IsCut : IsCut memory (λ w. w) memory-IsReliable joined
joined-IsCut = record { full = tt; in_range = (omega arith, (omega arith, (omega arith, tt))) }

write-Pours_example :
    Pours memory
      (λ w. w)
      memory-IsReliable
      (write memory (2 * length joined.rest + 1) joined (1 ∷ 2 ∷ 3 ∷ []))
      (slots memory (λ w. w) memory-IsReliable joined)
      (1 ∷ 2 ∷ 3 ∷ [])
      0
write-Pours_example =
    write-Pours memory (λ w. w) memory-IsReliable joined (1 ∷ 2 ∷ 3 ∷ []) joined-IsCut (omega arith)

abbrev pieces : List Bytes
pieces = (1 ∷ []) ∷ (2 ∷ 3 ∷ 4 ∷ []) ∷ []

joined-capacity : length (concat pieces) ≤ capacity (slots memory (λ w. w) memory-IsReliable joined)
unfolding capacity
joined-capacity = omega arith

copy-pour_example :
    ((copy memory pieces none joined).1 ≡ none)
    × (slots memory (λ w. w) memory-IsReliable (copy memory pieces none joined).0
        ≡ pour (slots memory (λ w. w) memory-IsReliable joined) (1 ∷ 2 ∷ 3 ∷ 4 ∷ []))
copy-pour_example =
    copy-pour memory (λ w. w) memory-IsReliable pieces joined joined-IsCut
      (omega arith, (omega arith, tt)) joined-capacity

-- Two outputs, the second stored compressed. The header lists them in order; `swap` is a sort for a
-- list of two that is not in order.
abbrev outputs : List ActionsOutput
outputs =
    record { offset = 0; size = 2; compression = unspecified; id = "a" }
    ∷ record { offset = 2; size = 1; compression = zstd; id = "b" }
    ∷ record { offset = 3; size = 0; compression = unspecified; id = "c" }
    ∷ []

abbrev content : String → Bytes
content id = if str_eq id "a" then 1 ∷ 2 ∷ [] else if str_eq id "b" then 3 ∷ [] else []

layout : IsLayout 0 outputs 3
layout = (refl, (refl, (refl, refl)))

in_order : IsSorted outputs
unfolding lt64 sub64
in_order = ((refl, (refl, tt)), ((refl, tt), (tt, tt)))

sorted-StartsAt_example : StartsAt 0 outputs 3
sorted-StartsAt_example =
    sorted-StartsAt 3 outputs outputs layout (omega arith) (Permᴰ.refl outputs) in_order

-- Every file is new and empty.
abbrev object_writer : String → Io ℕ Bytes
object_writer id n = (ok [], n + 1)

makes :
    (id : String) (s : ℕ)
    → (w : Bytes) × ((object_writer id s).0 ≡ ok w) × IsNew files unpack files-IsFileSystem w
makes id s = ([], refl, refl)

sizes : 2 + total_size outputs < 2 ^ 63
unfolding total_size
sizes = omega arith

start_chunks-ChunksOf_example :
    ((start_chunks files object_writer 3 2 outputs 0).0.failure ≡ ok tt)
    × ChunksOf files
        (IsNew files unpack files-IsFileSystem)
        2
        outputs
        (start_chunks files object_writer 3 2 outputs 0).0.chunks
start_chunks-ChunksOf_example =
    start_chunks-ChunksOf files object_writer (IsNew files unpack files-IsFileSystem) makes 3 2
      outputs 0 (omega arith) (omega arith) sizes

abbrev downloader : Downloader
downloader = record {
  client = some (blob_client (9 ∷ 9 ∷ 1 ∷ 2 ∷ 3 ∷ []));
  header_size = 2;
  header = record { entries = []; outputs = outputs; output_total_size = 3 };
}

held : HoldsOutputs content (1 ∷ 2 ∷ 3 ∷ []) outputs 3
held = record { layout = layout; size = refl; contents = (refl, (refl, (refl, tt))) }

some_bytes : NoEmptyChunk files object_writer outputs 0
unfolding start_chunks fill_chunk lt64 add64
some_bytes offset = (omega arith, tt)

download_all-Stored_example :
    ((download_all files object_writer (λ os. os) downloader 0).0.1 ≡ ok tt)
    × Stored files-IsFileSystem.file_content unpack content outputs
        (download_all files object_writer (λ os. os) downloader 0).0.0
download_all-Stored_example =
    download_all-Stored files unpack files-IsFileSystem object_writer makes
      (blob_client (9 ∷ 9 ∷ 1 ∷ 2 ∷ 3 ∷ [])) (9 ∷ 9 ∷ []) (1 ∷ 2 ∷ 3 ∷ [])
      (blob_client-Serves (9 ∷ 9 ∷ 1 ∷ 2 ∷ 3 ∷ []) (omega arith)) content (λ os. os) downloader 3 0
      refl refl held some_bytes (omega arith) (omega arith) (Permᴰ.refl outputs) in_order

-- A blob whose header is two bytes of protobuf.
abbrev committed_blob : Bytes
committed_blob = put_uint64 2 ++ ((7 ∷ 7 ∷ []) ++ (1 ∷ []))

abbrev empty_cache : ActionsCache
empty_cache = record { entries = []; outputs = []; output_total_size = 0 }

new_downloader-Committed_example :
    new_downloader protobuf (some (blob_client committed_blob))
    ≡ ok (record {
      client = some (blob_client committed_blob);
      header_size = 10;
      header = empty_cache;
    })
new_downloader-Committed_example =
    new_downloader-Committed protobuf (blob_client committed_blob) empty_cache (7 ∷ 7 ∷ []) (1 ∷ [])
      (λ offset size fits. refl) refl (omega arith)
