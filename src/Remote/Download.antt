-- ===== src/Remote/Download.antt =====
-- internal/remote/core/download.go, over the download client of
-- internal/remote/storage/azure_blob_storage.go, the only one there is.
pub mod Committed
use gocica.Base.{Bool, List, [], String, Option, none, some, Bytes, ◌==◌, if◌then◌else◌}
use gocica.Base.Int64.{Int64, add64, lt64}
use gocica.Base.Go.{Error, plain, wrap, panic, Result, ok, err, wrapped, and_then}
use gocica.Base.Table.{Table}
use gocica.Proto.{ActionsOutput, IndexEntry, ActionsCache}
use gocica.PkgIo.JoinedWriter.{WriteCloser, JoinedWriter}
use gocica.PkgIo.JoinedWriter.Copy.{Body, copy}
use gocica.Remote.{UrlRange, BaseBlobProvider, Protobuf}
use gocica.Remote.Upload.Header.{uint64}

-- The calls of the Azure SDK: the blob's URL, a range as a stream, and a range into a buffer.
pub record BlobClient : Type 0 where
  pub url : String
  pub download_stream : Int64 → Int64 → Result Body
  pub download_buffer : Int64 → Int64 → Result Bytes

-- A nil client means that there is nothing to download.
pub record Downloader : Type 0 where
  pub client : Option BlobClient
  pub header_size : Int64
  pub header : ActionsCache

-- AzureDownloadClient.DownloadBlock
unfoldable pub download_block :
    {W : Type 0}
    → WriteCloser W
    → BlobClient
    → Int64
    → Int64
    → JoinedWriter W
    → JoinedWriter W × Option Error
download_block io c offset size j = elim (c.download_stream offset size) [
  | err e ↦ (j, some (wrap "download stream" e))
  | ok body ↦
      let (j', failure) = copy io body.pieces body.failure j in
      (j', elim failure [ none ↦ none | some e ↦ some (wrap "copy" e) ])
]

-- AzureDownloadClient.DownloadBlockBuffer
unfoldable pub download_block_buffer : BlobClient → Int64 → Int64 → Result Bytes
download_block_buffer c offset size = wrapped "download buffer" (c.download_buffer offset size)

pub record Header : Type 0 where
  pub cache : ActionsCache
  pub size : Int64

-- `make([]byte, protobufSize)` panics at a negative size.
unfoldable pub read_body : Protobuf → BlobClient → Int64 → Result Header
read_body pb c protobuf_size =
    if lt64 protobuf_size 0
    then err (panic "makeslice: len out of range")
    else and_then (wrapped "download header buffer" (download_block_buffer c 8 protobuf_size))
        (λ proto_buf.
          and_then (wrapped "unmarshal header" (pb.unmarshal proto_buf))
            (λ cache. ok (record { cache = cache; size = add64 8 protobuf_size })))

unfoldable pub read_header : Protobuf → Option BlobClient → Result Header
unfolding read_body
read_header pb none =
    ok (record { cache = record { entries = []; outputs = []; output_total_size = 0 }; size = 0 })
read_header pb (some c) =
    and_then (wrapped "download size buffer" (download_block_buffer c 0 8))
      (λ size_buf. read_body pb c (uint64 size_buf))

unfoldable pub new_downloader : Protobuf → Option BlobClient → Result Downloader
unfolding read_header
new_downloader pb client =
    and_then (wrapped "read header" (read_header pb client))
      (λ h. ok (record { client = client; header_size = h.size; header = h.cache }))

unfoldable pub get_entries : Downloader → Table IndexEntry
get_entries d = d.header.entries

unfoldable pub get_outputs : Downloader → List ActionsOutput
get_outputs d = d.header.outputs

unfoldable pub is_empty : Downloader → Bool
is_empty d = d.header.output_total_size == 0

unfoldable pub get_output_block_url : Downloader → Result UrlRange
get_output_block_url d = elim d.client [
  | none ↦ err (plain "no download client")
  | some c ↦ ok (record { url = c.url; offset = d.header_size; size = d.header.output_total_size })
]

-- The downloader as the uploader's source of the old blob.
unfoldable pub base_blob_provider : Downloader → BaseBlobProvider
unfolding is_empty get_outputs get_output_block_url
base_blob_provider d = record {
  is_empty = is_empty d;
  get_outputs = ok (get_outputs d);
  get_output_block_url = get_output_block_url d;
}
