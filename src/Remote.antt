-- ===== src/Remote.antt =====
-- internal/remote/core: the interfaces between the uploader, the downloader and the storage, and what
-- is not code of the repository: random bytes, base64, protobuf and zstd.
pub mod Upload
pub mod Download
pub mod Sinks
pub mod DownloadAll
pub mod Blob
pub mod Storage
pub mod Backend
pub mod Layout
use gocica.Base.{ℕ, Bool, List, String, Option, Bytes}
use gocica.Base.Int64.{Int64}
use gocica.Base.Go.{Result, Io}
use gocica.Proto.{ActionsOutput, ActionsCache}

-- core.UploadClient over the state `S` of the remote storage. A reader is its content: every reader
-- that the program passes is over a slice in memory, which does not fail.
pub record UploadClient (S : Type 0) : Type 0 where
  pub upload_block : String → Bytes → Io S Int64
  pub upload_block_from_url : String → String → Int64 → Int64 → Io S (Unit {0})
  pub commit : List String → Int64 → Io S (Unit {0})

pub record UrlRange : Type 0 where
  pub url : String
  pub offset : Int64
  pub size : Int64

-- core.BaseBlobProvider
pub record BaseBlobProvider : Type 0 where
  pub is_empty : Bool
  pub get_outputs : Result (List ActionsOutput)
  pub get_output_block_url : Result UrlRange

-- crypto/rand and encoding/base64
pub record Random (S : Type 0) : Type 0 where
  pub read : ℕ → Io S Bytes
  pub std_encoding : Bytes → String

-- google.golang.org/protobuf/proto at ActionsCache
pub record Protobuf : Type 0 where
  pub marshal : ActionsCache → Result Bytes
  pub unmarshal : Bytes → Result ActionsCache

-- A zstd.Writer over a buffer: what the buffer holds after io.Copy, and after Close.
pub record Zstd : Type 0 where
  pub copy : Bytes → Result Bytes
  pub close : Bytes → Result Bytes
