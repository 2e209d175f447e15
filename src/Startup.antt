-- ===== src/Startup.antt =====
-- internal/kessoku: how the parts are put together, and main.go: what runs when that fails.
pub mod Gets
pub mod Offline
pub mod Sessions
pub mod OnDisk
use gocica.Base.{Bytes, ℕ, List, [], ◌∷◌, Option, some, String}
use gocica.Base.Go.{
  Error, Result, ok, err, wrapped, and_then, Io, pure, lift, within, continue, ◌>>=◌, ◌>>◌,
}
use gocica.Base.Int64.{Int64}
use gocica.Local.{Disk, FileSystem, new_disk}
use gocica.Remote.{UploadClient, Random, Protobuf, Zstd}
use gocica.Remote.Storage.{Sdk}
use gocica.Remote.Upload.{Uploader, BaseChunk, new_uploader}
use gocica.Remote.Download.{BlobClient, Downloader, new_downloader, base_blob_provider}
use gocica.Remote.Backend.{Backend, new_backend}
use gocica.Remote.Backend as Core
use gocica.Provider.{Http, GhaCacheConfig, Providers, switch}
use gocica.CacheProg.{CacheProg, Service}
use gocica.CacheProg as Prog
use gocica.CacheProg.Backend.{
  LocalBackend, RemoteBackend, ConbinedBackend, Upload, new_conbined_backend,
}
use gocica.CacheProg.Backend as Conbined
use gocica.Log.{Logger}
use gocica.Local.{FileSystem}
use gocica.Local.Backend.{OpenDisk, disk_backend}
use gocica.Protocol.Process.{
  Process, with_logger, with_get_handler, with_put_handler, with_close_handler, new_process,
}

-- core.Backend as remote.Backend
unfoldable pub remote_backend :
    {S : Type 0} → Protobuf → Zstd → Random S → RemoteBackend (Backend S)
unfolding Core.meta_data Core.write_meta_data Core.put Core.close
remote_backend pb z rand = record {
  meta_data = Core.meta_data;
  write_meta_data = Core.write_meta_data pb rand;
  put = Core.put z;
  close = Core.close;
}

-- ConbinedBackend as cacheprog.Backend. `clock` is the time of a put.
unfoldable pub conbined_service :
    {L R : Type 0}
    → LocalBackend L
    → RemoteBackend R
    → Int64
    → (List Upload → List Upload)
    → Service (ConbinedBackend L R)
unfolding Conbined.get Conbined.put Conbined.close
conbined_service local remote clock schedule = record {
  get = Conbined.get local remote;
  put = Conbined.put local remote clock;
  close = Conbined.close local remote schedule;
}

unfoldable pub new_cache_prog : {B : Type 0} → B → CacheProg B
new_cache_prog backend = record { backend = backend; hit_count = 0; miss_count = 0; put_count = 0 }

unfoldable pub new_process_with_options : {B : Type 0} → Logger → Service B → Process (CacheProg B)
unfolding new_process with_logger with_get_handler with_put_handler with_close_handler Prog.get
    Prog.put Prog.close
new_process_with_options logger service = new_process (
    with_logger logger
    ∷ with_get_handler (Prog.get service)
    ∷ with_put_handler (Prog.put service)
    ∷ with_close_handler (Prog.close service)
    ∷ [])

module _ {S : Type 0} (http : Http S) (sdk : Sdk S) (pb : Protobuf) (rand : Random S)
    (schedule : List BaseChunk → List BaseChunk) where
  -- NewDownloader, NewUploader and NewBackend
  unfoldable pub connect : Option (UploadClient S) → Option BlobClient → Io S (Backend S)
  unfolding new_downloader base_blob_provider new_uploader new_backend
  connect upload_client download_client = do
    downloader ← lift (new_downloader pb download_client)
    λ s. (
      ok (
          new_backend (new_uploader upload_client rand schedule (base_blob_provider downloader) s)
            downloader),
      s,
    )

  -- UploadClientProviderExecutor and DownloadClientProviderExecutor run beside each other; here the one
  -- whose error counts first does.
  unfoldable pub execute_download : Providers http sdk → Option (UploadClient S) → Io S (Backend S)
  unfolding connect
  execute_download providers upload_client = providers.download >>= connect upload_client

  unfoldable pub execute_providers : Providers http sdk → Io S (Backend S)
  unfolding execute_download
  execute_providers providers = providers.upload >>= execute_download providers

  unfoldable pub initialize_backend : Option GhaCacheConfig → Io S (Backend S)
  unfolding switch execute_providers
  initialize_backend config = lift (switch http sdk config) >>= execute_providers

-- InitializeProcess, over what NewDisk and the backend come to: the process, and the state of its
-- handlers.
unfoldable pub initialize_process :
    {F S : Type 0}
    → Logger
    → FileSystem F
    → (write : String → Bytes → Io F (Unit {0})) → RemoteBackend (Backend S)
    → Int64
    → (List Upload → List Upload)
    → ℕ
    → Result (Disk F)
    → Result (Backend S)
    → Result (
        Process (CacheProg (ConbinedBackend (OpenDisk F) (Backend S)))
        × CacheProg (ConbinedBackend (OpenDisk F) (Backend S)))
unfolding new_process_with_options conbined_service new_cache_prog new_conbined_backend disk_backend
initialize_process {F} logger fs write remote clock schedule now disk backend = and_then disk λ d.
    and_then backend λ b.
      let local = disk_backend fs write in
      let opened : OpenDisk F = record { disk = d; writers = [] } in
      ok (
        new_process_with_options logger (conbined_service local remote clock schedule),
        new_cache_prog (new_conbined_backend local remote now opened b),
      )

-- `main` goes on without a cache when the initialization fails.
unfoldable pub main_process : {X : Type 0} → Logger → Result (Process X × X) → Process X
unfolding new_process with_logger
main_process logger (ok (p, _)) = p
main_process logger (err e) = new_process (with_logger logger ∷ [])
