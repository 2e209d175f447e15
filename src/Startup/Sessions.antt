-- ===== src/Startup/Sessions.antt =====
-- From one session of the cache to the next, over the remote backend.
use gocica.Base.{
  ℕ, ◌≡◌, refl, true, false, List, [], ◌++◌, map, some, String, Bytes, length, All, ◌==◌,
}
use gocica.Base.Go.{Result, ok, wait_all}
use gocica.Base.Table.{contains}
use gocica.Remote.{UploadClient, Random, Protobuf, Zstd}
use gocica.Remote.Blob.{IsBlobStore, HoldsOutputs}
use gocica.Remote.Upload.{Uploader, Encoded, encode_output, upload_output}
use gocica.Remote.Upload.Outputs.{IsReady}
use gocica.Remote.Upload.Added.{Added}
use gocica.Remote.Upload.Names.{has_output}
use gocica.Remote.Download.{BlobClient, Downloader, new_downloader}
use gocica.Remote.Backend.{Backend, new_backend}
use gocica.Remote.Backend as Core
use gocica.Remote.Backend.Restart.{header}
use gocica.CacheProg.Backend.{
  LocalBackend, RemoteBackend, ConbinedBackend, Upload, upload_task, new_conbined_backend,
  recent_entries,
}
use gocica.CacheProg.Backend.Closing.{uploaded}
use gocica.Startup.{remote_backend}

-- The content behind an id is what the upload of it stores, and the id is no block id of the copy of the
-- old blob.
pub record IsUploadable (z : Zstd) (content : String → Bytes) (ids : List String) (u : Upload)
    : Type 0 where
  pub nothing : (u.size == 0) ≡ true → content u.output_id ≡ []
  pub same :
      (u.size == 0) ≡ false
      → (e : Encoded) → encode_output z u.size u.body ≡ ok e
      → e.reader ≡ content u.output_id
  pub fresh : contains u.output_id ids ≡ false

module _ {L S : Type 0} (c : UploadClient S) (rand : Random S) (remote : String → Bytes)
    (store : IsBlobStore c rand remote) (content : String → Bytes) (base_data : Bytes) (z : Zstd)
    (pb : Protobuf) (local : LocalBackend L) where
  abbrev backend : RemoteBackend (Backend S)
  backend = remote_backend pb z rand

  abbrev Ready : Backend S → Type 0
  Ready b = IsReady c rand remote store content base_data b.uploader

  abbrev run_uploads : List Upload → Backend S → Result (Unit {0}) × Backend S
  run_uploads us b = wait_all (map (upload_task local backend) us) b

  abbrev after : Upload → Backend S → Backend S
  after u b = record b { uploader = (upload_output z u.output_id u.size u.body b.uploader).1 }

  -- What the uploads of a session make of the backend.
  record Uploaded (us : List Upload) (b : Backend S) (r : Result (Unit {0})) (b' : Backend S)
      : Type 0 where
    ready : Ready b'
    wait_base : b'.uploader.wait_base ≡ b.uploader.wait_base
    kept :
        (k : String)
        → has_output k b.uploader.outputs ≡ true
        → has_output k b'.uploader.outputs ≡ true
    added : r ≡ ok tt → All (λ u. has_output u.output_id b'.uploader.outputs ≡ true) us

  task-after : (u : Upload) (b : Backend S) → (upload_task local backend u b).1 ≡ after u b
  unfolding remote_backend Core.put
  task-after u b = refl

  module _ (schedule : List Upload → List Upload) (cb : ConbinedBackend L (Backend S)) where
    -- The remote backend behind the uploads.
    abbrev pub behind : Backend S
    behind = (uploaded local (remote_backend pb z rand) schedule cb).1

    -- What the next session finds: its index is the one to be written, and the blob holds the content of
    -- every object that was uploaded.
    pub record NextSession (next : BlobClient) (blob : Bytes) : Type 0 where
      pub downloader : Downloader
      pub reads : new_downloader pb (some next) ≡ ok downloader
      pub index :
          (now : ℕ) (l : L) (u : Uploader S)
          → let cb' =
              new_conbined_backend local
                (remote_backend pb z rand)
                now
                l
                (new_backend u downloader) in
            (cb'.meta_data_map ≡ cb.new_meta_data_map)
            × (cb'.new_meta_data_map ≡ recent_entries now cb.new_meta_data_map)
      pub objects :
          All (λ u. has_output u.output_id downloader.header.outputs ≡ true) (schedule cb.eg)
      pub held : Bytes
      pub contents :
          HoldsOutputs content held downloader.header.outputs downloader.header.output_total_size
      pub front : Bytes
      pub blob_front : (blob ≡ front ++ held) × (downloader.header_size ≡ length front)
