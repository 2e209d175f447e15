-- ===== src/Remote/Backend.antt =====
-- internal/remote/core/backend.go: the uploader and the downloader as the remote backend.
pub mod Restart
use gocica.Base.{Bool, true, false, not, List, [], Option, none, some, String, Bytes}
use gocica.Base.Int64.{Int64}
use gocica.Base.Go.{Result, ok, Io, within}
use gocica.Base.Table.{Table}
use gocica.Proto.{ActionsOutput, IndexEntry}
use gocica.Remote.{Random, Protobuf, Zstd}
use gocica.Remote.Upload.{Uploader, upload_output, commit}
use gocica.Remote.Download.{Downloader, is_empty, get_entries}
use gocica.Remote.Sinks.{Files}
use gocica.Remote.DownloadAll.{Delivered, download_all}

-- `cancel` is downloadCancelFunc, which is nil when nothing is downloaded: whether it was called.
pub record Backend (S : Type 0) : Type 0 where
  pub uploader : Uploader S
  pub downloader : Downloader
  pub cancel : Option Bool

unfoldable pub new_backend : {S : Type 0} → Uploader S → Downloader → Backend S
unfolding is_empty
new_backend uploader downloader = record {
  uploader = uploader;
  downloader = downloader;
  cancel = elim (is_empty downloader) [ true ↦ none | false ↦ some false ];
}

-- The download in the background, over the state `L` of the local backend. Its error is only logged.
unfoldable pub download_outputs :
    {L W Z : Type 0}
    → Files W Z
    → (local_put : String → Int64 → Io L W) → (List ActionsOutput → List ActionsOutput)
    → Downloader
    → L
    → List (Delivered W) × L
unfolding is_empty download_all
download_outputs f local_put sort d l = elim (is_empty d) [
  | true ↦ ([], l)
  | false ↦ let ((files, _), l') = download_all f (λ id. local_put id 0) sort d l in (files, l')
]

module _ {S : Type 0} where
  abbrev on_uploader : {A : Type 0} → Io (Uploader S) A → Io (Backend S) A
  on_uploader m b = let (r, u) = m b.uploader in (r, record b { uploader = u })

  unfoldable pub meta_data : Io (Backend S) (Table IndexEntry)
  unfolding get_entries
  meta_data b = (ok (get_entries b.downloader), b)

  unfoldable pub write_meta_data :
      Protobuf → Random S → Table IndexEntry → Io (Backend S) (Unit {0})
  unfolding commit
  write_meta_data pb rand entries = within "commit" (on_uploader (commit pb rand entries))

  unfoldable pub put : Zstd → String → Int64 → Bytes → Io (Backend S) (Unit {0})
  unfolding upload_output
  put z object_id size r = within "upload output" (on_uploader (upload_output z object_id size r))

  unfoldable pub close : Io (Backend S) (Unit {0})
  close b = (ok tt, record b { cancel = elim b.cancel [ none ↦ none | some _ ↦ some true ] })
