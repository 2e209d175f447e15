-- ===== src/Startup/Offline.antt =====
-- A start at which the cache service has nothing for this run.
use gocica.Base.{◌≡◌, refl, ap, ◌∙◌, true, List, [], none, some, String, Bytes}
use gocica.Base.Int64.{Int64}
use gocica.Base.Go.{Error, ok, err, is_error, bind-at}
use gocica.Base.Table.{Table}
use gocica.Proto.{IndexEntry}
use gocica.Remote.{Random, Protobuf, Zstd}
use gocica.Remote.Storage.{Sdk}
use gocica.Remote.Upload.{BaseChunk, new_uploader, setup_base, empty_base, upload_output, commit}
use gocica.Remote.Download.{new_downloader, read_header, is_empty, get_entries, base_blob_provider}
use gocica.Remote.Backend.{Backend, new_backend, meta_data, write_meta_data, put}
use gocica.Provider.{
  Http, GhaCacheConfig, GhaCacheClient, new_github_cache_client, create_cache_entry,
  get_download_url, client_for_entry, client_for_url, upload_client_provider,
  download_client_provider, gha_cache_provider, switch, Providers, err_already_exists,
}
use gocica.Startup.{initialize_backend, execute_providers, execute_download, connect}

module _ {S : Type 0} (http : Http S) (sdk : Sdk S) (pb : Protobuf) (rand : Random S)
    (schedule : List BaseChunk → List BaseChunk) (config : GhaCacheConfig)
    (c : GhaCacheClient) where
  abbrev providers : Providers http sdk
  providers = record {
    download = download_client_provider http sdk c;
    upload = upload_client_provider http sdk c;
  }

  switched :
      new_github_cache_client http config ≡ ok c → switch http sdk (some config) ≡ ok providers
  unfolding switch gha_cache_provider
  switched client = rw (client, gha_cache_provider) refl

  upload_left_out :
      (s : S) (taken : Error)
      → (create_cache_entry http c s).0 ≡ err taken
      → is_error taken err_already_exists ≡ true
      → upload_client_provider http sdk c s ≡ (ok none, (create_cache_entry http c s).1)
  unfolding upload_client_provider client_for_entry
  upload_left_out s taken refused conflict = rw (refused) (rw (conflict) refl)

  download_left_out :
      (s : S) (missing : Error)
      → (get_download_url http c s).0 ≡ err missing
      → download_client_provider http sdk c s ≡ (ok none, (get_download_url http c s).1)
  unfolding download_client_provider client_for_url
  download_left_out s missing unknown = rw unknown refl

  -- When the service has the entry of this run already and gives no blob to download, the program starts
  -- all the same: its backend has no entries, downloads nothing, and takes every output and every index
  -- without uploading anything.
  pub initialize_backend-offline :
      (s : S) (taken missing : Error)
      → new_github_cache_client http config ≡ ok c
      → (create_cache_entry http c s).0 ≡ err taken
      → is_error taken err_already_exists ≡ true
      → (get_download_url http c (create_cache_entry http c s).1).0 ≡ err missing
      → (b : Backend S) × ((initialize_backend http sdk pb rand schedule (some config) s).0 ≡ ok b)
        × (b.cancel ≡ none)
        × ((meta_data b).0 ≡ ok [])
        × ((z : Zstd) (id : String) (size : Int64) (r : Bytes) → put z id size r b ≡ (ok tt, b))
        × ((entries : Table IndexEntry) → write_meta_data pb rand entries b ≡ (ok tt, b))
  unfolding initialize_backend execute_providers execute_download connect new_downloader read_header
      is_empty get_entries base_blob_provider new_uploader setup_base new_backend meta_data put
      write_meta_data upload_output commit
  initialize_backend-offline s taken missing client refused conflict unknown = (
    record {
      uploader = record {
        client = none;
        outputs = [];
        wait_base = ok empty_base;
        world = (get_download_url http c (create_cache_entry http c s).1).1;
      };
      downloader = record {
        client = none;
        header_size = 0;
        header = record { entries = []; outputs = []; output_total_size = 0 };
      };
      cancel = none;
    },
    ap (λ r. r.0)
        (bind-at (λ t. (switch http sdk (some config), t))
            (execute_providers http sdk pb rand schedule) s (ap (λ r. (r, s)) (switched client))
          ∙ bind-at providers.upload (execute_download http sdk pb rand schedule providers) s
              (upload_left_out s taken refused conflict)
          ∙ bind-at providers.download (connect http sdk pb rand schedule none)
              (create_cache_entry http c s).1
              (download_left_out (create_cache_entry http c s).1 missing unknown)),
    refl,
    refl,
    λ z id size r. refl,
    λ entries. refl,
  )
