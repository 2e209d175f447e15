-- ===== src/Examples/Services.antt =====
-- A cache service that has the entry already, gives no download, and confirms what is finalized; and a
-- storage behind the SDK.
use Prim.Native.String.{count}
use text.Mathlib.TextBridge.{IsPrefix}
use gocica.Base.{
  ℕ, ◌<◌, ◌≡◌, ◌↔◌, refl, ap, true, false, [], ◌∷◌, String, none, some, Bytes, str_eq,
  if◌then◌else◌,
}
use gocica.Base.Go.{ok, err, wrap, sentinel, is_error, ok-injective}
use gocica.Base.Table.{Table}
use gocica.Proto.{IndexEntry}
use gocica.PkgIo.JoinedWriter.Copy.{Body}
use gocica.Remote.{Zstd}
use gocica.Remote.Blob.{IsBlobStore, gather}
use gocica.Remote.Backend.{Backend, meta_data, put, write_meta_data}
use gocica.Remote.Storage.{BlockBlob, Sdk, azure_upload_client}
use gocica.Remote.Storage.Blocks.{http_range, IsBlockBlob, azure_upload_client-IsBlobStore}
use gocica.Provider.{
  GhaCacheConfig, GhaCacheClient, Http, HttpResponse, blob_key, extend_key, create_body,
  create_cache_entry, get_download_url, do_request, read_response, refuse, new_github_cache_client,
  upload_client_provider, commit_cache_entry, upload_client_wrapper, wrapped_commit,
  err_already_exists,
}
use gocica.Provider.Keys.{blob_key-IsPrefix}
use gocica.Provider.Statuses.{IsForeign, Replied, upload_client_provider-skips}
use gocica.Provider.Finalize.{
  Confirmed, wrapped_commit-Confirmed, upload_client_wrapper-IsBlobStore,
}
use gocica.Startup.{initialize_backend}
use gocica.Startup.Offline.{initialize_backend-offline}
use gocica.Examples.Storage.{
  World, empty_world, put_block, put_block-Writes, put_block_same, old_blob, client, random,
  protobuf, store,
}
use gocica.Examples.Files.{blob_client}

abbrev status_of : String → ℕ
status_of url =
    if str_eq url "CreateCacheEntry"
    then 409
    else if str_eq url "FinalizeCacheEntryUpload"
    then 200
    else 404

abbrev no_body : Body
no_body = record { pieces = []; failure = none }

abbrev service : Http World
service = record {
  parse = λ url. ok url;
  join_path = λ base path. path;
  encode = λ req. ok [];
  new_request = λ url b. ok tt;
  send = λ token url b w. (ok (record { status = status_of url; body = no_body }), w);
  decode_download_url =
      λ b. ok (record { is_ok = false; signed_download_url = ""; matched_key = "" });
  decode_upload_url = λ b. ok (record { is_ok = false; signed_upload_url = "" });
  decode_finalize = λ b. ok (record { is_ok = true; entry_id = "1" });
}

abbrev config : GhaCacheConfig
config = record {
  token = "t";
  cache_url = "https://results";
  runner_os = "Linux";
  ref = "refs/heads/main";
  sha = "0a1b";
}

abbrev cache_client : GhaCacheClient
cache_client = record {
  token = "t";
  base_url = "/twirp/github.actions.results.api.v1.CacheService/";
  runner_os = "Linux";
  ref = "refs/heads/main";
  sha = "0a1b";
}

abbrev block_blob : BlockBlob World
block_blob = record {
  stage_block = λ id b w. (ok tt, record w { blocks = put_block id b w.blocks });
  stage_block_from_url = λ id url offset size w.
      (ok tt, record w { blocks = put_block id (http_range offset size (old_blob url)) w.blocks });
  commit_block_list = λ ids w. (ok tt, record w { blob = gather w.blocks ids });
}

abbrev sdk : Sdk World
sdk = record {
  new_upload_client = λ url. ok block_blob;
  new_download_client = λ url. ok (blob_client []);
}

abbrev block_blob-IsBlockBlob : IsBlockBlob block_blob old_blob
block_blob-IsBlockBlob = record {
  staged = λ w. w.blocks;
  committed = λ w. w.blob;
  stage_writes = λ id b w. put_block-Writes id b w.blocks;
  stage_ok = λ id b w h. put_block_same id b w.blocks;
  stage_url_writes = λ id url offset size w. put_block-Writes id _ w.blocks;
  stage_url_ok = λ id url offset size w h. put_block_same id _ w.blocks;
  commit_ok = λ ids w h. refl;
}

azure_upload_client-IsBlobStore_example :
    IsBlobStore (azure_upload_client block_blob) random old_blob
azure_upload_client-IsBlobStore_example =
    azure_upload_client-IsBlobStore block_blob random old_blob block_blob-IsBlockBlob (λ n w. refl)

upload_client_wrapper-IsBlobStore_example :
    IsBlobStore (upload_client_wrapper service client cache_client) random old_blob
upload_client_wrapper-IsBlobStore_example =
    upload_client_wrapper-IsBlobStore service client cache_client random old_blob store
      (λ token url b w. refl)

service-IsForeign : IsForeign service
service-IsForeign = record {
  encode = λ r e h. cc;
  new_request = λ url b e h. cc;
  send = λ token url b w e h. cc;
  failure = λ token url b w res e h k.
      let nothing : none ≡ res.body.failure = ap (λ r. r.body.failure) (ok-injective _ _ h) in cc;
  decode_upload_url = λ b e h. cc;
}

upload_client_provider-skips_example :
    ((upload_client_provider service sdk cache_client empty_world).0 ≡ ok none) ↔ (
      (res : HttpResponse) × Replied service cache_client "CreateCacheEntry"
        (create_body cache_client)
        empty_world
        res
      × (res.status ≡ 409)
      × (res.body.failure ≡ none))
upload_client_provider-skips_example =
    upload_client_provider-skips service sdk cache_client empty_world service-IsForeign

-- The conflict comes about, and the upload is left out.
left_out : (upload_client_provider service sdk cache_client empty_world).0 ≡ ok none
left_out =
    (upload_client_provider-skips service sdk cache_client empty_world service-IsForeign).1
      (_, ([], refl, refl, refl), refl, refl)

commits : (wrapped_commit service client cache_client ("a" ∷ []) 3 empty_world).0 ≡ ok tt
unfolding wrapped_commit commit_cache_entry do_request read_response
commits = refl

wrapped_commit-Confirmed_example :
    ((client.commit ("a" ∷ []) 3 empty_world).0 ≡ ok tt)
    × Confirmed service cache_client 3 (client.commit ("a" ∷ []) 3 empty_world).1
wrapped_commit-Confirmed_example =
    wrapped_commit-Confirmed service client cache_client ("a" ∷ []) 3 empty_world commits

abbrev sibling : GhaCacheClient
sibling = record cache_client { sha = "9f" }

abbrev cousin : GhaCacheClient
cousin = record cache_client { ref = "refs/heads/fix"; sha = "77" }

blob_key-IsPrefix_example :
    (near : String) × (far : String) × ((blob_key cache_client).1 ≡ near ∷ far ∷ [])
    × (count far < count near)
    × IsPrefix near (blob_key sibling).0
    × IsPrefix far (blob_key cousin).0
blob_key-IsPrefix_example = blob_key-IsPrefix cache_client sibling cousin refl refl refl

key : (blob_key cache_client).0 ≡ "gocica-cache-Linux-refs/heads/main-0a1b"
unfolding blob_key extend_key
key = refl

made : new_github_cache_client service config ≡ ok cache_client
unfolding new_github_cache_client
made = refl

taken :
    (create_cache_entry service cache_client empty_world).0
    ≡ err (wrap "http request" (wrap "conflict" (sentinel err_already_exists)))
unfolding create_cache_entry do_request read_response refuse
taken = refl

conflicts :
    is_error
      (wrap "http request" (wrap "conflict" (sentinel err_already_exists)))
      err_already_exists
    ≡ true
unfolding is_error
conflicts = refl

unknown :
    (get_download_url service cache_client
      (create_cache_entry service cache_client empty_world).1).0
    ≡ err (wrap "get cache entry download url" (wrap "not found" (sentinel "cache not found")))
unfolding get_download_url create_cache_entry do_request read_response refuse
unknown = refl

initialize_backend-offline_example :
    (b : Backend World) × ((initialize_backend service sdk protobuf random
        (λ ks. ks)
        (some config)
        empty_world).0
      ≡ ok b)
    × (b.cancel ≡ none)
    × ((meta_data b).0 ≡ ok [])
    × ((z : Zstd) (id : String) (size : ℕ) (r : Bytes) → put z id size r b ≡ (ok tt, b))
    × ((entries : Table IndexEntry) → write_meta_data protobuf random entries b ≡ (ok tt, b))
initialize_backend-offline_example =
    initialize_backend-offline service sdk protobuf random (λ ks. ks) config cache_client
      empty_world _ _ made taken conflicts unknown
