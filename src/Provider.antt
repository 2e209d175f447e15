-- ===== src/Provider.antt =====
-- internal/remote/provider: the cache service of GitHub Actions, which gives out the URLs of the blobs.
pub mod Keys
pub mod Statuses
pub mod Finalize
use Prim.Native.String.{◌++◌ as ◌&◌}
use mathlib.Core.List.{reverse}
use gocica.Base.{
  ℕ, List, [], ◌∷◌, Option, none, some, String, Bytes, Bool, not, ◌==◌, if◌then◌else◌,
}
use gocica.Base.Int64.{Int64}
use gocica.Base.Go.{
  Error, sentinel, plain, wrap, panic, is_error, Result, ok, and_then, err, wrapped, Io, pure,
  raise, lift, within, continue, ◌>>=◌, ◌>>◌,
}
use gocica.PkgIo.JoinedWriter.Copy.{Body}
use gocica.Remote.{UploadClient}
use gocica.Remote.Download.{BlobClient}
use gocica.Remote.Storage.{Sdk, new_azure_upload_client, new_azure_download_client}

pub record GhaCacheConfig : Type 0 where
  pub token : String
  pub cache_url : String
  pub runner_os : String
  pub ref : String
  pub sha : String

-- The bodies of the three calls.
pub data ApiRequest : Type 0 where
  download_url_request : (key : String) (restore_keys : List String) (version : String) → ApiRequest
  create_request : (key version : String) → ApiRequest
  finalize_request : (key : String) (size_bytes : Int64) (version : String) → ApiRequest

pub record DownloadUrlReply : Type 0 where
  pub is_ok : Bool
  pub signed_download_url : String
  pub matched_key : String

pub record UploadUrlReply : Type 0 where
  pub is_ok : Bool
  pub signed_upload_url : String

pub record FinalizeReply : Type 0 where
  pub is_ok : Bool
  pub entry_id : String

pub record HttpResponse : Type 0 where
  pub status : ℕ
  pub body : Body

-- net/url, net/http with the token of the client, and the JSON encoder and decoders.
pub record Http (S : Type 0) : Type 0 where
  pub parse : String → Result String
  pub join_path : String → String → String
  pub encode : ApiRequest → Result Bytes
  pub new_request : String → Bytes → Result (Unit {0})
  pub send : (token url : String) → Bytes → Io S HttpResponse
  pub decode_download_url : Body → Result DownloadUrlReply
  pub decode_upload_url : Body → Result UploadUrlReply
  pub decode_finalize : Body → Result FinalizeReply

pub record GhaCacheClient : Type 0 where
  pub token : String
  pub base_url : String
  pub runner_os : String
  pub ref : String
  pub sha : String

abbrev pub actions_cache_base_path : String
actions_cache_base_path = "/twirp/github.actions.results.api.v1.CacheService/"

abbrev pub actions_cache_prefix : String
actions_cache_prefix = "gocica-cache"

abbrev pub actions_cache_separator : String
actions_cache_separator = "-"

abbrev pub actions_cache_version : String
actions_cache_version = "5eb02eebd0c9b2a428c370e552c7c895ea26154c726235db0a053f746fae0287"

abbrev pub err_cache_not_found : String
err_cache_not_found = "cache not found"

abbrev pub err_already_exists : String
err_already_exists = "cache already exists"

-- The loop of `blobKey`: the key, and the restore keys in the order of the loop.
unfoldable pub extend_key : String → List String → String × List String
extend_key base_key [] = (base_key, [])
extend_key base_key (k ∷ ks) =
    let cut = base_key & actions_cache_separator in
    let (key, restore_keys) = extend_key (cut & k) ks in (key, cut ∷ restore_keys)

unfoldable pub blob_key : GhaCacheClient → String × List String
unfolding extend_key
blob_key c =
    let (key, restore_keys) =
      extend_key (actions_cache_prefix & actions_cache_separator & c.runner_os)
        (c.ref ∷ c.sha ∷ []) in
    (key, reverse restore_keys)

-- The answer to a status other than 200, once its body is read.
unfoldable pub refuse : {A : Type 0} → ℕ → Result A
refuse status =
    if status == 404
    then err (wrap "not found" (sentinel err_cache_not_found))
    else if status == 409
    then err (wrap "conflict" (sentinel err_already_exists))
    else err (plain "unexpected status code")

unfoldable pub read_response : {A : Type 0} → (Body → Result A) → HttpResponse → Result A
unfolding refuse
read_response decode res =
    if res.status == 200
    then wrapped "decode response" (decode res.body)
    else elim res.body.failure [
      | some e ↦ err (wrap "copy response body" e)
      | none ↦ refuse res.status
    ]

abbrev pub download_url : DownloadUrlReply → Result String
download_url res =
    if res.is_ok then ok res.signed_download_url else err (plain "failed to get download url")

abbrev pub upload_url : UploadUrlReply → Result String
upload_url res =
    if res.is_ok then ok res.signed_upload_url else err (plain "failed to create cache")

unfoldable pub create_body : GhaCacheClient → ApiRequest
unfolding blob_key
create_body c = let (key, _) = blob_key c in create_request key actions_cache_version

unfoldable pub finalize_body : GhaCacheClient → Int64 → ApiRequest
unfolding blob_key
finalize_body c size = let (key, _) = blob_key c in finalize_request key size actions_cache_version

abbrev pub finalized : FinalizeReply → Result (Unit {0})
finalized res = if res.is_ok then ok tt else err (plain "failed to commit cache")

module _ {S : Type 0} (http : Http S) where
  unfoldable pub new_github_cache_client : GhaCacheConfig → Result GhaCacheClient
  new_github_cache_client config = elim (wrapped "parse base url" (http.parse config.cache_url)) [
    | err e ↦ err e
    | ok base_url ↦ ok (record {
      token = config.token;
      base_url = http.join_path base_url actions_cache_base_path;
      runner_os = config.runner_os;
      ref = config.ref;
      sha = config.sha;
    })
  ]

  unfoldable pub do_request :
      {A : Type 0} → (Body → Result A) → GhaCacheClient → String → ApiRequest → Io S A
  unfolding read_response
  do_request decode c endpoint req_body = do
    buf ← lift (wrapped "encode request body" (http.encode req_body))
    let url = http.join_path c.base_url endpoint
    _ ← lift (wrapped "create request" (http.new_request url buf))
    res ← within "do request" (http.send c.token url buf)
    lift (read_response decode res)

  unfoldable pub get_download_url : GhaCacheClient → Io S String
  unfolding do_request blob_key
  get_download_url c = do
    let (key, restore_keys) = blob_key c
    res ← within "get cache entry download url" (
        do_request http.decode_download_url c "GetCacheEntryDownloadURL"
          (download_url_request key restore_keys actions_cache_version))
    lift (download_url res)

  unfoldable pub create_cache_entry : GhaCacheClient → Io S String
  unfolding do_request create_body
  create_cache_entry c = do
    res ←
        within "http request"
          (do_request http.decode_upload_url c "CreateCacheEntry" (create_body c))
    lift (upload_url res)

  unfoldable pub commit_cache_entry : GhaCacheClient → Int64 → Io S (Unit {0})
  unfolding do_request finalize_body
  commit_cache_entry c size = do
    res ←
        within "http request"
          (do_request http.decode_finalize c "FinalizeCacheEntryUpload" (finalize_body c size))
    lift (finalized res)

  -- ghaCacheUploadClientWrapper: the storage client with a Commit of its own.
  unfoldable pub wrapped_commit :
      UploadClient S → GhaCacheClient → List String → Int64 → Io S (Unit {0})
  unfolding commit_cache_entry
  wrapped_commit storage c block_ids size = do
    _ ← within "commit upload client" (storage.commit block_ids size)
    within "commit cache entry" (commit_cache_entry c size)

  unfoldable pub upload_client_wrapper : UploadClient S → GhaCacheClient → UploadClient S
  unfolding wrapped_commit
  upload_client_wrapper storage c = record storage { commit = wrapped_commit storage c }

  module _ (sdk : Sdk S) where
    -- From the answer of `createCacheEntry` on. No client means that the upload is left out.
    unfoldable pub client_for_entry :
        GhaCacheClient → Result String → Result (Option (UploadClient S))
    unfolding upload_client_wrapper new_azure_upload_client
    client_for_entry c (ok url) =
        and_then (wrapped "create azure upload client" (new_azure_upload_client sdk url))
          (λ storage. ok (some (upload_client_wrapper storage c)))
    client_for_entry c (err e) =
        if is_error e err_already_exists then ok none else err (wrap "create cache entry" e)

    unfoldable pub upload_client_provider : GhaCacheClient → Io S (Option (UploadClient S))
    unfolding create_cache_entry client_for_entry
    upload_client_provider c s = let (r, s') = create_cache_entry c s in (client_for_entry c r, s')

    -- From the answer of `getDownloadURL` on: without a URL there is nothing to download.
    unfoldable pub client_for_url : Result String → Result (Option BlobClient)
    unfolding new_azure_download_client
    client_for_url (ok url) =
        and_then (wrapped "create azure download client" (new_azure_download_client sdk url))
          (λ storage. ok (some storage))
    client_for_url (err e) = ok none

    unfoldable pub download_client_provider : GhaCacheClient → Io S (Option BlobClient)
    unfolding get_download_url client_for_url
    download_client_provider c s = let (r, s') = get_download_url c s in (client_for_url r, s')

    pub record Providers : Type 0 where
      pub download : Io S (Option BlobClient)
      pub upload : Io S (Option (UploadClient S))

    unfoldable pub gha_cache_provider : GhaCacheConfig → Result Providers
    unfolding new_github_cache_client upload_client_provider download_client_provider
    gha_cache_provider config =
        and_then (wrapped "create github cache client" (new_github_cache_client config)) (λ c.
          ok (record { download = download_client_provider c; upload = upload_client_provider c }))

    -- Without a configuration both providers are nil, and so a call of one panics.
    abbrev pub nil_providers : Providers
    nil_providers = record {
      download = raise (panic "nil function call");
      upload = raise (panic "nil function call");
    }

    unfoldable pub switch : Option GhaCacheConfig → Result Providers
    unfolding gha_cache_provider
    switch (some config) = gha_cache_provider config
    switch none = ok nil_providers
