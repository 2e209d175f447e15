-- ===== src/Provider/Finalize.antt =====
-- The upload client of the provider: its Commit commits the blob and then finalizes the cache entry.
use gocica.Base.{
  ℕ, ◌≡◌, ◌≢◌, refl, ap, ◌∙◌, inl, inr, true, Bool-cases, Option-cases, String, List, Bytes, ◌==◌,
  ==_iff,
}
use gocica.Base.Go.{ok, Result, Result-cases, wrapped, wrapped_ok, bind_ok, within, Io}
use gocica.PkgIo.JoinedWriter.Copy.{Body}
use gocica.Remote.{UploadClient, Random}
use gocica.Remote.Blob.{IsBlobStore}
use gocica.Provider.{
  Http, HttpResponse, ApiRequest, FinalizeReply, GhaCacheClient, refuse, read_response, do_request,
  finalized, finalize_body, commit_cache_entry, wrapped_commit, upload_client_wrapper,
}
use gocica.Provider.Statuses.{Replied}

-- A call of the cache service does not change `view`, a part of the state.
abbrev pub Keeps : {S X : Type 0} → Http S → (S → X) → Type 0
Keeps http view =
    (token url : String) (b : Bytes) (s : _) → view (http.send token url b s).1 ≡ view s

refuse-fails : {A : Type 0} (status : ℕ) (a : A) → refuse status ≢ ok a
unfolding refuse
refuse-fails status a h = elim (Bool-cases (status == 404)) [
  | inl missing ↦ cc (rw missing at h)
  | inr there ↦ elim (Bool-cases (status == 409)) [
    | inl taken ↦ cc (rw (there, taken) at h)
    | inr free ↦ cc (rw (there, free) at h)
  ]
]

read_response-ok :
    {A : Type 0} (decode : Body → Result A) (res : HttpResponse) (a : A)
    → read_response decode res ≡ ok a
    → (res.status ≡ 200) × (decode res.body ≡ ok a)
unfolding read_response
read_response-ok decode res a h = elim (Bool-cases (res.status == 200)) [
  | inl fine ↦ ((==_iff res.status 200).0 fine, wrapped_ok "decode response" _ (rw fine at h))
  | inr other ↦ elim (Option-cases res.body.failure) [
    | inr (x, broken) ↦ absurd (cc (rw (other, broken) at h))
    | inl whole ↦ absurd (refuse-fails res.status a (rw (other, whole) at h))
  ]
]

module _ {S A : Type 0} (http : Http S) (decode : Body → Result A) (c : GhaCacheClient)
    (endpoint : String) (req : ApiRequest) (s : S) where
  do_request-Keeps :
      {X : Type 0} (view : S → X)
      → Keeps http view
      → view (do_request http decode c endpoint req s).1 ≡ view s
  unfolding do_request
  do_request-Keeps view keeps = elim (Result-cases (http.encode req)) [
    | inr (e, h) ↦ rw h refl
    | inl (buf, encoded) ↦
        let url = http.join_path c.base_url endpoint in
        elim (Result-cases (http.new_request url buf)) [
          | inr (e, h) ↦ rw (encoded, do_request) (rw h refl)
          | inl (_, made) ↦ elim (Result-cases (http.send c.token url buf s).0) [
            | inr (e, h) ↦
                rw (encoded, do_request)
                  (rw (made, do_request) (rw (h, do_request) (keeps c.token url buf s)))
            | inl (res, sent) ↦
                rw (encoded, do_request)
                  (rw (made, do_request) (rw (sent, do_request) (keeps c.token url buf s)))
          ]
        ]
  ]

  -- A request succeeds only with the answer 200.
  do_request-ok :
      (a : A)
      → (do_request http decode c endpoint req s).0 ≡ ok a
      → (res : HttpResponse) × Replied http c endpoint req s res
        × (res.status ≡ 200)
        × (decode res.body ≡ ok a)
  unfolding do_request
  do_request-ok a h =
      let url = http.join_path c.base_url endpoint in
      let (buf, encoded, _, h1) =
        bind_ok (λ s'. (wrapped "encode request body" (http.encode req), s')) _ s h in
      let (_, made, _, h2) =
        bind_ok (λ s'. (wrapped "create request" (http.new_request url buf), s')) _ s h1 in
      let (res, sent, _, h3) = bind_ok (within "do request" (http.send c.token url buf)) _ s h2 in
      let (fine, got) = read_response-ok decode res a h3 in
      (res, (buf, wrapped_ok _ _ encoded, wrapped_ok _ _ made, wrapped_ok _ _ sent), fine, got)

-- The service answers the request to finalize the entry with 200 and a body that says that it did.
abbrev pub Confirmed : {S : Type 0} → Http S → GhaCacheClient → ℕ → S → Type 0
Confirmed http c size s =
    (res : HttpResponse) × (reply : FinalizeReply) × Replied http c "FinalizeCacheEntryUpload"
      (finalize_body c size) s res
    × (res.status ≡ 200)
    × (http.decode_finalize res.body ≡ ok reply)
    × (reply.is_ok ≡ true)

module _ {S : Type 0} (http : Http S) (c : GhaCacheClient) (size : ℕ) (s : S) where
  abbrev asked : Io S FinalizeReply
  asked = do_request http http.decode_finalize c "FinalizeCacheEntryUpload" (finalize_body c size)

  commit_cache_entry-Keeps :
      {X : Type 0} (view : S → X)
      → Keeps http view
      → view (commit_cache_entry http c size s).1 ≡ view s
  unfolding commit_cache_entry
  commit_cache_entry-Keeps view keeps =
      let kept =
        do_request-Keeps http http.decode_finalize c "FinalizeCacheEntryUpload"
          (finalize_body c size) s view keeps in
      elim (Result-cases (asked s).0) [
        | inl (reply, e) ↦ rw (e, commit_cache_entry) kept
        | inr (x, e) ↦ rw (e, commit_cache_entry) kept
      ]

  finalized-ok : (reply : FinalizeReply) → finalized reply ≡ ok tt → reply.is_ok ≡ true
  finalized-ok reply h = elim (Bool-cases reply.is_ok) [
    | inl good ↦ good
    | inr bad ↦ absurd (cc (rw bad at h))
  ]

  -- The entry is finalized only if the service confirms it.
  commit_cache_entry-ok : (commit_cache_entry http c size s).0 ≡ ok tt → Confirmed http c size s
  unfolding commit_cache_entry
  commit_cache_entry-ok h =
      let (reply, e, _, done) = bind_ok (within "http request" asked) _ s h in
      let (res, replied, fine, got) =
        do_request-ok http http.decode_finalize c "FinalizeCacheEntryUpload" (finalize_body c size)
          s reply (wrapped_ok "http request" _ e) in
      (res, reply, replied, fine, got, finalized-ok reply done)

module _ {S : Type 0} (http : Http S) (storage : UploadClient S) (c : GhaCacheClient) where
  -- A Commit of the upload client that succeeds has committed the blocks to the storage, and the cache
  -- service has confirmed the entry for the size of the blob.
  pub wrapped_commit-Confirmed :
      (block_ids : List String) (size : ℕ) (s : S)
      → (wrapped_commit http storage c block_ids size s).0 ≡ ok tt
      → ((storage.commit block_ids size s).0 ≡ ok tt)
        × Confirmed http c size (storage.commit block_ids size s).1
  unfolding wrapped_commit
  wrapped_commit-Confirmed block_ids size s h =
      let (_, e, _, done) =
        bind_ok (within "commit upload client" (storage.commit block_ids size)) _ s h in
      (
        wrapped_ok "commit upload client" _ e,
        commit_cache_entry-ok http c size (storage.commit block_ids size s).1
            (wrapped_ok "commit cache entry" _ done),
      )

  -- The upload client of the provider is a block storage whenever the storage client in it is one
  -- and the calls of the cache service do not change the blob.
  pub upload_client_wrapper-IsBlobStore :
      (rand : Random S) (remote : String → Bytes) (store : IsBlobStore storage rand remote)
      → Keeps http store.committed
      → IsBlobStore (upload_client_wrapper http storage c) rand remote
  unfolding upload_client_wrapper wrapped_commit
  upload_client_wrapper-IsBlobStore rand remote store keeps_blob = record {
    staged = store.staged;
    committed = store.committed;
    upload_block_writes = store.upload_block_writes;
    upload_block_ok = store.upload_block_ok;
    upload_url_writes = store.upload_url_writes;
    upload_url_ok = store.upload_url_ok;
    commit_ok = λ ids size s h.
        let (_, e, after, done) =
          bind_ok (within "commit upload client" (storage.commit ids size)) _ s h in
        ap (λ r. store.committed r.1) after
        ∙ commit_cache_entry-Keeps http c size (storage.commit ids size s).1 store.committed
            keeps_blob
        ∙ store.commit_ok ids size s (wrapped_ok "commit upload client" _ e);
    read_random = store.read_random;
  }
