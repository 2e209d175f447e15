-- ===== src/Provider/Statuses.antt =====
-- What the answers of the cache service make of the storage clients.
use gocica.Base.{
  ℕ, ◌≡◌, refl, ap, sym, ◌∙◌, ◌↔◌, ◌⊎◌, inl, inr, true, false, Bool-cases, Option-cases, ==_iff,
  none, some, String, Bytes, ◌==◌,
}
use gocica.Base.Go.{
  Error, wrap, sentinel, is_error, Result, ok, err, Result-cases, wrapped, and_then, bind-lift,
}
use gocica.PkgIo.JoinedWriter.Copy.{Body}
use gocica.Remote.Storage.{Sdk, new_azure_upload_client}
use gocica.Provider.{
  Http, HttpResponse, ApiRequest, UploadUrlReply, upload_url, GhaCacheClient, refuse, read_response,
  do_request, create_body, create_cache_entry, client_for_entry, upload_client_provider,
  err_already_exists,
}

-- No error of the network or of the decoders is the error value of the provider's own.
pub record IsForeign {S : Type 0} (http : Http S) : Type 0 where
  pub encode :
      (r : ApiRequest) (e : Error) → http.encode r ≡ err e → is_error e err_already_exists ≡ false
  pub new_request :
      (url : String) (b : Bytes) (e : Error)
      → http.new_request url b ≡ err e
      → is_error e err_already_exists ≡ false
  pub send :
      (token url : String) (b : Bytes) (s : S) (e : Error)
      → (http.send token url b s).0 ≡ err e
      → is_error e err_already_exists ≡ false
  pub failure :
      (token url : String) (b : Bytes) (s : S) (res : HttpResponse) (e : Error)
      → (http.send token url b s).0 ≡ ok res
      → res.body.failure ≡ some e
      → is_error e err_already_exists ≡ false
  pub decode_upload_url :
      (b : Body) (e : Error)
      → http.decode_upload_url b ≡ err e
      → is_error e err_already_exists ≡ false

-- The request is sent, and `res` is the answer.
abbrev pub Replied :
    {S : Type 0} → Http S → GhaCacheClient → String → ApiRequest → S → HttpResponse → Type 0
Replied http c endpoint req s res =
    (buf : Bytes) × (http.encode req ≡ ok buf)
    × (http.new_request (http.join_path c.base_url endpoint) buf ≡ ok tt)
    × ((http.send c.token (http.join_path c.base_url endpoint) buf s).0 ≡ ok res)

module _ {S A : Type 0} (http : Http S) (decode : Body → Result A) (c : GhaCacheClient)
    (endpoint : String) (req : ApiRequest) (s : S) where
  do_request-Replied :
      (res : HttpResponse)
      → Replied http c endpoint req s res
      → (do_request http decode c endpoint req s).0 ≡ read_response decode res
  unfolding do_request
  do_request-Replied res (buf, encoded, made, sent) =
      rw (encoded, do_request) (rw (made, do_request) (rw (sent, do_request) refl))

  -- Either there is an answer, or an error of the network that is none of the provider's own.
  do_request-cases :
      IsForeign http
      → ((res : HttpResponse) × Replied http c endpoint req s res
          × ((do_request http decode c endpoint req s).0 ≡ read_response decode res))
        ⊎ ((e : Error) × ((do_request http decode c endpoint req s).0 ≡ err e)
            × (is_error e err_already_exists ≡ false))
  unfolding do_request is_error
  do_request-cases f = elim (Result-cases (http.encode req)) [
    | inr (e, h) ↦ inr (wrap "encode request body" e, rw h refl, f.encode req e h)
    | inl (buf, encoded) ↦
        let url = http.join_path c.base_url endpoint in
        elim (Result-cases (http.new_request url buf)) [
          | inr (e, h) ↦ inr (
            wrap "create request" e,
            rw (encoded, do_request) (rw h refl),
            f.new_request url buf e h,
          )
          | inl (_, made) ↦ elim (Result-cases (http.send c.token url buf s).0) [
            | inr (e, h) ↦ inr (
              wrap "do request" e,
              rw (encoded, do_request) (rw (made, do_request) (rw h refl)),
              f.send c.token url buf s e h,
            )
            | inl (res, sent) ↦
                let replied : Replied http c endpoint req s res = (buf, encoded, made, sent) in
                inl (res, replied, do_request-Replied res replied)
          ]
        ]
  ]

refuse-conflict :
    {A : Type 0} (status : ℕ) (e : Error)
    → refuse {A = A} status ≡ err e
    → is_error e err_already_exists ≡ true
    → status ≡ 409
unfolding refuse is_error
refuse-conflict status e h conflict = elim (Bool-cases (status == 404)) [
  | inl missing ↦ absurd (cc (rw missing at h, conflict))
  | inr there ↦ elim (Bool-cases (status == 409)) [
    | inl taken ↦ (==_iff status 409).0 taken
    | inr free ↦ absurd (cc (rw (there, free) at h, conflict))
  ]
]

-- An answer is the error value of a conflict only if its status is 409 and its body is read.
read_response-conflict :
    {A : Type 0} (decode : Body → Result A) (res : HttpResponse) (e : Error)
    → ((b : Body) (x : Error) → decode b ≡ err x → is_error x err_already_exists ≡ false)
    → ((x : Error) → res.body.failure ≡ some x → is_error x err_already_exists ≡ false)
    → read_response decode res ≡ err e
    → is_error e err_already_exists ≡ true
    → (res.status ≡ 409) × (res.body.failure ≡ none)
unfolding read_response refuse is_error
read_response-conflict decode res e decodes reads h conflict =
    elim (Bool-cases (res.status == 200)) [
      | inl fine ↦ elim (Result-cases (decode res.body)) [
        | inl (a, got) ↦ absurd (cc (rw (fine, got) at h))
        | inr (x, failed) ↦ absurd (cc (rw (fine, failed) at h, decodes res.body x failed))
      ]
      | inr other ↦ elim (Option-cases res.body.failure) [
        | inr (x, broken) ↦ absurd (cc (rw (other, broken) at h, reads x broken))
        | inl whole ↦ (refuse-conflict res.status e (rw (other, whole) at h) conflict, whole)
      ]
    ]

upload_url-conflict :
    (r : Result UploadUrlReply) (e : Error)
    → and_then (wrapped "http request" r) upload_url ≡ err e
    → is_error e err_already_exists ≡ true
    → (x : Error) × (r ≡ err x) × (is_error x err_already_exists ≡ true)
unfolding is_error
upload_url-conflict (err x) e h conflict = (x, refl, cc)
upload_url-conflict (ok reply) e h conflict = elim (Bool-cases reply.is_ok) [
  | inl good ↦ absurd (cc (rw good at h))
  | inr bad ↦ absurd (cc (rw bad at h, conflict))
]

read_response-taken :
    {A : Type 0} (decode : Body → Result A) (res : HttpResponse)
    → res.status ≡ 409
    → res.body.failure ≡ none
    → read_response decode res ≡ err (wrap "conflict" (sentinel err_already_exists))
unfolding read_response refuse
read_response-taken decode res taken whole = rw (taken, whole) (ap refuse taken)

module _ {S : Type 0} (http : Http S) (sdk : Sdk S) (c : GhaCacheClient) (s : S) where
  abbrev creation : Result UploadUrlReply
  creation = (do_request http http.decode_upload_url c "CreateCacheEntry" (create_body c) s).0

  create_cache_entry_lem :
      (create_cache_entry http c s).0 ≡ and_then (wrapped "http request" creation) upload_url
  unfolding create_cache_entry
  create_cache_entry_lem =
      bind-lift "http request"
        (do_request http http.decode_upload_url c "CreateCacheEntry" (create_body c)) upload_url s

  -- The upload is left out only if the entry is there already.
  client_for_entry-none :
      (r : Result String)
      → client_for_entry http sdk c r ≡ ok none
      → (e : Error) × (r ≡ err e) × (is_error e err_already_exists ≡ true)
  unfolding client_for_entry
  client_for_entry-none (ok url) h = elim (Result-cases (new_azure_upload_client sdk url)) [
    | inl (storage, fine) ↦ absurd (cc (rw fine at h))
    | inr (e, failed) ↦ absurd (cc (rw failed at h))
  ]
  client_for_entry-none (err e) h = elim (Bool-cases (is_error e err_already_exists)) [
    | inl there ↦ (e, refl, there)
    | inr other ↦ absurd (cc (rw other at h))
  ]

  -- The upload is left out, without an error, exactly when the service answers the creation of the entry
  -- with the status 409 and a body that is read to its end. No error of the network, of the JSON encoder
  -- or of the decoders is the error value of the provider's own.
  pub upload_client_provider-skips :
      IsForeign http
      → ((upload_client_provider http sdk c s).0 ≡ ok none) ↔ (
          (res : HttpResponse) × Replied http c "CreateCacheEntry" (create_body c) s res
          × (res.status ≡ 409)
          × (res.body.failure ≡ none))
  unfolding upload_client_provider is_error
  upload_client_provider-skips f = (
    λ h.
        let (e, failed, conflict) = client_for_entry-none (create_cache_entry http c s).0 h in
        let (x, refused, there) =
          upload_url-conflict creation e (sym create_cache_entry_lem ∙ failed) conflict in
        elim (do_request-cases http http.decode_upload_url c "CreateCacheEntry" (create_body c) s
          f) [
            | inr (y, broken, foreign) ↦ absurd (cc)
            | inl (res, replied, got) ↦
                let (taken, whole) =
                  read_response-conflict http.decode_upload_url res x f.decode_upload_url
                    (λ y. f.failure _ _ _ s res y replied.3) (sym got ∙ refused) there in
                (res, replied, taken, whole)
          ],
    λ (res, replied, taken, whole).
        let got : creation ≡ err (wrap "conflict" (sentinel err_already_exists)) =
          do_request-Replied http http.decode_upload_url c "CreateCacheEntry" (create_body c) s res
            replied
          ∙ read_response-taken http.decode_upload_url res taken whole in
        ap (client_for_entry http sdk c)
          (create_cache_entry_lem ∙ ap (λ r. and_then (wrapped "http request" r) upload_url) got),
  )
