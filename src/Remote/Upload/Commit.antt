-- ===== src/Remote/Upload/Commit.antt =====
-- `commit` makes a blob of the header and the staged blocks.
use gocica.Base.{
  ℕ, ◌+◌, ◌^◌, ◌<◌, ◌≡◌, ap, sym, ◌∙◌, false, List, ◌∷◌, ◌++◌, append_assoc, some, String, Bytes,
  length, inl, inr,
}
use gocica.Base.Int64.{add64}
use gocica.Base.Go.{
  ok, wrapped_ok, and_then_ok, ok-injective, Result-cases, Error, err, wrap, within,
}
use gocica.Base.Table.{Table, contains}
use gocica.Proto.{IndexEntry, ActionsCache}
use gocica.Remote.{UploadClient, Random, Protobuf}
use gocica.Remote.Layout.{total_size}
use gocica.Remote.Blob.{IsBlobStore, HoldsOutputs, gather, gather-append, gather-Writes}
use gocica.Remote.Upload.{
  Uploader, Constructed, BaseBlob, base_or_empty, construct_outputs, put_uint64, create_header,
  generate_block_id, commit_header, commit_built, commit,
}
use gocica.Remote.Upload.Outputs.{IsReady}
use gocica.Remote.Upload.Committed.{construct_outputs-HoldsOutputs}

-- The header is the length of the message and the message.
create_header_ok :
    (pb : Protobuf) (cache : ActionsCache) (header : Bytes)
    → create_header pb cache.entries cache.outputs cache.output_total_size ≡ ok header
    → (body : Bytes) × (pb.marshal cache ≡ ok body) × (header ≡ put_uint64 (length body) ++ body)
unfolding create_header
create_header_ok pb cache header h =
    let (body, e, framed) = and_then_ok _ _ h in
    (body, wrapped_ok _ _ e, sym (ok-injective _ _ framed))

module _ {S : Type 0} (c : UploadClient S) (rand : Random S) (remote : String → Bytes)
    (store : IsBlobStore c rand remote) where
  open store use {staged, committed, upload_block_writes, upload_block_ok, commit_ok, read_random}

  staged-generate : (s : S) → staged (generate_block_id rand s).1 ≡ staged s
  unfolding generate_block_id
  staged-generate s = elim (Result-cases (rand.read 32 s).0) [
    | inl (b, e) ↦ rw e (read_random 32 s)
    | inr (x, e) ↦ rw e (read_random 32 s)
  ]

  module _ (base_ids : List String) (built : Constructed) (header : Bytes) (s : S) where
    -- The call of the client's commit, once the header is staged.
    commit_header_sent :
        (id : String) (n : ℕ)
        → (generate_block_id rand s).0 ≡ ok id
        → (c.upload_block id header (generate_block_id rand s).1).0 ≡ ok n
        → commit_header c rand base_ids built header s
          ≡ within "commit"
              (c.commit (id ∷ base_ids ++ built.new_output_ids) (add64 (length header) built.size))
              (c.upload_block id header (generate_block_id rand s).1).1
    unfolding commit_header
    commit_header_sent id n e sent = rw (e, commit_header) (rw (sent, commit_header))

    commit_header_no_id :
        (x : Error)
        → (generate_block_id rand s).0 ≡ err x
        → (commit_header c rand base_ids built header s).0 ≡ err (wrap "generate header block ID" x)
    unfolding commit_header
    commit_header_no_id x e = rw (e, commit_header)

    commit_header_unsent :
        (id : String) (x : Error)
        → (generate_block_id rand s).0 ≡ ok id
        → (c.upload_block id header (generate_block_id rand s).1).0 ≡ err x
        → (commit_header c rand base_ids built header s).0 ≡ err (wrap "upload header" x)
    unfolding commit_header
    commit_header_unsent id x e failed = rw (e, commit_header) (rw (failed, commit_header))

    -- The blocks to commit, with the header in front, once it is staged.
    gather_header :
        (id : String) (n : ℕ) {held : Bytes}
        → contains id (base_ids ++ built.new_output_ids) ≡ false
        → gather (staged s) (base_ids ++ built.new_output_ids) ≡ some held
        → (c.upload_block id header (generate_block_id rand s).1).0 ≡ ok n
        → gather
            (staged (c.upload_block id header (generate_block_id rand s).1).1)
            (id ∷ base_ids ++ built.new_output_ids)
          ≡ some (header ++ held)
    unfolding gather
    gather_header id n fresh there sent =
        let s1 = (generate_block_id rand s).1 in
        rw (
          (upload_block_ok id header s1 n sent).1,
          gather-Writes _ (upload_block_writes id header s1) fresh,
          staged-generate s,
          there,
        )

    commit_header_ok :
        {held : Bytes}
        → ((id : String)
            → (generate_block_id rand s).0 ≡ ok id
            → contains id (base_ids ++ built.new_output_ids) ≡ false)
        → gather (staged s) (base_ids ++ built.new_output_ids) ≡ some held
        → (commit_header c rand base_ids built header s).0 ≡ ok tt
        → committed (commit_header c rand base_ids built header s).1 ≡ some (header ++ held)
    commit_header_ok fresh there h = elim (Result-cases (generate_block_id rand s).0) [
      | inr (x, e) ↦ cc (commit_header_no_id x e)
      | inl (id, e) ↦
          elim (Result-cases (c.upload_block id header (generate_block_id rand s).1).0) [
            | inr (x, failed) ↦ cc (commit_header_unsent id x e failed)
            | inl (n, sent) ↦
                let eq = commit_header_sent id n e sent in
                rw eq (
                  commit_ok _ _ _ (wrapped_ok "commit" _ (rw eq at h))
                  ∙ gather_header id n (fresh id e) there sent)
          ]
    ]

  -- The blob is the length of the message, the message, and the gathered blocks.
  commit_built_ok :
      (pb : Protobuf) (entries : Table IndexEntry) (base_ids : List String) (built : Constructed)
      (s : S) {held : Bytes}
      → ((id : String)
          → (generate_block_id rand s).0 ≡ ok id
          → contains id (base_ids ++ built.new_output_ids) ≡ false)
      → gather (staged s) (base_ids ++ built.new_output_ids) ≡ some held
      → (commit_built c pb rand entries base_ids built s).0 ≡ ok tt
      → (body : Bytes) × (pb.marshal
            (record { entries = entries; outputs = built.outputs; output_total_size = built.size })
          ≡ ok body)
        × (committed (commit_built c pb rand entries base_ids built s).1
            ≡ some (put_uint64 (length body) ++ (body ++ held)))
  unfolding commit_built
  commit_built_ok pb entries base_ids built s {held} fresh there h =
      elim (Result-cases (create_header pb entries built.outputs built.size)) [
        | inr (x, e) ↦ cc (rw e at h)
        | inl (header, e) ↦
            let (body, marshalled, framed) =
              create_header_ok pb
                (record {
                  entries = entries;
                  outputs = built.outputs;
                  output_total_size = built.size;
                })
                header e in
            (
              body,
              marshalled,
              rw e (
                  commit_header_ok base_ids built header s fresh there (rw e at h)
                  ∙ ap some (
                      ap (λ b. b ++ held) framed
                      ∙ append_assoc (put_uint64 (length body)) body held)),
            )
      ]

  module _ (content : String → Bytes) (base_data : Bytes) (u : Uploader S) where
    abbrev base : BaseBlob
    base = base_or_empty u.wait_base

    abbrev built : Constructed
    built = construct_outputs base.output_size base.outputs u.outputs

    pub commit-HoldsOutputs :
        (pb : Protobuf) (entries : Table IndexEntry)
        → IsReady c rand remote store content base_data u
        → HoldsOutputs content base_data base.outputs base.output_size
        → base.output_size + total_size u.outputs < 2 ^ 63
        → ((id : String)
            → (generate_block_id rand u.world).0 ≡ ok id
            → contains id (base.block_ids ++ built.new_output_ids) ≡ false)
        → (commit pb rand entries u).0 ≡ ok tt
        → (body : Bytes) × (held : Bytes) × (pb.marshal (record {
          entries = entries;
          outputs = built.outputs;
          output_total_size = built.size;
        })
            ≡ ok body)
          × (committed (commit pb rand entries u).1.world
              ≡ some (put_uint64 (length body) ++ (body ++ held)))
          × HoldsOutputs content held built.outputs built.size
    unfolding commit
    commit-HoldsOutputs pb entries ready old fits fresh h =
        let (new, staged_new, holds) =
          construct_outputs-HoldsOutputs content (staged u.world) base_data base.output_size
            base.outputs u.outputs old fits ready.outputs in
        let (body, marshalled, blob) =
          commit_built_ok pb entries base.block_ids built u.world fresh
            (gather-append (staged u.world) base.block_ids built.new_output_ids ready.base
              staged_new)
            (rw (ready.has_client, commit) at h) in
        (body, base_data ++ new, marshalled, rw (ready.has_client, commit) blob, holds)
