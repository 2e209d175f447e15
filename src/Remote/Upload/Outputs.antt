-- ===== src/Remote/Upload/Outputs.antt =====
-- What the uploader has staged: the old blob's outputs, and a block for each recorded output.
use gocica.Base.{
  ℕ, ◌≡◌, ◌⊎◌, refl, ap, sym, ◌∙◌, true, false, List, [], ◌∷◌, ◌++◌, some, String, Bytes,
  Bool-cases, inl, inr, length, All, All-append, ◌==◌,
}
use gocica.Base.Int64.{Int64}
use gocica.Base.Go.{Error, wrap, ok, err, Result-cases}
use gocica.Base.Table.{contains}
use gocica.Proto.{ActionsOutput}
use gocica.Remote.{UploadClient, Random, Zstd}
use gocica.Remote.Blob.{IsBlobStore, Blocks, Writes, gather, gather-Writes}
use gocica.Remote.Upload.{
  Uploader, Encoded, encode_output, upload_encoded, upload_output, base_or_empty,
}

-- The recorded size is that of the content, and an output is empty or has its block.
abbrev pub Recorded : (String → Bytes) → Blocks → ActionsOutput → Type 0
Recorded content blocks o =
    (length (content o.id) ≡ o.size) × ((o.size ≡ 0) ⊎ (blocks o.id ≡ some (content o.id)))

module _ {S : Type 0} (c : UploadClient S) (rand : Random S) (remote : String → Bytes)
    (store : IsBlobStore c rand remote) (content : String → Bytes) (base_data : Bytes) where
  open store use {staged, upload_block_writes, upload_block_ok}

  pub record IsReady (u : Uploader S) : Type 0 where
    pub has_client : u.client ≡ some c
    pub base : gather (staged u.world) (base_or_empty u.wait_base).block_ids ≡ some base_data
    pub outputs : All (Recorded content (staged u.world)) u.outputs

  Recorded_keeps :
      (before after : Blocks) (id : String) (os : List ActionsOutput)
      → Writes before after id (content id)
      → All (Recorded content before) os
      → All (Recorded content after) os
  Recorded_keeps before after id [] w h = tt
  Recorded_keeps before after id (o ∷ os) w h = (
    (h.0.0, elim h.0.1 [ inl z ↦ inl z | inr e ↦ inr (still (w o.id) e) ]),
    Recorded_keeps before after id os w h.1,
  )
    where
      still :
          (after o.id ≡ before o.id) ⊎ ((o.id ≡ id) × (after o.id ≡ some (content id)))
          → before o.id ≡ some (content o.id)
          → after o.id ≡ some (content o.id)
      still (inl same) e = same ∙ e
      still (inr (here, now)) e = now ∙ ap (λ j. some (content j)) (sym here)

  -- A call of `upload_block` with the content of its id keeps the uploader ready.
  staged_IsReady :
      (u : Uploader S) (id : String)
      → contains id (base_or_empty u.wait_base).block_ids ≡ false
      → IsReady u
      → IsReady (record u { world = (c.upload_block id (content id) u.world).1 })
  staged_IsReady u id fresh h = record {
    has_client = h.has_client;
    base = gather-Writes _ (upload_block_writes id (content id) u.world) fresh ∙ h.base;
    outputs =
        Recorded_keeps _ _ id u.outputs (upload_block_writes id (content id) u.world) h.outputs;
  }

  add_IsReady :
      (u : Uploader S) (o : ActionsOutput)
      → Recorded content (staged u.world) o
      → IsReady u
      → IsReady (record u { outputs = u.outputs ++ o ∷ [] })
  add_IsReady u o r h = record {
    has_client = h.has_client;
    base = h.base;
    outputs = All-append _ u.outputs (o ∷ []) h.outputs (r, tt);
  }

  -- The two ways in which an upload of encoded data goes on.
  module _ (id : String) (size : Int64) (e : Encoded) (u : Uploader S) where
    pub upload_encoded_empty :
        (size == 0) ≡ true
        → upload_encoded c id size e u ≡ (
          ok tt,
          record u {
            outputs =
                u.outputs
                ++ record { offset = 0; size = 0; compression = e.compression; id = id } ∷ [];
          },
        )
    unfolding upload_encoded
    upload_encoded_empty z = rw (z, upload_encoded)

    pub upload_encoded_block :
        (size == 0) ≡ false
        → (n : ℕ) → (c.upload_block id e.reader u.world).0 ≡ ok n
        → upload_encoded c id size e u ≡ (
          ok tt,
          record u {
            outputs =
                u.outputs
                ++ record { offset = 0; size = n; compression = e.compression; id = id } ∷ [];
            world = (c.upload_block id e.reader u.world).1;
          },
        )
    unfolding upload_encoded
    upload_encoded_block z n sent = rw (z, upload_encoded) (rw (sent, upload_encoded))

    pub upload_encoded_failed :
        (size == 0) ≡ false
        → (x : Error) → (c.upload_block id e.reader u.world).0 ≡ err x
        → upload_encoded c id size e u ≡ (
          err (wrap "upload block" x),
          record u { world = (c.upload_block id e.reader u.world).1 },
        )
    unfolding upload_encoded
    upload_encoded_failed z x sent = rw (z, upload_encoded) (rw (sent, upload_encoded))

  upload_encoded-IsReady :
      (id : String) (size : Int64) (e : Encoded) (u : Uploader S)
      → ((size == 0) ≡ true → content id ≡ [])
      → ((size == 0) ≡ false → e.reader ≡ content id)
      → contains id (base_or_empty u.wait_base).block_ids ≡ false
      → IsReady u
      → IsReady (upload_encoded c id size e u).1
  upload_encoded-IsReady id size e u nothing same fresh h = elim (Bool-cases (size == 0)) [
    | inl z ↦
        rw (upload_encoded_empty id size e u z)
          (add_IsReady u _ (ap length (nothing z), inl refl) h)
    | inr nz ↦
        let sent : IsReady (record u { world = (c.upload_block id e.reader u.world).1 }) =
          rw (same nz) (staged_IsReady u id fresh h) in
        elim (Result-cases (c.upload_block id e.reader u.world).0) [
          | inl (n, done) ↦
              let (count, there) = upload_block_ok id e.reader u.world n done in
              rw (upload_encoded_block id size e u nz n done) (
                add_IsReady (record u { world = (c.upload_block id e.reader u.world).1 }) _
                  (sym (count ∙ ap length (same nz)), inr (there ∙ ap some (same nz))) sent)
          | inr (x, failed) ↦ rw (upload_encoded_failed id size e u nz x failed) sent
        ]
  ]

  -- `UploadOutput` keeps the uploader ready, whether it succeeds or fails at any of its steps: the
  -- staged part of the old blob stays, and each recorded output has its block and its size. The
  -- content behind an id is what this call uploads, and the id is no block id of the old blob's copy.
  pub upload_output-IsReady :
      (z : Zstd) (id : String) (size : Int64) (r : Bytes) (u : Uploader S)
      → ((size == 0) ≡ true → content id ≡ [])
      → ((size == 0) ≡ false
          → (e : Encoded) → encode_output z size r ≡ ok e
          → e.reader ≡ content id)
      → contains id (base_or_empty u.wait_base).block_ids ≡ false
      → IsReady u
      → IsReady (upload_output z id size r u).1
  unfolding upload_output
  upload_output-IsReady z id size r u nothing same fresh h =
      rw (h.has_client, upload_output)
        (elim (Result-cases (encode_output z size r)) [
          | inl (e, encoded) ↦
              rw encoded
                (upload_encoded-IsReady id size e u nothing (λ nz. same nz e encoded) fresh h)
          | inr (x, failed) ↦ rw failed h
        ])
