-- ===== src/Remote/Upload/Added.antt =====
-- What an upload adds to the uploader.
use gocica.Base.{
  ◌≡◌, refl, sym, List, [], ◌∷◌, ◌++◌, append-nil, some, String, Bytes, Bool-cases, inl, inr, ◌==◌,
}
use gocica.Base.Int64.{Int64}
use gocica.Base.Go.{Result, ok, Result-cases}
use gocica.Proto.{ActionsOutput}
use gocica.Remote.{UploadClient, Random, Zstd}
use gocica.Remote.Blob.{IsBlobStore}
use gocica.Remote.Upload.{Uploader, BaseBlob, Encoded, encode_output, upload_encoded, upload_output}
use gocica.Remote.Upload.Outputs.{upload_encoded_empty, upload_encoded_block, upload_encoded_failed}

module _ {S : Type 0} (c : UploadClient S) (rand : Random S) (remote : String → Bytes)
    (store : IsBlobStore c rand remote) (content : String → Bytes) (base_data : Bytes) where
  -- The base stays, the outputs stay, and an upload that succeeds adds an output of its id.
  pub record Added (id : String) (base : Result BaseBlob) (before : List ActionsOutput)
      (r : Result (Unit {0})) (u : Uploader S) : Type 0 where
    pub wait_base : u.wait_base ≡ base
    pub more : List ActionsOutput
    pub outputs : u.outputs ≡ before ++ more
    pub added : r ≡ ok tt → (o : ActionsOutput) × (more ≡ o ∷ []) × (o.id ≡ id)

  upload_encoded-Added :
      (id : String) (size : Int64) (e : Encoded) (u : Uploader S)
      → Added id u.wait_base u.outputs
          (upload_encoded c id size e u).0
          (upload_encoded c id size e u).1
  upload_encoded-Added id size e u = elim (Bool-cases (size == 0)) [
    | inl z ↦
        rw (upload_encoded_empty c rand remote store content base_data id size e u z)
          (record { wait_base = refl; more = _; outputs = refl; added = λ h. (_, refl, refl) })
    | inr nz ↦ elim (Result-cases (c.upload_block id e.reader u.world).0) [
      | inl (n, done) ↦
          rw (upload_encoded_block c rand remote store content base_data id size e u nz n done)
            (record { wait_base = refl; more = _; outputs = refl; added = λ h. (_, refl, refl) })
      | inr (x, failed) ↦
          rw (upload_encoded_failed c rand remote store content base_data id size e u nz x failed)
            (record {
              wait_base = refl;
              more = [];
              outputs = sym (append-nil u.outputs);
              added = λ h. absurd (cc h);
            })
    ]
  ]

  pub upload_output-Added :
      (z : Zstd) (id : String) (size : Int64) (r : Bytes) (u : Uploader S)
      → u.client ≡ some c
      → Added id u.wait_base u.outputs
          (upload_output z id size r u).0
          (upload_output z id size r u).1
  unfolding upload_output
  upload_output-Added z id size r u client =
      rw (client, upload_output)
        (elim (Result-cases (encode_output z size r)) [
          | inl (e, encoded) ↦ rw encoded (upload_encoded-Added id size e u)
          | inr (x, failed) ↦ rw failed (record {
            wait_base = refl;
            more = [];
            outputs = sym (append-nil u.outputs);
            added = λ h. absurd (cc h);
          })
        ])
