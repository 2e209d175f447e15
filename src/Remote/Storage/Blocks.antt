-- ===== src/Remote/Storage/Blocks.antt =====
-- The Azure client is the block storage that the uploader relies on.
use gocica.Base.{
  ℕ, ◌≡◌, refl, ap, subst, ◌∙◌, ◌<◌, ◌==◌, ==_iff, if◌then◌else◌, drop, arith, String, List, Bytes,
  Option, some, length, slice, inl, inr,
}
use gocica.Base.Go.{ok, Result-cases, wrapped_ok}
use gocica.Remote.{Random}
use gocica.Remote.Blob.{Blocks, gather, Writes, IsBlobStore}
use gocica.Remote.Storage.{
  BlockBlob, azure_upload_client, upload_block, upload_block_from_url, commit_blocks,
}

-- azblob.HTTPRange, the range that is copied: a count of 0 stands for all bytes from the offset on.
abbrev pub http_range : ℕ → ℕ → Bytes → Bytes
http_range offset count b = if count == 0 then drop offset b else slice offset count b

http_range-positive :
    (offset count : ℕ) (b : Bytes) → 0 < count → http_range offset count b ≡ slice offset count b
http_range-positive offset count b h = ground (arith, h, ==_iff count 0)

-- What the storage service promises of the calls: a staged block is kept under its id, a range of
-- another blob is copied into a block, and a committed list makes the blob of its blocks. A call that
-- fails may have staged its block.
pub record IsBlockBlob {S : Type 0} (b : BlockBlob S) (remote : String → Bytes) : Type 0 where
  pub staged : S → Blocks
  pub committed : S → Option Bytes
  pub stage_writes :
      (id : String) (r : Bytes) (s : S) → Writes (staged s) (staged (b.stage_block id r s).1) id r
  pub stage_ok :
      (id : String) (r : Bytes) (s : S)
      → (b.stage_block id r s).0 ≡ ok tt
      → staged (b.stage_block id r s).1 id ≡ some r
  pub stage_url_writes :
      (id url : String) (offset size : ℕ) (s : S)
      → Writes
          (staged s)
          (staged (b.stage_block_from_url id url offset size s).1)
          id
          (http_range offset size (remote url))
  pub stage_url_ok :
      (id url : String) (offset size : ℕ) (s : S)
      → (b.stage_block_from_url id url offset size s).0 ≡ ok tt
      → staged (b.stage_block_from_url id url offset size s).1 id
        ≡ some (http_range offset size (remote url))
  pub commit_ok :
      (ids : List String) (s : S)
      → (b.commit_block_list ids s).0 ≡ ok tt
      → committed (b.commit_block_list ids s).1 ≡ gather (staged s) ids

module _ {S : Type 0} (b : BlockBlob S) (rand : Random S) (remote : String → Bytes)
    (blob : IsBlockBlob b remote)
    (random_keeps : (n : ℕ) (s : S) → blob.staged (rand.read n s).1 ≡ blob.staged s) where
  open blob use {
    staged, committed, stage_writes, stage_ok, stage_url_writes, stage_url_ok, commit_ok,
  }

  -- What `upload_block` returns, and that it leaves what the staging left.
  upload_block_world :
      (id : String) (r : Bytes) (s : S) → (upload_block b id r s).1 ≡ (b.stage_block id r s).1
  unfolding upload_block
  upload_block_world id r s = elim (Result-cases (b.stage_block id r s).0) [
    | inl (_, fine) ↦ rw fine refl
    | inr (e, failed) ↦ rw failed refl
  ]

  upload_block_lem :
      (id : String) (r : Bytes) (s : S) (n : ℕ)
      → (upload_block b id r s).0 ≡ ok n
      → (n ≡ length r) × (staged (upload_block b id r s).1 id ≡ some r)
  unfolding upload_block
  upload_block_lem id r s n h = elim (Result-cases (b.stage_block id r s).0) [
    | inl (_, fine) ↦
        let e : ok (length r) ≡ ok n = rw fine at h in
        (cc, rw (upload_block_world id r s) (stage_ok id r s fine))
    | inr (e, failed) ↦ absurd (cc (rw failed at h))
  ]

  -- The Azure client over such a service is a block storage for the uploader, for which a copied range
  -- is not empty: each call does what the storage asks for, and reports an error if it does not.
  pub azure_upload_client-IsBlobStore : IsBlobStore (azure_upload_client b) rand remote
  unfolding azure_upload_client upload_block_from_url commit_blocks
  azure_upload_client-IsBlobStore = record {
    staged = staged;
    committed = committed;
    upload_block_writes = λ id r s. rw (upload_block_world id r s) (stage_writes id r s);
    upload_block_ok = upload_block_lem;
    upload_url_writes = λ id url offset size s positive.
        subst (Writes (staged s) (staged (b.stage_block_from_url id url offset size s).1) id)
          (http_range-positive offset size (remote url) positive)
          (stage_url_writes id url offset size s);
    upload_url_ok = λ id url offset size s positive h.
        stage_url_ok id url offset size s (wrapped_ok "stage block from url" _ h)
        ∙ ap some (http_range-positive offset size (remote url) positive);
    commit_ok = λ ids size s h. commit_ok ids s (wrapped_ok "commit block list" _ h);
    read_random = random_keeps;
  }
