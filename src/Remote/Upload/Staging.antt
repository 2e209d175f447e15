-- ===== src/Remote/Upload/Staging.antt =====
-- `setup_base` stages the outputs' range of the old blob.
use mathlib.Core.List.{Permᴰ}
use mathlib.Core.List.Permᴰ
use gocica.Base.{
  ◌+◌, ◌^◌, ◌<◌, ◌≡◌, refl, ap, sym, subst, ◌∙◌, false, List, [], ◌∷◌, map, some, String, Bytes,
  arith, str_eq, eq_iff, inl, inr, if◌then◌else◌, slice, concat, All, All-perm,
}
use gocica.Base.Go.{Result, ok, wrapped_ok, first_error_ok, and_then_ok, ok-injective, wait_all}
use gocica.Base.Table.{contains, Distinct}
use gocica.Proto.{ActionsOutput}
use gocica.Remote.{UploadClient, UrlRange, Random}
use gocica.Remote.Blob.{IsBlobStore, gather}
use gocica.Remote.Upload.{BaseChunk, BaseBlob, plan_chunks, upload_chunk, copy_base}
use gocica.Remote.Upload.Tiles.{Tiles-positive, plan_chunks-Tiles, concat-Tiles}

-- The data of the first chunk with a given id.
abbrev chunk_data : Bytes → List BaseChunk → String → Bytes
chunk_data blob [] id = []
chunk_data blob (k ∷ ks) id =
    if str_eq k.block_id id then slice k.offset k.size blob else chunk_data blob ks id

abbrev HasData : Bytes → (String → Bytes) → BaseChunk → Type 0
HasData blob f k = (0 < k.size) × (slice k.offset k.size blob ≡ f k.block_id)

-- With distinct ids every chunk is the first one with its id.
module _ (blob : Bytes) (f : String → Bytes) (id : String) (b : Bytes) where
  HasData-other :
      (ks : List BaseChunk)
      → contains id (map (λ k. k.block_id) ks) ≡ false
      → All (HasData blob f) ks
      → All (HasData blob (λ j. if str_eq id j then b else f j)) ks
  unfolding contains
  HasData-other [] h all = tt
  HasData-other (k ∷ ks) h all = (
    (all.0.0, ground (arith, eq_iff k.block_id id, eq_iff id k.block_id, all.0.1)),
    HasData-other ks (ground arith) all.1,
  )

chunk_data-HasData :
    (blob : Bytes) (ks : List BaseChunk)
    → Distinct (map (λ k. k.block_id) ks)
    → All (λ k. 0 < k.size) ks
    → All (HasData blob (chunk_data blob ks)) ks
chunk_data-HasData blob [] h positive = tt
chunk_data-HasData blob (k ∷ ks) h positive = (
  (positive.0, ground (arith, eq_iff k.block_id k.block_id)),
  HasData-other blob (chunk_data blob ks) k.block_id (slice k.offset k.size blob) ks h.0
      (chunk_data-HasData blob ks h.1 positive.1),
)

module _ {S : Type 0} (c : UploadClient S) (rand : Random S) (remote : String → Bytes)
    (store : IsBlobStore c rand remote) where
  open store use {staged, upload_url_writes, upload_url_ok}

  module _ (url : String) (f : String → Bytes) where
    abbrev IsStaged : S → String → Type 0
    IsStaged s id = staged s id ≡ some (f id)

    upload_chunk_keeps :
        (k : BaseChunk) (s : S) (id : String)
        → HasData (remote url) f k
        → IsStaged s id
        → IsStaged (upload_chunk c url k s).1 id
    unfolding upload_chunk
    upload_chunk_keeps k s id (positive, e) h =
        elim (upload_url_writes k.block_id url k.offset k.size s positive id) [
          | inl same ↦ same ∙ h
          | inr (here, now) ↦ now ∙ ap some (e ∙ ap f (sym here))
        ]

    uploads_keep :
        (ks : List BaseChunk) (s : S) (id : String)
        → All (HasData (remote url) f) ks
        → IsStaged s id
        → IsStaged (wait_all (map (upload_chunk c url) ks) s).1 id
    unfolding wait_all
    uploads_keep [] s id all h = h
    uploads_keep (k ∷ ks) s id all h =
        uploads_keep ks (upload_chunk c url k s).1 id all.1 (upload_chunk_keeps k s id all.0 h)

    upload_chunk_stages :
        (k : BaseChunk) (s : S)
        → HasData (remote url) f k
        → (upload_chunk c url k s).0 ≡ ok tt
        → IsStaged (upload_chunk c url k s).1 k.block_id
    unfolding upload_chunk
    upload_chunk_stages k s (positive, e) h =
        upload_url_ok k.block_id url k.offset k.size s positive (wrapped_ok _ _ h) ∙ ap some e

    uploads_stage :
        (ks : List BaseChunk) (s : S)
        → All (HasData (remote url) f) ks
        → (wait_all (map (upload_chunk c url) ks) s).0 ≡ ok tt
        → All (λ k. IsStaged (wait_all (map (upload_chunk c url) ks) s).1 k.block_id) ks
    unfolding wait_all
    uploads_stage [] s all h = tt
    uploads_stage (k ∷ ks) s all h =
        let s1 = (upload_chunk c url k s).1 in
        let (first, rest) =
          first_error_ok (upload_chunk c url k s).0 (wait_all (map (upload_chunk c url) ks) s1).0
            h in
        (
          uploads_keep ks s1 k.block_id all.1 (upload_chunk_stages k s all.0 first),
          uploads_stage ks s1 all.1 rest,
        )

    -- The staged chunks, joined in the order of the plan.
    gather_chunks :
        (ks : List BaseChunk) (s : S)
        → All (HasData (remote url) f) ks
        → All (λ k. IsStaged s k.block_id) ks
        → gather (staged s) (map (λ k. k.block_id) ks)
          ≡ some (concat (map (λ k. slice k.offset k.size (remote url)) ks))
    unfolding gather
    gather_chunks [] s all h = refl
    gather_chunks (k ∷ ks) s all h =
        rw (h.0 ∙ ap some (sym all.0.1), gather_chunks ks s all.1 h.1) refl

  -- In whatever order the chunks are uploaded, if their ids differ and the range ends below 2^63, a copy
  -- that succeeds has staged the old blob's
  -- outputs: the blocks of its ids, joined in order, are that range of the old blob. It returns the
  -- range's size and the old outputs.
  pub copy_base_stages :
      (schedule : List BaseChunk → List BaseChunk) (outputs : Result (List ActionsOutput))
      (r : UrlRange) (s : S) (b : BaseBlob)
      → r.offset + r.size < 2 ^ 63
      → Permᴰ
          (plan_chunks rand r.size r.offset r.size 0 s).0.chunks
          (schedule (plan_chunks rand r.size r.offset r.size 0 s).0.chunks)
      → Distinct (map (λ k. k.block_id) (plan_chunks rand r.size r.offset r.size 0 s).0.chunks)
      → (copy_base c rand schedule outputs r s).0 ≡ ok b
      → (gather (staged (copy_base c rand schedule outputs r s).1) b.block_ids
          ≡ some (slice r.offset r.size (remote r.url)))
        × (b.output_size ≡ r.size)
        × (outputs ≡ ok b.outputs)
  unfolding copy_base
  copy_base_stages schedule outputs r s b fits perm distinct h =
      let (plan, s1) = plan_chunks rand r.size r.offset r.size 0 s in
      let (planned, after) = first_error_ok _ _ h in
      let (uploaded, later) = first_error_ok _ _ after in
      let (os, listed, built) = and_then_ok _ _ later in
      let f : String → Bytes = chunk_data (remote r.url) plan.chunks in
      let tiles = plan_chunks-Tiles rand r.offset r.size s fits planned in
      let known : All (HasData (remote r.url) f) plan.chunks =
        chunk_data-HasData (remote r.url) plan.chunks distinct
          (Tiles-positive r.offset r.size plan.chunks tiles) in
      let there : All
          (λ k.
            IsStaged r.url f (wait_all (map (upload_chunk c r.url) (schedule plan.chunks)) s1).1
              k.block_id)
          plan.chunks =
        All-perm _ (Permᴰ.symm perm)
          (uploads_stage r.url f (schedule plan.chunks) s1 (All-perm _ perm known) uploaded) in
      subst
        (λ (x : BaseBlob).
          (gather (staged (copy_base c rand schedule outputs r s).1) x.block_ids
            ≡ some (slice r.offset r.size (remote r.url)))
          × (x.output_size ≡ r.size)
          × (outputs ≡ ok x.outputs))
        (ok-injective _ b built)
        (
          gather_chunks r.url f plan.chunks _ known there
              ∙ ap some (concat-Tiles r.offset r.size plan.chunks (remote r.url) tiles),
          refl,
          wrapped_ok _ _ listed,
        )
