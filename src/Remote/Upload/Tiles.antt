-- ===== src/Remote/Upload/Tiles.antt =====
-- The chunks in which `setup_base` copies the old blob.
use gocica.Base.{
  All, ℕ, zero, suc, ◌+◌, ◌-◌, ◌^◌, ◌≤◌, ◌<◌, ◌≡◌, refl, ap, ◌∙◌, sym, true, false, List, [], ◌∷◌,
  map, arith, Bool-cases, inl, inr, ltb, ltb→lt, ltb→le, String, Bytes, slice, slice-add, concat,
  min,
}
use gocica.Base.Int64.{Int64, lt64, lt64-eq, add64, sub64, min64, add64-eq, sub64-eq, min64-eq}
use gocica.Base.Go.{Result, ok, err, within}
use gocica.Remote.{Random}
use gocica.Remote.Upload.{
  BaseChunk, Plan, plan_chunks, plan_round, generate_block_id, max_upload_chunk_size,
}

-- The chunks cover `[offset, offset + size)` without gap or overlap, none empty, none above 4 MiB.
abbrev pub Tiles : ℕ → ℕ → List BaseChunk → Type 0
Tiles offset size [] = size ≡ 0
Tiles offset size (k ∷ ks) =
    (k.offset ≡ offset)
    × (0 < k.size)
    × (k.size ≤ max_upload_chunk_size)
    × (k.size ≤ size)
    × Tiles (offset + k.size) (size - k.size) ks

-- A plan that ended without an error covers the range.
abbrev Covers : ℕ → ℕ → Plan → Type 0
Covers offset size p = p.failure ≡ ok tt → Tiles offset size p.chunks

-- `min(maxUploadChunkSize, size-i)`
abbrev chunk_size : Int64 → Int64 → Int64
chunk_size size i = min64 max_upload_chunk_size (sub64 size i)

chunk_size-eq :
    (size i : ℕ)
    → i ≤ size
    → size < 2 ^ 63
    → chunk_size size i ≡ min max_upload_chunk_size (size - i)
chunk_size-eq size i le fits =
    rw (sub64-eq size i le (omega arith)) (min64-eq _ (size - i) (omega arith) (omega arith))

module _ {S : Type 0} where
  plan_round-Covers :
      (r : Result String) (offset n size : ℕ) (rest : S → Plan × S) (s : S)
      → 0 < n
      → n ≤ max_upload_chunk_size
      → n ≤ size
      → ((s' : S) → Covers (offset + n) (size - n) (rest s').0)
      → Covers offset size (plan_round r offset n rest s).0
  unfolding plan_round
  plan_round-Covers (err e) offset n size rest s pos small le ih = λ h. cc
  plan_round-Covers (ok id) offset n size rest s pos small le ih =
      λ h. (refl, pos, small, le, ih s h)

  -- The two ways in which a round of the loop goes.
  module _ (rand : Random S) (fuel offset size i : ℕ) (s : S) where
    plan_chunks_next :
        lt64 i size ≡ true
        → plan_chunks rand (suc fuel) offset size i s
          ≡ plan_round
              (within "generate block ID" (generate_block_id rand) s).0
              (add64 offset i)
              (chunk_size size i)
              (plan_chunks rand fuel offset size (add64 i (chunk_size size i)))
              (within "generate block ID" (generate_block_id rand) s).1
    unfolding plan_chunks
    plan_chunks_next h = rw (h, plan_chunks)

    plan_chunks_done :
        lt64 i size ≡ false
        → (plan_chunks rand (suc fuel) offset size i s).0 ≡ record { chunks = []; failure = ok tt }
    unfolding plan_chunks
    plan_chunks_done h = rw (h, plan_chunks)

  plan_chunks-Covers :
      (rand : Random S) (fuel offset size i : ℕ) (s : S)
      → i ≤ size
      → size - i ≤ fuel
      → offset + size < 2 ^ 63
      → Covers (offset + i) (size - i) (plan_chunks rand fuel offset size i s).0
  plan_chunks-Covers rand zero offset size i s le enough fits =
      unfold plan_chunks in λ h. omega arith
  plan_chunks-Covers rand (suc fuel) offset size i s le enough fits =
      elim (Bool-cases (ltb i size)) [
        | inl more ↦
            let n : ℕ = min max_upload_chunk_size (size - i) in
            let lt : i < size = ltb→lt i size more in
            let e : chunk_size size i ≡ n = chunk_size-eq size i le (omega arith) in
            let next : add64 i n ≡ i + n = add64-eq i n (omega arith) in
            let here : add64 offset i ≡ offset + i = add64-eq offset i (omega arith) in
            rw
              (plan_chunks_next rand fuel offset size i s
                (lt64-eq i size (omega arith) (omega arith) ∙ more))
              (rw (e, next, here)
                (plan_round-Covers _ (offset + i) n (size - i) _ _ (omega arith) (omega arith)
                  (omega arith)
                  λ s'.
                    let o : offset + i + n ≡ offset + (i + n) = omega arith in
                    let z : size - i - n ≡ size - (i + n) = omega arith in
                    rw (o, z)
                      (plan_chunks-Covers rand fuel offset size (i + n) s' (omega arith)
                        (omega arith) fits)))
        | inr done ↦
            let ge : size ≤ i = ltb→le i size done in
            rw
              (plan_chunks_done rand fuel offset size i s
                (lt64-eq i size (omega arith) (omega arith) ∙ done))
              (λ h. omega arith)
      ]

  -- If the random source does not fail and the range ends below 2^63, the planned chunks cover the old outputs' range of the
  -- blob, in order, without gap or overlap, and none is empty or above 4 MiB.
  pub plan_chunks-Tiles :
      (rand : Random S) (offset size : ℕ) (s : S)
      → offset + size < 2 ^ 63
      → (plan_chunks rand size offset size 0 s).0.failure ≡ ok tt
      → Tiles offset size (plan_chunks rand size offset size 0 s).0.chunks
  plan_chunks-Tiles rand offset size s fits h =
      let o : offset + 0 ≡ offset = omega arith in
      let z : size - 0 ≡ size = omega arith in
      rw (o, z) at (plan_chunks-Covers rand size offset size 0 s (omega arith) (omega arith) fits h)

-- Copied one behind the other, the chunks are the range of the old blob.
pub concat-Tiles :
    (offset size : ℕ) (ks : List BaseChunk) (blob : Bytes)
    → Tiles offset size ks
    → concat (map (λ k. slice k.offset k.size blob) ks) ≡ slice offset size blob
concat-Tiles offset size [] blob h = rw h
concat-Tiles offset size (k ∷ ks) blob (o, pos, small, le, rest) =
    let e : size ≡ k.size + (size - k.size) = omega arith in
    rw (o, concat-Tiles (offset + k.size) (size - k.size) ks blob rest)
      (sym (slice-add offset k.size (size - k.size) blob) ∙ ap (λ n. slice offset n blob) (sym e))

pub Tiles-positive :
    (offset size : ℕ) (ks : List BaseChunk) → Tiles offset size ks → All (λ k. 0 < k.size) ks
Tiles-positive offset size [] tiles = tt
Tiles-positive offset size (k ∷ ks) (o, pos, small, le, rest) =
    (pos, Tiles-positive (offset + k.size) (size - k.size) ks rest)
