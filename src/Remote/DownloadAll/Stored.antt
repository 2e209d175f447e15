-- ===== src/Remote/DownloadAll/Stored.antt =====
-- The download as a whole: every output's file gets the content that was uploaded under its id.
use mathlib.Core.List.{Permᴰ}
use gocica.Base.{
  ℕ, suc, ◌+◌, ◌^◌, ◌≤◌, ◌<◌, ◌≡◌, refl, ap, sym, subst, ◌∙◌, inl, inr, List, [], ◌∷◌, ◌++◌, String,
  some, Bytes, arith, length, length-append, slice, slice-append_right, All, All-perm,
}
use gocica.Base.Go.{Io, ok}
use gocica.Proto.{ActionsOutput}
use gocica.Remote.Layout.{total_size}
use gocica.Remote.Blob.{HoldsOutput, HoldsOutputs}
use gocica.Remote.Download.{BlobClient, Downloader}
use gocica.Remote.Sinks.{Files}
use gocica.Remote.DownloadAll.{open_file_limit, Delivered, start_chunks, run_chunks, download_all}
use gocica.Remote.DownloadAll.Order.{IsSorted, StartsAt, sorted-StartsAt}
use gocica.Remote.DownloadAll.Plan.{start_chunks-ChunksOf}
use gocica.Remote.DownloadAll.Deliver.{Serves, IsFileSystem, decoded, IsNew}
use gocica.Remote.DownloadAll.Chunks.{Arrived, run_chunks-Arrived}

-- The files are those of the outputs, in order, each with its content.
abbrev pub Stored :
    {W : Type 0}
    → (W → Bytes)
    → (Bytes → Bytes)
    → (String → Bytes)
    → List ActionsOutput
    → List (Delivered W)
    → Type 0
Stored file_content decompress content [] [] = Unit
Stored file_content decompress content [] (d ∷ ds) = ⊥
Stored file_content decompress content (o ∷ os) [] = ⊥
Stored file_content decompress content (o ∷ os) (d ∷ ds) =
    (d.id ≡ o.id)
    × (file_content d.file ≡ decoded decompress o.compression (content o.id))
    × Stored file_content decompress content os ds

length-Perm : {A : Type 0} {xs ys : List A} → Permᴰ xs ys → length xs ≡ length ys
length-Perm Permᴰ.nil = refl
length-Perm (Permᴰ.cons e p) = ap suc (length-Perm p)
length-Perm (Permᴰ.swap e f) = refl
length-Perm (Permᴰ.trans p q) = length-Perm p ∙ length-Perm q

total_size-StartsAt :
    (start end : ℕ) (os : List ActionsOutput) → StartsAt start os end → start + total_size os ≡ end
unfolding total_size
total_size-StartsAt start end [] h = omega (arith, h)
total_size-StartsAt start end (o ∷ os) h =
    omega (arith, total_size-StartsAt (start + o.size) end os h.1)

Stored-Arrived :
    {W : Type 0} (file_content : W → Bytes) (decompress : Bytes → Bytes) (content : String → Bytes)
    (header held : Bytes) (start end : ℕ) (os : List ActionsOutput) (ds : List (Delivered W))
    → StartsAt start os end
    → All (HoldsOutput content held) os
    → Arrived file_content decompress (header ++ held) (length header + start) os ds
    → Stored file_content decompress content os ds
Stored-Arrived file_content decompress content header held start end [] [] at holds h = tt
Stored-Arrived file_content decompress content header held start end [] (d ∷ ds) at holds h =
    absurd h
Stored-Arrived file_content decompress content header held start end (o ∷ os) [] at holds h =
    absurd h
Stored-Arrived file_content decompress content header held start end (o ∷ os) (d ∷ ds) at holds h =
    let here : slice start o.size held ≡ slice o.offset o.size held = elim at.0 [
      | inl z ↦ ap (λ n. slice start n held) z ∙ ap (λ n. slice o.offset n held) (sym z)
      | inr e ↦ ap (λ n. slice n o.size held) (sym e)
    ] in
    let got : slice (length header + start) o.size (header ++ held) ≡ content o.id =
      slice-append_right start o.size header held ∙ here ∙ holds.0 in
    (
      h.0,
      h.1 ∙ ap (decoded decompress o.compression) got,
      Stored-Arrived file_content decompress content header held (start + o.size) end os ds at.1
          holds.1
          (subst (λ n. Arrived file_content decompress (header ++ held) n os ds) (omega arith) h.2),
    )

-- Every chunk that the loop plans has at least one byte.
abbrev pub NoEmptyChunk :
    {S W Z : Type 0} → Files W Z → (String → Io S W) → List ActionsOutput → S → Type 0
NoEmptyChunk f object_writer os s =
    (offset : ℕ)
    → All (λ k. 0 < k.size) (start_chunks f object_writer (length os) offset os s).0.chunks

module _ {S W Z : Type 0} (f : Files W Z) (decompress : Bytes → Bytes)
    (fs : IsFileSystem f decompress) (object_writer : String → Io S W)
    (makes : (id : String) (s : S)
      → (w : W) × ((object_writer id s).0 ≡ ok w) × IsNew f decompress fs w)
    (c : BlobClient) (header held : Bytes) (serves : Serves c (header ++ held)) where
  -- The download of all outputs ends without an error, and every output's file has the output's
  -- content, decompressed when it is stored compressed; the files are in the order in which `sort` puts
  -- the outputs, which is one that slices.SortFunc can give. The blob is the header and then the
  -- outputs that the header lists, no more than there are permits, and no planned chunk is empty (the
  -- SDK reads a range of 0 bytes as the rest of the blob); outputs may be empty. The blob is shorter than
  -- 2^63 bytes, the reads of it succeed, and so do the local files.
  pub download_all-Stored :
      (content : String → Bytes) (sort : List ActionsOutput → List ActionsOutput) (d : Downloader)
      (total : ℕ) (s : S)
      → d.client ≡ some c
      → d.header_size ≡ length header
      → HoldsOutputs content held d.header.outputs total
      → NoEmptyChunk f object_writer (sort d.header.outputs) s
      → length d.header.outputs ≤ open_file_limit
      → length (header ++ held) < 2 ^ 63
      → Permᴰ d.header.outputs (sort d.header.outputs)
      → IsSorted (sort d.header.outputs)
      → ((download_all f object_writer sort d s).0.1 ≡ ok tt)
        × Stored fs.file_content decompress content
            (sort d.header.outputs)
            (download_all f object_writer sort d s).0.0
  unfolding download_all
  download_all-Stored content sort d total s client size holds positive few range perm sorted =
      let sorted_outputs = sort d.header.outputs in
      let at =
        sorted-StartsAt total d.header.outputs sorted_outputs holds.layout
          (omega (arith, length-append header held, holds.size)) perm sorted in
      let sum = total_size-StartsAt 0 total sorted_outputs at in
      let blob = length-append header held in
      let many = length-Perm perm in
      let run =
        start_chunks f object_writer (length sorted_outputs) (length header) sorted_outputs s in
      let started =
        start_chunks-ChunksOf f object_writer (IsNew f decompress fs) makes (length sorted_outputs)
          (length header) sorted_outputs s (omega arith) (omega arith)
          (omega (arith, holds.size)) in
      let came =
        run_chunks-Arrived f decompress fs c (header ++ held) serves range (length header)
          sorted_outputs run.0.chunks started.1 (positive (length header))
          (omega (arith, holds.size)) in
      let stored =
        Stored-Arrived fs.file_content decompress content header held 0 total sorted_outputs _ at
          (All-perm (HoldsOutput content held) perm holds.contents)
          (subst
            (λ n.
              Arrived fs.file_content decompress (header ++ held) n sorted_outputs
                (run_chunks f c run.0.chunks).0)
            (omega arith) came.1) in
      rw (client, size) (rw (started.0) (came.0, stored))
