-- ===== src/Remote/DownloadAll/Chunks.antt =====
-- The chunks deliver the outputs.
use gocica.Base.{
  ℕ, ◌+◌, ◌^◌, ◌≤◌, ◌<◌, ◌≡◌, refl, ap, sym, subst, ◌∙◌, List, [], ◌∷◌, ◌++◌, map, map-append, none,
  some, Bytes, arith, length, slice, length-slice, concat, All,
}
use gocica.Base.Go.{ok, err, wrap}
use gocica.Proto.{ActionsOutput}
use gocica.PkgIo.JoinedWriter.{WriterWithSize, JoinedWriter, new_joined_writer}
use gocica.PkgIo.JoinedWriter.Pour.{pour}
use gocica.PkgIo.JoinedWriter.Rounds.{slots}
use gocica.PkgIo.JoinedWriter.Copy.{Body, copy, copy-pour}
use gocica.Remote.Layout.{total_size, total_size-append}
use gocica.Remote.Download.{BlobClient, download_block}
use gocica.Remote.Sinks.{Files, Sink, sink_io}
use gocica.Remote.DownloadAll.{Target, Chunk, Delivered, writer_of, deliver, run_chunk, run_chunks}
use gocica.Remote.DownloadAll.Plan.{TargetsOf, ChunksOf}
use gocica.Remote.DownloadAll.Deliver.{
  Serves, IsFileSystem, decoded, IsNew, tag, got, sink-IsReliable, content-close_output, slot_of,
  poured_slots, pour_targets, capacity_targets, targets_in_range,
}

-- The files are those of the outputs, in order: the data of each output is the range of the blob that
-- begins where the ones before it end.
abbrev pub Arrived :
    {W : Type 0}
    → (W → Bytes)
    → (Bytes → Bytes)
    → Bytes
    → ℕ
    → List ActionsOutput
    → List (Delivered W)
    → Type 0
Arrived file_content decompress blob start [] [] = Unit
Arrived file_content decompress blob start [] (d ∷ ds) = ⊥
Arrived file_content decompress blob start (o ∷ os) [] = ⊥
Arrived file_content decompress blob start (o ∷ os) (d ∷ ds) =
    (d.id ≡ o.id)
    × (file_content d.file ≡ decoded decompress o.compression (slice start o.size blob))
    × Arrived file_content decompress blob (start + o.size) os ds

module _ {W Z : Type 0} (f : Files W Z) (decompress : Bytes → Bytes)
    (fs : IsFileSystem f decompress) where
  abbrev Came : Bytes → ℕ → List ActionsOutput → List (Delivered W) → Type 0
  Came = Arrived fs.file_content decompress

  deliver-Arrived :
      (blob : Bytes) (start : ℕ) (os : List ActionsOutput) (ts : List (Target W Z))
      (ws : List (WriterWithSize (Sink W Z)))
      → TargetsOf f (IsNew f decompress fs) os ts
      → map (slot_of f decompress fs) ws ≡ poured_slots f decompress fs start blob os
      → Came blob start os (deliver f ts ws)
  unfolding deliver
  deliver-Arrived blob start [] [] ws h k = tt
  deliver-Arrived blob start [] (t ∷ ts) ws h k = absurd h
  deliver-Arrived blob start (o ∷ os) [] ws h k = absurd h
  deliver-Arrived blob start (o ∷ os) (t ∷ ts) [] h k = absurd cc
  deliver-Arrived blob start (o ∷ os) (t ∷ ts) (w ∷ ws) h k =
      let has : got f decompress fs w.writer ≡ tag o.compression ∷ slice start o.size blob = cc in
      (
        h.0,
        content-close_output f decompress fs w.writer o.compression (slice start o.size blob) has,
        deliver-Arrived blob (start + o.size) os ts ws h.3 cc,
      )

  Arrived-append :
      (blob : Bytes) (start middle : ℕ) (xs ys : List ActionsOutput) (ds es : List (Delivered W))
      → start + total_size xs ≡ middle
      → Came blob start xs ds
      → Came blob middle ys es
      → Came blob start (xs ++ ys) (ds ++ es)
  unfolding total_size
  Arrived-append blob start middle [] ys [] es e h k =
      subst (λ n. Came blob n ys es) (sym e ∙ omega arith) k
  Arrived-append blob start middle [] ys (d ∷ ds) es e h k = absurd h
  Arrived-append blob start middle (x ∷ xs) ys [] es e h k = absurd h
  Arrived-append blob start middle (x ∷ xs) ys (d ∷ ds) es e h k =
      (h.0, h.1, Arrived-append blob (start + x.size) middle xs ys ds es (omega arith) h.2 k)

  module _ (c : BlobClient) (blob : Bytes) (serves : Serves c blob)
      (range : length blob < 2 ^ 63) where
    -- A chunk whose range is not empty delivers its outputs.
    abbrev joined : Chunk W Z → JoinedWriter (Sink W Z)
    joined k = new_joined_writer (map (writer_of f) k.targets)

    abbrev delivered : Chunk W Z → JoinedWriter (Sink W Z) → List (Delivered W)
    delivered k j = deliver f k.targets (j.before ++ j.rest)

    download_block_copied :
        (offset size : ℕ) (body : Body) (j j' : JoinedWriter (Sink W Z))
        → c.download_stream offset size ≡ ok body
        → copy (sink_io f) body.pieces body.failure j ≡ (j', none)
        → download_block (sink_io f) c offset size j ≡ (j', none)
    unfolding download_block
    download_block_copied offset size body j j' served done = rw (served, done, download_block)

    -- A chunk whose body is copied without an error.
    run_chunk_copied :
        (k : Chunk W Z) (j' : JoinedWriter (Sink W Z))
        → download_block (sink_io f) c k.offset k.size (joined k) ≡ (j', none)
        → run_chunk f c k ≡ (delivered k j', ok tt)
    unfolding run_chunk
    run_chunk_copied k j' done =
        ap
          (λ p.
            (delivered k p.0, elim p.1 [ none ↦ ok tt | some e ↦ err (wrap "download block" e) ]))
          done

    run_chunk-Arrived :
        (k : Chunk W Z) (mine : List ActionsOutput)
        → TargetsOf f (IsNew f decompress fs) mine k.targets
        → k.size ≡ total_size mine
        → 0 < k.size
        → k.offset + k.size ≤ length blob
        → ((run_chunk f c k).1 ≡ ok tt) × Came blob k.offset mine (run_chunk f c k).0
    unfolding new_joined_writer
    run_chunk-Arrived k mine targets size positive fits =
        let (body, served, fine, pieces, small) = serves.stream k.offset k.size positive fits in
        let all : length (concat body.pieces) ≡ total_size mine =
          ap length pieces ∙ length-slice k.offset k.size blob fits ∙ size in
        let cap = capacity_targets f decompress fs mine k.targets targets in
        let (done, poured) =
          copy-pour (sink_io f) (got f decompress fs) (sink-IsReliable f decompress fs) body.pieces
            (new_joined_writer (map (writer_of f) k.targets))
            (record {
              full = tt;
              in_range = targets_in_range f decompress fs mine k.targets targets (omega arith);
            })
            small (omega (arith, all, cap)) in
        let after = copy (sink_io f) body.pieces none (joined k) in
        let copied : copy (sink_io f) body.pieces body.failure (joined k) ≡ (after.0, none) =
          rw (fine, done) in
        let same =
          run_chunk_copied k after.0
            (download_block_copied k.offset k.size body (joined k) after.0 served copied) in
        let content =
          map-append (slot_of f decompress fs) after.0.before after.0.rest
          ∙ poured
          ∙ ap
              (pour (
                slots (sink_io f) (got f decompress fs) (sink-IsReliable f decompress fs)
                  (joined k)))
              (pieces ∙ ap (λ n. slice k.offset n blob) size)
          ∙ pour_targets f decompress fs k.offset blob mine k.targets targets (omega arith) in
        rw same (
          refl,
          deliver-Arrived blob k.offset mine k.targets (after.0.before ++ after.0.rest) targets
              content,
        )

    -- Chunks that are not empty deliver their outputs, in order, and none fails.
    pub run_chunks-Arrived :
        (offset : ℕ) (os : List ActionsOutput) (ks : List (Chunk W Z))
        → ChunksOf f (IsNew f decompress fs) offset os ks
        → All (λ k. 0 < k.size) ks
        → offset + total_size os ≤ length blob
        → ((run_chunks f c ks).1 ≡ ok tt) × Came blob offset os (run_chunks f c ks).0
    unfolding run_chunks total_size
    run_chunks-Arrived offset [] [] h positive fits = (refl, tt)
    run_chunks-Arrived offset (o ∷ os) [] h positive fits = absurd cc
    run_chunks-Arrived offset os (k ∷ ks) (mine, left, split, some_taken, targets, at, size, rest)
          positive fits =
        let totals = ap total_size split ∙ total_size-append mine left in
        let first = run_chunk-Arrived k mine targets size positive.0 (omega arith) in
        let more =
          run_chunks-Arrived (offset + total_size mine) left ks rest positive.1 (omega arith) in
        (
          rw (first.0) more.0,
          subst (λ l. Came blob offset l ((run_chunk f c k).0 ++ (run_chunks f c ks).0)) (sym split)
              (Arrived-append blob offset (offset + total_size mine) mine left _ _ refl
                (subst (λ n. Came blob n mine (run_chunk f c k).0) at first.1) more.1),
        )
