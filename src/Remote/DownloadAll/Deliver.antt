-- ===== src/Remote/DownloadAll/Deliver.antt =====
-- Every file gets the content of its output.
use gocica.Base.{
  ℕ, ◌+◌, ◌^◌, ◌≤◌, ◌<◌, ◌≡◌, refl, ap, ap₂, sym, ◌∙◌, List, [], ◌∷◌, ◌++◌, map, Bytes, none, arith,
  length, slice, slice-add, length-slice, concat, All, eq_nil_of_length,
}
use gocica.Base.Go.{ok}
use gocica.Proto.{ActionsOutput, Compression, unspecified, zstd, unrecognized}
use gocica.PkgIo.JoinedWriter.{WriterWithSize}
use gocica.PkgIo.JoinedWriter.Pour.{Slot, pour, pour_exact, capacity}
use gocica.PkgIo.JoinedWriter.Rounds.{IsReliable, slot}
use gocica.PkgIo.JoinedWriter.Copy.{Body}
use gocica.Remote.Layout.{total_size}
use gocica.Remote.Download.{BlobClient}
use gocica.Remote.Sinks.{Files, Sink, raw, inflate, sink_io, new_sink, close_output}
use gocica.Remote.DownloadAll.{Target, writer_of}
use gocica.Remote.DownloadAll.Plan.{TargetsOf}

-- A range of the blob, not empty, comes as a stream without an error, in pieces of any sizes. (The SDK
-- takes a count of 0 for "to the end", so nothing is said of that.)
pub record Serves (c : BlobClient) (blob : Bytes) : Type 0 where
  pub stream :
      (offset size : ℕ)
      → 0 < size
      → offset + size ≤ length blob
      → (body : Body) × (c.download_stream offset size ≡ ok body)
        × (body.failure ≡ none)
        × (concat body.pieces ≡ slice offset size blob)
        × All (λ p. length p < 2 ^ 63) body.pieces

-- Local files that take all they are given, and a decompressing writer that does so too: when it is
-- closed, its file holds the decompressed data behind `base`, which is what the file held before.
pub record IsFileSystem {W Z : Type 0} (f : Files W Z) (decompress : Bytes → Bytes) : Type 0 where
  pub file_content : W → Bytes
  pub received : Z → Bytes
  pub base : Z → Bytes
  pub file_reliable : IsReliable f.file file_content
  pub inflater_reliable : IsReliable f.inflater received
  pub received_new : (w : W) → received (f.new_decompress_writer w) ≡ []
  pub base_new : (w : W) → base (f.new_decompress_writer w) ≡ file_content w
  pub base_write : (z : Z) (p : Bytes) → base (f.inflater.write z p).writer ≡ base z
  pub base_close : (z : Z) → base (f.inflater.close z).0 ≡ base z
  pub inflates :
      (z : Z) → file_content (f.inner (f.inflater.close z).0) ≡ base z ++ decompress (received z)

-- The file that an output makes, from the data in the blob.
abbrev pub decoded : (Bytes → Bytes) → Compression → Bytes → Bytes
decoded decompress zstd b = decompress b
decoded decompress unspecified b = b
decoded decompress (unrecognized n) b = b

abbrev pub tag : Compression → ℕ
tag zstd = 1
tag unspecified = 0
tag (unrecognized n) = 0

module _ {W Z : Type 0} (f : Files W Z) (decompress : Bytes → Bytes)
    (fs : IsFileSystem f decompress) where
  open fs use {
    base, base_new, base_write, base_close, file_content, received, file_reliable,
    inflater_reliable, received_new, inflates,
  }

  abbrev pub IsNew : W → Type 0
  IsNew w = file_content w ≡ []

  -- What a writer has got, behind a mark for its kind: 0 for a file, and for a decompressing writer
  -- 1 and the length of what its file held before.
  abbrev pub got : Sink W Z → Bytes
  got (raw w) = 0 ∷ file_content w
  got (inflate z) = (1 + length (base z)) ∷ received z

  pub sink-IsReliable : IsReliable (sink_io f) got
  sink-IsReliable = record {
    write_n = elim [ raw w ↦ file_reliable.write_n w | inflate z ↦ inflater_reliable.write_n z ];
    write_failure = elim [
      | raw w ↦ file_reliable.write_failure w
      | inflate z ↦ inflater_reliable.write_failure z
    ];
    write_content = elim [
      | raw w ↦ λ p. ap (◌∷◌ 0) (file_reliable.write_content w p)
      | inflate z ↦ λ p.
          ap₂ (λ b r. (1 + length b) ∷ r) (base_write z p) (inflater_reliable.write_content z p)
    ];
    close_failure = elim [
      | raw w ↦ file_reliable.close_failure w
      | inflate z ↦ inflater_reliable.close_failure z
    ];
    close_content = elim [
      | raw w ↦ ap (◌∷◌ 0) (file_reliable.close_content w)
      | inflate z ↦
          ap₂ (λ b r. (1 + length b) ∷ r) (base_close z) (inflater_reliable.close_content z)
    ];
  }

  got-new_sink : (c : Compression) (w : W) → IsNew w → got (new_sink f c w) ≡ tag c ∷ []
  unfolding new_sink
  got-new_sink zstd w h = ap₂ (λ b r. (1 + length b) ∷ r) (base_new w ∙ h) (received_new w)
  got-new_sink unspecified w h = ap (◌∷◌ 0) h
  got-new_sink (unrecognized n) w h = ap (◌∷◌ 0) h

  -- Closing the writers of an output leaves its decoded data in the file.
  pub content-close_output :
      (s : Sink W Z) (c : Compression) (b : Bytes)
      → got s ≡ tag c ∷ b
      → file_content (close_output f s) ≡ decoded decompress c b
  unfolding close_output
  content-close_output (raw w) zstd b h = absurd (ground arith)
  content-close_output (raw w) unspecified b h = file_reliable.close_content w ∙ cc
  content-close_output (raw w) (unrecognized n) b h = file_reliable.close_content w ∙ cc
  content-close_output (inflate z) zstd b h =
      let n : 1 + length (base z) ≡ 1 = cc in
      let nothing = eq_nil_of_length (base z) (omega (arith, n)) in
      file_reliable.close_content _ ∙ inflates z ∙ ap₂ (λ x y. x ++ decompress y) nothing cc
  content-close_output (inflate z) unspecified b h = absurd (ground arith)
  content-close_output (inflate z) (unrecognized n) b h = absurd (ground arith)

  abbrev pub slot_of : WriterWithSize (Sink W Z) → Slot
  slot_of = slot (sink_io f) got sink-IsReliable

  -- The slots of some outputs once their range of the blob is poured.
  abbrev pub poured_slots : ℕ → Bytes → List ActionsOutput → List Slot
  poured_slots start blob [] = []
  poured_slots start blob (o ∷ os) =
      record { content = tag o.compression ∷ slice start o.size blob; room = 0 }
      ∷ poured_slots (start + o.size) blob os

  pub pour_targets :
      (start : ℕ) (blob : Bytes) (os : List ActionsOutput) (ts : List (Target W Z))
      → TargetsOf f IsNew os ts
      → start + total_size os ≤ length blob
      → pour (map slot_of (map (writer_of f) ts)) (slice start (total_size os) blob)
        ≡ poured_slots start blob os
  unfolding pour total_size
  pour_targets start blob [] [] h fits = refl
  pour_targets start blob [] (t ∷ ts) h fits = absurd h
  pour_targets start blob (o ∷ os) [] h fits = absurd h
  pour_targets start blob (o ∷ os) (t ∷ ts) (same, size, (w, new, made), rest) fits =
      let one = length-slice start o.size blob (omega arith) in
      let empty : got t.sink ≡ tag o.compression ∷ [] =
        ap got made ∙ got-new_sink o.compression w new in
      ap (pour (map slot_of (map (writer_of f) (t ∷ ts))))
        (slice-add start o.size (total_size os) blob)
      ∙ pour_exact (slot_of (writer_of f t)) (map slot_of (map (writer_of f) ts)) _ _
          (size ∙ sym one)
      ∙ ap₂ (λ b rest. record { content = b ++ slice start o.size blob; room = 0 } ∷ rest) empty
          (pour_targets (start + o.size) blob os ts rest (omega arith))

  pub capacity_targets :
      (os : List ActionsOutput) (ts : List (Target W Z))
      → TargetsOf f IsNew os ts
      → capacity (map slot_of (map (writer_of f) ts)) ≡ total_size os
  unfolding capacity total_size
  capacity_targets [] [] h = refl
  capacity_targets [] (t ∷ ts) h = absurd h
  capacity_targets (o ∷ os) [] h = absurd h
  capacity_targets (o ∷ os) (t ∷ ts) h = omega (arith, h.1, capacity_targets os ts h.3)

  pub targets_in_range :
      (os : List ActionsOutput) (ts : List (Target W Z))
      → TargetsOf f IsNew os ts
      → total_size os < 2 ^ 63
      → All (λ w. w.size < 2 ^ 63) (map (writer_of f) ts)
  unfolding total_size
  targets_in_range [] [] h fits = tt
  targets_in_range [] (t ∷ ts) h fits = absurd h
  targets_in_range (o ∷ os) [] h fits = absurd h
  targets_in_range (o ∷ os) (t ∷ ts) h fits =
      (omega (arith, h.1), targets_in_range os ts h.3 (omega arith))
