-- ===== src/Remote/Backend/Restart.antt =====
-- From one run of the program to the next: what a backend writes is what the next one reads.
use mathlib.Core.List.{Permᴰ}
use gocica.Base.{
  ◌+◌, ◌^◌, ◌≤◌, ◌<◌, ◌≡◌, refl, sym, ap, subst, ◌∙◌, false, Bool-cases, inl, inr, List, ◌++◌,
  append_assoc, some, String, Bytes, length, length-append, arith, ==_iff, ◌==◌,
}
use gocica.Base.Go.{Io, ok, wrapped_ok}
use gocica.Base.Table.{Table, contains}
use gocica.Base.Int64.{Int64}
use gocica.Proto.{ActionsOutput, ActionsCache, IndexEntry}
use gocica.Remote.{UploadClient, Random, Protobuf}
use gocica.Remote.Layout.{total_size}
use gocica.Remote.Blob.{IsBlobStore, HoldsOutputs}
use gocica.Remote.Upload.{
  Uploader, BaseBlob, Constructed, base_or_empty, construct_outputs, put_uint64, generate_block_id,
}
use gocica.Remote.Upload.Header.{length-put_uint64}
use gocica.Remote.Upload.Outputs.{IsReady}
use gocica.Remote.Upload.Commit.{commit-HoldsOutputs}
use gocica.Remote.Download.{BlobClient, Downloader, new_downloader, is_empty, get_entries}
use gocica.Remote.Download.Committed.{Buffers, new_downloader-Committed}
use gocica.Remote.Sinks.{Files}
use gocica.Remote.DownloadAll.{open_file_limit}
use gocica.Remote.DownloadAll.Order.{IsSorted}
use gocica.Remote.DownloadAll.Deliver.{Serves, IsFileSystem, IsNew}
use gocica.Remote.DownloadAll.Stored.{Stored, NoEmptyChunk, download_all-Stored}
use gocica.Remote.Backend.{Backend, new_backend, download_outputs, meta_data, write_meta_data}

-- protobuf reads the message that it wrote.
abbrev pub RoundTrips : Protobuf → ActionsCache → Type 0
RoundTrips pb cache = (b : Bytes) → pb.marshal cache ≡ ok b → pb.unmarshal b ≡ ok cache

module _ {L W Z : Type 0} (f : Files W Z) (decompress : Bytes → Bytes)
    (fs : IsFileSystem f decompress) (local_put : String → Int64 → Io L W)
    (makes : (id : String) (l : L)
      → (w : W) × ((local_put id 0 l).0 ≡ ok w) × IsNew f decompress fs w)
    (sort : List ActionsOutput → List ActionsOutput) where
  -- A downloader over a blob that holds something delivers it all.
  download_outputs-Stored :
      (content : String → Bytes) (c : BlobClient) (header held : Bytes) (d : Downloader) (l : L)
      → Serves c (header ++ held)
      → d.client ≡ some c
      → d.header_size ≡ length header
      → HoldsOutputs content held d.header.outputs d.header.output_total_size
      → 0 < d.header.output_total_size
      → NoEmptyChunk f (λ id. local_put id 0) (sort d.header.outputs) l
      → length d.header.outputs ≤ open_file_limit
      → length (header ++ held) < 2 ^ 63
      → Permᴰ d.header.outputs (sort d.header.outputs)
      → IsSorted (sort d.header.outputs)
      → Stored fs.file_content decompress content
          (sort d.header.outputs)
          (download_outputs f local_put sort d l).0
  unfolding download_outputs is_empty
  download_outputs-Stored content c header held d l serves client size holds some_size positive few
        range perm sorted =
      let more : (d.header.output_total_size == 0) ≡ false =
        elim (Bool-cases (d.header.output_total_size == 0)) [
          | inl e ↦ absurd (omega (arith, some_size, (==_iff d.header.output_total_size 0).0 e))
          | inr e ↦ e
        ] in
      rw (more, download_outputs)
        (download_all-Stored f decompress fs (λ id. local_put id 0) makes c header held serves
          content sort d d.header.output_total_size l client size holds positive few range perm
          sorted).1

-- The copied part of the old blob, and the outputs and the header that are written.
abbrev pub base : {S : Type 0} → Backend S → BaseBlob
base b = base_or_empty b.uploader.wait_base

abbrev pub built : {S : Type 0} → Backend S → Constructed
built b =
    construct_outputs (base_or_empty b.uploader.wait_base).output_size
      (base_or_empty b.uploader.wait_base).outputs b.uploader.outputs

abbrev pub header : {S : Type 0} → Backend S → Table IndexEntry → ActionsCache
header b entries = record {
  entries = entries;
  outputs = (built b).outputs;
  output_total_size = (built b).size;
}

module _ {S : Type 0} (c : UploadClient S) (rand : Random S) (remote : String → Bytes)
    (store : IsBlobStore c rand remote) (content : String → Bytes) (base_data : Bytes)
    (b : Backend S) where
  -- The downloader of a blob of the written entries, with the old and the new outputs behind `front`.
  abbrev pub restarted : Table IndexEntry → BlobClient → Bytes → Downloader
  restarted entries next front = record {
    client = some next;
    header_size = length front;
    header = header b entries;
  }

  -- A new downloader over the blob of a commit has the written entries, and the blob holds the old and
  -- the new outputs behind its front.
  pub record Restarted (pb : Protobuf) (entries : Table IndexEntry) (next : BlobClient)
      (blob : Bytes) : Type 0 where
    pub front : Bytes
    pub held : Bytes
    pub reads : new_downloader pb (some next) ≡ ok (restarted entries next front)
    pub joined : blob ≡ front ++ held
    pub holds : HoldsOutputs content held (built b).outputs (built b).size

  pub write_meta_data-Restarted :
      (pb : Protobuf) (entries : Table IndexEntry) (next : BlobClient) (blob : Bytes)
      → RoundTrips pb (header b entries)
      → IsReady c rand remote store content base_data b.uploader
      → HoldsOutputs content base_data (base b).outputs (base b).output_size
      → (base b).output_size + total_size b.uploader.outputs < 2 ^ 63
      → ((id : String)
          → (generate_block_id rand b.uploader.world).0 ≡ ok id
          → contains id ((base b).block_ids ++ (built b).new_output_ids) ≡ false)
      → (write_meta_data pb rand entries b).0 ≡ ok tt
      → store.committed (write_meta_data pb rand entries b).1.uploader.world ≡ some blob
      → Buffers next blob
      → length blob < 2 ^ 63
      → Restarted pb entries next blob
  unfolding write_meta_data
  write_meta_data-Restarted pb entries next blob trips ready old fits fresh wrote made buffers
        range =
      let (body, held, marshalled, committed, holds) =
        commit-HoldsOutputs c rand remote store content base_data b.uploader pb entries ready old
          fits fresh (wrapped_ok "commit" _ wrote) in
      let front = put_uint64 (length body) ++ body in
      let same : blob ≡ put_uint64 (length body) ++ (body ++ held) = cc in
      let joined : blob ≡ front ++ held =
        same ∙ sym (append_assoc (put_uint64 (length body)) body held) in
      let front_length : 8 + length body ≡ length front =
        omega
          (arith, length-append (put_uint64 (length body)) body, length-put_uint64 (length body)) in
      record {
        front = front;
        held = held;
        reads =
            new_downloader-Committed pb next (header b entries) body held
              (subst (Buffers next) same buffers) (trips body marshalled)
              (omega (arith, range, ap length joined, front_length, length-append front held))
            ∙ ap
                (λ n.
                  ok (record { client = some next; header_size = n; header = header b entries }))
                front_length;
        joined = joined;
        holds = holds;
      }

  module _ {L W Z : Type 0} (f : Files W Z) (decompress : Bytes → Bytes)
      (fs : IsFileSystem f decompress) (local_put : String → Int64 → Io L W)
      (makes : (id : String) (l : L)
        → (w : W) × ((local_put id 0 l).0 ≡ ok w) × IsNew f decompress fs w)
      (sort : List ActionsOutput → List ActionsOutput) where
    -- Once a backend has written the metadata without an error, a new downloader over the blob has the
    -- written entries as its metadata, and its download gives every output's file the output's content.
    -- The uploader is ready, the staged part of the old blob holds the old outputs, the header's id is
    -- new and the sizes are in range; protobuf reads the header that it wrote, the reads of the blob and the local
    -- files succeed, there is something to download, no planned chunk is empty, there are no more
    -- outputs than there are permits, and `sort` gives an order that slices.SortFunc can give.
    pub restart-Stored :
        (pb : Protobuf) (entries : Table IndexEntry) (next : BlobClient) (blob : Bytes) (l : L)
        (u : Uploader S)
        → RoundTrips pb (header b entries)
        → IsReady c rand remote store content base_data b.uploader
        → HoldsOutputs content base_data (base b).outputs (base b).output_size
        → (base b).output_size + total_size b.uploader.outputs < 2 ^ 63
        → ((id : String)
            → (generate_block_id rand b.uploader.world).0 ≡ ok id
            → contains id ((base b).block_ids ++ (built b).new_output_ids) ≡ false)
        → (write_meta_data pb rand entries b).0 ≡ ok tt
        → store.committed (write_meta_data pb rand entries b).1.uploader.world ≡ some blob
        → Buffers next blob
        → Serves next blob
        → length blob < 2 ^ 63
        → 0 < (built b).size
        → NoEmptyChunk f (λ id. local_put id 0) (sort (built b).outputs) l
        → length (built b).outputs ≤ open_file_limit
        → Permᴰ (built b).outputs (sort (built b).outputs)
        → IsSorted (sort (built b).outputs)
        → (d : Downloader) × (new_downloader pb (some next) ≡ ok d)
          × ((meta_data (new_backend u d)).0 ≡ ok entries)
          × Stored fs.file_content decompress content
              (sort (built b).outputs)
              (download_outputs f local_put sort d l).0
    unfolding meta_data new_backend get_entries
    restart-Stored pb entries next blob l u trips ready old fits fresh wrote made buffers serves
          range some_size positive few perm sorted =
        let r =
          write_meta_data-Restarted pb entries next blob trips ready old fits fresh wrote made
            buffers range in
        let d = restarted entries next r.front in
        (
          d,
          r.reads,
          refl,
          download_outputs-Stored f decompress fs local_put makes sort content next r.front r.held d
              l (subst (Serves next) r.joined serves) refl refl r.holds some_size positive few
              (subst (λ k. length k < 2 ^ 63) r.joined range) perm sorted,
        )
