-- ===== src/Remote/Download/Committed.antt =====
-- The header of a committed blob is read back.
use gocica.Base.{
  ℕ, ◌+◌, ◌^◌, ◌≤◌, ◌<◌, ◌≡◌, refl, ap, ◌∙◌, false, [], ◌++◌, Bytes, some, arith, length,
  length-append, slice, slice_middle, le→ltb,
}
use gocica.Base.Int64.{add64-eq, lt64, lt64-eq}
use gocica.Base.Go.{ok}
use gocica.Proto.{ActionsCache}
use gocica.Remote.{Protobuf}
use gocica.Remote.Upload.{put_uint64}
use gocica.Remote.Upload.Header.{uint64, uint64-put_uint64, length-put_uint64}
use gocica.Remote.Download.{
  BlobClient, download_block_buffer, read_body, read_header, new_downloader,
}

-- A range of the blob is read whole into a buffer of its size.
abbrev pub Buffers : BlobClient → Bytes → Type 0
Buffers c blob =
    (offset size : ℕ)
    → offset + size ≤ length blob
    → c.download_buffer offset size ≡ ok (slice offset size blob)

module _ (pb : Protobuf) (c : BlobClient) (cache : ActionsCache) (body held : Bytes)
    (buffers : Buffers c (put_uint64 (length body) ++ (body ++ held)))
    (parses : pb.unmarshal body ≡ ok cache) (fits : 8 + length body < 2 ^ 63) where
  abbrev blob : Bytes
  blob = put_uint64 (length body) ++ (body ++ held)

  blob_length : length blob ≡ 8 + (length body + length held)
  unfolding put_uint64
  blob_length =
      length-append (put_uint64 (length body)) (body ++ held)
      ∙ ap (λ n. length (put_uint64 (length body)) + n) (length-append body held)

  size_read : c.download_buffer 0 8 ≡ ok (put_uint64 (length body))
  size_read =
      buffers 0 8 (omega (arith, blob_length))
      ∙ ap ok (
          slice_middle 0 8 [] (put_uint64 (length body)) (body ++ held) refl
            (length-put_uint64 (length body)))

  body_read : c.download_buffer 8 (length body) ≡ ok body
  body_read =
      buffers 8 (length body) (omega (arith, blob_length))
      ∙ ap ok (
          slice_middle 8 (length body) (put_uint64 (length body)) body held
            (length-put_uint64 (length body)) refl)

  -- A new downloader over a blob that a commit made has the entries and outputs of its header, and the
  -- outputs begin where its header ends. The reads of the blob succeed, protobuf reads the header that
  -- it wrote, and the header is shorter than 2^63 bytes.
  pub new_downloader-Committed :
      new_downloader pb (some c)
      ≡ ok (record { client = some c; header_size = 8 + length body; header = cache })
  unfolding new_downloader read_header read_body download_block_buffer
  new_downloader-Committed =
      let n : uint64 (put_uint64 (length body)) ≡ length body =
        uint64-put_uint64 (length body) (omega arith) in
      let sign : lt64 (length body) 0 ≡ false =
        lt64-eq (length body) 0 (omega arith) (omega arith)
        ∙ le→ltb (length body) 0 (omega arith) in
      rw (size_read)
        (rw (n) (rw (sign, body_read) (rw (parses, add64-eq 8 (length body) (omega arith)) refl)))
