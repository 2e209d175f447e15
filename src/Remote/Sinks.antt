-- ===== src/Remote/Sinks.antt =====
-- The writers of `DownloadAllOutputBlocks` in internal/remote/core/download.go: a local file, or a
-- decompressing writer in front of one.
use gocica.Base.{Bytes, Option}
use gocica.Base.Go.{Error}
use gocica.Proto.{Compression, unspecified, zstd, unrecognized}
use gocica.PkgIo.JoinedWriter.{Written, WriteCloser}

-- The writers of the local files, and zstd.NewDecompressWriter over one of them. `inner` is the file
-- behind a decompressing writer.
pub record Files (W Z : Type 0) : Type 0 where
  pub file : WriteCloser W
  pub inflater : WriteCloser Z
  pub new_decompress_writer : W → Z
  pub inner : Z → W

pub data Sink (W Z : Type 0) : Type 0 where
  raw : W → Sink W Z
  inflate : Z → Sink W Z

module _ {W Z : Type 0} where
  abbrev pub on_raw : Written W → Written (Sink W Z)
  on_raw out = record { writer = raw out.writer; n = out.n; failure = out.failure }

  abbrev pub on_inflate : Written Z → Written (Sink W Z)
  on_inflate out = record { writer = inflate out.writer; n = out.n; failure = out.failure }

  abbrev write_sink : Files W Z → Sink W Z → Bytes → Written (Sink W Z)
  write_sink f (raw w) p = on_raw (f.file.write w p)
  write_sink f (inflate z) p = on_inflate (f.inflater.write z p)

  abbrev close_sink : Files W Z → Sink W Z → Sink W Z × Option Error
  close_sink f (raw w) = let (w', e) = f.file.close w in (raw w', e)
  close_sink f (inflate z) = let (z', e) = f.inflater.close z in (inflate z', e)

  abbrev pub sink_io : Files W Z → WriteCloser (Sink W Z)
  sink_io f = record { write = write_sink f; close = close_sink f }

  -- `switch output.Compression`
  unfoldable pub new_sink : Files W Z → Compression → W → Sink W Z
  new_sink f zstd w = inflate (f.new_decompress_writer w)
  new_sink f unspecified w = raw w
  new_sink f (unrecognized n) w = raw w

  -- The close functions of one output, in the order in which the deferred loop calls them. Their
  -- errors are only logged.
  unfoldable pub close_output : Files W Z → Sink W Z → W
  close_output f (raw w) = (f.file.close w).0
  close_output f (inflate z) = (f.file.close (f.inner (f.inflater.close z).0)).0
