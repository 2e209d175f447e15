-- ===== src/Examples/Files.antt =====
-- Files and decompressing writers in memory, and a blob that is read from memory.
use gocica.Base.{
  ◌^◌, ◌<◌, refl, [], ◌∷◌, ◌++◌, append-nil, none, Bytes, arith, length, slice, length-slice,
}
use gocica.Base.Go.{ok}
use gocica.PkgIo.JoinedWriter.{WriteCloser}
use gocica.PkgIo.JoinedWriter.Rounds.{IsReliable}
use gocica.Remote.Download.{BlobClient}
use gocica.Remote.Sinks.{Files}
use gocica.Remote.DownloadAll.Deliver.{Serves, IsFileSystem}

abbrev pub memory : WriteCloser Bytes
memory = record {
  write = λ w p. record { writer = w ++ p; n = length p; failure = none };
  close = λ w. (w, none);
}

pub memory-IsReliable : IsReliable memory (λ w. w)
memory-IsReliable = record {
  write_n = λ w p. refl;
  write_failure = λ w p. refl;
  write_content = λ w p. refl;
  close_failure = λ w. refl;
  close_content = λ w. refl;
}

-- What the file held, and what the writer has received.
pub record Unpacker : Type 0 where
  pub before : Bytes
  pub received : Bytes

abbrev pub unpacking : WriteCloser Unpacker
unpacking = record {
  write = λ z p. record {
    writer = record z { received = z.received ++ p };
    n = length p;
    failure = none;
  };
  close = λ z. (z, none);
}

pub unpacking-IsReliable : IsReliable unpacking (λ z. z.received)
unpacking-IsReliable = record {
  write_n = λ z p. refl;
  write_failure = λ z p. refl;
  write_content = λ z p. refl;
  close_failure = λ z. refl;
  close_content = λ z. refl;
}

-- Every byte stands for two.
abbrev pub unpack : Bytes → Bytes
unpack [] = []
unpack (b ∷ bs) = b ∷ b ∷ unpack bs

abbrev pub files : Files Bytes Unpacker
files = record {
  file = memory;
  inflater = unpacking;
  new_decompress_writer = λ w. record { before = w; received = [] };
  inner = λ z. z.before ++ unpack z.received;
}

abbrev pub files-IsFileSystem : IsFileSystem files unpack
files-IsFileSystem = record {
  file_content = λ w. w;
  received = λ z. z.received;
  base = λ z. z.before;
  file_reliable = memory-IsReliable;
  inflater_reliable = unpacking-IsReliable;
  received_new = λ w. refl;
  base_new = λ w. refl;
  base_write = λ z p. refl;
  base_close = λ z. refl;
  inflates = λ z. refl;
}

abbrev pub blob_client : Bytes → BlobClient
blob_client blob = record {
  url = "https://blob";
  download_stream =
      λ offset size. ok (record { pieces = slice offset size blob ∷ []; failure = none });
  download_buffer = λ offset size. ok (slice offset size blob);
}

pub blob_client-Serves : (blob : Bytes) → length blob < 2 ^ 63 → Serves (blob_client blob) blob
blob_client-Serves blob h = record {
  stream = λ offset size positive fits. (
    record { pieces = slice offset size blob ∷ []; failure = none },
    refl,
    refl,
    append-nil (slice offset size blob),
    (omega (arith, length-slice offset size blob fits), tt),
  );
}
