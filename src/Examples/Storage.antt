-- ===== src/Examples/Storage.antt =====
-- A blob storage in memory, with random bytes that count up.
use gocica.Base.{
  ℕ, ◌+◌, ◌≡◌, refl, Bool-cases, inl, inr, [], ◌∷◌, String, Option, none, some, Bytes, str_eq,
  eq_iff, arith, length, slice, ◌==◌, if◌then◌else◌,
}
use gocica.Base.Go.{ok}
use gocica.Remote.{UploadClient, Random, Protobuf, Zstd}
use gocica.Remote.Blob.{Blocks, gather, Writes, IsBlobStore}

pub record World : Type 0 where
  pub blocks : Blocks
  pub blob : Option Bytes
  pub seed : ℕ

abbrev pub no_blocks : Blocks
no_blocks id = none

abbrev pub empty_world : World
empty_world = record { blocks = no_blocks; blob = none; seed = 0 }

abbrev pub put_block : String → Bytes → Blocks → Blocks
put_block id b blocks j = if str_eq j id then some b else blocks j

-- The old blob: a header of two bytes, and three bytes of outputs.
abbrev pub old_blob : String → Bytes
old_blob url = 9 ∷ 9 ∷ 1 ∷ 2 ∷ 3 ∷ []

abbrev pub client : UploadClient World
client = record {
  upload_block = λ id b w. (ok (length b), record w { blocks = put_block id b w.blocks });
  upload_block_from_url = λ id url offset size w.
      (ok tt, record w { blocks = put_block id (slice offset size (old_blob url)) w.blocks });
  commit = λ ids size w. (ok tt, record w { blob = gather w.blocks ids });
}

abbrev pub encode : Bytes → String
encode [] = "none"
encode (b ∷ bs) = if b == 0 then "block 0" else "block 1"

abbrev pub random : Random World
random = record {
  read = λ n w. (ok (w.seed ∷ []), record w { seed = w.seed + 1 });
  std_encoding = encode;
}

abbrev pub protobuf : Protobuf
protobuf = record {
  marshal = λ cache. ok (7 ∷ 7 ∷ []);
  unmarshal = λ b. ok (record { entries = []; outputs = []; output_total_size = 0 });
}

abbrev pub zstd_writer : Zstd
zstd_writer = record { copy = λ b. ok b; close = λ b. ok b }

pub put_block-Writes :
    (id : String) (b : Bytes) (blocks : Blocks) → Writes blocks (put_block id b blocks) id b
put_block-Writes id b blocks j = elim (Bool-cases (str_eq j id)) [
  | inl e ↦ inr ((eq_iff j id).0 e, rw e refl)
  | inr e ↦ inl (rw e refl)
]

pub put_block_same : (id : String) (b : Bytes) (blocks : Blocks) → put_block id b blocks id ≡ some b
put_block_same id b blocks = ground (arith, eq_iff id id)

abbrev pub store : IsBlobStore client random old_blob
store = record {
  staged = λ w. w.blocks;
  committed = λ w. w.blob;
  upload_block_writes = λ id b w. put_block-Writes id b w.blocks;
  upload_block_ok = λ id b w n h. (cc, put_block_same id b w.blocks);
  upload_url_writes = λ id url offset size w positive. put_block-Writes id _ w.blocks;
  upload_url_ok = λ id url offset size w positive h. put_block_same id _ w.blocks;
  commit_ok = λ ids size w h. refl;
  read_random = λ n w. refl;
}
