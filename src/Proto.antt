-- ===== src/Proto.antt =====
-- The messages of proto/gocica/v1: the header of the remote blob, and the index of the cache.
use gocica.Base.{ℕ, List, String}
use gocica.Base.Int64.{Int64}
use gocica.Base.Table.{Table}

-- An enum of proto3 is open: a number that no name stands for is kept.
pub data Compression : Type 0 where
  unspecified zstd : Compression
  unrecognized : ℕ → Compression

pub record ActionsOutput : Type 0 where
  pub offset : Int64
  pub size : Int64
  pub compression : Compression
  pub id : String

-- A timestamp is an instant in nanoseconds.
pub record IndexEntry : Type 0 where
  pub output_id : String
  pub size : Int64
  pub timenano : Int64
  pub last_used_at : ℕ

pub record ActionsCache : Type 0 where
  pub entries : Table IndexEntry
  pub outputs : List ActionsOutput
  pub output_total_size : Int64
