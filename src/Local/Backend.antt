-- ===== src/Local/Backend.antt =====
-- The disk as the local backend of the cache, whose calls come one after the other.
pub mod Files
pub mod Stored
use gocica.Base.{List, [], ◌∷◌, Option, none, some, String, Bytes}
use gocica.Base.Go.{Error, plain, Result, ok, err, Io}
use gocica.Base.Table.{Table, lookup, insert}
use gocica.Local.{
  Disk, FileSystem, Step, done, blocked, WriteCloserWithUnlock, get, put, close_writer, close,
}
use gocica.CacheProg.Backend.{LocalBackend}

-- The disk with the last writer of each object.
pub record OpenDisk (F : Type 0) : Type 0 where
  pub disk : Disk F
  pub writers : Table WriteCloserWithUnlock

-- The error of a call that waits for a lock. In the program such a call does not return before another
-- one lets the lock go; here no other call runs.
abbrev pub waiting : Error
waiting = plain "the call waits for a lock"

-- `write` is io.Copy into an open file: the bytes go behind those that were written before.
module _ {F : Type 0} (fs : FileSystem F) (write : String → Bytes → Io F (Unit {0})) where
  abbrev pub got : OpenDisk F → Step String (Disk F) → Result String × OpenDisk F
  got s (done path d) = (ok path, record s { disk = d })
  got s (blocked d) = (err waiting, record s { disk = d })

  abbrev pub opened :
      String
      → OpenDisk F
      → Step (Result WriteCloserWithUnlock) (Disk F)
      → Result String × OpenDisk F
  opened id s (done (ok w) d) = (ok w.path, record s { disk = d; writers = insert id w s.writers })
  opened id s (done (err e) d) = (err e, record s { disk = d })
  opened id s (blocked d) = (err waiting, record s { disk = d })

  abbrev pub copy_open :
      Bytes → OpenDisk F → Option WriteCloserWithUnlock → Result (Unit {0}) × OpenDisk F
  copy_open b s none = (err (plain "no writer"), s)
  copy_open b s (some w) =
      let (r, files) = write w.path b s.disk.files in
      (r, record s { disk = record s.disk { files = files } })

  abbrev pub close_open :
      String → OpenDisk F → Option WriteCloserWithUnlock → Result (Unit {0}) × OpenDisk F
  close_open id s none = (err (plain "no writer"), s)
  close_open id s (some w) =
      let (r, (w', d)) = close_writer fs w s.disk in
      (r, record s { disk = d; writers = insert id w' s.writers })

  unfoldable pub disk_backend : LocalBackend (OpenDisk F)
  unfolding get put close_writer close
  disk_backend = record {
    get = λ id s. got s (get fs id s.disk);
    put = λ id size s. opened id s (put fs id size s.disk);
    copy = λ id b s. copy_open b s (lookup id s.writers);
    close_writer = λ id s. close_open id s (lookup id s.writers);
    close = λ s. let (r, d) = close s.disk in (r, record s { disk = d });
  }
