-- ===== src/Local/Interleaved.antt =====
-- The disk under several handlers and the background download: the calls of all of them interleave.
pub mod Kept
pub mod Served
use gocica.Base.{
  ◌≡◌, ◌≢◌, refl, sym, ap, subst, ◌∙◌, true, false, Bool-cases, Option-cases, inl, inr, ◌⊎◌, List,
  [], ◌++◌, append-nil, append_assoc, Option, none, some, String, Bytes, str_eq, eq_iff,
  if◌then◌else◌, arith,
}
use gocica.Base.Int64.{Int64}
use gocica.Base.Go.{Error, Result, ok, err, Io}
use gocica.Base.Table.{lookup, insert}
use gocica.Local.{
  ObjectLocker, Disk, FileSystem, Step, done, blocked, WriteCloserWithUnlock, get, put, locker,
  unlock, close_writer, object_file_path,
}
use gocica.Local.Locks.{put_made, put_refused}
use gocica.Local.Paths.{Without}
use gocica.Local.Backend.Files.{KeepsFiles}
use gocica.Local.Backend.Stored.{other_file, lookup_same, lookup_other}

-- A writer that a put returned, with the bytes that are still to be written to it.
pub record Writing : Type 0 where
  pub closer : WriteCloserWithUnlock
  pub left : Bytes

-- The open writers of the objects.
abbrev pub Writers : Type 0
Writers = String → Option Writing

abbrev pub with_writer : String → Option Writing → Writers → Writers
with_writer id x ws j = if str_eq id j then x else ws j

module _ {F : Type 0} (fs : FileSystem F) (write : String → Bytes → Io F (Unit {0}))
    (read : F → String → Option Bytes) (content : String → Bytes) where
  abbrev pub path : Disk F → String → String
  path d id = object_file_path fs d.root_path id

  abbrev Served : Disk F → ObjectLocker → String → Type 0
  Served d l id = l.locked ≡ false → l.ok ≡ true → read d.files (path d id) ≡ some (content id)

  -- No lock is held, and each object that is served has its content in its file.
  abbrev pub Quiet : Disk F → Type 0
  Quiet d =
      (id : String) (l : ObjectLocker)
      → lookup id d.object_map ≡ some l
      → (l.locked ≡ false) × Without b'-' id × Served d l id

  -- The states that the calls of any number of handlers come to, one call at a time and in any order. A
  -- writer gets the content of its object in pieces of any sizes, and is closed behind the last. A put
  -- that would wait is not made: it would empty the file of the open writer before it waits.
  pub data Reached : Disk F → Writers → Type 0 where
    begun : (d : Disk F) → Quiet d → Reached d (λ id. none)
    opened :
        (d d' : Disk F) (ws : Writers) (id : String) (size : Int64) (w : WriteCloserWithUnlock)
        → Without b'-' id
        → put fs id size d ≡ done (ok w) d'
        → Reached d ws
        → Reached d' (with_writer id (some (record { closer = w; left = content id })) ws)
    refused :
        (d d' : Disk F) (ws : Writers) (id : String) (size : Int64) (e : Error)
        → put fs id size d ≡ done (err e) d'
        → Reached d ws
        → Reached d' ws
    written :
        (d : Disk F) (ws : Writers) (id : String) (x : Writing) (b rest : Bytes)
        → ws id ≡ some x
        → x.left ≡ b ++ rest
        → Reached d ws
        → Reached
            (record d { files = (write x.closer.path b d.files).1 })
            (with_writer id (some (record x { left = rest })) ws)
    closed :
        (d : Disk F) (ws : Writers) (id : String) (x : Writing)
        → ws id ≡ some x
        → x.left ≡ []
        → Reached d ws
        → Reached (close_writer fs x.closer d).1.1 (with_writer id none ws)
