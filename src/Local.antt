-- ===== src/Local.antt =====
-- The disk backend of internal/local/disk.go: files that are written under a lock for each object.
pub mod Locks
pub mod Paths
pub mod Backend
pub mod Interleaved
use Prim.Native.Char.{Char, code}
use Prim.Native.String.{◌++◌ as ◌&◌}
use gocica.Base.{
  ℕ, Bool, true, false, List, [], ◌∷◌, ◌++◌, Option, none, some, String, Bytes, ◌==◌, if◌then◌else◌,
}
use gocica.Base.Int64.{Int64}
use gocica.Base.Go.{Error, wrap, Result, ok, err, Io, pure, raise, wrapped, continue, ◌>>=◌}
use gocica.Base.Table.{Table, lookup, insert}

-- The lock of an object: whether a writer holds it, and its `ok`. A reader holds the lock only inside
-- `get`.
pub record ObjectLocker : Type 0 where
  pub locked : Bool
  pub ok : Bool

-- `F` is the state of the file system.
pub record Disk (F : Type 0) : Type 0 where
  pub root_path : String
  pub object_map : Table ObjectLocker
  pub files : F

-- os.MkdirAll, os.Create and os.File, and filepath.Join.
pub record FileSystem (F : Type 0) : Type 0 where
  pub mkdir_all : String → Io F (Unit {0})
  pub create : String → Io F (Unit {0})
  pub close : String → Io F (Unit {0})
  pub join : String → String → String

-- A call ends, or waits for a lock. A call that waits has no effect until the lock is free, and is
-- made again then; `put` has created its file before it waits.
pub data Step (A S : Type 0) : Type 0 where
  done : A → S → Step A S
  blocked : S → Step A S

pub record WriteCloserWithUnlock : Type 0 where
  pub output_id : String
  pub path : String
  pub unlocked : Bool

module _ {F : Type 0} where
  -- The locker of an object, made when there is none.
  abbrev pub locker : String → Disk F → ObjectLocker
  locker id d = elim (lookup id d.object_map) [
    | some l ↦ l
    | none ↦ record { locked = false; ok = false }
  ]

  abbrev set_locker : String → ObjectLocker → Disk F → Disk F
  set_locker id l d = record d { object_map = insert id l d.object_map }

  -- `unlock`, a sync.OnceFunc
  unfoldable pub unlock : WriteCloserWithUnlock → Disk F → WriteCloserWithUnlock × Disk F
  unlock w d = if w.unlocked then (w, d) else (
    record w { unlocked = true },
    set_locker w.output_id (record { locked = false; ok = true }) d,
  )

-- strings.ReplaceAll(id, "/", "-")
abbrev pub encode_char : Char → Char
encode_char c = if code c == b'/' then "-" else c

unfoldable pub encode_id : String → String
encode_id String.[] = ""
encode_id (String.◌∷◌ c id) = String.◌∷◌ (encode_char c) (encode_id id)

unfoldable pub object_file_path : {F : Type 0} → FileSystem F → String → String → String
unfolding encode_id
object_file_path fs root_path id = fs.join root_path ("o-" & encode_id id)

module _ {F : Type 0} (fs : FileSystem F) where
  unfoldable pub new_disk : String → Io F (Disk F)
  new_disk dir f =
      let (r, f') = fs.mkdir_all dir f in
      (
        elim (wrapped "create root directory" r) [
          | err e ↦ err e
          | ok _ ↦ ok (record { root_path = dir; object_map = []; files = f' })
        ],
        f',
      )

  -- An empty path is a miss.
  abbrev read_object : Option ObjectLocker → String → Disk F → Step String (Disk F)
  read_object none id d = done "" d
  read_object (some l) id d =
      if l.locked
      then blocked d
      else done (if l.ok then object_file_path fs d.root_path id else "") d

  unfoldable pub get : String → Disk F → Step String (Disk F)
  unfolding object_file_path
  get id d = read_object (lookup id d.object_map) id d

  abbrev lock_object : String → ObjectLocker → Disk F → Step (Result WriteCloserWithUnlock) (Disk F)
  lock_object id l d =
      if l.locked
      then blocked (set_locker id l d)
      else done
          (ok (record {
            output_id = id;
            path = object_file_path fs d.root_path id;
            unlocked = false;
          }))
          (set_locker id (record l { locked = true }) d)

  abbrev created :
      String → Result (Unit {0}) → Disk F → Step (Result WriteCloserWithUnlock) (Disk F)
  created id (err e) d = done (err (wrap "create output file" e)) d
  created id (ok _) d = lock_object id (locker id d) d

  unfoldable pub put : String → Int64 → Disk F → Step (Result WriteCloserWithUnlock) (Disk F)
  unfolding object_file_path
  put id size d =
      let (r, files) = fs.create (object_file_path fs d.root_path id) d.files in
      created id r (record d { files = files })

  -- Close: the file is closed, and then, whatever came of it, the lock released.
  unfoldable pub close_writer :
      WriteCloserWithUnlock → Disk F → Result (Unit {0}) × (WriteCloserWithUnlock × Disk F)
  unfolding unlock
  close_writer w d =
      let (r, files) = fs.close w.path d.files in (r, unlock w (record d { files = files }))

-- Disk.Close
unfoldable pub close : {F : Type 0} → Io (Disk F) (Unit {0})
close d = (ok tt, d)
