-- ===== src/Local/Backend/Files.antt =====
-- What the files of the disk hold.
use gocica.Base.{
  ◌≡◌, ◌≢◌, refl, true, false, Bool-cases, Option-cases, [], ◌++◌, Option, some, String, Bytes, inl,
  inr,
}
use Prim.Native.String.{◌++◌ as ◌&◌}
use gocica.Base.Go.{Error, ok, err, Io}
use gocica.Base.Table.{lookup}
use gocica.Local.{ObjectLocker, FileSystem, get, object_file_path}
use gocica.Local.Paths.{Without}
use gocica.Local.Backend.{OpenDisk, disk_backend}

-- What is relied on of the files: `read` is what a file holds. A new file is empty, a file that cannot be made
-- changes none, a
-- write to a file that is there succeeds and adds to it, and two names in a directory are two files.
pub record KeepsFiles {F : Type 0} (fs : FileSystem F) (write : String → Bytes → Io F (Unit {0}))
    (read : F → String → Option Bytes) : Type 0 where
  pub created :
      (p : String) (f : F) → (fs.create p f).0 ≡ ok tt → read (fs.create p f).1 p ≡ some []
  pub create_failed :
      (p q : String) (f : F) (e : Error)
      → (fs.create p f).0 ≡ err e
      → read (fs.create p f).1 q ≡ read f q
  pub create_others : (p q : String) (f : F) → p ≢ q → read (fs.create p f).1 q ≡ read f q
  pub written :
      (p : String) (b c : Bytes) (f : F)
      → read f p ≡ some c
      → ((write p b f).0 ≡ ok tt) × (read (write p b f).1 p ≡ some (c ++ b))
  pub write_others : (p q : String) (b : Bytes) (f : F) → p ≢ q → read (write p b f).1 q ≡ read f q
  pub closed : (p q : String) (f : F) → read (fs.close p f).1 q ≡ read f q
  pub two_files :
      (root a b : String)
      → Without b'/' a
      → Without b'/' b
      → fs.join root ("o-" & a) ≡ fs.join root ("o-" & b)
      → a ≡ b

module _ {F : Type 0} (fs : FileSystem F) (write : String → Bytes → Io F (Unit {0}))
    (read : F → String → Option Bytes) (content : String → Bytes) where
  -- Nothing is being written, and each object that is served has its content in its file.
  abbrev pub Holds : OpenDisk F → Type 0
  Holds s =
      (id : String) (l : ObjectLocker)
      → lookup id s.disk.object_map ≡ some l
      → (l.locked ≡ false)
        × Without b'-' id
        × (l.ok ≡ true
            → read s.disk.files (object_file_path fs s.disk.root_path id) ≡ some (content id))

  pub get-Holds :
      (id : String) (s : OpenDisk F)
      → Holds s
      → (path : String) × ((disk_backend fs write).get id s ≡ (ok path, s))
        × (path ≢ "" → read s.disk.files path ≡ some (content id))
  unfolding disk_backend get
  get-Holds id s h = elim (Option-cases (lookup id s.disk.object_map)) [
    | inl e ↦ ("", rw e refl, λ some_path. absurd (some_path refl))
    | inr (l, e) ↦
        let (free, plain_id, holds) = h id l e in
        elim (Bool-cases l.ok) [
          | inl served ↦ (
            object_file_path fs s.disk.root_path id,
            rw e (rw (free, served) refl),
            λ _. holds served,
          )
          | inr unserved ↦
              ("", rw e (rw (free, unserved) refl), λ some_path. absurd (some_path refl))
        ]
  ]
