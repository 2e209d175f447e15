-- ===== src/Local/Locks.antt =====
-- The locks of the disk backend: an object is served when the writer of its file is closed.
use gocica.Base.{
  ◌≡◌, ◌≢◌, refl, ap, ◌∙◌, true, false, Bool-cases, some, String, eq_iff, arith, inl, inr,
}
use gocica.Base.Int64.{Int64}
use gocica.Base.Go.{Error, ok, err, Result-cases}
use gocica.Base.Table.{Table, lookup, insert, lookup-insert}
use gocica.Local.{
  ObjectLocker, Disk, FileSystem, done, blocked, WriteCloserWithUnlock, get, put, locker, unlock,
  close_writer, object_file_path,
}

module _ {F : Type 0} (fs : FileSystem F) where
  lookup_same :
      (id : String) (l : ObjectLocker) (m : Table ObjectLocker) → lookup id (insert id l m) ≡ some l
  lookup_same id l m = lookup-insert id id l m ∙ ground (arith, eq_iff id id)

  -- A put that returns a writer has made the file and taken the lock, which was free.
  pub put_made :
      (id : String) (size : Int64) (d d' : Disk F) (w : WriteCloserWithUnlock)
      → put fs id size d ≡ done (ok w) d'
      → ((fs.create (object_file_path fs d.root_path id) d.files).0 ≡ ok tt)
        × ((locker id d).locked ≡ false)
        × (d' ≡ record {
          root_path = d.root_path;
          object_map = insert id (record (locker id d) { locked = true }) d.object_map;
          files = (fs.create (object_file_path fs d.root_path id) d.files).1;
        })
        × (w ≡ record {
          output_id = id;
          path = object_file_path fs d.root_path id;
          unlocked = false;
        })
  unfolding put
  put_made id size d d' w h =
      elim (Result-cases (fs.create (object_file_path fs d.root_path id) d.files).0) [
        | inr (e, failed) ↦ absurd (cc (rw (failed, put) at h))
        | inl (_, made) ↦ elim (Bool-cases (locker id d).locked) [
          | inl held ↦ absurd (cc (rw held at (rw (made, put) at h)))
          | inr free ↦ let e = rw free at (rw (made, put) at h) in (made, free, cc, cc)
        ]
      ]

  -- A put that fails could not make the file, and has taken no lock.
  pub put_refused :
      (id : String) (size : Int64) (d d' : Disk F) (e : Error)
      → put fs id size d ≡ done (err e) d'
      → (x : Error) × ((fs.create (object_file_path fs d.root_path id) d.files).0 ≡ err x)
        × (d' ≡ record {
          root_path = d.root_path;
          object_map = d.object_map;
          files = (fs.create (object_file_path fs d.root_path id) d.files).1;
        })
  unfolding put
  put_refused id size d d' e h =
      elim (Result-cases (fs.create (object_file_path fs d.root_path id) d.files).0) [
        | inr (x, failed) ↦ let e = rw (failed, put) at h in (x, failed, cc)
        | inl (_, made) ↦ elim (Bool-cases (locker id d).locked) [
          | inl held ↦ absurd (cc (rw held at (rw (made, put) at h)))
          | inr free ↦ absurd (cc (rw free at (rw (made, put) at h)))
        ]
      ]

  -- When a put of an object returns a writer: a get of the object waits, and so does another put whose
  -- file can be made, until the writer is closed; from then on a get gives the path of the file,
  -- whatever the closing of the file came to; and the locker of another object is unchanged.
  pub put-Exclusive :
      (id other : String) (size size' : Int64) (d d' : Disk F) (w : WriteCloserWithUnlock)
      → put fs id size d ≡ done (ok w) d'
      → (fs.create (object_file_path fs d'.root_path id) d'.files).0 ≡ ok tt
      → other ≢ id
      → (get fs id d' ≡ blocked d')
        × ((after : Disk F) × (put fs id size' d' ≡ blocked after))
        × (get fs id (close_writer fs w d').1.1
            ≡ done (object_file_path fs d.root_path id) (close_writer fs w d').1.1)
        × (lookup other d'.object_map ≡ lookup other d.object_map)
  unfolding get put close_writer unlock
  put-Exclusive id other size size' d d' w h made differs =
      let (_, _, same, writer) = put_made id size d d' w h in
      let objects = ap (λ (x : Disk F). x.object_map) same in
      let root = ap (λ (x : Disk F). x.root_path) same in
      let held : ObjectLocker = record (locker id d) { locked = true } in
      let closed : Disk F = record {
        root_path = d'.root_path;
        object_map = insert id (record { locked = false; ok = true }) d'.object_map;
        files = (fs.close (object_file_path fs d.root_path id) d'.files).1;
      } in
      let here : lookup id d'.object_map ≡ some held =
        ap (lookup id) objects ∙ lookup_same id held d.object_map in
      (
        rw (here, get) refl,
        (
          record {
            root_path = d'.root_path;
            object_map = insert id held d'.object_map;
            files = (fs.create (object_file_path fs d'.root_path id) d'.files).1;
          },
          rw (made, put) (rw (here, locker) refl),
        ),
        rw (writer, lookup_same id (record { locked = false; ok = true }) d'.object_map, get)
            (ap (λ r. done (object_file_path fs r id) closed) root),
        ap (lookup other) objects
            ∙ lookup-insert id other held d.object_map
            ∙ ground (arith, eq_iff id other, differs),
      )
