-- ===== src/Local/Backend/Stored.antt =====
-- A put of the disk, up to the close of its writer.
use gocica.Base.{
  ◌≡◌, ◌≢◌, refl, sym, ap, subst, ◌∙◌, true, false, Bool-cases, Option-cases, [], Option, some,
  String, Bytes, str_eq, eq_iff, arith, inl, inr,
}
use gocica.Base.Int64.{Int64}
use gocica.Base.Go.{Error, wrap, ok, err, Io}
use gocica.Base.Table.{Table, lookup, insert, lookup-insert}
use gocica.Local.{
  ObjectLocker, Disk, FileSystem, WriteCloserWithUnlock, put, locker, unlock, close_writer,
  encode_id, object_file_path,
}
use gocica.Local.Paths.{Without, encode_id-Without, encode_id-injective}
use gocica.Local.Backend.{OpenDisk, disk_backend}
use gocica.Local.Backend.Files.{KeepsFiles, Holds}

module _ {F : Type 0} (fs : FileSystem F) (write : String → Bytes → Io F (Unit {0}))
    (read : F → String → Option Bytes) (content : String → Bytes) where
  abbrev Whole : OpenDisk F → Type 0
  Whole = Holds fs write read content

  module _ (law : KeepsFiles fs write read) where
    pub other_file :
        (root a b : String)
        → Without b'-' a
        → Without b'-' b
        → a ≢ b
        → object_file_path fs root a ≢ object_file_path fs root b
    unfolding object_file_path
    other_file root a b h k differs same = differs (
        encode_id-injective a b h k (
          law.two_files root (encode_id a) (encode_id b) (encode_id-Without a) (encode_id-Without b)
            same))

    -- A put whose file is made, the copy of the object's content into it and the close.
    pub record Stored (id : String) (size : Int64) (s : OpenDisk F) : Type 0 where
      pub path : String
      pub opened : OpenDisk F
      pub full : OpenDisk F
      pub closed : OpenDisk F
      pub puts : (disk_backend fs write).put id size s ≡ (ok path, opened)
      pub copies : (disk_backend fs write).copy id (content id) opened ≡ (ok tt, full)
      pub closes : ((disk_backend fs write).close_writer id full).1 ≡ closed
      pub holds : Whole closed
      pub has_content : read closed.disk.files path ≡ some (content id)

    locker-free : (id : String) (s : OpenDisk F) → Whole s → (locker id s.disk).locked ≡ false
    locker-free id s h = elim (Option-cases (lookup id s.disk.object_map)) [
      | inl e ↦ rw (e, locker) refl
      | inr (l, e) ↦ rw (e, locker) (h id l e).0
    ]

    -- A put whose file cannot be made.
    pub put-failed :
        (id : String) (size : Int64) (s : OpenDisk F) (e : Error)
        → Whole s
        → (fs.create (object_file_path fs s.disk.root_path id) s.disk.files).0 ≡ err e
        → let out = (disk_backend fs write).put id size s in
          (out.0 ≡ err (wrap "create output file" e)) × Whole out.1
    unfolding disk_backend put
    put-failed id size s e h failed =
        let p = object_file_path fs s.disk.root_path id in
        rw failed (
          refl,
          λ other l there.
              let (free, plain_id, holds) = h other l there in
              (
                free,
                plain_id,
                λ served.
                    law.create_failed p (object_file_path fs s.disk.root_path other) s.disk.files e
                      failed
                    ∙ holds served,
              ),
        )

    closed_disk : String → ObjectLocker → OpenDisk F → F → Disk F
    closed_disk id l s files = record {
      root_path = s.disk.root_path;
      object_map = insert id (record { locked = false; ok = true }) (insert id l s.disk.object_map);
      files = files;
    }

    pub lookup_same :
        {V : Type 0} (id : String) (v : V) (m : Table V) → lookup id (insert id v m) ≡ some v
    lookup_same id v m = lookup-insert id id v m ∙ ground (arith, eq_iff id id)

    pub lookup_other :
        {V : Type 0} (id other : String) (v : V) (m : Table V)
        → id ≢ other
        → lookup other (insert id v m) ≡ lookup other m
    lookup_other id other v m differs =
        lookup-insert id other v m ∙ ground (arith, eq_iff id other, differs)

    -- The state behind the close.
    module _ (id : String) (s : OpenDisk F) (h : Whole s) (plain_id : Without b'-' id)
        (made : (fs.create (object_file_path fs s.disk.root_path id) s.disk.files).0 ≡ ok tt) where
      abbrev path_of : String
      path_of = object_file_path fs s.disk.root_path id

      abbrev new_file : F
      new_file = (fs.create path_of s.disk.files).1

      abbrev full_file : F
      full_file = (write path_of (content id) new_file).1

      abbrev closed_file : F
      closed_file = (fs.close path_of full_file).1

      full-content : read closed_file path_of ≡ some (content id)
      full-content =
          law.closed path_of path_of full_file
          ∙ (law.written path_of (content id) [] new_file (law.created path_of s.disk.files made)).1

      kept_file :
          (other : String)
          → Without b'-' other
          → id ≢ other
          → read closed_file (object_file_path fs s.disk.root_path other)
            ≡ read s.disk.files (object_file_path fs s.disk.root_path other)
      kept_file other plain_other differs =
          let p = object_file_path fs s.disk.root_path other in
          let apart = other_file s.disk.root_path id other plain_id plain_other differs in
          law.closed path_of p full_file
          ∙ law.write_others path_of p (content id) new_file apart
          ∙ law.create_others path_of p s.disk.files apart

      closed-Holds :
          (l : ObjectLocker) (writers : Table WriteCloserWithUnlock)
          → Whole (record { disk = closed_disk id l s closed_file; writers = writers })
      unfolding closed_disk
      closed-Holds l writers other m there =
          let served : ObjectLocker = record { locked = false; ok = true } in
          let before_close = insert id l s.disk.object_map in
          elim (Bool-cases (str_eq id other)) [
            | inl e ↦
                let same : id ≡ other = (eq_iff id other).0 e in
                let m_is : m ≡ served = some-injective (
                  sym there
                  ∙ ap (λ k. lookup k (insert id served before_close)) (sym same)
                  ∙ lookup_same id served before_close) in
                (
                  ap (λ (k : ObjectLocker). k.locked) m_is,
                  subst (Without b'-') same plain_id,
                  λ _.
                      subst
                        (λ k.
                          read closed_file (object_file_path fs s.disk.root_path k)
                          ≡ some (content k))
                        same full-content,
                )
            | inr e ↦
                let differs : id ≢ other = λ same. absurd (cc (e, (eq_iff id other).1 same)) in
                let before = h other m (
                  sym (lookup_other id other _ _ differs ∙ lookup_other id other _ _ differs)
                  ∙ there) in
                (before.0, before.1, λ ready. kept_file other before.1 differs ∙ before.2 ready)
          ]
        where
          some-injective : {A : Type 0} {a b : A} → some a ≡ some b → a ≡ b
          some-injective e = cc e

      pub put-Stored : (size : Int64) → Stored id size s
      unfolding disk_backend put close_writer unlock closed_disk
      put-Stored size =
          let l : ObjectLocker = record (locker id s.disk) { locked = true } in
          let w : WriteCloserWithUnlock = record {
            output_id = id;
            path = path_of;
            unlocked = false;
          } in
          let disk : Disk F = record {
            root_path = s.disk.root_path;
            object_map = insert id l s.disk.object_map;
            files = new_file;
          } in
          let writers = insert id w s.writers in
          let full : OpenDisk F = record {
            disk = record disk { files = full_file };
            writers = writers;
          } in
          let closed_writers = insert id (record w { unlocked = true }) writers in
          record {
            path = path_of;
            opened = record { disk = disk; writers = writers };
            full = full;
            closed = record { disk = closed_disk id l s closed_file; writers = closed_writers };
            puts = rw made (rw (locker-free id s h) refl);
            copies = rw (lookup_same id w s.writers) (
                ap (λ r. (r, full))
                  (law.written path_of (content id) [] new_file
                    (law.created path_of s.disk.files made)).0);
            closes = rw (lookup_same id w s.writers) refl;
            holds = closed-Holds l closed_writers;
            has_content = full-content;
          }
