-- ===== src/Local/Interleaved/Kept.antt =====
-- What the calls on one object leave of the others.
use gocica.Base.{
  ◌≡◌, ◌≢◌, refl, sym, ap, subst, ◌∙◌, true, false, Bool-cases, inl, inr, ◌++◌, Option, none, some,
  String, Bytes, str_eq, eq_iff,
}
use gocica.Base.Go.{Io}
use gocica.Base.Table.{lookup}
use gocica.Local.{ObjectLocker, Disk, FileSystem, object_file_path}
use gocica.Local.Paths.{Without}
use gocica.Local.Backend.Files.{KeepsFiles}
use gocica.Local.Interleaved.{Writing, Writers, with_writer, Served, Quiet}

pub some-injective : {A : Type 0} {a b : A} → some a ≡ some b → a ≡ b
some-injective e = cc e

module _ {F : Type 0} (fs : FileSystem F) (write : String → Bytes → Io F (Unit {0}))
    (read : F → String → Option Bytes) (content : String → Bytes) where
  abbrev pub path_of : Disk F → String → String
  path_of d id = object_file_path fs d.root_path id

  -- An open writer holds the lock of its object, and its file has what was written so far.
  abbrev pub IsOpen : Disk F → String → Writing → Type 0
  IsOpen d id x =
      (x.closer ≡ record { output_id = id; path = path_of d id; unlocked = false })
      × Without b'-' id
      × ((l : ObjectLocker) × (lookup id d.object_map ≡ some l) × (l.locked ≡ true))
      × ((c : Bytes) × (read d.files (path_of d id) ≡ some c) × (c ++ x.left ≡ content id))

  abbrev pub IsObject : Disk F → Writers → String → ObjectLocker → Type 0
  IsObject d ws id l =
      Without b'-' id
      × Served fs write read content d l id
      × (l.locked ≡ true → (x : Writing) × (ws id ≡ some x))

  pub record Good (d : Disk F) (ws : Writers) : Type 0 where
    pub objects :
        (id : String) (l : ObjectLocker) → lookup id d.object_map ≡ some l → IsObject d ws id l
    pub writers : (id : String) (x : Writing) → ws id ≡ some x → IsOpen d id x

  -- A map of writers after a change.
  at-with_writer :
      {B : Type 0} (id j : String) (x : Option Writing) (ws : Writers)
      → (id ≡ j → with_writer id x ws j ≡ x → B)
      → (id ≢ j → with_writer id x ws j ≡ ws j → B)
      → B
  at-with_writer id j x ws here other = elim (Bool-cases (str_eq id j)) [
    | inl e ↦ here ((eq_iff id j).0 e) (rw e refl)
    | inr e ↦ other (λ same. absurd (cc (e, (eq_iff id j).1 same))) (rw e refl)
  ]

  module _ (law : KeepsFiles fs write read) where
    -- What a change of the file of one object leaves of another.
    pub kept-IsObject :
        (d d' : Disk F) (ws ws' : Writers) (j : String) (l : ObjectLocker)
        → ws' j ≡ ws j
        → read d'.files (path_of d' j) ≡ read d.files (path_of d j)
        → IsObject d ws j l
        → IsObject d' ws' j l
    kept-IsObject d d' ws ws' j l same file (plain_id, served, held) = (
      plain_id,
      λ free ready. file ∙ served free ready,
      λ locked. let (x, e) = held locked in (x, same ∙ e),
    )

    pub kept-IsOpen :
        (d d' : Disk F) (j : String) (x : Writing)
        → d'.root_path ≡ d.root_path
        → lookup j d'.object_map ≡ lookup j d.object_map
        → read d'.files (path_of d' j) ≡ read d.files (path_of d j)
        → IsOpen d j x
        → IsOpen d' j x
    kept-IsOpen d d' j x root locks file (closer, plain_id, (l, there, locked), (c, has, all)) = (
      closer
          ∙ ap (λ r. record { output_id = j; path = object_file_path fs r j; unlocked = false })
              (sym root),
      plain_id,
      (l, locks ∙ there, locked),
      (c, file ∙ has, all),
    )

    pub begun-Good : (d : Disk F) → Quiet fs write read content d → Good d (λ id. none)
    begun-Good d quiet = record {
      objects = λ id l there.
          let (free, plain_id, served) = quiet id l there in
          (plain_id, served, λ locked. absurd (cc (free, locked)));
      writers = λ id x h. absurd (cc h);
    }

    -- The object and the writer of another id are kept when a call changes the file of one.
    module _ (d d1 : Disk F) (ws : Writers) (id : String) (x : Option Writing) (l : ObjectLocker)
        (good : Good d ws) (root : d1.root_path ≡ d.root_path)
        (others : (j : String)
          → Without b'-' j
          → id ≢ j
          → read d1.files (path_of d1 j) ≡ read d.files (path_of d j))
        (locks : (j : String) → id ≢ j → lookup j d1.object_map ≡ lookup j d.object_map)
        (here : lookup id d1.object_map ≡ some l) (object : IsObject d1 (with_writer id x ws) id l)
        (writer : (y : Writing) → x ≡ some y → IsOpen d1 id y) where
      pub changed-Good : Good d1 (with_writer id x ws)
      changed-Good = record {
        objects = λ j m there.
            at-with_writer id j x ws
              (λ same _.
                let m_is : l ≡ m =
                  some-injective (sym here ∙ ap (λ k. lookup k d1.object_map) same ∙ there) in
                subst (λ k. IsObject d1 (with_writer id x ws) k m) same
                  (subst (IsObject d1 (with_writer id x ws) id) m_is object))
              (λ differs e.
                let before = good.objects j m (sym (locks j differs) ∙ there) in
                kept-IsObject d d1 ws (with_writer id x ws) j m e (others j before.0 differs)
                  before);
        writers = λ j y h.
            at-with_writer id j x ws
              (λ same e. subst (λ k. IsOpen d1 k y) same (writer y (sym e ∙ h)))
              (λ differs e.
                let before = good.writers j y (sym e ∙ h) in
                kept-IsOpen d d1 j y root (locks j differs) (others j before.1 differs) before);
      }
