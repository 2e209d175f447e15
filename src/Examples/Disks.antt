-- ===== src/Examples/Disks.antt =====
-- A session over a disk whose files are a table.
use gocica.Base.{
  ℕ, ◌≡◌, ◌≢◌, refl, sym, ◌∙◌, inl, inr, [], ◌∷◌, ◌++◌, Option, Option-cases, none, some, String,
  Bytes, str_eq, eq_iff, arith, if◌then◌else◌,
}
use Prim.Native.Char.{Char}
use Prim.Native.String.{◌++◌ as ◌&◌}
use Prim.Native.String.append
use gocica.Base.Go.{plain, ok, err, Io}
use gocica.Base.Table.{Table, lookup, insert, lookup-insert}
use gocica.Proto.{IndexEntry}
use gocica.Local.{FileSystem}
use gocica.Local.Backend.{OpenDisk, disk_backend}
use gocica.Local.Backend.Files.{KeepsFiles, Holds}
use gocica.CacheProg.Backend.{RemoteBackend, ConbinedBackend, new_conbined_backend, get, put}
use gocica.Startup.OnDisk.{IsBody, Got, Put, begun, stored, Reached-contents}

abbrev pub Files : Type 0
Files = Table Bytes

abbrev pub files : FileSystem Files
files = record {
  mkdir_all = λ path f. (ok tt, f);
  create = λ path f. (ok tt, insert path [] f);
  close = λ path f. (ok tt, f);
  join = λ root name. root & name;
}

abbrev appended : Option Bytes → String → Bytes → Io Files (Unit {0})
appended none path b f = (err (plain "no such file"), f)
appended (some c) path b f = (ok tt, insert path (c ++ b) f)

abbrev pub append_to : String → Bytes → Io Files (Unit {0})
append_to path b f = appended (lookup path f) path b f

abbrev pub read : Files → String → Option Bytes
read f path = lookup path f

abbrev pub content : String → Bytes
content id = if str_eq id "a" then 1 ∷ 2 ∷ [] else []

here : (path : String) (b : Bytes) (f : Files) → lookup path (insert path b f) ≡ some b
here path b f = lookup-insert path path b f ∙ ground (arith, eq_iff path path)

elsewhere :
    (path other : String) (b : Bytes) (f : Files)
    → path ≢ other
    → lookup other (insert path b f) ≡ lookup other f
elsewhere path other b f differs =
    lookup-insert path other b f ∙ ground (arith, eq_iff path other, differs)

behind : (c : Char) (a b : String) → String.◌∷◌ c a ≡ String.◌∷◌ c b → a ≡ b
behind c a b h = cc h

cancel : (root a b : String) → root & a ≡ root & b → a ≡ b
cancel String.[] a b h = sym (append.nil a) ∙ h ∙ append.nil b
cancel (String.◌∷◌ c root) a b h =
    cancel root a b
      (behind c (root & a) (root & b) (sym (append.cons c root a) ∙ h ∙ append.cons c root b))

pub files-KeepsFiles : KeepsFiles files append_to read
files-KeepsFiles = record {
  created = λ p f h. here p [] f;
  create_failed = λ p q f e h. absurd (cc h);
  create_others = λ p q f differs. elsewhere p q [] f differs;
  written = λ p b c f h. rw h (refl, here p (c ++ b) f);
  write_others = others;
  closed = λ p q f. refl;
  two_files = λ root a b h k same. cancel "o-" a b (cancel root ("o-" & a) ("o-" & b) same);
}
  where
    others : (p q : String) (b : Bytes) (f : Files) → p ≢ q → read (append_to p b f).1 q ≡ read f q
    others p q b f differs = elim (Option-cases (lookup p f)) [
      | inl e ↦ rw e refl
      | inr (c, e) ↦ rw e (elsewhere p q (c ++ b) f differs)
    ]

abbrev entries : Table IndexEntry
entries = ("old", record { output_id = "a"; size = 2; timenano = 5; last_used_at = 5 }) ∷ []

abbrev remote : RemoteBackend ℕ
remote = record {
  meta_data = λ n. (ok entries, n);
  write_meta_data = λ m n. (ok tt, n);
  put = λ id size b n. (ok tt, n);
  close = λ n. (ok tt, n);
}

abbrev pub empty_disk : OpenDisk Files
empty_disk = record {
  disk = record { root_path = "/cache/"; object_map = []; files = [] };
  writers = [];
}

empty-Holds : Holds files append_to read content empty_disk
unfolding lookup
empty-Holds id l h = absurd (cc h)

a-IsBody : IsBody files append_to read content files-KeepsFiles remote "a" 2 (some (1 ∷ 2 ∷ []))
a-IsBody = ((refl, tt), refl)

abbrev begin : ConbinedBackend (OpenDisk Files) ℕ
begin = new_conbined_backend (disk_backend files append_to) remote 7 empty_disk 0

abbrev session : ConbinedBackend (OpenDisk Files) ℕ
session = (put (disk_backend files append_to) remote 8 "new" "a" 2 (some (1 ∷ 2 ∷ [])) begin).1

Reached-contents_example :
    Got files append_to read content files-KeepsFiles remote "old" session
      (get (disk_backend files append_to) remote "old" session)
    × Put files append_to read content files-KeepsFiles remote "a" session.local_state
        (put (disk_backend files append_to) remote 9 "newer" "a" 2 (some (1 ∷ 2 ∷ [])) session)
Reached-contents_example =
    Reached-contents files append_to read content files-KeepsFiles remote session
      (stored begin 8 "new" "a" 2 (some (1 ∷ 2 ∷ [])) a-IsBody (begun 7 empty_disk 0 empty-Holds))
      "old" 9 "newer" "a" 2 (some (1 ∷ 2 ∷ [])) a-IsBody
