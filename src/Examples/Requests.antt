-- ===== src/Examples/Requests.antt =====
-- A process that counts its closes, a cache with one entry, and a disk.
use mathlib.Core.List.{Permᴰ}
use mathlib.Core.List.Permᴰ
use gocica.Base.{
  ℕ, ◌+◌, ◌≡◌, ◌≢◌, refl, ap, sym, true, false, List, [], ◌∷◌, map, String, Option, none, some,
  str_eq, eq_iff, if◌then◌else◌,
}
use gocica.Base.Go.{Result, ok, err, eof}
use gocica.Base.Table.{lookup, insert}
use gocica.Proto.{IndexEntry}
use gocica.Log.{default_logger}
use gocica.Protocol.{Request, Response}
use gocica.Protocol.Process.{Handler, Once, Process, Source, close_once, decode_worker, run}
use gocica.Protocol.Process.Answers.{run-ids, run-closes_once}
use gocica.CacheProg.Backend.{
  LocalBackend, RemoteBackend, ConbinedBackend, new_conbined_backend, put,
}
use gocica.CacheProg.Backend.Index.{IsIndexed, entry_of, put-entries}
use gocica.CacheProg.Backend.Session.{begun, stored, Reached-IsIndexed}
use gocica.Local.{Disk, FileSystem, Step, done, blocked, WriteCloserWithUnlock}
use gocica.Local.Locks.{put-Exclusive}
use gocica.Local
use Prim.Native.String.{◌++◌ as ◌&◌}

-- The input is a list of requests; a segment that is begun is the current one.
record Input : Type 0 where
  current : Option Request
  rest : List Request

abbrev next_segment : Input → Result (Unit {0}) × Input
next_segment r = elim r.rest [
  | [] ↦ (err eof, r)
  | req ∷ reqs ↦ (ok tt, record { current = some req; rest = reqs })
]

abbrev decode_segment : Input → Result Request × Input
decode_segment r = (elim r.current [ none ↦ err eof | some req ↦ ok req ], r)

abbrev source : Source Input
source = record { next = next_segment; decode = decode_segment; read_body = λ r. (([], none), r) }

abbrev pub request : ℕ → String → Request
request id command = record {
  id = id;
  command = command;
  action_id = "a";
  output_id = "o";
  body_size = 0;
  body = none;
}

-- Three requests: a get, and close twice.
abbrev input : Input
input = record {
  current = none;
  rest = request 1 "get" ∷ request 2 "close" ∷ request 3 "close" ∷ [];
}

-- The get handler finds nothing, and the close handler counts.
abbrev pub miss : Handler ℕ
miss req res n = ((record res { miss = true }, ok tt), n)

abbrev pub count_close : ℕ → Result (Unit {0}) × ℕ
count_close n = (ok tt, n + 1)

abbrev pub process : Process ℕ
process = record {
  get_handler = some miss;
  put_handler = none;
  close_handler = some (close_once count_close);
  logger = default_logger;
  response_buffer_size = 100;
  debug_stdin_leak_file = "";
}

abbrev pub open_process : Once ℕ
open_process = record { state = 0; closed = false }

miss_keeps :
    (g : Handler ℕ) (req : Request) (res : Response) (n : ℕ)
    → (process.get_handler ≡ some g → (g req res n).1 ≡ n)
      × (process.put_handler ≡ some g → (g req res n).1 ≡ n)
miss_keeps g req res n = (λ h. sym (ap after h), λ h. absurd cc)
  where
    after : Option (Handler ℕ) → ℕ
    after none = n
    after (some k) = (k req res n).1

run-closes_once_example : (run source (λ reqs. reqs) 4 process input open_process).1.state ≡ 1
run-closes_once_example =
    run-closes_once process count_close (λ n. n) refl (λ n. refl) miss_keeps source (λ reqs. reqs) 4
      input open_process refl

run-ids_example :
    Permᴰ
      (0 ∷ map (λ req. req.id) (decode_worker source 4 input).started)
      (map (λ res. res.id) (run source (λ reqs. reqs) 4 process input open_process).0.0)
run-ids_example =
    run-ids source (λ reqs. reqs) 4 process input open_process (λ reqs. Permᴰ.refl reqs)

-- A local backend that has no files, and a remote one with one entry.
abbrev local : LocalBackend ℕ
local = record {
  get = λ id n. (ok "", n);
  put = λ id size n. (ok "path", n + 1);
  copy = λ id b n. (ok tt, n);
  close_writer = λ id n. (ok tt, n);
  close = λ n. (ok tt, n);
}

abbrev entry : IndexEntry
entry = record { output_id = "o"; size = 3; timenano = 5; last_used_at = 1000 }

abbrev remote : RemoteBackend ℕ
remote = record {
  meta_data = λ n. (ok (("a", entry) ∷ []), n);
  write_meta_data = λ m n. (ok tt, n);
  put = λ id size b n. (ok tt, n + 1);
  close = λ n. (ok tt, n);
}

Reached-IsIndexed_example :
    IsIndexed
      (put local remote 7 "b" "p" 2
        (some (1 ∷ 2 ∷ []))
        (new_conbined_backend local remote 2000 0 0)).1
Reached-IsIndexed_example =
    Reached-IsIndexed local remote
      (put local remote 7 "b" "p" 2 (some (1 ∷ 2 ∷ []))
        (new_conbined_backend local remote 2000 0 0)).1
      (stored (new_conbined_backend local remote 2000 0 0) 7 "b" "p" 2 (some (1 ∷ 2 ∷ []))
        (begun 2000 0 0))

abbrev backend : ConbinedBackend ℕ ℕ
backend = record {
  local_state = 0;
  remote_state = 0;
  object_map = "o" ∷ [];
  eg = [];
  now_timestamp = 2000;
  meta_data_map = ("a", entry) ∷ [];
  new_meta_data_map = ("a", entry) ∷ [];
}

put-entries_example :
    ((k : String)
      → lookup k (put local remote 7 "b" "p" 2 (some (1 ∷ 2 ∷ [])) backend).1.new_meta_data_map ≡ (
          if str_eq "b" k
          then some (entry_of 7 "p" 2 backend)
          else lookup k backend.new_meta_data_map))
    × ((put local remote 7 "b" "p" 2 (some (1 ∷ 2 ∷ [])) backend).1.meta_data_map
        ≡ backend.meta_data_map)
put-entries_example = put-entries local remote 7 "b" "p" 2 (some (1 ∷ 2 ∷ [])) backend

-- A disk on which every file can be made and no object is known.
abbrev file_system : FileSystem ℕ
file_system = record {
  mkdir_all = λ dir n. (ok tt, n);
  create = λ path n. (ok tt, n + 1);
  close = λ path n. (ok tt, n);
  join = λ root name. root & "/" & name;
}

abbrev empty_disk : Disk ℕ
empty_disk = record { root_path = "/cache"; object_map = []; files = 0 }

abbrev writing_disk : Disk ℕ
writing_disk = record {
  root_path = "/cache";
  object_map = ("o", record { locked = true; ok = false }) ∷ [];
  files = 1;
}

abbrev writer : WriteCloserWithUnlock
writer = record { output_id = "o"; path = "/cache/o-o"; unlocked = false }

made : gocica.Local.put file_system "o" 3 empty_disk ≡ done (ok writer) writing_disk
unfolding gocica.Local.put gocica.Local.object_file_path lookup insert
made = refl

other_id : ◌≢◌ {A = String} "p" "o"
other_id h = let same : str_eq "p" "o" ≡ true = (eq_iff "p" "o").1 h in cc

put-Exclusive_example :
    (gocica.Local.get file_system "o" writing_disk ≡ blocked writing_disk)
    × ((after : Disk ℕ) × (gocica.Local.put file_system "o" 4 writing_disk ≡ blocked after))
    × (gocica.Local.get file_system "o"
          (gocica.Local.close_writer file_system writer writing_disk).1.1
        ≡ done
            (gocica.Local.object_file_path file_system "/cache" "o")
            (gocica.Local.close_writer file_system writer writing_disk).1.1)
    × (lookup "p" writing_disk.object_map ≡ lookup "p" empty_disk.object_map)
put-Exclusive_example =
    put-Exclusive file_system "o" "p" 3 4 empty_disk writing_disk writer made refl other_id
