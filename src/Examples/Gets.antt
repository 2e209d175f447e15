-- ===== src/Examples/Gets.antt =====
-- A get of an object whose file is there, and messages at a level.
use gocica.Base.{ℕ, ◌≡◌, ◌++◌, ◌+◌, [], ◌∷◌, none, if◌then◌else◌, str_eq}
use gocica.Base.Go.{ok}
use gocica.Proto.{IndexEntry}
use gocica.Protocol.{Request, empty_response}
use gocica.CacheProg.{CacheProg, get}
use gocica.CacheProg.Backend.{LocalBackend, RemoteBackend, ConbinedBackend}
use gocica.Base.Table.{lookup}
use gocica.Log.{set_log_level}
use gocica.Log.Levels.{
  on_info, on_error, log_all, levels, known_or_info, warning, lines_up_to, set_log_level-lines,
}
use gocica.Startup.{conbined_service}
use gocica.Startup.Gets.{Answered, get-Answered}

-- A local backend that has the file of one object.
abbrev local : LocalBackend ℕ
local = record {
  get = λ id n. (ok (if str_eq id "o" then "/cache/o-o" else ""), n);
  put = λ id size n. (ok "path", n + 1);
  copy = λ id b n. (ok tt, n);
  close_writer = λ id n. (ok tt, n);
  close = λ n. (ok tt, n);
}

abbrev entry : IndexEntry
entry = record { output_id = "o"; size = 3; timenano = 5; last_used_at = 1000 }

abbrev remote : RemoteBackend ℕ
remote = record {
  meta_data = λ n. (ok (("a", entry) ∷ []), n);
  write_meta_data = λ m n. (ok tt, n);
  put = λ id size b n. (ok tt, n + 1);
  close = λ n. (ok tt, n);
}

abbrev cache_prog : CacheProg (ConbinedBackend ℕ ℕ)
cache_prog = record {
  backend = record {
    local_state = 0;
    remote_state = 0;
    object_map = "o" ∷ [];
    eg = [];
    now_timestamp = 2000;
    meta_data_map = ("a", entry) ∷ [];
    new_meta_data_map = ("a", entry) ∷ [];
  };
  hit_count = 4;
  miss_count = 1;
  put_count = 0;
}

abbrev request : Request
request = record {
  id = 7;
  command = "get";
  action_id = "a";
  output_id = "";
  body_size = 0;
  body = none;
}

get-Answered_example :
    Answered local request cache_prog
      (get (conbined_service local remote 9 (λ us. us)) request empty_response cache_prog)
get-Answered_example = get-Answered local remote 9 (λ us. us) request cache_prog

set_log_level-lines_example :
    log_all
      (set_log_level "warn" []).0
      (on_info "hit" ∷ on_error "lost" ∷ [])
      (set_log_level "warn" []).1
    ≡ ([] ++ warning "warn" (lookup "warn" levels))
      ++ lines_up_to (known_or_info (lookup "warn" levels)) (on_info "hit" ∷ on_error "lost" ∷ [])
set_log_level-lines_example = set_log_level-lines "warn" (on_info "hit" ∷ on_error "lost" ∷ []) []
