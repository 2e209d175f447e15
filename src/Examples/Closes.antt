-- ===== src/Examples/Closes.antt =====
-- A session that uploads one object, its close, and the start of the next session.
use gocica.Base.{ℕ, ◌+◌, [], ◌∷◌, none}
use gocica.Base.Go.{ok}
use gocica.Remote.Backend.{Backend}
use gocica.Remote.Backend as Core
use gocica.CacheProg.Backend.{LocalBackend, ConbinedBackend, Upload, close}
use gocica.Examples.Storage.{World}
use gocica.Examples.Uploads.{uploader}
use gocica.Examples.Restarts.{downloader, entries}

abbrev local : LocalBackend ℕ
local = record {
  get = λ id n. (ok "", n);
  put = λ id size n. (ok "path", n + 1);
  copy = λ id b n. (ok tt, n);
  close_writer = λ id n. (ok tt, n);
  close = λ n. (ok tt, n);
}

abbrev upload : Upload
upload = record { output_id = "c"; size = 2; body = 4 ∷ 5 ∷ [] }

abbrev session : ConbinedBackend ℕ (Backend World)
session = record {
  local_state = 0;
  remote_state = record { uploader = uploader; downloader = downloader; cancel = none };
  object_map = "c" ∷ [];
  eg = upload ∷ [];
  now_timestamp = 0;
  meta_data_map = [];
  new_meta_data_map = entries;
}
