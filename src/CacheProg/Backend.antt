-- ===== src/CacheProg/Backend.antt =====
-- The combined backend of internal/cacheprog/backend.go: the index of the cache, over a local and a
-- remote backend.
pub mod Index
pub mod Session
pub mod Closing
use gocica.Base.{
  ℕ, ◌+◌, ltb, Bool, true, false, List, [], ◌∷◌, ◌++◌, map, Option, none, some, String, Bytes,
  str_eq, ◌==◌, if◌then◌else◌,
}
use gocica.Base.Int64.{Int64}
use gocica.Base.Go.{
  Error, panic, wrap, Result, ok, err, wrapped, Io, pure, raise, lift, within, continue, ◌>>=◌,
  ◌>>◌, wait_all,
}
use gocica.Base.Table.{Table, lookup, insert, contains}
use gocica.Proto.{IndexEntry}
use gocica.CacheProg.{MetaData, Found, Service}

-- local.Backend. `put` makes the file and takes its lock; `copy` is io.Copy into its writer; `close` is
-- the writer's Close. An empty path is a miss.
pub record LocalBackend (L : Type 0) : Type 0 where
  pub get : String → Io L String
  pub put : String → Int64 → Io L String
  pub copy : String → Bytes → Io L (Unit {0})
  pub close_writer : String → Io L (Unit {0})
  pub close : Io L (Unit {0})

-- remote.Backend
pub record RemoteBackend (R : Type 0) : Type 0 where
  pub meta_data : Io R (Table IndexEntry)
  pub write_meta_data : Table IndexEntry → Io R (Unit {0})
  pub put : String → Int64 → Bytes → Io R (Unit {0})
  pub close : Io R (Unit {0})

-- The upload of an object, which runs in a goroutine of `eg`. Nothing but `close` reads what it
-- writes, and `close` waits for it.
pub record Upload : Type 0 where
  pub output_id : String
  pub size : Int64
  pub body : Bytes

pub record ConbinedBackend (L R : Type 0) : Type 0 where
  pub local_state : L
  pub remote_state : R
  pub object_map : List String
  pub eg : List Upload
  pub now_timestamp : ℕ
  pub meta_data_map : Table IndexEntry
  pub new_meta_data_map : Table IndexEntry

abbrev pub week : ℕ
week = 604800000000000

-- `LastUsedAt.AsTime().After(time.Now().Add(-time.Hour * 24 * 7))`, written without the subtraction.
abbrev pub recent : ℕ → IndexEntry → Bool
recent now e = ltb now (e.last_used_at + week)

unfoldable pub recent_entries : ℕ → Table IndexEntry → Table IndexEntry
recent_entries now [] = []
recent_entries now ((k, e) ∷ m) =
    let rest = recent_entries now m in if recent now e then (k, e) ∷ rest else rest

-- Remote entries that cannot be read are ignored.
abbrev pub entries_or_none : Result (Table IndexEntry) → Table IndexEntry
entries_or_none (ok m) = m
entries_or_none (err e) = []

abbrev meta_of : IndexEntry → MetaData
meta_of e = record { output_id = e.output_id; size = e.size; timenano = e.timenano }

-- The readers: an empty one for size 0, and `body.Clone()` panics when there is no body. The panic ends
-- the process; it is an error here, and what a model does after it is nothing that the program does.
abbrev pub reader : Int64 → Option Bytes → Result Bytes
reader size body = if size == 0 then ok [] else elim body [
  | none ↦ err (panic "invalid memory address or nil pointer dereference")
  | some b ↦ ok b
]

module _ {L R : Type 0} where
  abbrev pub indexed : ℕ → Table IndexEntry → L → R → ConbinedBackend L R
  indexed now m l r = record {
    local_state = l;
    remote_state = r;
    object_map = map (λ e. e.1.output_id) m;
    eg = [];
    now_timestamp = now;
    meta_data_map = m;
    new_meta_data_map = recent_entries now m;
  }

  -- A hit marks the entry as used. The two maps share the entry.
  abbrev pub touch : String → IndexEntry → ConbinedBackend L R → ConbinedBackend L R
  touch action_id e cb =
      let used = record e { last_used_at = cb.now_timestamp } in
      record cb {
        meta_data_map = insert action_id used cb.meta_data_map;
        new_meta_data_map = insert action_id used cb.new_meta_data_map;
      }

  abbrev pub found_local : String → IndexEntry → String → Io (ConbinedBackend L R) Found
  found_local action_id e path cb =
      if str_eq path ""
      then (ok (record { disk_path = ""; meta_data = none }), cb)
      else (ok (record { disk_path = path; meta_data = some (meta_of e) }), touch action_id e cb)

  abbrev pub record_entry : String → IndexEntry → ConbinedBackend L R → ConbinedBackend L R
  record_entry action_id e cb = record cb {
    new_meta_data_map = insert action_id e cb.new_meta_data_map;
  }

  abbrev pub record_object : String → ConbinedBackend L R → ConbinedBackend L R
  record_object output_id cb =
      if contains output_id cb.object_map
      then cb
      else record cb { object_map = output_id ∷ cb.object_map }

  abbrev go : Upload → ConbinedBackend L R → ConbinedBackend L R
  go u cb = record cb { eg = cb.eg ++ u ∷ [] }

module _ {L R : Type 0} (local : LocalBackend L) (remote : RemoteBackend R) where
  abbrev pub on_local : {A : Type 0} → Io L A → Io (ConbinedBackend L R) A
  on_local m cb = let (r, l) = m cb.local_state in (r, record cb { local_state = l })

  abbrev pub on_remote : {A : Type 0} → Io R A → Io (ConbinedBackend L R) A
  on_remote m cb = let (r, s) = m cb.remote_state in (r, record cb { remote_state = s })

  -- NewConbinedBackend and `start`; both read the clock, and get the same time here.
  unfoldable pub new_conbined_backend : ℕ → L → R → ConbinedBackend L R
  unfolding recent_entries
  new_conbined_backend now l r =
      let (m, r') = remote.meta_data r in indexed now (entries_or_none m) l r'

  unfoldable pub get : String → Io (ConbinedBackend L R) Found
  get action_id cb = elim (lookup action_id cb.meta_data_map) [
    | none ↦ (ok (record { disk_path = ""; meta_data = none }), cb)
    | some e ↦
        (within "get local cache" (on_local (local.get e.output_id)) >>= found_local action_id e) cb
  ]

  -- `io.Copy`, and the deferred Close, whose error is dropped.
  abbrev fill : String → String → Bytes → Io (ConbinedBackend L R) String
  fill output_id path contents cb =
      let (r, cb1) = on_local (local.copy output_id contents) cb in
      let (_, cb2) = on_local (local.close_writer output_id) cb1 in
      (elim (wrapped "copy" r) [ ok _ ↦ ok path | err e ↦ err e ], cb2)

  unfoldable pub upload_and_write : String → Int64 → Option Bytes → Io (ConbinedBackend L R) String
  upload_and_write output_id size body = do
    contents ← lift (reader size body)
    _ ← λ cb. (ok tt, go (record { output_id = output_id; size = size; body = contents }) cb)
    path ← within "put" (on_local (local.put output_id size))
    fill output_id path contents

  -- An object that was there before, and whose file is there, is not stored again.
  unfoldable pub store_object :
      Bool → String → Int64 → Option Bytes → Io (ConbinedBackend L R) String
  unfolding upload_and_write
  store_object known output_id size body =
      let store = upload_and_write output_id size body in
      if known
      then (within "get local cache" (on_local (local.get output_id)) >>= λ path.
          if str_eq path "" then store else pure path)
      else store

  -- `timenano` is the clock's time.
  unfoldable pub put :
      Int64 → String → String → Int64 → Option Bytes → Io (ConbinedBackend L R) String
  unfolding store_object
  put timenano action_id output_id size body cb =
      let e : IndexEntry = record {
        output_id = output_id;
        size = size;
        timenano = timenano;
        last_used_at = cb.now_timestamp;
      } in
      store_object (contains output_id cb.object_map) output_id size body
        (record_object output_id (record_entry action_id e cb))

  abbrev pub upload_task : Upload → Io R (Unit {0})
  upload_task u = within "put remote cache" (remote.put u.output_id u.size u.body)

  -- `schedule` is the order in which the uploads run.
  unfoldable pub close : (List Upload → List Upload) → Io (ConbinedBackend L R) (Unit {0})
  close schedule cb =
      (within "wait for all tasks" (on_remote (wait_all (map upload_task (schedule cb.eg))))
          >> within "write remote metadata"
              (on_remote (remote.write_meta_data cb.new_meta_data_map))
          >> within "close remote backend" (on_remote remote.close)
          >> within "close backend" (on_local local.close))
        cb
