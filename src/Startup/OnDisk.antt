-- ===== src/Startup/OnDisk.antt =====
-- A session over the disk: the combined backend with the disk as its local backend.
use gocica.Base.{
  ℕ, ◌≡◌, ◌≢◌, refl, sym, subst, Bool, true, false, Bool-cases, Option-cases, [], ◌∷◌, ◌++◌, Option,
  none, some, String, Bytes, str_eq, eq_iff, ◌⊎◌, inl, inr,
}
use gocica.Base.Int64.{Int64}
use gocica.Base.Go.{Error, wrap, Result, Result-cases, ok, err, Io}
use gocica.Base.Table.{lookup, contains}
use gocica.Proto.{IndexEntry}
use gocica.Local.{FileSystem, object_file_path}
use gocica.Local.Paths.{Without}
use gocica.Local.Backend.{OpenDisk, disk_backend}
use gocica.Local.Backend.Files.{KeepsFiles, Holds, get-Holds}
use gocica.Local.Backend.Stored.{put-failed, put-Stored}
use gocica.CacheProg.{Found}
use gocica.CacheProg.Backend.{
  LocalBackend, RemoteBackend, ConbinedBackend, new_conbined_backend, get, put, store_object,
  upload_and_write, reader, record_object, record_entry,
}
use gocica.CacheProg.Backend.Index.{entry_of}

-- An object is put, copied and closed in the local backend.
upload_and_write-at :
    {L R : Type 0} (local : LocalBackend L) (remote : RemoteBackend R) (o path : String)
    (size : Int64) (body : Option Bytes) (contents : Bytes) (cb : ConbinedBackend L R) (l1 l2 : L)
    → reader size body ≡ ok contents
    → local.put o size cb.local_state ≡ (ok path, l1)
    → local.copy o contents l1 ≡ (ok tt, l2)
    → upload_and_write local remote o size body cb ≡ (
      ok path,
      record cb {
        local_state = (local.close_writer o l2).1;
        eg = cb.eg ++ record { output_id = o; size = size; body = contents } ∷ [];
      },
    )
unfolding upload_and_write
upload_and_write-at local remote o path size body contents cb l1 l2 same puts copies =
    rw (same, upload_and_write) (rw puts (rw copies refl))

module _ {F R : Type 0} (fs : FileSystem F) (write : String → Bytes → Io F (Unit {0}))
    (read : F → String → Option Bytes) (content : String → Bytes) (law : KeepsFiles fs write read)
    (remote : RemoteBackend R) where
  abbrev State : Type 0
  State = ConbinedBackend (OpenDisk F) R

  -- The body of a put request is the content of its object.
  abbrev pub IsBody : String → Int64 → Option Bytes → Type 0
  IsBody o size body = Without b'-' o × (reader size body ≡ ok (content o))

  abbrev Clean : State → Type 0
  Clean cb = Holds fs write read content cb.local_state

  -- What a file holds after a call.
  abbrev pub held : State → String → Option Bytes
  held cb path = read cb.local_state.disk.files path

  -- The outcome of a put from a state of the disk: the path of a file with the object's content, or
  -- the error of a file that cannot be made.
  abbrev pub Put : String → OpenDisk F → Result String × State → Type 0
  Put o s out =
      ((path : String) × (out.0 ≡ ok path) × (held out.1 path ≡ some (content o)))
      ⊎ ((e : Error) × (out.0 ≡ err (wrap "put" (wrap "create output file" e)))
          × ((fs.create (object_file_path fs s.disk.root_path o) s.disk.files).0 ≡ err e))

  -- The outcome of a get: a miss, or a file with the content of the action's object.
  abbrev pub Got : String → State → Result Found × State → Type 0
  Got action_id cb out =
      (found : Found) × (out.0 ≡ ok found)
      × (found.disk_path ≢ ""
          → (e : IndexEntry) × (lookup action_id cb.meta_data_map ≡ some e)
            × (held out.1 found.disk_path ≡ some (content e.output_id)))

  upload_and_write-Put :
      (o : String) (size : Int64) (body : Option Bytes) (cb : State)
      → Clean cb
      → IsBody o size body
      → let out = upload_and_write (disk_backend fs write) remote o size body cb in
        Clean out.1 × Put o cb.local_state out
  unfolding upload_and_write
  upload_and_write-Put o size body cb clean (plain_id, same) =
      elim (Result-cases
        (fs.create (object_file_path fs cb.local_state.disk.root_path o)
          cb.local_state.disk.files).0) [
            | inr (e, failed) ↦
                let (refused, after) =
                  put-failed fs write read content law o size cb.local_state e clean failed in
                rw (same, upload_and_write) (rw refused (after, inr (e, refl, failed)))
            | inl (_, made) ↦
                let st =
                  put-Stored fs write read content law o cb.local_state clean plain_id made size in
                rw
                  (upload_and_write-at (disk_backend fs write) remote o st.path size body
                    (content o) cb st.opened st.full same st.puts st.copies)
                  (rw st.closes (st.holds, inl (st.path, refl, st.has_content)))
          ]

  store_object-Put :
      (known : Bool) (o : String) (size : Int64) (body : Option Bytes) (cb : State)
      → Clean cb
      → IsBody o size body
      → let out = store_object (disk_backend fs write) remote known o size body cb in
        Clean out.1 × Put o cb.local_state out
  unfolding store_object lookup disk_backend object_file_path
  store_object-Put false o size body cb clean is_body =
      upload_and_write-Put o size body cb clean is_body
  store_object-Put true o size body cb clean is_body =
      let (path, answer, has_content) = get-Holds fs write read content o cb.local_state clean in
      elim (Bool-cases (str_eq path "")) [
        | inl e ↦
            rw (answer, store_object) (rw e (upload_and_write-Put o size body cb clean is_body))
        | inr e ↦
            rw (answer, store_object)
              (rw e (
                clean,
                inl (path, refl, has_content (λ same. absurd (cc (e, (eq_iff path "").1 same)))),
              ))
      ]

  record_object-local :
      (o : String) (cb : State) → (record_object o cb).local_state ≡ cb.local_state
  record_object-local o cb = elim (Bool-cases (contains o cb.object_map)) [
    | inl e ↦ rw e refl
    | inr e ↦ rw e refl
  ]

  put-Put :
      (timenano : Int64) (action_id o : String) (size : Int64) (body : Option Bytes) (cb : State)
      → Clean cb
      → IsBody o size body
      → let out = put (disk_backend fs write) remote timenano action_id o size body cb in
        Clean out.1 × Put o cb.local_state out
  unfolding put
  put-Put timenano action_id o size body cb clean is_body =
      let cb1 = record_entry action_id (entry_of timenano o size cb) cb in
      let same = record_object-local o cb1 in
      let stored =
        store_object (disk_backend fs write) remote (contains o cb.object_map) o size body
          (record_object o cb1) in
      let (after, outcome) =
        store_object-Put (contains o cb.object_map) o size body (record_object o cb1)
          (subst (Holds fs write read content) (sym same) clean) is_body in
      (after, subst (λ s. Put o s stored) same outcome)

  get-Got :
      (action_id : String) (cb : State)
      → Clean cb
      → let out = get (disk_backend fs write) remote action_id cb in
        Clean out.1 × Got action_id cb out
  unfolding get lookup disk_backend object_file_path
  get-Got action_id cb clean = elim (Option-cases (lookup action_id cb.meta_data_map)) [
    | inl e ↦
        rw (e, get)
          (clean, (record { disk_path = ""; meta_data = none }, refl, λ hit. absurd (hit refl)))
    | inr (entry, e) ↦
        let (path, answer, has_content) =
          get-Holds fs write read content entry.output_id cb.local_state clean in
        elim (Bool-cases (str_eq path "")) [
          | inl empty ↦
              rw (e, get) (rw answer (rw empty (clean, (_, refl, λ hit. absurd (hit refl)))))
          | inr full ↦
              rw (e, get)
                (rw answer (rw full (clean, (_, refl, λ hit. (entry, refl, has_content hit)))))
        ]
  ]

  -- The states of a session: it begins on a disk that holds its objects, and the puts have the contents
  -- of their objects.
  pub data Reached : State → Type 0 where
    begun :
        (now : ℕ) (s : OpenDisk F) (r : R)
        → Holds fs write read content s
        → Reached (new_conbined_backend (disk_backend fs write) remote now s r)
    got :
        (cb : State) (action_id : String)
        → Reached cb
        → Reached (get (disk_backend fs write) remote action_id cb).1
    stored :
        (cb : State) (timenano : Int64) (action_id o : String) (size : Int64) (body : Option Bytes)
        → IsBody o size body
        → Reached cb
        → Reached (put (disk_backend fs write) remote timenano action_id o size body cb).1

  begun-Clean :
      (now : ℕ) (s : OpenDisk F) (r : R)
      → Holds fs write read content s
      → Clean (new_conbined_backend (disk_backend fs write) remote now s r)
  unfolding new_conbined_backend
  begun-Clean now s r h = h

  Reached-Clean : (cb : State) → Reached cb → Clean cb
  Reached-Clean cb (begun now s r h) = begun-Clean now s r h
  Reached-Clean cb (got cb0 action_id before) = (get-Got action_id cb0 (Reached-Clean cb0 before)).0
  Reached-Clean cb (stored cb0 timenano action_id o size body is_body before) =
      (put-Put timenano action_id o size body cb0 (Reached-Clean cb0 before) is_body).0

  -- In every state of a session over the disk, a get of any action is a miss or gives the path of a file
  -- with the content of the object of the action's entry, and a put of an object with its content gives
  -- the path of a file with this content, unless its file cannot be made, and then the put fails with
  -- that error. The calls come one after the other, each whole. The session begins on a disk that holds its objects, its ids
  -- have no dash, and a write to an open file does not fail.
  pub Reached-contents :
      (cb : State)
      → Reached cb
      → (asked : String) (timenano : Int64) (action_id o : String) (size : Int64)
        (body : Option Bytes)
      → IsBody o size body
      → Got asked cb (get (disk_backend fs write) remote asked cb)
        × Put o cb.local_state
            (put (disk_backend fs write) remote timenano action_id o size body cb)
  Reached-contents cb reached asked timenano action_id o size body is_body =
      let clean = Reached-Clean cb reached in
      ((get-Got asked cb clean).1, (put-Put timenano action_id o size body cb clean is_body).1)
