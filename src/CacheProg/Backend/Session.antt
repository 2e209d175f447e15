-- ===== src/CacheProg/Backend/Session.antt =====
-- A session: the backend is made, and then gets and puts come in any order, each whole.
use gocica.Base.{ℕ, ◌≡◌, Bool-cases, Option, some, Option-cases, String, Bytes, str_eq, inl, inr}
use gocica.Base.Int64.{Int64}
use gocica.Base.Go.{Result-cases}
use gocica.Base.Table.{lookup}
use gocica.Proto.{IndexEntry}
use gocica.CacheProg.Backend.{
  LocalBackend, RemoteBackend, ConbinedBackend, entries_or_none, new_conbined_backend, get, put,
  touch,
}
use gocica.CacheProg.Backend.Index.{
  IsIndexed, Known-insert, Known-map, Known-recent, Known-lookup, put-IsIndexed,
}

module _ {L R : Type 0} (local : LocalBackend L) (remote : RemoteBackend R) where
  -- The states that a session comes to.
  pub data Reached : ConbinedBackend L R → Type 0 where
    begun : (now : ℕ) (l : L) (r : R) → Reached (new_conbined_backend local remote now l r)
    got :
        (cb : ConbinedBackend L R) (action_id : String)
        → Reached cb
        → Reached (get local remote action_id cb).1
    stored :
        (cb : ConbinedBackend L R) (timenano : Int64) (action_id output_id : String) (size : Int64)
        (body : Option Bytes)
        → Reached cb
        → Reached (put local remote timenano action_id output_id size body cb).1

  new_conbined_backend-IsIndexed :
      (now : ℕ) (l : L) (r : R) → IsIndexed (new_conbined_backend local remote now l r)
  unfolding new_conbined_backend
  new_conbined_backend-IsIndexed now l r =
      let m = entries_or_none (remote.meta_data r).0 in
      record { known = Known-map m; new_known = Known-recent _ now m (Known-map m) }

  -- What a get comes to: an error, a miss, or a hit that marks its entry.
  get-cases :
      (action_id : String) (cb : ConbinedBackend L R)
      → (P : ConbinedBackend L R → Type 0) → ((l : L) → P (record cb { local_state = l }))
      → ((l : L) (e : IndexEntry)
          → lookup action_id cb.meta_data_map ≡ some e
          → P (touch action_id e (record cb { local_state = l })))
      → P (get local remote action_id cb).1
  unfolding get
  get-cases action_id cb P same used = elim (Option-cases (lookup action_id cb.meta_data_map)) [
    | inl none_there ↦ rw (none_there, get) (same cb.local_state)
    | inr (e, there) ↦
        let l = (local.get e.output_id cb.local_state).1 in
        elim (Result-cases (local.get e.output_id cb.local_state).0) [
          | inr (x, failed) ↦ rw (there, get) (rw failed (same l))
          | inl (path, found) ↦ elim (Bool-cases (str_eq path "")) [
            | inl miss ↦ rw (there, get) (rw found (rw miss (same l)))
            | inr hit ↦ rw (there, get) (rw found (rw hit (used l e there)))
          ]
        ]
  ]

  get-IsIndexed :
      (action_id : String) (cb : ConbinedBackend L R)
      → IsIndexed cb
      → IsIndexed (get local remote action_id cb).1
  get-IsIndexed action_id cb h =
      get-cases action_id cb IsIndexed (λ l. record { known = h.known; new_known = h.new_known })
        (λ l e there.
          let known = Known-lookup cb.object_map action_id cb.meta_data_map e there h.known in
          record {
            known =
                Known-insert cb.object_map action_id (record e { last_used_at = cb.now_timestamp })
                  cb.meta_data_map known h.known;
            new_known =
                Known-insert cb.object_map action_id (record e { last_used_at = cb.now_timestamp })
                  cb.new_meta_data_map known h.new_known;
          })

  -- In every state of a session, the object of every entry of the index, the one that is read and the
  -- one to be written, is in the object map.
  pub Reached-IsIndexed : (cb : ConbinedBackend L R) → Reached cb → IsIndexed cb
  Reached-IsIndexed cb (begun now l r) = new_conbined_backend-IsIndexed now l r
  Reached-IsIndexed cb (got cb0 action_id before) =
      get-IsIndexed action_id cb0 (Reached-IsIndexed cb0 before)
  Reached-IsIndexed cb (stored cb0 timenano action_id o size body before) =
      put-IsIndexed local remote timenano action_id o size body cb0 (Reached-IsIndexed cb0 before)
