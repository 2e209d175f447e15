-- ===== src/Startup/Gets.antt =====
-- A get request of the go command, from the cache program down to the files of the local backend.
use gocica.Base.{
  ◌+◌, ◌%◌, ◌^◌, ◌≡◌, refl, sym, ap, subst, ◌∙◌, true, false, Bool-cases, none, some, Option-cases,
  String, str_eq, eq_iff, ◌⊎◌, inl, inr, List,
}
use gocica.Base.Int64.{Int64}
use gocica.Base.Go.{Error, Result, ok, err, wrap, Result-cases}
use gocica.Base.Table.{lookup, insert, lookup-insert}
use gocica.Proto.{IndexEntry}
use gocica.Protocol.{Request, Response, empty_response}
use gocica.CacheProg.{CacheProg, Service, Found, got, get}
use gocica.CacheProg.Backend.{LocalBackend, RemoteBackend, ConbinedBackend, Upload, touch}
use gocica.CacheProg.Backend as Conbined
use gocica.Startup.{conbined_service}

lookup-insert_same :
    (k : String) (e : IndexEntry) (m : List (String × IndexEntry))
    → lookup k (insert k e m) ≡ some e
lookup-insert_same k e m = lookup-insert k k e m ∙ rw ((eq_iff k k).1 refl) refl

module _ {L R : Type 0} (local : LocalBackend L) (req : Request)
    (cp : CacheProg (ConbinedBackend L R)) where
  -- The reply names the file of the object that the index has for the action. The index to be written
  -- keeps the entry, as used now.
  pub record Hit (res : Response) (next : CacheProg (ConbinedBackend L R)) : Type 0 where
    entry : IndexEntry
    indexed : lookup req.action_id cp.backend.meta_data_map ≡ some entry
    file : (local.get entry.output_id cp.backend.local_state).0 ≡ ok res.disk_path
    there : str_eq res.disk_path "" ≡ false
    found : res.miss ≡ false
    output : res.output_id ≡ entry.output_id
    size : res.size ≡ entry.size
    time : res.time_nanos ≡ entry.timenano
    kept :
        lookup req.action_id next.backend.new_meta_data_map
        ≡ some (record entry { last_used_at = cp.backend.now_timestamp })
    hits : next.hit_count ≡ (cp.hit_count + 1) % 2 ^ 64
    misses : next.miss_count ≡ cp.miss_count

  -- The index has nothing for the action, or its object has no file. No file is named, and the index is left.
  pub record Miss (res : Response) (next : CacheProg (ConbinedBackend L R)) : Type 0 where
    missing :
        (lookup req.action_id cp.backend.meta_data_map ≡ none)
        ⊎ ((e : IndexEntry) × (lookup req.action_id cp.backend.meta_data_map ≡ some e)
            × (path : String) × ((local.get e.output_id cp.backend.local_state).0 ≡ ok path)
            × (str_eq path "" ≡ true))
    missed : res.miss ≡ true
    no_file : res.disk_path ≡ ""
    index : next.backend.meta_data_map ≡ cp.backend.meta_data_map
    new_index : next.backend.new_meta_data_map ≡ cp.backend.new_meta_data_map
    hits : next.hit_count ≡ cp.hit_count
    misses : next.miss_count ≡ (cp.miss_count + 1) % 2 ^ 64

  -- Only the local backend fails a get. Nothing but its state changes.
  pub record Failed (failure : Error) (next : CacheProg (ConbinedBackend L R)) : Type 0 where
    entry : IndexEntry
    cause : Error
    indexed : lookup req.action_id cp.backend.meta_data_map ≡ some entry
    reading : (local.get entry.output_id cp.backend.local_state).0 ≡ err cause
    reported : failure ≡ wrap "get action" (wrap "get local cache" cause)
    index : next.backend.meta_data_map ≡ cp.backend.meta_data_map
    new_index : next.backend.new_meta_data_map ≡ cp.backend.new_meta_data_map
    hits : next.hit_count ≡ cp.hit_count
    misses : next.miss_count ≡ cp.miss_count

  abbrev pub Answered : (Response × Result (Unit {0})) × CacheProg (ConbinedBackend L R) → Type 0
  Answered ((res, ok tt), next) = Hit res next ⊎ Miss res next
  Answered ((res, err failure), next) = Failed failure next

module _ {L R : Type 0} (local : LocalBackend L) (remote : RemoteBackend R) (clock : Int64)
    (schedule : List Upload → List Upload) where
  abbrev combined : Service (ConbinedBackend L R)
  combined = conbined_service local remote clock schedule

  abbrev absent : Found
  absent = record { disk_path = ""; meta_data = none }

  -- The answer to what the backend gives.
  get-got :
      {r : Result Found} {b : ConbinedBackend L R} (req : Request)
      (cp : CacheProg (ConbinedBackend L R))
      → Conbined.get local remote req.action_id cp.backend ≡ (r, b)
      → get combined req empty_response cp
        ≡ got combined r empty_response (record cp { backend = b })
  unfolding get conbined_service
  get-got req cp e = ap (λ p. got combined p.0 empty_response (record cp { backend = p.1 })) e

  get_unknown :
      (action_id : String) (cb : ConbinedBackend L R)
      → lookup action_id cb.meta_data_map ≡ none
      → Conbined.get local remote action_id cb ≡ (ok absent, cb)
  unfolding Conbined.get
  get_unknown action_id cb nothing = rw (nothing, Conbined.get) refl

  module _ (action_id : String) (cb : ConbinedBackend L R) (e : IndexEntry)
      (indexed : lookup action_id cb.meta_data_map ≡ some e) where
    abbrev moved : ConbinedBackend L R
    moved = record cb { local_state = (local.get e.output_id cb.local_state).1 }

    get_failed :
        (cause : Error)
        → (local.get e.output_id cb.local_state).0 ≡ err cause
        → Conbined.get local remote action_id cb ≡ (err (wrap "get local cache" cause), moved)
    unfolding Conbined.get
    get_failed cause failed = rw (indexed, Conbined.get) (rw failed refl)

    get_gone :
        (path : String)
        → (local.get e.output_id cb.local_state).0 ≡ ok path
        → str_eq path "" ≡ true
        → Conbined.get local remote action_id cb ≡ (ok absent, moved)
    unfolding Conbined.get
    get_gone path file gone = rw (indexed, Conbined.get) (rw file (rw gone refl))

    get_there :
        (path : String)
        → (local.get e.output_id cb.local_state).0 ≡ ok path
        → str_eq path "" ≡ false
        → Conbined.get local remote action_id cb ≡ (
          ok (record {
            disk_path = path;
            meta_data =
                some (record { output_id = e.output_id; size = e.size; timenano = e.timenano });
          }),
          touch action_id e moved,
        )
    unfolding Conbined.get
    get_there path file there = rw (indexed, Conbined.get) (rw file (rw there refl))

  -- Every get request on a new response is answered by a hit, a miss or an error. A hit names the file
  -- that the local backend has for the object of the action's entry, with the entry's output, size and
  -- time, and the index to be written keeps the entry as used now. A miss names no file, and the action
  -- has no entry or its object no file. An error is the local backend's. Hits and misses are counted,
  -- and without a hit both indexes stay.
  pub get-Answered :
      (req : Request) (cp : CacheProg (ConbinedBackend L R))
      → Answered local req cp
          (get (conbined_service local remote clock schedule) req empty_response cp)
  get-Answered req cp = elim (Option-cases (lookup req.action_id cp.backend.meta_data_map)) [
    | inl nothing ↦
        subst (Answered local req cp)
          (sym (get-got req cp (get_unknown req.action_id cp.backend nothing)))
          (inr (record {
            missing = inl nothing;
            missed = refl;
            no_file = refl;
            index = refl;
            new_index = refl;
            hits = refl;
            misses = refl;
          }))
    | inr (e, indexed) ↦ elim (Result-cases (local.get e.output_id cp.backend.local_state).0) [
      | inr (cause, failed) ↦
          subst (Answered local req cp)
            (sym (get-got req cp (get_failed req.action_id cp.backend e indexed cause failed)))
            (record {
              entry = e;
              cause = cause;
              indexed = indexed;
              reading = failed;
              reported = refl;
              index = refl;
              new_index = refl;
              hits = refl;
              misses = refl;
            })
      | inl (path, file) ↦ elim (Bool-cases (str_eq path "")) [
        | inl gone ↦
            subst (Answered local req cp)
              (sym (get-got req cp (get_gone req.action_id cp.backend e indexed path file gone)))
              (inr (record {
                missing = inr (e, indexed, path, file, gone);
                missed = refl;
                no_file = refl;
                index = refl;
                new_index = refl;
                hits = refl;
                misses = refl;
              }))
        | inr there ↦
            subst (Answered local req cp)
              (sym (get-got req cp (get_there req.action_id cp.backend e indexed path file there)))
              (rw there (
                inl (record {
                  entry = e;
                  indexed = indexed;
                  file = file;
                  there = there;
                  found = refl;
                  output = refl;
                  size = refl;
                  time = refl;
                  kept = lookup-insert_same req.action_id _ cp.backend.new_meta_data_map;
                  hits = refl;
                  misses = refl;
                })))
      ]
    ]
  ]
