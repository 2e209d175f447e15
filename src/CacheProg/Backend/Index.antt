-- ===== src/CacheProg/Backend/Index.antt =====
-- The index that a session leaves.
use gocica.Base.{
  ℕ, ◌≡◌, refl, ap, subst, ◌∙◌, Bool, true, false, Bool-cases, List, [], ◌∷◌, map, Option, some,
  String, Bytes, str_eq, eq_iff, arith, inl, inr, if◌then◌else◌, All,
}
use gocica.Base.Int64.{Int64}
use gocica.Base.Go.{Result-cases}
use gocica.Base.Table.{Table, lookup, insert, contains, lookup-insert}
use gocica.Proto.{IndexEntry}
use gocica.CacheProg.Backend.{
  LocalBackend, RemoteBackend, ConbinedBackend, recent_entries, reader, recent, record_object,
  record_entry, put, store_object, upload_and_write,
}

-- Every entry's object is known.
abbrev pub Known : List String → Table IndexEntry → Type 0
Known objects m = All (λ e. contains e.1.output_id objects ≡ true) m

pub record IsIndexed {L R : Type 0} (cb : ConbinedBackend L R) : Type 0 where
  pub known : Known cb.object_map cb.meta_data_map
  pub new_known : Known cb.object_map cb.new_meta_data_map

pub Known-insert :
    (objects : List String) (k : String) (e : IndexEntry) (m : Table IndexEntry)
    → contains e.output_id objects ≡ true
    → Known objects m
    → Known objects (insert k e m)
unfolding insert
Known-insert objects k e [] h known = (h, tt)
Known-insert objects k e ((j, d) ∷ m) h known = elim (Bool-cases (str_eq j k)) [
  | inl same ↦ rw same (h, known.1)
  | inr other ↦ rw other (known.0, Known-insert objects k e m h known.1)
]

Known-cons :
    (objects : List String) (o : String) (m : Table IndexEntry)
    → Known objects m
    → Known (o ∷ objects) m
unfolding contains
Known-cons objects o [] h = tt
Known-cons objects o ((j, d) ∷ m) h = (ground (arith, h.0), Known-cons objects o m h.1)

pub Known-recent :
    (objects : List String) (now : ℕ) (m : Table IndexEntry)
    → Known objects m
    → Known objects (recent_entries now m)
unfolding recent_entries
Known-recent objects now [] h = tt
Known-recent objects now ((j, d) ∷ m) h = elim (Bool-cases (recent now d)) [
  | inl e ↦ rw e (h.0, Known-recent objects now m h.1)
  | inr e ↦ rw e (Known-recent objects now m h.1)
]

pub Known-map : (m : Table IndexEntry) → Known (map (λ e. e.1.output_id) m) m
unfolding contains
Known-map [] = tt
Known-map ((j, d) ∷ m) =
    (ground (arith, eq_iff d.output_id d.output_id), Known-cons _ d.output_id m (Known-map m))

pub Known-lookup :
    (objects : List String) (k : String) (m : Table IndexEntry) (e : IndexEntry)
    → lookup k m ≡ some e
    → Known objects m
    → contains e.output_id objects ≡ true
unfolding lookup
Known-lookup objects k [] e at h = absurd cc
Known-lookup objects k ((j, d) ∷ m) e at h = elim (Bool-cases (str_eq j k)) [
  | inl same ↦
      let d_is_e : d ≡ e = cc (rw same at at) in
      subst (λ x. contains x.output_id objects ≡ true) d_is_e h.0
  | inr other ↦ Known-lookup objects k m e (rw other at at) h.1
]

-- The entry that a put of an action records.
abbrev pub entry_of : {L R : Type 0} → Int64 → String → Int64 → ConbinedBackend L R → IndexEntry
entry_of timenano output_id size cb = record {
  output_id = output_id;
  size = size;
  timenano = timenano;
  last_used_at = cb.now_timestamp;
}

module _ {L R : Type 0} (local : LocalBackend L) (remote : RemoteBackend R) where
  -- The files of an object are written without a change of the index.
  record SameIndex (cb cb' : ConbinedBackend L R) : Type 0 where
    objects : cb'.object_map ≡ cb.object_map
    entries : cb'.meta_data_map ≡ cb.meta_data_map
    new_entries : cb'.new_meta_data_map ≡ cb.new_meta_data_map

  upload_and_write-SameIndex :
      (o : String) (size : Int64) (body : Option Bytes) (cb : ConbinedBackend L R)
      → SameIndex cb (upload_and_write local remote o size body cb).1
  unfolding upload_and_write
  upload_and_write-SameIndex o size body cb = elim (Result-cases (reader size body)) [
    | inr (e, failed) ↦
        rw (failed, upload_and_write)
          (record { objects = refl; entries = refl; new_entries = refl })
    | inl (contents, fine) ↦ elim (Result-cases (local.put o size cb.local_state).0) [
      | inr (e, failed) ↦
          rw (fine, upload_and_write)
            (rw failed (record { objects = refl; entries = refl; new_entries = refl }))
      | inl (path, made) ↦
          rw (fine, upload_and_write)
            (rw made (record { objects = refl; entries = refl; new_entries = refl }))
    ]
  ]

  store_object-SameIndex :
      (known : Bool) (o : String) (size : Int64) (body : Option Bytes) (cb : ConbinedBackend L R)
      → SameIndex cb (store_object local remote known o size body cb).1
  unfolding store_object
  store_object-SameIndex false o size body cb = upload_and_write-SameIndex o size body cb
  store_object-SameIndex true o size body cb = elim (Result-cases (local.get o cb.local_state).0) [
    | inr (e, failed) ↦
        rw (failed, store_object) (record { objects = refl; entries = refl; new_entries = refl })
    | inl (path, got) ↦ elim (Bool-cases (str_eq path "")) [
      | inl e ↦
          let after : ConbinedBackend L R = record cb {
            local_state = (local.get o cb.local_state).1;
          } in
          let rest = upload_and_write-SameIndex o size body after in
          rw (got, store_object)
            (rw e (record {
              objects = rest.objects;
              entries = rest.entries;
              new_entries = rest.new_entries;
            }))
      | inr e ↦
          rw (got, store_object)
            (rw e (record { objects = refl; entries = refl; new_entries = refl }))
    ]
  ]

  record_object-contains :
      (o : String) (cb : ConbinedBackend L R) → contains o (record_object o cb).object_map ≡ true
  unfolding contains
  record_object-contains o cb = elim (Bool-cases (contains o cb.object_map)) [
    | inl e ↦ rw e e
    | inr e ↦ rw e (ground (arith, eq_iff o o))
  ]

  record_object-Known :
      (o : String) (m : Table IndexEntry) (cb : ConbinedBackend L R)
      → Known cb.object_map m
      → Known (record_object o cb).object_map m
  record_object-Known o m cb h = elim (Bool-cases (contains o cb.object_map)) [
    | inl e ↦ rw e h
    | inr e ↦ rw e (Known-cons cb.object_map o m h)
  ]

  module _ (timenano : Int64) (action_id o : String) (size : Int64) (body : Option Bytes)
      (cb : ConbinedBackend L R) where
    abbrev prepared : ConbinedBackend L R
    prepared = record_object o (record_entry action_id (entry_of timenano o size cb) cb)

    prepared-maps :
        (prepared.meta_data_map ≡ cb.meta_data_map)
        × (prepared.new_meta_data_map
            ≡ insert action_id (entry_of timenano o size cb) cb.new_meta_data_map)
    prepared-maps = elim (Bool-cases (contains o cb.object_map)) [
      | inl e ↦ rw e (refl, refl)
      | inr e ↦ rw e (refl, refl)
    ]

    put-maps :
        let cb' = (put local remote timenano action_id o size body cb).1 in
        (cb'.object_map ≡ prepared.object_map)
        × (cb'.meta_data_map ≡ cb.meta_data_map)
        × (cb'.new_meta_data_map
            ≡ insert action_id (entry_of timenano o size cb) cb.new_meta_data_map)
    unfolding put
    put-maps =
        let same = store_object-SameIndex (contains o cb.object_map) o size body prepared in
        (same.objects, same.entries ∙ prepared-maps.0, same.new_entries ∙ prepared-maps.1)

    -- A put keeps the index in order, whether it succeeds or fails.
    pub put-IsIndexed :
        IsIndexed cb → IsIndexed (put local remote timenano action_id o size body cb).1
    put-IsIndexed h =
        let (objects, entries, new_entries) = put-maps in
        let after = record_entry action_id (entry_of timenano o size cb) cb in
        record {
          known = rw (objects, entries) (record_object-Known o cb.meta_data_map after h.known);
          new_known =
              rw (objects, new_entries)
                (Known-insert prepared.object_map action_id (entry_of timenano o size cb)
                  cb.new_meta_data_map (record_object-contains o after)
                  (record_object-Known o cb.new_meta_data_map after h.new_known));
        }

    -- Whether a put succeeds or fails, the index to be written has the new entry of its action and is
    -- otherwise the old one, and the index that `get` reads is unchanged.
    pub put-entries :
        let cb' = (put local remote timenano action_id o size body cb).1 in
        ((k : String)
          → lookup k cb'.new_meta_data_map ≡ (
              if str_eq action_id k
              then some (entry_of timenano o size cb)
              else lookup k cb.new_meta_data_map))
        × (cb'.meta_data_map ≡ cb.meta_data_map)
    put-entries =
        let (objects, entries, new_entries) = put-maps in
        (
          λ k.
              ap (lookup k) new_entries
              ∙ lookup-insert action_id k (entry_of timenano o size cb) cb.new_meta_data_map,
          entries,
        )
