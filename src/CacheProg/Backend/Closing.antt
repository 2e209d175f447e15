-- ===== src/CacheProg/Backend/Closing.antt =====
-- What a close that succeeds has done.
use gocica.Base.{◌≡◌, refl, inl, inr, List, map}
use gocica.Base.Go.{Result, Result-cases, ok, wait_all}
use gocica.CacheProg.Backend.{
  LocalBackend, RemoteBackend, ConbinedBackend, Upload, upload_task, close,
}

module _ {L R : Type 0} (local : LocalBackend L) (remote : RemoteBackend R)
    (schedule : List Upload → List Upload) (cb : ConbinedBackend L R) where
  -- The remote backend behind the uploads, and behind the index.
  abbrev pub uploaded : Result (Unit {0}) × R
  uploaded = wait_all (map (upload_task local remote) (schedule cb.eg)) cb.remote_state

  abbrev pub index_written : Result (Unit {0}) × R
  index_written = remote.write_meta_data cb.new_meta_data_map uploaded.1

  pub close_ok :
      (close local remote schedule cb).0 ≡ ok tt
      → (uploaded.0 ≡ ok tt)
        × (index_written.0 ≡ ok tt)
        × ((close local remote schedule cb).1.remote_state ≡ (remote.close index_written.1).1)
  unfolding close
  close_ok h = elim (Result-cases uploaded.0) [
    | inr (x, e) ↦ absurd (cc (rw (e, close) at h))
    | inl (_, e) ↦ elim (Result-cases index_written.0) [
      | inr (x, e') ↦ absurd (cc (rw e' at (rw (e, close) at h)))
      | inl (_, e') ↦ elim (Result-cases (remote.close index_written.1).0) [
        | inr (x, e'') ↦ absurd (cc (rw e'' at (rw e' at (rw (e, close) at h))))
        | inl (_, e'') ↦ (e, e', rw (e, close) (rw e' (rw e'' refl)))
      ]
    ]
  ]
