-- ===== src/PkgIo/SkipCharReader/Through.antt =====
-- What the Reads of a SkipCharReader do to the reader below.
use gocica.Base.{
  ℕ, zero, suc, ◌≡◌, refl, sym, subst, ◌⊎◌, inl, inr, Bool-cases, [], ◌∷◌, Option, none, some,
  Bytes, arith,
}
use gocica.Base.Go.{Error, eof}
use gocica.PkgIo.Reader.{Reader, IsReader}
use gocica.PkgIo.Reader.Trace.{Trace, here, read, Trace-Sound, Drained, drained}
use gocica.PkgIo.SkipCharReader.{
  SkipCharReader, must_read, last_failure, fill_once, fill, serve, skip_char_reader,
  new_skip_char_reader,
}
use gocica.PkgIo.SkipCharReader.Filtered.{serve_kept, fill-again, fill-done}

last_failure-end :
    (left : Bytes) (failure : Option Error)
    → last_failure left failure ≡ some eof
    → failure ≡ some eof
last_failure-end [] failure h = h
last_failure-end (b ∷ bs) failure h = cc

serve-end :
    {R : Type 0} (n : ℕ) (r : R) (skip : ℕ) (buf : Bytes) (failure : Option Error)
    → (serve n (record { r = r; skip = skip; buf = buf; failure = failure })).0.failure ≡ some eof
    → failure ≡ some eof
unfolding serve
serve-end n r skip [] failure h = h
serve-end n r skip (b ∷ bs) failure h = last_failure-end _ failure h

module _ {R : Type 0} (io : Reader R) (is : IsReader io) where
  -- The reader below is sound and has been read by Reads alone; once the end is known it is drained.
  record Below (r : R) (scr : SkipCharReader R) : Type 0 where
    trace : Trace io r scr.r
    end : (scr.failure ≡ none) ⊎ ((scr.failure ≡ some eof) × (is.content scr.r ≡ []))

  fill_once-Below :
      (r : R) (scr : SkipCharReader R) → is.Sound r → Below r scr → Below r (fill_once io scr)
  unfolding fill_once
  fill_once-Below r scr sound b =
      let came = is.read_reads 1024 scr.r (omega arith) (Trace-Sound io is r scr.r sound b.trace) in
      record {
        trace = read 1024 (omega arith) b.trace;
        end = elim came.2 [ inl (fine, _) ↦ inl fine | inr finished ↦ inr finished ];
      }

  fill-Below :
      (fuel : ℕ) (r : R) (scr : SkipCharReader R)
      → is.Sound r
      → Below r scr
      → Below r (fill io fuel scr)
  unfolding fill
  fill-Below zero r scr sound b = b
  fill-Below (suc fuel) r scr sound b = elim (Bool-cases (must_read scr.buf scr.failure)) [
    | inl must ↦
        subst (Below r) (sym (fill-again io is fuel scr must))
          (fill-Below fuel r (fill_once io scr) sound (fill_once-Below r scr sound b))
    | inr done ↦ subst (Below r) (sym (fill-done io is (suc fuel) scr done)) b
  ]

  serve-Below : (n : ℕ) (r : R) (scr : SkipCharReader R) → Below r scr → Below r (serve n scr).1
  serve-Below n r scr b =
      let (same_r, same_failure) = serve_kept n scr.r scr.skip scr.buf scr.failure in
      record {
        trace = subst (Trace io r) (sym same_r) b.trace;
        end = rw (same_r, same_failure) b.end;
      }

  Trace-Below :
      (fuel : ℕ) (r : R) (scr scr' : SkipCharReader R)
      → is.Sound r
      → Below r scr
      → Trace (skip_char_reader io fuel) scr scr'
      → Below r scr'
  unfolding skip_char_reader
  Trace-Below fuel r scr scr' sound b here = b
  Trace-Below fuel r scr scr' sound b (read {r' = scr1} n positive t) =
      serve-Below n r (fill io fuel scr1)
        (fill-Below fuel r scr1 sound (Trace-Below fuel r scr scr1 sound b t))

  -- A client that drains a SkipCharReader reads the reader below to its end.
  pub Drained-Below :
      (fuel : ℕ) (r : R) (skip : ℕ) (scr : SkipCharReader R)
      → is.Sound r
      → Drained (skip_char_reader io fuel) (new_skip_char_reader r skip) scr
      → Trace io r scr.r × (is.content scr.r ≡ [])
  unfolding skip_char_reader new_skip_char_reader
  Drained-Below fuel r skip scr sound (drained {r' = scr1} n positive t end) =
      let full = fill io fuel scr1 in
      let (same_r, same_failure) = serve_kept n full.r full.skip full.buf full.failure in
      let below = fill-Below fuel r scr1 sound (
        Trace-Below fuel r (new_skip_char_reader r skip) scr1 sound
          (record { trace = here; end = inl refl }) t) in
      let known = serve-end n full.r full.skip full.buf full.failure end in
      rw same_r (
        below.trace,
        elim below.end [
          | inl open_end ↦ absurd (cc (open_end, known))
          | inr (_, nothing) ↦ nothing
        ],
      )
