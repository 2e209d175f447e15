-- ===== src/PkgIo/Reader/ReadAll.antt =====
-- Reading a reader to its end gives its content.
use gocica.Base.{
  ℕ, zero, suc, ◌<◌, ◌≡◌, refl, sym, ap, subst, ◌∙◌, inl, inr, [], ◌++◌, append-nil, none, some,
  Bytes, length, length-append, arith,
}
use gocica.Base.Go.{Error, eof}
use gocica.PkgIo.Reader.{Reader, IsReader}

-- io.ReadAll with buffers of one size, on fuel.
unfoldable pub read_all : {R : Type 0} → Reader R → ℕ → ℕ → R → Bytes × R
read_all io zero size r = ([], r)
read_all io (suc fuel) size r =
    let (out, r1) = io.read size r in
    elim out.failure [
      | some e ↦ (out.bytes, r1)
      | none ↦ let (more, r2) = read_all io fuel size r1 in (out.bytes ++ more, r2)
    ]

module _ {R X : Type 0} (io : Reader R) (is : IsReader io) (size : ℕ) (positive : 0 < size)
    (view : R → X) (keeps : (r : R) → is.Sound r → view (io.read size r).1 ≡ view r) where
  pub record ReadsAll (r : R) (out : Bytes × R) : Type 0 where
    pub all : out.0 ≡ is.content r
    pub nothing_left : is.content out.1 ≡ []
    pub sound : is.Sound out.1
    pub kept : view out.1 ≡ view r

  pub read_all-end :
      (fuel : ℕ) (r : R) (e : Error)
      → (io.read size r).0.failure ≡ some e
      → read_all io (suc fuel) size r ≡ ((io.read size r).0.bytes, (io.read size r).1)
  unfolding read_all
  read_all-end fuel r e h = rw (h, read_all) refl

  pub read_all-more :
      (fuel : ℕ) (r : R)
      → (io.read size r).0.failure ≡ none
      → read_all io (suc fuel) size r ≡ (
        (io.read size r).0.bytes ++ (read_all io fuel size (io.read size r).1).0,
        (read_all io fuel size (io.read size r).1).1,
      )
  unfolding read_all
  read_all-more fuel r h = rw (h, read_all) refl

  -- More rounds than there are bytes read all of them. What no Read changes is kept.
  pub read_all-ReadsAll :
      (fuel : ℕ) (r : R)
      → is.Sound r
      → length (is.content r) < fuel
      → ReadsAll r (read_all io fuel size r)
  read_all-ReadsAll zero r sound enough = absurd (omega (arith, enough))
  read_all-ReadsAll (suc fuel) r sound enough =
      let (split, few, failed) = is.read_reads size r positive sound in
      let sound' = is.read_sound size r positive sound in
      elim failed [
        | inr (end, nothing) ↦ subst (ReadsAll r) (sym (read_all-end fuel r eof end)) (record {
          all = sym (split ∙ ap (◌++◌ (io.read size r).0.bytes) nothing ∙ append-nil _);
          nothing_left = nothing;
          sound = sound';
          kept = keeps r sound;
        })
        | inl (fine, some_bytes) ↦
            let rest = read_all-ReadsAll fuel (io.read size r).1 sound' (
              omega (
                arith,
                enough,
                some_bytes,
                ap length split,
                length-append (io.read size r).0.bytes (is.content (io.read size r).1),
              )) in
            subst (ReadsAll r) (sym (read_all-more fuel r fine)) (record {
              all = ap (◌++◌ (io.read size r).0.bytes) rest.all ∙ sym split;
              nothing_left = rest.nothing_left;
              sound = rest.sound;
              kept = rest.kept ∙ keeps r sound;
            })
      ]
