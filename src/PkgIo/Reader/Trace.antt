-- ===== src/PkgIo/Reader/Trace.antt =====
-- What a client of a reader can come to: Reads into buffers of any sizes, one after the other.
use gocica.Base.{
  ℕ, zero, suc, ◌<◌, ◌≡◌, refl, sym, ap, subst, ◌∙◌, inl, inr, some, arith, length, length-append,
}
use gocica.Base.Go.{eof}
use gocica.PkgIo.Reader.{Reader, IsReader}
use gocica.PkgIo.Reader.ReadAll.{read_all, read_all-end, read_all-more}

pub data Trace {R : Type 0} (io : Reader R) (r : R) : R → Type 0 where
  here : Trace io r r
  read : {r' : R} (n : ℕ) → 0 < n → Trace io r r' → Trace io r (io.read n r').1

-- The client has met the end: the last of its Reads gave io.EOF.
pub data Drained {R : Type 0} (io : Reader R) (r : R) : R → Type 0 where
  drained :
      {r' : R} (n : ℕ)
      → 0 < n
      → Trace io r r'
      → (io.read n r').0.failure ≡ some eof
      → Drained io r (io.read n r').1

pub Trace-append :
    {R : Type 0} (io : Reader R) (r r' r'' : R) → Trace io r r' → Trace io r' r'' → Trace io r r''
Trace-append io r r' r'' t here = t
Trace-append io r r' r'' t (read n positive u) = read n positive (Trace-append io r r' _ t u)

module _ {R : Type 0} (io : Reader R) (is : IsReader io) where
  pub Trace-Sound : (r r' : R) → is.Sound r → Trace io r r' → is.Sound r'
  Trace-Sound r r' sound here = sound
  Trace-Sound r r' sound (read {r' = r1} n positive t) =
      is.read_sound n r1 positive (Trace-Sound r r1 sound t)

  -- What no Read changes is kept.
  pub Trace-kept :
      {X : Type 0} (view : R → X)
      → ((n : ℕ) (r : R) → 0 < n → is.Sound r → view (io.read n r).1 ≡ view r)
      → (r r' : R) → is.Sound r
      → Trace io r r'
      → view r' ≡ view r
  Trace-kept view keeps r r' sound here = refl
  Trace-kept view keeps r r' sound (read {r' = r1} n positive t) =
      keeps n r1 positive (Trace-Sound r r1 sound t) ∙ Trace-kept view keeps r r1 sound t

  -- io.ReadAll reads to the end.
  read_all-Drained_from :
      (size : ℕ) (positive : 0 < size) (fuel : ℕ) (r r' : R)
      → is.Sound r
      → Trace io r r'
      → length (is.content r') < fuel
      → Drained io r (read_all io fuel size r').1
  read_all-Drained_from size positive zero r r' sound t enough = absurd (omega (arith, enough))
  read_all-Drained_from size positive (suc fuel) r r' sound t enough =
      let (split, few, failed) = is.read_reads size r' positive (Trace-Sound r r' sound t) in
      elim failed [
        | inr (end, nothing) ↦
            subst (Drained io r)
              (sym (
                ap (λ o. o.1)
                  (read_all-end io is size positive (λ q. tt {0}) (λ q h. refl) fuel r' eof end)))
              (drained size positive t end)
        | inl (fine, some_bytes) ↦
            subst (Drained io r)
              (sym (
                ap (λ o. o.1)
                  (read_all-more io is size positive (λ q. tt {0}) (λ q h. refl) fuel r' fine)))
              (read_all-Drained_from size positive fuel r (io.read size r').1 sound
                (read size positive t)
                (omega (
                  arith,
                  enough,
                  some_bytes,
                  ap length split,
                  length-append (io.read size r').0.bytes (is.content (io.read size r').1),
                )))
      ]

  pub read_all-Drained :
      (size : ℕ) (fuel : ℕ) (r : R)
      → 0 < size
      → is.Sound r
      → length (is.content r) < fuel
      → Drained io r (read_all io fuel size r).1
  read_all-Drained size fuel r positive sound enough =
      read_all-Drained_from size positive fuel r r sound here enough

pub Trace-Drained : {R : Type 0} (io : Reader R) (r r' : R) → Drained io r r' → Trace io r r'
Trace-Drained io r r' (drained n positive t end) = read n positive t
