-- ===== src/PkgIo/DelimReader/Delimited.antt =====
-- A DelimReader is a reader of what is left of its segment.
use gocica.Base.{
  ℕ, ◌+◌, ◌<◌, ◌≡◌, refl, sym, ap, subst, ◌⊎◌, inl, inr, Bool, true, false, Bool-cases, ◌||◌, [],
  ◌∷◌, none, some, Bytes, length, arith, if◌then◌else◌,
}
use gocica.Base.Go.{eof, Result}
use gocica.PkgIo.Reader.{Read, Reader, Reads, IsReader}
use gocica.PkgIo.DelimReader.{
  DelimReader, is_nil, exhausted, unreached, read_rounds, after_rounds, delim_reader,
}
use gocica.PkgIo.DelimReader.Fields.{head_field}
use gocica.PkgIo.DelimReader.Rounds.{stream, Sound}
use gocica.PkgIo.DelimReader.Segments.{segment, rest, started, Advances, exhausted-stream}
use gocica.PkgIo.DelimReader.Loop.{Looped, ahead-nil, read_rounds-Looped}

module _ {R : Type 0} (io : Reader R) (is : IsReader io) (fuel : ℕ) where
  -- The fuel of the loop is above the number of bytes that are left by two or more.
  abbrev pub Fueled : DelimReader R → Type 0
  Fueled d = Sound io is d × (length (stream io is d) + 1 < fuel)

  pub record Serves (d : DelimReader R) (size : ℕ) (out : Read × DelimReader R) : Type 0 where
    pub reads : Reads (segment io is d) size out.0 (segment io is out.1)
    pub rest_same : rest io is out.1 ≡ rest io is d
    pub fueled : Fueled out.1
    pub delim : out.1.delim ≡ d.delim

  read_end :
      (size : ℕ) (d : DelimReader R)
      → (d.reached || exhausted d) ≡ true
      → (delim_reader io fuel).read size d ≡ (record { bytes = []; failure = some eof }, d)
  unfolding delim_reader
  read_end size d h = rw h refl

  read_on :
      (size : ℕ) (d : DelimReader R)
      → (d.reached || exhausted d) ≡ false
      → (delim_reader io fuel).read size d ≡ after_rounds (read_rounds io fuel size d)
  unfolding delim_reader
  read_on size d h = rw h refl

  reached_or_not : (a b : Bool) → (a || b) ≡ true → (a ≡ true) ⊎ ((a ≡ false) × (b ≡ true))
  reached_or_not true b h = inl refl
  reached_or_not false b h = inr (refl, h)

  neither : (a b : Bool) → (a || b) ≡ false → a ≡ false
  neither true b h = cc
  neither false b h = refl

  segment-end :
      (d : DelimReader R) → Sound io is d → (d.reached || exhausted d) ≡ true → segment io is d ≡ []
  segment-end d sound h = elim (reached_or_not d.reached (exhausted d) h) [
    | inl reached ↦ rw reached refl
    | inr (fresh, done) ↦
        rw fresh (ap (head_field d.delim) (ahead-nil io is d (exhausted-stream io is d sound done)))
  ]

  Reads-Advances :
      (size : ℕ) (d : DelimReader R) (b : Bytes) (d' : DelimReader R)
      → d.reached ≡ false
      → Advances io is (unreached d) size b d'
      → Reads
          (segment io is d)
          size
          (record { bytes = b; failure = if is_nil b then some eof else none })
          (segment io is d')
  Reads-Advances size d [] d' fresh a = (
    rw fresh a.segment_split,
    a.fits,
    inr (
      refl,
      elim a.progress [ inl positive ↦ absurd (omega (arith, positive)) | inr nothing ↦ nothing ],
    ),
  )
  Reads-Advances size d (x ∷ b) d' fresh a =
      (rw fresh a.segment_split, a.fits, inl (refl, omega arith))

  Serves-Looped :
      (size : ℕ) (d : DelimReader R) (out : Result Bytes × DelimReader R)
      → Fueled d
      → d.reached ≡ false
      → Looped io is (unreached d) size out
      → Serves d size (after_rounds out)
  Serves-Looped size d out fueled fresh (inl (d', e, a)) =
      subst (λ o. Serves d size (after_rounds o)) (sym e)
        (record {
          reads = Reads-Advances size d [] d' fresh a;
          rest_same = rw fresh (sym a.rest_same);
          fueled = (a.sound, omega (arith, fueled.1, a.less));
          delim = a.delim;
        })
  Serves-Looped size d out fueled fresh (inr (b, d', e, a)) =
      subst (λ o. Serves d size (after_rounds o)) (sym e)
        (record {
          reads = Reads-Advances size d b (started io is d') fresh a;
          rest_same = rw fresh (sym a.rest_same);
          fueled = (a.sound, omega (arith, fueled.1, a.less));
          delim = a.delim;
        })

  pub read-Serves :
      (size : ℕ) (d : DelimReader R)
      → 0 < size
      → Fueled d
      → Serves d size ((delim_reader io fuel).read size d)
  read-Serves size d positive fueled = elim (Bool-cases (d.reached || exhausted d)) [
    | inl done ↦
        let nothing = segment-end d fueled.0 done in
        subst (Serves d size) (sym (read_end size d done)) (record {
          reads = (refl, omega arith, inr (refl, nothing));
          rest_same = refl;
          fueled = fueled;
          delim = refl;
        })
    | inr more ↦ subst (Serves d size) (sym (read_on size d more)) (
        Serves-Looped size d _ fueled (neither d.reached (exhausted d) more)
          (read_rounds-Looped io is fuel size d fueled.0 positive (inr fueled.1)))
  ]

  abbrev pub delimited : IsReader (delim_reader io fuel)
  delimited = record {
    content = segment io is;
    Sound = Fueled;
    read_sound = λ n d positive fueled. (read-Serves n d positive fueled).fueled;
    read_reads = λ n d positive fueled. (read-Serves n d positive fueled).reads;
  }
