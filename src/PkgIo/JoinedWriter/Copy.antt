-- ===== src/PkgIo/JoinedWriter/Copy.antt =====
-- io.Copy into a joined writer. A body is the pieces that its reads give, and the error behind them,
-- if it is not io.EOF.
use gocica.Base.{
  ◌+◌, ◌*◌, ◌^◌, ◌≤◌, ◌<◌, ◌≡◌, refl, ap, sym, ◌∙◌, true, List, [], ◌∷◌, Option, none, some, Bytes,
  arith, length, length-append, drop, length-drop, concat, ◌==◌, ==_iff, if◌then◌else◌, All,
}
use gocica.Base.Go.{Error, plain}
use gocica.PkgIo.JoinedWriter.{Written, WriteCloser, JoinedWriter, write}
use gocica.PkgIo.JoinedWriter.Pour.{Slot, pour, capacity, pour-nil, pour-append}
use gocica.PkgIo.JoinedWriter.Rounds.{IsReliable, IsCut, slots}
use gocica.PkgIo.JoinedWriter.Write.{write-Pours}

pub record Body : Type 0 where
  pub pieces : List Bytes
  pub failure : Option Error

module _ {W : Type 0} (io : WriteCloser W) where
  abbrev pub write_next : JoinedWriter W → Bytes → Option (Written (JoinedWriter W))
  write_next j p = write io (2 * length j.rest + 1) j p

  -- After a write: an error ends the copy, and so does a short count.
  abbrev after_write :
      Bytes
      → Option (Written (JoinedWriter W))
      → (JoinedWriter W → JoinedWriter W × Option Error)
      → JoinedWriter W
      → JoinedWriter W × Option Error
  after_write p none rest j = (j, some (plain "out of fuel"))
  after_write p (some out) rest j = elim out.failure [
    | some e ↦ (out.writer, some e)
    | none ↦ if out.n == length p then rest out.writer else (out.writer, some (plain "short write"))
  ]

  unfoldable pub copy : List Bytes → Option Error → JoinedWriter W → JoinedWriter W × Option Error
  copy [] failure j = (j, failure)
  copy (p ∷ ps) failure j = after_write p (write_next j p) (copy ps failure) j

pub capacity-pour :
    (ss : List Slot) (p : Bytes)
    → length p ≤ capacity ss
    → capacity (pour ss p) + length p ≡ capacity ss
unfolding capacity pour
capacity-pour [] p h = omega arith
capacity-pour (s ∷ ss) p h = omega (
  arith,
  length-drop s.room p,
  capacity-pour ss (drop s.room p) (omega (arith, length-drop s.room p)),
)

module _ {W : Type 0} (io : WriteCloser W) (content : W → Bytes)
    (reliable : IsReliable io content) where
  after_write_ok :
      (p : Bytes) (r : Option (Written (JoinedWriter W)))
      (rest : JoinedWriter W → JoinedWriter W × Option Error) (j : JoinedWriter W)
      (out : Written (JoinedWriter W))
      → r ≡ some out
      → out.failure ≡ none
      → out.n ≡ length p
      → after_write io p r rest j ≡ rest out.writer
  after_write_ok p r rest j out runs fine all =
      let e : (out.n == length p) ≡ true = (==_iff out.n (length p)).1 all in rw (runs, fine) (rw e)

  -- A body that ends without an error and fits is poured whole, without an error, however it is cut into
  -- pieces of less than 2^63 bytes. The writers take what they are given, those behind the current one
  -- are full, and no size is negative.
  pub copy-pour :
      (ps : List Bytes) (j : JoinedWriter W)
      → IsCut io content reliable j
      → All (λ p. length p < 2 ^ 63) ps
      → length (concat ps) ≤ capacity (slots io content reliable j)
      → ((copy io ps none j).1 ≡ none)
        × (slots io content reliable (copy io ps none j).0
            ≡ pour (slots io content reliable j) (concat ps))
  unfolding copy
  copy-pour [] j cut small fits = (refl, sym (pour-nil (slots io content reliable j)))
  copy-pour (p ∷ ps) j cut small fits =
      let w = write-Pours io content reliable j p cut small.0 in
      let sum = length-append p (concat ps) in
      let left = capacity-pour (slots io content reliable j) p (omega arith) in
      let step =
        after_write_ok p (write_next io j p) (copy io ps none) j w.out w.runs w.failure
          (omega (arith, w.n)) in
      let more = copy-pour ps w.out.writer w.cut small.1 (rw w.poured (omega arith)) in
      rw step (
        more.0,
        more.1
            ∙ ap (λ (l : List Slot). pour l (concat ps)) w.poured
            ∙ sym (pour-append (slots io content reliable j) p (concat ps)),
      )
