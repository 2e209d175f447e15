-- ===== src/PkgIo/JoinedWriter/Rounds.antt =====
-- The rounds of the loop of `write`, over writers that take all they are given.
use gocica.Base.{
  ℕ, ◌+◌, ◌-◌, ◌^◌, ◌≤◌, ◌<◌, ◌≡◌, ap, ◌∙◌, true, false, List, [], ◌∷◌, ◌++◌, map, none, Bytes,
  arith, length, take, drop, take_past, length-take, ltb, lt→ltb, le→ltb, if◌then◌else◌, All,
}
use gocica.Base.Int64.{lt64, lt64-eq, sub64-eq}
use gocica.PkgIo.JoinedWriter.{
  WriteCloser, WriterWithSize, JoinedWriter, return, again, close_round, wrote_round, write_size,
  round,
}
use gocica.PkgIo.JoinedWriter.Pour.{Slot}

-- A writer that takes all it is given: `content` is what it has got. (io.Writer's contract allows a
-- short write only with an error.)
pub record IsReliable {W : Type 0} (io : WriteCloser W) (content : W → Bytes) : Type 0 where
  pub write_n : (w : W) (p : Bytes) → (io.write w p).n ≡ length p
  pub write_failure : (w : W) (p : Bytes) → (io.write w p).failure ≡ none
  pub write_content : (w : W) (p : Bytes) → content (io.write w p).writer ≡ content w ++ p
  pub close_failure : (w : W) → (io.close w).1 ≡ none
  pub close_content : (w : W) → content (io.close w).0 ≡ content w

module _ {W : Type 0} (io : WriteCloser W) (content : W → Bytes)
    (reliable : IsReliable io content) where
  open reliable use {write_n, write_failure, close_failure}

  abbrev pub slot : WriterWithSize W → Slot
  slot w = record { content = content w.writer; room = w.size }

  abbrev pub slots : JoinedWriter W → List Slot
  slots j = map slot j.before ++ map slot j.rest

  -- The writers behind the current one are full, and no size is negative.
  pub record IsCut (j : JoinedWriter W) : Type 0 where
    pub full : All (λ w. w.size ≡ 0) j.before
    pub in_range : All (λ w. w.size < 2 ^ 63) j.rest

  module _ (before : List (WriterWithSize W)) (w : WriterWithSize W) (ws : List (WriterWithSize W))
      (p : Bytes) (total : ℕ) where
    abbrev pub filled : Bytes → WriterWithSize W
    filled q = record { writer = (io.write w.writer q).writer; size = w.size - length q }

    abbrev pub closed : WriterWithSize W
    closed = record { writer = (io.close w.writer).0; size = w.size }

    pub round_close :
        w.size ≡ 0
        → round io before (w ∷ ws) p total
          ≡ again (record { before = before ++ closed ∷ []; rest = ws }) p total
    unfolding round
    round_close z =
        let e : lt64 0 w.size ≡ false =
          lt64-eq 0 w.size (omega arith) (omega arith) ∙ le→ltb 0 w.size (omega arith) in
        rw e (rw (close_failure w.writer, close_round))

    round_fill :
        0 < w.size
        → w.size < 2 ^ 63
        → round io before (w ∷ ws) p total
          ≡ wrote_round io before w ws p total (io.write w.writer (take (write_size io w p) p))
    unfolding round
    round_fill pos small =
        let t : lt64 0 w.size ≡ true =
          lt64-eq 0 w.size (omega arith) (omega arith) ∙ lt→ltb 0 w.size pos in
        rw t

    wrote_reliable :
        (q : Bytes)
        → length q ≤ w.size
        → w.size < 2 ^ 63
        → wrote_round io before w ws p total (io.write w.writer q) ≡ (
            if ltb (length q) (length p)
            then again
                (record { before = before; rest = filled q ∷ ws })
                (drop (length q) p)
                (total + length q)
            else return (record { before = before; rest = filled q ∷ ws }) (total + length q) none)
    unfolding wrote_round
    wrote_reliable q le small =
        rw (write_failure w.writer q, wrote_round)
          (rw (write_n w.writer q) (rw (sub64-eq w.size (length q) le (omega arith))))

    -- A round that writes `q`, the first bytes of `p`.
    round_wrote :
        (q : Bytes)
        → 0 < w.size
        → w.size < 2 ^ 63
        → length q ≤ w.size
        → take (write_size io w p) p ≡ q
        → round io before (w ∷ ws) p total ≡ (
            if ltb (length q) (length p)
            then again
                (record { before = before; rest = filled q ∷ ws })
                (drop (length q) p)
                (total + length q)
            else return (record { before = before; rest = filled q ∷ ws }) (total + length q) none)
    round_wrote q pos small le e =
        round_fill pos small
        ∙ ap (λ x. wrote_round io before w ws p total (io.write w.writer x)) e
        ∙ wrote_reliable q le small

    pub round_fits :
        0 < w.size
        → w.size < 2 ^ 63
        → length p ≤ w.size
        → round io before (w ∷ ws) p total
          ≡ return (record { before = before; rest = filled p ∷ ws }) (total + length p) none
    round_fits pos small le =
        let f : lt64 w.size (length p) ≡ false =
          lt64-eq w.size (length p) small (omega arith) ∙ le→ltb w.size (length p) le in
        let g : ltb (length p) (length p) ≡ false = le→ltb (length p) (length p) (omega arith) in
        round_wrote p pos small le
          (unfold write_size in rw f (take_past (length p) p (omega arith)))
        ∙ (rw g)

    pub round_over :
        0 < w.size
        → w.size < length p
        → length p < 2 ^ 63
        → round io before (w ∷ ws) p total
          ≡ again
              (record { before = before; rest = filled (take w.size p) ∷ ws })
              (drop w.size p)
              (total + w.size)
    round_over pos lt small =
        let f : lt64 w.size (length p) ≡ true =
          lt64-eq w.size (length p) (omega arith) small ∙ lt→ltb w.size (length p) lt in
        let g : ltb w.size (length p) ≡ true = lt→ltb w.size (length p) lt in
        let n : length (take w.size p) ≡ w.size = omega (arith, length-take w.size p) in
        round_wrote (take w.size p) pos (omega arith) (omega arith) (unfold write_size in rw f)
        ∙ rw (n, g)
