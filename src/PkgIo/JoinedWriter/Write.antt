-- ===== src/PkgIo/JoinedWriter/Write.antt =====
-- A joined writer pours what is written to it into its writers.
use gocica.Base.{
  ℕ, zero, suc, ◌+◌, ◌-◌, ◌*◌, ◌^◌, ◌≤◌, ◌<◌, ◌≡◌, refl, ap, sym, ◌∙◌, false, List, [], ◌∷◌, ◌++◌,
  map, map-append, append_assoc, Option, none, some, Bytes, arith, Bool-cases, inl, inr, length,
  take, drop, take-append-drop, length-take, length-drop, ltb, ltb→lt, ltb→le, ◌==◌, ==_iff,
  if◌then◌else◌, min, All, All-append,
}
use gocica.PkgIo.JoinedWriter.{
  Written, WriteCloser, WriterWithSize, JoinedWriter, Round, again, round, write_loop, write,
}
use gocica.PkgIo.JoinedWriter.Pour.{
  Slot, pour, capacity, pour-nil, pour-append, pour_full, pour_first, capacity_full,
}
use gocica.PkgIo.JoinedWriter.Rounds.{
  IsReliable, IsCut, slot, slots, filled, closed, round_close, round_fits, round_over,
}

module _ {W : Type 0} (io : WriteCloser W) (content : W → Bytes)
    (reliable : IsReliable io content) where
  -- Enough rounds for the writers from the current one on.
  unfoldable pub rounds : List (WriterWithSize W) → ℕ
  rounds [] = 1
  rounds (w ∷ ws) = (if w.size == 0 then 1 else 2) + rounds ws

  -- The call ends, has written what there is room for, and has poured it into the slots.
  pub record Pours (r : Option (Written (JoinedWriter W))) (start : List Slot) (p : Bytes)
      (total : ℕ) : Type 0 where
    pub out : Written (JoinedWriter W)
    pub runs : r ≡ some out
    pub n : out.n ≡ total + min (length p) (capacity start)
    pub failure : out.failure ≡ none
    pub poured : slots io content reliable out.writer ≡ pour start p
    pub cut : IsCut io content reliable out.writer

  abbrev view : JoinedWriter W → List Slot
  view = slots io content reliable

  full_slots :
      (ws : List (WriterWithSize W))
      → All (λ w. w.size ≡ 0) ws
      → All (λ s. s.room ≡ 0) (map (slot io content reliable) ws)
  full_slots [] h = tt
  full_slots (w ∷ ws) h = (h.0, full_slots ws h.1)

  abbrev at : List (WriterWithSize W) → List (WriterWithSize W) → JoinedWriter W
  at before rest = record { before = before; rest = rest }

  capacity-at :
      (before rest : List (WriterWithSize W))
      → All (λ w. w.size ≡ 0) before
      → capacity (view (at before rest)) ≡ capacity (map (slot io content reliable) rest)
  capacity-at before rest full =
      capacity_full (map (slot io content reliable) before) _ (full_slots before full)

  -- Closing the current writer moves no byte.
  view_closed :
      (before : List (WriterWithSize W)) (w : WriterWithSize W) (ws : List (WriterWithSize W))
      → view (at (before ++ closed io content reliable before w ws [] 0 ∷ []) ws)
        ≡ view (at before (w ∷ ws))
  view_closed before w ws =
      ap (λ (l : List Slot). l ++ map (slot io content reliable) ws) (map-append _ before _)
      ∙ append_assoc (map (slot io content reliable) before) _ _
      ∙ ap
          (λ (c : Bytes).
            map (slot io content reliable) before
            ++ (record { content = c; room = w.size } ∷ map (slot io content reliable) ws))
          (reliable.close_content w.writer)

  -- Filling the current writer pours what it got.
  view-filled :
      (before : List (WriterWithSize W)) (w : WriterWithSize W) (ws : List (WriterWithSize W))
      (q : Bytes)
      → All (λ w. w.size ≡ 0) before
      → length q ≤ w.size
      → view (at before (filled io content reliable before w ws [] 0 q ∷ ws))
        ≡ pour (view (at before (w ∷ ws))) q
  view-filled before w ws q full le =
      ap
        (λ (c : Bytes).
          map (slot io content reliable) before
          ++ (record { content = c; room = w.size - length q } ∷ map (slot io content reliable) ws))
        (reliable.write_content w.writer q)
      ∙ ap (λ (l : List Slot). map (slot io content reliable) before ++ l)
          (sym (pour_first (slot io content reliable w) (map (slot io content reliable) ws) q le))
      ∙ sym (pour_full (map (slot io content reliable) before) _ q (full_slots before full))

  loop_end :
      (before : List (WriterWithSize W)) (fuel : ℕ) (p : Bytes) (total : ℕ)
      → All (λ w. w.size ≡ 0) before
      → Pours (write_loop io fuel (round io before [] p total)) (view (at before [])) p total
  unfolding write_loop round capacity pour
  loop_end before fuel p total full = record {
    out = record { writer = at before []; n = total; failure = none };
    runs = refl;
    n = omega (arith, capacity-at before [] full);
    failure = refl;
    poured = sym (pour_full (map (slot io content reliable) before) [] p (full_slots before full));
    cut = record { full = full; in_range = tt };
  }

  loop_fits :
      (before : List (WriterWithSize W)) (w : WriterWithSize W) (ws : List (WriterWithSize W))
      (fuel : ℕ) (p : Bytes) (total : ℕ)
      → All (λ w. w.size ≡ 0) before
      → All (λ w. w.size < 2 ^ 63) (w ∷ ws)
      → 0 < w.size
      → length p ≤ w.size
      → Pours
          (write_loop io fuel (round io before (w ∷ ws) p total))
          (view (at before (w ∷ ws)))
          p
          total
  unfolding write_loop capacity
  loop_fits before w ws fuel p total full small pos le =
      rw (round_fits io content reliable before w ws p total pos small.0 le) (record {
        out = record {
          writer = at before (filled io content reliable before w ws p total p ∷ ws);
          n = total + length p;
          failure = none;
        };
        runs = refl;
        n = omega (arith, capacity-at before (w ∷ ws) full);
        failure = refl;
        poured = view-filled before w ws p full le;
        cut = record { full = full; in_range = (omega (arith, small.0), small.1) };
      })

  rounds_pos : (ws : List (WriterWithSize W)) → 0 < rounds ws
  unfolding rounds
  rounds_pos [] = omega arith
  rounds_pos (w ∷ ws) = omega (arith, rounds_pos ws)

  -- The rest of a loop whose round filled the current writer.
  Pours-over :
      (before : List (WriterWithSize W)) (w : WriterWithSize W) (ws : List (WriterWithSize W))
      (p : Bytes) (total : ℕ) {r : Option (Written (JoinedWriter W))}
      → All (λ w. w.size ≡ 0) before
      → w.size < length p
      → Pours r
          (view (at before (filled io content reliable before w ws [] 0 (take w.size p) ∷ ws)))
          (drop w.size p)
          (total + w.size)
      → Pours r (view (at before (w ∷ ws))) p total
  unfolding capacity
  Pours-over before w ws p total full lt h =
      let n : length (take w.size p) ≡ w.size = omega (arith, length-take w.size p) in
      record {
        out = h.out;
        runs = h.runs;
        n = omega (
          arith,
          h.n,
          n,
          length-drop w.size p,
          capacity-at before (w ∷ ws) full,
          capacity-at before (filled io content reliable before w ws [] 0 (take w.size p) ∷ ws)
              full,
        );
        failure = h.failure;
        poured =
            h.poured
            ∙ ap (λ (l : List Slot). pour l (drop w.size p))
                (view-filled before w ws (take w.size p) full (omega arith))
            ∙ sym (pour-append (view (at before (w ∷ ws))) (take w.size p) (drop w.size p))
            ∙ ap (pour (view (at before (w ∷ ws)))) (take-append-drop w.size p);
        cut = h.cut;
      }

  loop_next :
      (fuel : ℕ) (before rest : List (WriterWithSize W)) (p : Bytes) (total : ℕ) {r : Round io}
      → round io before rest p total ≡ r
      → write_loop io (suc fuel) (again (at before rest) p total) ≡ write_loop io fuel r
  unfolding write_loop
  loop_next fuel before rest p total e = ap (write_loop io fuel) e

  loop-Pours :
      (fuel : ℕ) (before rest : List (WriterWithSize W)) (p : Bytes) (total : ℕ)
      → All (λ w. w.size ≡ 0) before
      → All (λ w. w.size < 2 ^ 63) rest
      → rounds rest ≤ fuel
      → length p < 2 ^ 63
      → Pours (write_loop io fuel (again (at before rest) p total)) (view (at before rest)) p total
  unfolding rounds
  loop-Pours zero before rest p total full small enough fits =
      absurd (omega (arith, rounds_pos rest))
  loop-Pours (suc fuel) before [] p total full small enough fits =
      rw (loop_next fuel before [] p total refl) (loop_end before fuel p total full)
  loop-Pours (suc fuel) before (w ∷ ws) p total full small enough fits =
      elim (Bool-cases (w.size == 0)) [
        | inl z ↦
            let e : w.size ≡ 0 = (==_iff w.size 0).0 z in
            rw
              (
                loop_next fuel before (w ∷ ws) p total
                    (round_close io content reliable before w ws p total e),
                ← view_closed before w ws,
              )
              (loop-Pours fuel (before ++ closed io content reliable before w ws [] 0 ∷ []) ws p
                total (All-append _ before _ full (e, tt)) small.1 (omega (arith, rw z at enough))
                fits)
        | inr nz ↦
            let pos : 0 < w.size = ground arith in
            elim (Bool-cases (ltb w.size (length p))) [
              | inl over ↦
                  let lt : w.size < length p = ltb→lt w.size (length p) over in
                  let zero_left : w.size - length (take w.size p) ≡ 0 =
                    omega (arith, length-take w.size p) in
                  rw
                    (loop_next fuel before (w ∷ ws) p total
                      (round_over io content reliable before w ws p total pos lt fits))
                    (Pours-over before w ws p total full lt (
                      loop-Pours fuel before
                        (filled io content reliable before w ws [] 0 (take w.size p) ∷ ws)
                        (drop w.size p) (total + w.size) full (omega arith, small.1)
                        (rw zero_left (omega (arith, rw nz at enough)))
                        (omega (arith, length-drop w.size p))))
              | inr fit ↦
                  rw (loop_next fuel before (w ∷ ws) p total refl) (
                    loop_fits before w ws fuel p total full small pos
                      (ltb→le w.size (length p) fit))
            ]
      ]

  rounds-le : (ws : List (WriterWithSize W)) → rounds ws ≤ 2 * length ws + 1
  unfolding rounds
  rounds-le [] = omega arith
  rounds-le (w ∷ ws) = ground (arith, rounds-le ws)

  -- Over writers that take what they are given, with those behind the current one full and no size
  -- negative, one call of `Write` with less than 2^63 bytes ends within two rounds for each writer left
  -- and one more. It reports no
  -- error, and as many bytes as there was room for; these it has poured: each writer got the part of
  -- the stream that fits its size, in order.
  pub write-Pours :
      (j : JoinedWriter W) (p : Bytes)
      → IsCut io content reliable j
      → length p < 2 ^ 63
      → Pours (write io (2 * length j.rest + 1) j p) (slots io content reliable j) p 0
  unfolding write
  write-Pours j [] cut fits = record {
    out = record { writer = j; n = 0; failure = none };
    runs = refl;
    n = omega arith;
    failure = refl;
    poured = sym (pour-nil (view j));
    cut = cut;
  }
  write-Pours j (x ∷ p) cut fits =
      let e : (length (x ∷ p) == 0) ≡ false = ground arith in
      rw e (loop-Pours _ j.before j.rest (x ∷ p) 0 cut.full cut.in_range (rounds-le j.rest) fits)
