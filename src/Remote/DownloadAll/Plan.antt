-- ===== src/Remote/DownloadAll/Plan.antt =====
-- The chunks that the download loop starts.
use gocica.Base.{
  ℕ, zero, suc, ◌+◌, ◌^◌, ◌≤◌, ◌<◌, ◌≡◌, refl, ap, ◌∙◌, true, false, List, [], ◌∷◌, ◌++◌, String,
  arith, length, length-append, Bool-cases, inl, inr, ltb, lt→ltb, ltb→le,
}
use gocica.Base.Int64.{lt64, lt64-eq, add64, add64-eq}
use gocica.Base.Go.{ok, Io}
use gocica.Proto.{ActionsOutput}
use gocica.Remote.Layout.{total_size, total_size-append}
use gocica.Remote.Sinks.{Files, new_sink}
use gocica.Remote.DownloadAll.{
  Target, Filled, Chunk, fill_chunk, start_round, start_chunks, max_chunk_size, open_file_limit,
}

-- The targets of some outputs, in order: a target has the id, the size and the kind of writer of its
-- output, over a new file.
abbrev pub TargetsOf :
    {W Z : Type 0} → Files W Z → (W → Type 0) → List ActionsOutput → List (Target W Z) → Type 0
TargetsOf f New [] [] = Unit
TargetsOf {W} f New (o ∷ os) (t ∷ ts) =
    (t.id ≡ o.id)
    × (t.size ≡ o.size)
    × ((w : W) × New w × (t.sink ≡ new_sink f o.compression w))
    × TargetsOf f New os ts
TargetsOf f New [] (t ∷ ts) = ⊥
TargetsOf f New (o ∷ os) [] = ⊥

-- The chunks take up the outputs in order, one or more each, and each begins where the one before it ends.
abbrev pub ChunksOf :
    {W Z : Type 0} → Files W Z → (W → Type 0) → ℕ → List ActionsOutput → List (Chunk W Z) → Type 0
ChunksOf f New offset os [] = os ≡ []
ChunksOf f New offset os (k ∷ ks) =
    (mine : List ActionsOutput) × (left : List ActionsOutput) × (os ≡ mine ++ left)
    × (0 < length mine)
    × TargetsOf f New mine k.targets
    × (k.offset ≡ offset)
    × (k.size ≡ total_size mine)
    × ChunksOf f New (offset + total_size mine) left ks

module _ {S W Z : Type 0} (f : Files W Z) (object_writer : String → Io S W) (New : W → Type 0)
    (makes : (id : String) (s : S) → (w : W) × ((object_writer id s).0 ≡ ok w) × New w) where
  record Fills (size : ℕ) (os : List ActionsOutput) (r : Filled W Z) : Type 0 where
    mine : List ActionsOutput
    split : os ≡ mine ++ r.left
    targets : TargetsOf f New mine r.targets
    sized : r.size ≡ size + total_size mine
    progress : size < max_chunk_size → 0 < length os → 0 < length mine

  module _ (permits size : ℕ) (o : ActionsOutput) (os : List ActionsOutput) (s : S) where
    fill_chunk_stop :
        lt64 size max_chunk_size ≡ false
        → (fill_chunk f object_writer permits size (o ∷ os) s).0
          ≡ ok (record { targets = []; size = size; left = o ∷ os })
    unfolding fill_chunk
    fill_chunk_stop h = rw (h, fill_chunk)

    fill_chunk_next :
        (w : W) (r : Filled W Z) (grown : ℕ)
        → add64 size o.size ≡ grown
        → lt64 size max_chunk_size ≡ true
        → ltb permits open_file_limit ≡ true
        → (object_writer o.id s).0 ≡ ok w
        → (fill_chunk f object_writer (permits + 1) grown os (object_writer o.id s).1).0 ≡ ok r
        → (fill_chunk f object_writer permits size (o ∷ os) s).0
          ≡ ok (record r {
            targets =
                record { id = o.id; size = o.size; sink = new_sink f o.compression w } ∷ r.targets;
          })
    unfolding fill_chunk
    fill_chunk_next w r grown sum h k e rest =
        rw (h, fill_chunk) (rw (k, fill_chunk) (rw (e, fill_chunk) (rw (sum, rest, fill_chunk))))

  fill_chunk-Fills :
      (permits size : ℕ) (os : List ActionsOutput) (s : S)
      → permits + length os ≤ open_file_limit
      → size + total_size os < 2 ^ 63
      → (r : Filled W Z) × ((fill_chunk f object_writer permits size os s).0 ≡ ok r)
        × Fills size os r
  unfolding total_size
  fill_chunk-Fills permits size [] s few fits = (
    record { targets = []; size = size; left = [] },
    (unfold fill_chunk in refl),
    record { mine = []; split = refl; targets = tt; sized = omega arith; progress = λ _ h. h },
  )
  fill_chunk-Fills permits size (o ∷ os) s few fits = elim (Bool-cases (ltb size max_chunk_size)) [
    | inl more ↦
        let (w, made, new) = makes o.id s in
        let (r, runs, fills) =
          fill_chunk-Fills (permits + 1) (size + o.size) os (object_writer o.id s).1 (omega arith)
            (omega arith) in
        (
          record r {
            targets =
                record { id = o.id; size = o.size; sink = new_sink f o.compression w } ∷ r.targets;
          },
          fill_chunk_next permits size o os s w r (size + o.size)
              (add64-eq size o.size (omega arith))
              (lt64-eq size max_chunk_size (omega arith) (omega arith) ∙ more)
              (lt→ltb permits open_file_limit (omega arith)) made runs,
          record {
            mine = o ∷ fills.mine;
            split = ap (◌∷◌ o) fills.split;
            targets = (refl, refl, (w, new, refl), fills.targets);
            sized = omega (arith, fills.sized);
            progress = λ _ _. omega arith;
          },
        )
    | inr full ↦ (
      record { targets = []; size = size; left = o ∷ os },
      fill_chunk_stop permits size o os s
          (lt64-eq size max_chunk_size (omega arith) (omega arith) ∙ full),
      record {
        mine = [];
        split = refl;
        targets = tt;
        sized = omega arith;
        progress = λ lt. absurd (omega (arith, ltb→le size max_chunk_size full));
      },
    )
  ]

  -- A round that fills a chunk.
  start_chunks_next :
      (fuel offset : ℕ) (o : ActionsOutput) (os : List ActionsOutput) (s : S) (r : Filled W Z)
      → (fill_chunk f object_writer 0 0 (o ∷ os) s).0 ≡ ok r
      → start_chunks f object_writer (suc fuel) offset (o ∷ os) s
        ≡ start_round f object_writer
            (ok r)
            offset
            (λ filled. start_chunks f object_writer fuel (add64 offset filled.size) filled.left)
            (fill_chunk f object_writer 0 0 (o ∷ os) s).1
  unfolding start_chunks
  start_chunks_next fuel offset o os s r e = rw (e, start_chunks)

  -- If the writers can be made, the outputs are no more than the permits and the offsets stay below
  -- 2^63, the loop ends without an error within as many rounds as there are outputs, and its chunks take
  -- up all outputs in order, one or more each, and each begins where the sizes before it add up to.
  pub start_chunks-ChunksOf :
      (fuel offset : ℕ) (os : List ActionsOutput) (s : S)
      → length os ≤ fuel
      → length os ≤ open_file_limit
      → offset + total_size os < 2 ^ 63
      → ((start_chunks f object_writer fuel offset os s).0.failure ≡ ok tt)
        × ChunksOf f New offset os (start_chunks f object_writer fuel offset os s).0.chunks
  start_chunks-ChunksOf fuel offset [] s enough few fits = unfold start_chunks in (refl, refl)
  start_chunks-ChunksOf zero offset (o ∷ os) s enough few fits = absurd (omega arith)
  start_chunks-ChunksOf (suc fuel) offset (o ∷ os) s enough few fits =
      let (r, runs, fills) = fill_chunk-Fills 0 0 (o ∷ os) s (omega arith) (omega arith) in
      let size : r.size ≡ total_size fills.mine = omega (arith, fills.sized) in
      let some_taken : 0 < length fills.mine = fills.progress (omega arith) (omega arith) in
      let lengths = ap length fills.split ∙ length-append fills.mine r.left in
      let totals = ap total_size fills.split ∙ total_size-append fills.mine r.left in
      let e : add64 offset r.size ≡ offset + total_size fills.mine =
        add64-eq offset r.size (omega arith) ∙ ap (λ n. offset + n) size in
      let next =
        start_chunks-ChunksOf fuel (offset + total_size fills.mine) r.left
          (fill_chunk f object_writer 0 0 (o ∷ os) s).1 (omega arith) (omega arith) (omega arith) in
      rw (start_chunks_next fuel offset o os s r runs) (
        rw e (
          next.0,
          (fills.mine, r.left, fills.split, some_taken, fills.targets, refl, size, next.1),
        ))
