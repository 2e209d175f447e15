-- ===== src/Remote/Upload/Committed.antt =====
-- What `commit` makes of the staged blocks.
use gocica.Base.{
  ℕ, ◌+◌, ◌^◌, ◌<◌, ◌≤◌, ◌≡◌, refl, ap, sym, subst, ◌∙◌, List, [], ◌∷◌, ◌++◌, map, append-nil,
  append_assoc, some, String, Bytes, arith, Bool-cases, inl, inr, length, length-append, All,
  All-append, ◌==◌, ==_iff, eq_nil_of_length, concat, slice, slice_middle, slice-append_left,
}
use gocica.Base.Table.{contains}
use gocica.Proto.{ActionsOutput}
use gocica.Remote.Blob.{Blocks, gather, HoldsOutput, HoldsOutputs}
use gocica.Remote.Layout.{total_size, IsLayout-fits}
use gocica.Remote.Upload.{Constructed, placed, place_outputs, construct_outputs}
use gocica.Remote.Upload.Layout.{place_outputs_seen, place_outputs_new, construct_outputs-IsLayout}
use gocica.Remote.Upload.Outputs.{Recorded}

module _ (content : String → Bytes) (blocks : Blocks) where
  -- The new blocks, one behind the other.
  abbrev joined : Constructed → Bytes
  joined p = concat (map content p.new_output_ids)

  -- Behind `before`, the new blocks are staged and hold the placed outputs.
  record Places (before : Bytes) (p : Constructed) : Type 0 where
    staged : gather blocks p.new_output_ids ≡ some (joined p)
    held : All (HoldsOutput content (before ++ joined p)) p.outputs
    size : length (before ++ joined p) ≡ p.size

  joined-placed :
      (before : Bytes) (o : ActionsOutput) (start : ℕ) (rest : Constructed)
      → Recorded content blocks o
      → (before ++ content o.id) ++ joined rest ≡ before ++ joined (placed o start rest)
  joined-placed before o start rest r = elim (Bool-cases (o.size == 0)) [
    | inl z ↦
        let none_there : content o.id ≡ [] =
          eq_nil_of_length (content o.id) (r.0 ∙ (==_iff o.size 0).0 z) in
        rw (z, none_there) (ap (λ b. b ++ joined rest) (append-nil before))
    | inr nz ↦ rw nz (append_assoc before (content o.id) (joined rest))
  ]

  staged-placed :
      (o : ActionsOutput) (start : ℕ) (rest : Constructed)
      → Recorded content blocks o
      → gather blocks rest.new_output_ids ≡ some (joined rest)
      → gather blocks (placed o start rest).new_output_ids ≡ some (joined (placed o start rest))
  unfolding gather
  staged-placed o start rest r h = elim (Bool-cases (o.size == 0)) [
    | inl z ↦ rw z h
    | inr nz ↦ rw nz (elim r.1 [
      | inl z ↦ absurd (cc (nz, (==_iff o.size 0).1 z))
      | inr there ↦ rw (there, h) refl
    ])
  ]

  placed-Places :
      (before : Bytes) (o : ActionsOutput) (start : ℕ) (rest : Constructed)
      → length before ≡ start
      → Recorded content blocks o
      → Places (before ++ content o.id) rest
      → Places before (placed o start rest)
  placed-Places before o start rest at r h =
      let e = joined-placed before o start rest r in
      record {
        staged = staged-placed o start rest r h.staged;
        held = (
          ap (slice start o.size) (sym e ∙ append_assoc before (content o.id) (joined rest))
              ∙ slice_middle start o.size before (content o.id) (joined rest) at r.0,
          subst (λ b. All (HoldsOutput content b) rest.outputs) e h.held,
        );
        size = ap length (sym e) ∙ h.size;
      }

  place_outputs-Places :
      (seen : List String) (start : ℕ) (os : List ActionsOutput) (before : Bytes)
      → length before ≡ start
      → start + total_size os < 2 ^ 63
      → All (Recorded content blocks) os
      → Places before (place_outputs seen start os)
  unfolding total_size
  place_outputs-Places seen start [] before at fits r =
      unfold place_outputs gather in
      record { staged = refl; held = tt; size = ap length (append-nil before) ∙ at }
  place_outputs-Places seen start (o ∷ os) before at fits r =
      elim (Bool-cases (contains o.id seen)) [
        | inl old ↦
            rw (place_outputs_seen seen start o os old)
              (place_outputs-Places seen start os before at (omega arith) r.1)
        | inr new ↦ rw (place_outputs_new seen start o os new (omega arith)) (
            placed-Places before o start _ at r.0 (
              place_outputs-Places (o.id ∷ seen) (start + o.size) os (before ++ content o.id)
                (omega (arith, length-append before (content o.id), r.0.0)) (omega arith) r.1))
      ]

-- More data behind the outputs does not move them.
HoldsOutput_grows :
    (content : String → Bytes) (held more : Bytes) (total : ℕ) (os : List ActionsOutput)
    → length held ≡ total
    → All (λ o. o.offset + o.size ≤ total) os
    → All (HoldsOutput content held) os
    → All (HoldsOutput content (held ++ more)) os
HoldsOutput_grows content held more total [] size fits h = tt
HoldsOutput_grows content held more total (o ∷ os) size fits h = (
  slice-append_left o.offset o.size held more (omega arith) ∙ h.0,
  HoldsOutput_grows content held more total os size fits.1 h.1,
)

pub construct_outputs-HoldsOutputs :
    (content : String → Bytes) (blocks : Blocks) (held : Bytes) (base_size : ℕ)
    (base_outputs new_outputs : List ActionsOutput)
    → HoldsOutputs content held base_outputs base_size
    → base_size + total_size new_outputs < 2 ^ 63
    → All (Recorded content blocks) new_outputs
    → let built = construct_outputs base_size base_outputs new_outputs in
      (new : Bytes) × (gather blocks built.new_output_ids ≡ some new)
      × HoldsOutputs content (held ++ new) built.outputs built.size
unfolding construct_outputs
construct_outputs-HoldsOutputs content blocks held base_size base_outputs new_outputs h fits r =
    let placing =
      place_outputs-Places content blocks (map (λ o. o.id) base_outputs) base_size new_outputs held
        h.size fits r in
    (
      _,
      placing.staged,
      record {
        layout = construct_outputs-IsLayout base_size base_outputs new_outputs h.layout fits;
        size = placing.size;
        contents =
            All-append _ base_outputs _
              (HoldsOutput_grows content held _ base_size base_outputs h.size
                (IsLayout-fits 0 base_size base_outputs h.layout) h.contents)
              placing.held;
      },
    )
