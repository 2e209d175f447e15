-- ===== src/Remote/Upload/Layout.antt =====
-- The offsets and the ids that `construct_outputs` gives out.
use gocica.Base.{
  ℕ, ◌+◌, ◌^◌, ◌<◌, ◌≡◌, refl, true, false, List, [], ◌∷◌, map, String, arith, Bool-cases, inl, inr,
}
use gocica.Base.Int64.{add64-eq}
use gocica.Base.Table.{contains}
use gocica.Proto.{ActionsOutput}
use gocica.Remote.Layout.{IsLayout, total_size, IsLayout-append}
use gocica.Remote.Upload.{placed, place_outputs, construct_outputs}

-- One round of the loop, on an id that is there already and on a new one.
module _ (seen : List String) (start : ℕ) (o : ActionsOutput) (os : List ActionsOutput) where
  pub place_outputs_seen :
      contains o.id seen ≡ true → place_outputs seen start (o ∷ os) ≡ place_outputs seen start os
  unfolding place_outputs
  place_outputs_seen h = rw (h, place_outputs)

  pub place_outputs_new :
      contains o.id seen ≡ false
      → start + o.size < 2 ^ 64
      → place_outputs seen start (o ∷ os)
        ≡ placed o start (place_outputs (o.id ∷ seen) (start + o.size) os)
  unfolding place_outputs
  place_outputs_new h fits = rw (h, place_outputs) (rw (add64-eq start o.size fits))

place_outputs-IsLayout :
    (seen : List String) (start : ℕ) (os : List ActionsOutput)
    → start + total_size os < 2 ^ 63
    → IsLayout start (place_outputs seen start os).outputs (place_outputs seen start os).size
unfolding total_size
place_outputs-IsLayout seen start [] h = unfold place_outputs in refl
place_outputs-IsLayout seen start (o ∷ os) h = elim (Bool-cases (contains o.id seen)) [
  | inl old ↦
      rw (place_outputs_seen seen start o os old)
        (place_outputs-IsLayout seen start os (omega arith))
  | inr new ↦
      rw (place_outputs_new seen start o os new (omega arith))
        (refl, place_outputs-IsLayout (o.id ∷ seen) (start + o.size) os (omega arith))
]

-- If the base outputs lie one behind the other from 0 to the base size, so do the committed ones
-- from 0 to the committed size, unless the sizes pass 2 ^ 63.
pub construct_outputs-IsLayout :
    (base_size : ℕ) (base_outputs new_outputs : List ActionsOutput)
    → IsLayout 0 base_outputs base_size
    → base_size + total_size new_outputs < 2 ^ 63
    → IsLayout 0
        (construct_outputs base_size base_outputs new_outputs).outputs
        (construct_outputs base_size base_outputs new_outputs).size
unfolding construct_outputs
construct_outputs-IsLayout base_size base_outputs new_outputs h fits =
    IsLayout-append 0 base_size _ base_outputs _ h
      (place_outputs-IsLayout (map (λ o. o.id) base_outputs) base_size new_outputs fits)
