-- ===== src/Remote/Upload/Names.antt =====
-- The ids of the outputs: a committed blob has an output for every id that was uploaded.
use gocica.Base.{
  ℕ, ◌+◌, ◌^◌, ◌<◌, ◌≡◌, refl, ap, subst, ◌∙◌, ◌⊎◌, inl, inr, Bool, true, false, ◌||◌, Bool-cases,
  List, [], ◌∷◌, ◌++◌, map, map-append, String, str_eq, eq_iff, arith,
}
use gocica.Base.Table.{contains}
use gocica.Proto.{ActionsOutput}
use gocica.Remote.Layout.{total_size}
use gocica.Remote.Upload.{place_outputs, construct_outputs}
use gocica.Remote.Upload.Layout.{place_outputs_seen, place_outputs_new}

abbrev pub has_output : String → List ActionsOutput → Bool
has_output id os = contains id (map (λ o. o.id) os)

contains-append :
    (k : String) (xs ys : List String) → contains k (xs ++ ys) ≡ (contains k xs || contains k ys)
unfolding contains
contains-append k [] ys = refl
contains-append k (x ∷ xs) ys = elim (Bool-cases (str_eq x k)) [
  | inl e ↦ rw e refl
  | inr e ↦ rw e (contains-append k xs ys)
]

or_left : (a b : Bool) → a ≡ true → (a || b) ≡ true
or_left true b h = refl
or_left false b h = cc

or_right : (a b : Bool) → b ≡ true → (a || b) ≡ true
or_right true b h = refl
or_right false b h = h

pub has_output-left :
    (k : String) (before more : List ActionsOutput)
    → has_output k before ≡ true
    → has_output k (before ++ more) ≡ true
has_output-left k before more h =
    ap (contains k) (map-append (λ o. o.id) before more) ∙ contains-append k _ _ ∙ or_left _ _ h

pub has_output-right :
    (k : String) (before more : List ActionsOutput)
    → has_output k more ≡ true
    → has_output k (before ++ more) ≡ true
has_output-right k before more h =
    ap (contains k) (map-append (λ o. o.id) before more) ∙ contains-append k _ _ ∙ or_right _ _ h

pub contains-head : (k : String) (ks : List String) → contains k (k ∷ ks) ≡ true
unfolding contains
contains-head k ks = rw ((eq_iff k k).1 refl) refl

contains-tail :
    (k j : String) (ks : List String) → str_eq j k ≡ false → contains k (j ∷ ks) ≡ contains k ks
unfolding contains
contains-tail k j ks h = rw h refl

place_outputs-has :
    (k : String) (seen : List String) (start : ℕ) (os : List ActionsOutput)
    → start + total_size os < 2 ^ 63
    → has_output k os ≡ true
    → (contains k seen ≡ true) ⊎ (has_output k (place_outputs seen start os).outputs ≡ true)
unfolding total_size contains
place_outputs-has k seen start [] fits h = cc
place_outputs-has k seen start (o ∷ os) fits h = elim (Bool-cases (contains o.id seen)) [
  | inl old ↦ rw (place_outputs_seen seen start o os old) (elim (Bool-cases (str_eq o.id k)) [
    | inl same ↦ inl (subst (λ j. contains j seen ≡ true) ((eq_iff o.id k).0 same) old)
    | inr other ↦ place_outputs-has k seen start os (omega arith) (rw other at h)
  ])
  | inr new ↦
      rw (place_outputs_new seen start o os new (omega arith)) (elim (Bool-cases (str_eq o.id k)) [
        | inl same ↦ inr (rw same refl)
        | inr other ↦
            elim (place_outputs-has k (o.id ∷ seen) (start + o.size) os (omega arith)
              (rw other at h)) [
                | inl there ↦ inl (rw other at there)
                | inr there ↦ inr (rw other there)
              ]
      ])
]

-- Every id that was recorded has an output, a new one or an old one.
pub construct_outputs-has :
    (k : String) (base_size : ℕ) (base_outputs new_outputs : List ActionsOutput)
    → base_size + total_size new_outputs < 2 ^ 63
    → has_output k new_outputs ≡ true
    → has_output k (construct_outputs base_size base_outputs new_outputs).outputs ≡ true
unfolding construct_outputs
construct_outputs-has k base_size base_outputs new_outputs fits h =
    let placed = place_outputs (map (λ o. o.id) base_outputs) base_size new_outputs in
    elim (place_outputs-has k (map (λ o. o.id) base_outputs) base_size new_outputs fits h) [
      | inl old ↦ has_output-left k base_outputs placed.outputs old
      | inr new ↦ has_output-right k base_outputs placed.outputs new
    ]
