-- ===== src/Remote/DownloadAll/Order.antt =====
-- The downloader sorts the outputs by their offsets and adds up their sizes. On outputs that lie one
-- behind the other the sums are the offsets, wherever the sort puts the empty ones.
use mathlib.Core.List.{Permᴰ}
use gocica.Base.{
  ℕ, ◌+◌, ◌^◌, ◌≤◌, ◌<◌, ◌≡◌, ◌≢◌, ◌⊎◌, inl, inr, Bool-cases, ==_iff, refl, ap, ◌∙◌, false, List,
  [], ◌∷◌, arith, ltb, ◌==◌, if◌then◌else◌, All, All-imp, All-and, All-perm,
}
use gocica.Base.Int64.{lt64, sub64}
use gocica.Proto.{ActionsOutput}
use gocica.Remote.Layout.{IsLayout, IsLayout-fits}
use gocica.Remote.DownloadAll.{sorts_before}

-- What slices.SortFunc promises of its result.
abbrev pub IsSorted : List ActionsOutput → Type 0
IsSorted [] = Unit
IsSorted (a ∷ os) = All (λ b. sorts_before b a ≡ false) os × IsSorted os

-- An output is empty, or it begins where those before it end.
abbrev pub StartsAt : ℕ → List ActionsOutput → ℕ → Type 0
StartsAt start [] end = start ≡ end
StartsAt start (o ∷ os) end = ((o.size ≡ 0) ⊎ (o.offset ≡ start)) × StartsAt (start + o.size) os end

weigh : (ActionsOutput → ℕ) → List ActionsOutput → ℕ
weigh f [] = 0
weigh f (o ∷ os) = f o + weigh f os

weigh-perm :
    (f : ActionsOutput → ℕ) {xs ys : List ActionsOutput} → Permᴰ xs ys → weigh f xs ≡ weigh f ys
unfolding weigh
weigh-perm f Permᴰ.nil = refl
weigh-perm f (Permᴰ.cons e p) = omega (arith, ap f e, weigh-perm f p)
weigh-perm f (Permᴰ.swap e h) = omega (arith, ap f e, ap f h)
weigh-perm f (Permᴰ.trans p q) = weigh-perm f p ∙ weigh-perm f q

-- The bytes of the outputs below an offset, and of those at it.
below : ℕ → ActionsOutput → ℕ
below k o = if ltb o.offset k then o.size else 0

at : ℕ → ActionsOutput → ℕ
at k o = if o.offset == k then o.size else 0

-- In a layout: what lies below an output's offset is as long as the offset says, and an output that
-- is not empty has its offset to itself.
abbrev Alone : ℕ → List ActionsOutput → ActionsOutput → Type 0
Alone start all o =
    o.size ≢ 0
    → (start + weigh (below o.offset) all ≡ o.offset) × (weigh (at o.offset) all ≡ o.size)

begins_at :
    (start end : ℕ) (os : List ActionsOutput)
    → IsLayout start os end
    → All (λ o. start ≤ o.offset) os
begins_at start end [] h = tt
begins_at start end (o ∷ os) h = (
  omega arith,
  All-imp (λ p. start + o.size ≤ p.offset) (λ p. start ≤ p.offset) os (λ p le. omega arith)
      (begins_at (start + o.size) end os h.1),
)

weigh_above :
    (k : ℕ) (os : List ActionsOutput) → All (λ o. k ≤ o.offset) os → weigh (below k) os ≡ 0
unfolding weigh below
weigh_above k [] h = refl
weigh_above k (o ∷ os) h = ground (arith, weigh_above k os h.1)

weigh_past : (k : ℕ) (os : List ActionsOutput) → All (λ o. k < o.offset) os → weigh (at k) os ≡ 0
unfolding weigh at
weigh_past k [] h = refl
weigh_past k (o ∷ os) h = ground (arith, weigh_past k os h.1)

-- The first output of a layout, and one behind it.
module _ (start : ℕ) (o : ActionsOutput) (os : List ActionsOutput) (here : o.offset ≡ start) where
  head-Alone : All (λ p. start + o.size ≤ p.offset) os → Alone start (o ∷ os) o
  unfolding weigh below at
  head-Alone tail pos =
      let past = weigh_past o.offset os (
        All-imp (λ p. start + o.size ≤ p.offset) (λ p. o.offset < p.offset) os
          (λ p le. omega (arith, pos)) tail) in
      let above = weigh_above o.offset os (
        All-imp (λ p. start + o.size ≤ p.offset) (λ p. o.offset ≤ p.offset) os (λ p le. omega arith)
          tail) in
      (ground (arith, above), ground (arith, past))

  tail-Alone :
      (p : ActionsOutput)
      → (start + o.size ≤ p.offset) × Alone (start + o.size) os p
      → Alone start (o ∷ os) p
  unfolding weigh below at
  tail-Alone p (le, alone) pos = let (b, a) = alone pos in (ground (arith, b), ground (arith, a))

IsLayout-Alone :
    (start end : ℕ) (os : List ActionsOutput) → IsLayout start os end → All (Alone start os) os
IsLayout-Alone start end [] h = tt
IsLayout-Alone start end (o ∷ os) h =
    let tail = begins_at (start + o.size) end os h.1 in
    (
      head-Alone start o os h.0 tail,
      All-imp (λ p. (start + o.size ≤ p.offset) × Alone (start + o.size) os p)
          (Alone start (o ∷ os)) os (tail-Alone start o os h.0)
          (All-and _ _ os tail (IsLayout-Alone (start + o.size) end os h.1)),
    )

-- The order of the offsets, as numbers.
abbrev Ordered : List ActionsOutput → Type 0
Ordered [] = Unit
Ordered (a ∷ os) = All (λ b. a.offset ≤ b.offset) os × Ordered os

offset_le :
    (a b : ActionsOutput)
    → (b.offset < 2 ^ 63) × (sorts_before b a ≡ false)
    → a.offset < 2 ^ 63
    → a.offset ≤ b.offset
unfolding lt64 sub64
offset_le a b h fits = ground arith

IsSorted-Ordered :
    (os : List ActionsOutput) → All (λ o. o.offset < 2 ^ 63) os → IsSorted os → Ordered os
IsSorted-Ordered [] fits h = tt
IsSorted-Ordered (a ∷ os) fits h = (
  All-imp (λ b. (b.offset < 2 ^ 63) × (sorts_before b a ≡ false)) (λ b. a.offset ≤ b.offset) os
      (λ b k. offset_le a b k fits.0) (All-and _ _ os fits.1 h.0),
  IsSorted-Ordered os fits.1 h.1,
)

weigh_split :
    (k : ℕ) (os : List ActionsOutput)
    → All (λ o. o.offset ≤ k) os
    → weigh (λ o. o.size) os ≡ weigh (below k) os + weigh (at k) os
unfolding weigh below at
weigh_split k [] h = refl
weigh_split k (o ∷ os) h = ground (arith, weigh_split k os h.1)

-- `before` is what the loop has passed.
sorted_StartsAt :
    (below_all at_all : ℕ → ℕ) (before os : List ActionsOutput) (start end : ℕ)
    → weigh (λ o. o.size) before ≡ start
    → All (λ a. All (λ b. a.offset ≤ b.offset) os) before
    → Ordered os
    → ((k : ℕ) → weigh (below k) before + weigh (below k) os ≡ below_all k)
    → ((k : ℕ) → weigh (at k) before + weigh (at k) os ≡ at_all k)
    → All (λ o. o.size ≢ 0 → (below_all o.offset ≡ o.offset) × (at_all o.offset ≡ o.size)) os
    → start + weigh (λ o. o.size) os ≡ end
    → StartsAt start os end
unfolding weigh
sorted_StartsAt b t before [] start end w le ord hb ht alone e = omega arith
sorted_StartsAt b t before (o ∷ os) start end w le ord hb ht alone e = (
  (elim (Bool-cases (o.size == 0)) [
    | inl e ↦ inl ((==_iff o.size 0).0 e)
    | inr e ↦ inr (first (λ z. ground (arith, ==_iff o.size 0)))
  ]),
  sorted_StartsAt b t (o ∷ before) os (start + o.size) end (omega (arith, w))
      (ord.0, All-imp _ _ before (λ a l. l.1) le) ord.1 (λ k. omega (arith, hb k))
      (λ k. omega (arith, ht k)) alone.1 (omega (arith, e)),
)
  where
    first : o.size ≢ 0 → o.offset ≡ start
    first pos =
        let k = o.offset in
        let split = weigh_split k before (
          All-imp (λ a. All (λ b. a.offset ≤ b.offset) (o ∷ os)) (λ a. a.offset ≤ k) before
            (λ a l. l.0) le) in
        let above = weigh_above k (o ∷ os) (omega arith, ord.0) in
        let here : at k o ≡ o.size = unfold at in ground arith in
        omega (arith, split, above, here, hb k, ht k, alone.0 pos, w)

weigh_layout :
    (start end : ℕ) (os : List ActionsOutput)
    → IsLayout start os end
    → start + weigh (λ o. o.size) os ≡ end
unfolding weigh
weigh_layout start end [] h = omega arith
weigh_layout start end (o ∷ os) h = omega (arith, weigh_layout (start + o.size) end os h.1)

-- Whichever way the sort orders outputs of equal offset, if the total is below 2^63, a sorted reordering of outputs that lie one
-- behind the other has each output that is not empty where the sizes before it add up to: the offset
-- that the download loop computes is the offset that the upload gave out.
pub sorted-StartsAt :
    (total : ℕ) (os sorted : List ActionsOutput)
    → IsLayout 0 os total
    → total < 2 ^ 63
    → Permᴰ os sorted
    → IsSorted sorted
    → StartsAt 0 sorted total
unfolding weigh
sorted-StartsAt total os sorted layout fits perm ord =
    let small =
      All-imp (λ o. o.offset + o.size ≤ total) (λ o. o.offset < 2 ^ 63) os (λ o h. omega arith)
        (IsLayout-fits 0 total os layout) in
    sorted_StartsAt (λ k. weigh (below k) os) (λ k. weigh (at k) os) [] sorted 0 total refl tt
      (IsSorted-Ordered sorted (All-perm _ perm small) ord)
      (λ k. omega (arith, weigh-perm (below k) perm)) (λ k. omega (arith, weigh-perm (at k) perm))
      (All-imp (Alone 0 os) _ sorted
        (λ o alone pos. let (b, a) = alone pos in (omega (arith, b), a))
        (All-perm _ perm (IsLayout-Alone 0 total os layout)))
      (omega (arith, weigh_layout 0 total os layout, weigh-perm (λ o. o.size) perm))
