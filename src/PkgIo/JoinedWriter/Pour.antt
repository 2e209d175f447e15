-- ===== src/PkgIo/JoinedWriter/Pour.antt =====
-- A stream that is poured into slots of given sizes.
use gocica.Base.{
  ℕ, suc, ◌+◌, ◌-◌, ◌≡◌, refl, ap, ap₂, sym, ◌∙◌, List, [], ◌∷◌, ◌++◌, append-nil, append_assoc,
  Bytes, arith, length, length-append, take, drop, take-nil, drop-nil, take-append, drop-append,
  take_past, drop_past, take-length-append, drop-length-append, ◌≤◌, All,
}

-- A writer's content, and how much more it takes.
pub record Slot : Type 0 where
  pub content : Bytes
  pub room : ℕ

-- Each slot takes what fits, and the rest goes on.
unfoldable pub pour : List Slot → Bytes → List Slot
pour [] p = []
pour (s ∷ ss) p =
    record { content = s.content ++ take s.room p; room = s.room - length p }
    ∷ pour ss (drop s.room p)

unfoldable pub capacity : List Slot → ℕ
capacity [] = 0
capacity (s ∷ ss) = s.room + capacity ss

pub length-pour : (ss : List Slot) (p : Bytes) → length (pour ss p) ≡ length ss
unfolding pour
length-pour [] p = refl
length-pour (s ∷ ss) p = ap suc (length-pour ss (drop s.room p))

slot_eq :
    {a b : Bytes} {m n : ℕ}
    → a ≡ b
    → m ≡ n
    → ◌≡◌ {A = Slot} (record { content = a; room = m }) (record { content = b; room = n })
slot_eq h k = λ i. record { content = h i; room = k i }

pub pour-nil : (ss : List Slot) → pour ss [] ≡ ss
unfolding pour
pour-nil [] = refl
pour-nil (s ∷ ss) =
    ap₂ ◌∷◌
      (slot_eq (ap (λ b. s.content ++ b) (take-nil s.room) ∙ append-nil s.content) (omega arith))
      (ap (pour ss) (drop-nil s.room) ∙ pour-nil ss)

-- Two streams one after the other are one stream.
pub pour-append : (ss : List Slot) (p q : Bytes) → pour ss (p ++ q) ≡ pour (pour ss p) q
unfolding pour
pour-append [] p q = refl
pour-append (s ∷ ss) p q =
    ap₂ ◌∷◌
      (slot_eq
        (ap (λ b. s.content ++ b) (take-append s.room p q)
          ∙ sym (append_assoc s.content (take s.room p) (take (s.room - length p) q)))
        (omega (arith, length-append p q)))
      (ap (pour ss) (drop-append s.room p q)
        ∙ pour-append ss (drop s.room p) (drop (s.room - length p) q))

-- Full slots take nothing.
pub pour_full :
    (ss ts : List Slot) (p : Bytes) → All (λ s. s.room ≡ 0) ss → pour (ss ++ ts) p ≡ ss ++ pour ts p
unfolding pour
pour_full [] ts p h = refl
pour_full (s ∷ ss) ts p h =
    ap₂ ◌∷◌
      (slot_eq (ap (λ n. s.content ++ take n p) h.0 ∙ append-nil s.content) (omega (arith, h.0)))
      (ap (λ n. pour (ss ++ ts) (drop n p)) h.0 ∙ pour_full ss ts p h.1)

-- What fits into the first slot goes no further.
pub pour_first :
    (s : Slot) (ss : List Slot) (p : Bytes)
    → length p ≤ s.room
    → pour (s ∷ ss) p ≡ record { content = s.content ++ p; room = s.room - length p } ∷ ss
unfolding pour
pour_first s ss p h =
    ap₂ ◌∷◌ (slot_eq (ap (λ b. s.content ++ b) (take_past s.room p h)) refl)
      (ap (pour ss) (drop_past s.room p h) ∙ pour-nil ss)

pub capacity_full :
    (ss ts : List Slot) → All (λ s. s.room ≡ 0) ss → capacity (ss ++ ts) ≡ capacity ts
unfolding capacity
capacity_full [] ts h = refl
capacity_full (s ∷ ss) ts h = omega (arith, capacity_full ss ts h.1, h.0)

-- A slot with room for the first part of a stream takes it, and the rest goes on.
pub pour_exact :
    (s : Slot) (ss : List Slot) (p q : Bytes)
    → s.room ≡ length p
    → pour (s ∷ ss) (p ++ q) ≡ record { content = s.content ++ p; room = 0 } ∷ pour ss q
unfolding pour
pour_exact s ss p q h =
    ap₂ ◌∷◌
      (slot_eq
        (ap (λ n. s.content ++ take n (p ++ q)) h
          ∙ ap (λ b. s.content ++ b) (take-length-append p q))
        (omega (arith, length-append p q)))
      (ap (λ n. pour ss (drop n (p ++ q))) h ∙ ap (pour ss) (drop-length-append p q))
