-- ===== src/Locker/Moves.antt =====
-- What a move, a Broadcast and a Signal do to a property of the calls.
use gocica.Base.{
  ◌≡◌, refl, sym, ◌∙◌, ◌⊎◌, inl, inr, Bool, true, false, Bool-cases, List, [], ◌∷◌, map, any,
}
use gocica.Locker.{
  Pc, waiting, woken, start, entered, in_before, in_after, broadcasting, signalling, finished,
  returned, Move, Signal, is_waiting, wake,
}

module _ (f : Pc → Bool) where
  pub any-here : (p : Pc) (ps : List Pc) → f p ≡ true → any f (p ∷ ps) ≡ true
  any-here p ps h = rw (h, any) refl

  pub any-there : (p : Pc) (ps : List Pc) → any f ps ≡ true → any f (p ∷ ps) ≡ true
  any-there p ps h = elim (Bool-cases (f p)) [ inl e ↦ rw (e, any) refl | inr e ↦ rw (e, any) h ]

  pub any-cases : (p : Pc) (ps : List Pc) → any f (p ∷ ps) ≡ true → (f p ≡ true) ⊎ (any f ps ≡ true)
  any-cases p ps h = elim (Bool-cases (f p)) [ inl e ↦ inl e | inr e ↦ inr (rw (e, any) at h) ]

  -- Where a call is that has the property, and that it can move anywhere.
  pub any-Move :
      (ps : List Pc)
      → any f ps ≡ true
      → (a : Pc) × (f a ≡ true) × ((b : Pc) → (qs : List Pc) × Move a b ps qs)
  any-Move [] h = cc
  any-Move (p ∷ ps) h = elim (any-cases p ps h) [
    | inl e ↦ (p, e, λ b. (b ∷ ps, Move.here))
    | inr rest ↦
        let (a, e, moves) = any-Move ps rest in
        (a, e, λ b. let (qs, m) = moves b in (p ∷ qs, Move.there m))
  ]

  module _ {a b : Pc} where
    pub Move-source : {ps qs : List Pc} → Move a b ps qs → f a ≡ true → any f ps ≡ true
    Move-source (Move.here {ps}) h = any-here a ps h
    Move-source (Move.there {p} {ps} m) h = any-there p ps (Move-source m h)

    pub Move-target : {ps qs : List Pc} → Move a b ps qs → f b ≡ true → any f qs ≡ true
    Move-target (Move.here {ps}) h = any-here b ps h
    Move-target (Move.there {p} {ps} {qs} m) h = any-there p qs (Move-target m h)

    pub Move-keeps :
        {ps qs : List Pc} → Move a b ps qs → f a ≡ false → any f ps ≡ true → any f qs ≡ true
    Move-keeps (Move.here {ps}) h k = any-there b ps (rw (h, any) at k)
    Move-keeps (Move.there {p} {ps} {qs} m) h k = elim (any-cases p ps k) [
      | inl e ↦ any-here p qs e
      | inr rest ↦ any-there p qs (Move-keeps m h rest)
    ]

    pub Move-without :
        {ps qs : List Pc} → Move a b ps qs → f b ≡ false → any f ps ≡ false → any f qs ≡ false
    Move-without (Move.here {ps}) h k = elim (Bool-cases (any f ps)) [
      | inl e ↦ absurd (cc (any-there a ps e))
      | inr e ↦ rw (h, any) e
    ]
    Move-without (Move.there {p} {ps} {qs} m) h k = elim (Bool-cases (f p)) [
      | inl e ↦ absurd (cc (any-here p ps e))
      | inr e ↦ rw (e, any) (Move-without m h (rw (e, any) at k))
    ]

  -- What wakes or is woken.
  module _ (same : f waiting ≡ f woken) where
    pub wake_same : (p : Pc) → f (wake p) ≡ f p
    wake_same start = refl
    wake_same waiting = sym same
    wake_same woken = refl
    wake_same entered = refl
    wake_same in_before = refl
    wake_same in_after = refl
    wake_same broadcasting = refl
    wake_same signalling = refl
    wake_same (finished result) = refl
    wake_same returned = refl

    pub any-wake : (ps : List Pc) → any f (map wake ps) ≡ any f ps
    any-wake [] = refl
    any-wake (p ∷ ps) = elim (Bool-cases (f p)) [
      | inl e ↦ any-here (wake p) (map wake ps) (wake_same p ∙ e) ∙ sym (any-here p ps e)
      | inr e ↦ rw (e, any) (rw (wake_same p ∙ e, any) (any-wake ps))
    ]

    pub any-Signal : {ps qs : List Pc} → Signal ps qs → any f qs ≡ any f ps
    any-Signal (Signal.idle h) = refl
    any-Signal {ps} {qs} (Signal.wakes m) = elim (Bool-cases (any f ps)) [
      | inl e ↦ elim (Bool-cases (f waiting)) [
        | inl w ↦ Move-target m (sym same ∙ w) ∙ sym e
        | inr w ↦ Move-keeps m w e ∙ sym e
      ]
      | inr e ↦ elim (Bool-cases (f waiting)) [
        | inl w ↦ absurd (cc (Move-source m w))
        | inr w ↦ Move-without m (sym same ∙ w) e ∙ sym e
      ]
    ]

pub any-is_waiting-wake : (ps : List Pc) → any is_waiting (map wake ps) ≡ false
any-is_waiting-wake [] = refl
any-is_waiting-wake (waiting ∷ ps) = any-is_waiting-wake ps
any-is_waiting-wake (start ∷ ps) = any-is_waiting-wake ps
any-is_waiting-wake (woken ∷ ps) = any-is_waiting-wake ps
any-is_waiting-wake (entered ∷ ps) = any-is_waiting-wake ps
any-is_waiting-wake (in_before ∷ ps) = any-is_waiting-wake ps
any-is_waiting-wake (in_after ∷ ps) = any-is_waiting-wake ps
any-is_waiting-wake (broadcasting ∷ ps) = any-is_waiting-wake ps
any-is_waiting-wake (signalling ∷ ps) = any-is_waiting-wake ps
any-is_waiting-wake (finished result ∷ ps) = any-is_waiting-wake ps
any-is_waiting-wake (returned ∷ ps) = any-is_waiting-wake ps
