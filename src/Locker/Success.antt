-- ===== src/Locker/Success.antt =====
-- `after` is run only behind a success.
use gocica.Base.{◌≡◌, refl, ◌∙◌, ◌⊎◌, inl, inr, Bool, true, false, List, [], ◌∷◌, map, any}
use gocica.Locker.{
  Pc, waiting, woken, start, entered, in_before, in_after, broadcasting, signalling, finished,
  returned, WaitSuccess, Move, Signal, Step, Reached, wake, all_start, new_wait_success,
}
use gocica.Locker.Moves.{Move-source, Move-target, Move-keeps, Move-without, any-wake, any-Signal}

-- The calls that run `after`, or have run it.
abbrev pub runs_after : Pc → Bool
runs_after in_after = true
runs_after broadcasting = true
runs_after signalling = true
runs_after returned = true
runs_after _ = false

-- The calls whose `before` returned true.
abbrev pub won : Pc → Bool
won (finished result) = result
won _ = false

abbrev Credited : WaitSuccess → Type 0
Credited s = (any won s.calls ≡ true) ⊎ ((s.succeeded ≡ false) × (any runs_after s.calls ≡ false))

Credited-new : (calls : List Pc) → all_start calls ≡ true → any runs_after calls ≡ false
Credited-new [] h = refl
Credited-new (start ∷ ps) h = Credited-new ps h
Credited-new (waiting ∷ ps) h = cc
Credited-new (woken ∷ ps) h = cc
Credited-new (entered ∷ ps) h = cc
Credited-new (in_before ∷ ps) h = cc
Credited-new (in_after ∷ ps) h = cc
Credited-new (broadcasting ∷ ps) h = cc
Credited-new (signalling ∷ ps) h = cc
Credited-new (finished result ∷ ps) h = cc
Credited-new (returned ∷ ps) h = cc

-- A move of a call that has not won and does not come to `after`, or has come there before.
Credited-Move :
    {a b : Pc} {succeeded : Bool} {ps qs : List Pc}
    → Move a b ps qs
    → won a ≡ false
    → (runs_after b ≡ false) ⊎ (runs_after a ≡ true)
    → (any won ps ≡ true) ⊎ ((succeeded ≡ false) × (any runs_after ps ≡ false))
    → (any won qs ≡ true) ⊎ ((succeeded ≡ false) × (any runs_after qs ≡ false))
Credited-Move m lost h (inl w) = inl (Move-keeps won m lost w)
Credited-Move m lost (inl not_after) (inr (no_success, no_after)) =
    inr (no_success, Move-without runs_after m not_after no_after)
Credited-Move m lost (inr was_after) (inr (no_success, no_after)) =
    absurd (cc (Move-source runs_after m was_after))

Credited-calls :
    {succeeded : Bool} (ps qs : List Pc)
    → any won qs ≡ any won ps
    → any runs_after qs ≡ any runs_after ps
    → (any won ps ≡ true) ⊎ ((succeeded ≡ false) × (any runs_after ps ≡ false))
    → (any won qs ≡ true) ⊎ ((succeeded ≡ false) × (any runs_after qs ≡ false))
Credited-calls ps qs e k (inl w) = inl (e ∙ w)
Credited-calls ps qs e k (inr (no_success, no_after)) = inr (no_success, k ∙ no_after)

Credited-Signal :
    {succeeded : Bool} {ps qs : List Pc}
    → Signal ps qs
    → (any won ps ≡ true) ⊎ ((succeeded ≡ false) × (any runs_after ps ≡ false))
    → (any won qs ≡ true) ⊎ ((succeeded ≡ false) × (any runs_after qs ≡ false))
Credited-Signal {ps} {qs} g =
    Credited-calls ps qs (any-Signal won refl g) (any-Signal runs_after refl g)

Credited-Step : {s t : WaitSuccess} → Step s t → Credited s → Credited t
Credited-Step (Step.waits h m) c = Credited-Move m refl (inl refl) c
Credited-Step (Step.enters h m) c = Credited-Move m refl (inl refl) c
Credited-Step (Step.enters_woken m) c = Credited-Move m refl (inl refl) c
Credited-Step (Step.runs_after h m) (inl w) = inl (Move-keeps won m refl w)
Credited-Step (Step.runs_after h m) (inr (no_success, no_after)) = absurd (cc)
Credited-Step (Step.runs_before h m) c = Credited-Move m refl (inl refl) c
Credited-Step (Step.succeeds {qs} m) c = inl (any-wake won refl qs ∙ Move-target won m refl)
Credited-Step (Step.fails m g) c = elim c [
  | inl w ↦ Credited-Signal g (inl (Move-keeps won m refl w))
  | inr (no_success, no_after) ↦
      Credited-Signal g (inr (refl, Move-without runs_after m refl no_after))
]
Credited-Step (Step.finds_success h m) c = Credited-Move m refl (inr refl) c
Credited-Step (Step.finds_failure h m) c = Credited-Move m refl (inr refl) c
Credited-Step (Step.broadcasts {qs} m) c =
    Credited-calls qs (map wake qs) (any-wake won refl qs) (any-wake runs_after refl qs)
      (Credited-Move m refl (inr refl) c)
Credited-Step (Step.signals m g) c = Credited-Signal g (Credited-Move m refl (inr refl) c)

Reached-Credited : {calls : List Pc} {s : WaitSuccess} → Reached calls s → Credited s
unfolding new_wait_success
Reached-Credited {calls} (Reached.new h) = inr (refl, Credited-new calls h)
Reached-Credited (Reached.step r k) = Credited-Step k (Reached-Credited r)

-- In every state that calls of Run reach, in whatever order they take their steps: if a call runs `after`,
-- or has run it, then the `before` of some call has returned true.
pub Reached-won :
    {calls : List Pc} {s : WaitSuccess}
    → Reached calls s
    → any runs_after s.calls ≡ true
    → any won s.calls ≡ true
Reached-won r h = elim (Reached-Credited r) [ inl w ↦ w | inr (no_success, no_after) ↦ absurd (cc) ]
