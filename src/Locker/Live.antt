-- ===== src/Locker/Live.antt =====
-- No call of Run is left waiting: each step leaves fewer to take, and while a call waits another is active.
use gocica.Base.{
  ℕ, ◌+◌, ◌≤◌, ◌<◌, ◌≡◌, refl, ◌∙◌, ◌⊎◌, inl, inr, Bool, true, false, not, ◌&&◌, List, [], ◌∷◌, map,
  any, arith,
}
use gocica.Locker.{
  Pc, waiting, woken, start, entered, in_before, in_after, broadcasting, signalling, finished,
  returned, WaitSuccess, Move, Signal, Step, Reached, wake, is_waiting, all_start, new_wait_success,
}
use gocica.Locker.Moves.{
  any-Move, Move-source, Move-target, Move-keeps, any-wake, any-Signal, any-is_waiting-wake,
}

-- The most steps that a call can still take.
abbrev pub steps_left : Pc → ℕ
steps_left start = 7
steps_left waiting = 6
steps_left woken = 5
steps_left entered = 4
steps_left in_before = 1
steps_left in_after = 3
steps_left broadcasting = 1
steps_left signalling = 1
steps_left (finished result) = 0
steps_left returned = 0

abbrev pub all_steps : List Pc → ℕ
all_steps [] = 0
all_steps (p ∷ ps) = steps_left p + all_steps ps

all_steps-Move :
    {a b : Pc} {ps qs : List Pc}
    → Move a b ps qs
    → steps_left b < steps_left a
    → all_steps qs < all_steps ps
all_steps-Move Move.here h = omega (arith, h)
all_steps-Move (Move.there m) h = omega (arith, all_steps-Move m h)

wake-less : (p : Pc) → steps_left (wake p) ≤ steps_left p
wake-less start = omega arith
wake-less waiting = omega arith
wake-less woken = omega arith
wake-less entered = omega arith
wake-less in_before = omega arith
wake-less in_after = omega arith
wake-less broadcasting = omega arith
wake-less signalling = omega arith
wake-less (finished result) = omega arith
wake-less returned = omega arith

all_steps-wake : (ps : List Pc) → all_steps (map wake ps) ≤ all_steps ps
all_steps-wake [] = omega arith
all_steps-wake (p ∷ ps) = omega (arith, wake-less p, all_steps-wake ps)

all_steps-Signal : {ps qs : List Pc} → Signal ps qs → all_steps qs ≤ all_steps ps
all_steps-Signal (Signal.wakes m) = let less = all_steps-Move m (omega arith) in omega (arith, less)
all_steps-Signal (Signal.idle h) = omega arith

pub Step-less : {s t : WaitSuccess} → Step s t → all_steps t.calls < all_steps s.calls
Step-less (Step.waits h m) = all_steps-Move m (omega arith)
Step-less (Step.enters h m) = all_steps-Move m (omega arith)
Step-less (Step.enters_woken m) = all_steps-Move m (omega arith)
Step-less (Step.runs_after h m) = all_steps-Move m (omega arith)
Step-less (Step.runs_before h m) = all_steps-Move m (omega arith)
Step-less (Step.succeeds {qs} m) =
    let less = all_steps-Move m (omega arith) in omega (arith, less, all_steps-wake qs)
Step-less (Step.fails m g) =
    let less = all_steps-Move m (omega arith) in omega (arith, less, all_steps-Signal g)
Step-less (Step.finds_success h m) = all_steps-Move m (omega arith)
Step-less (Step.finds_failure h m) = all_steps-Move m (omega arith)
Step-less (Step.broadcasts {qs} m) =
    let less = all_steps-Move m (omega arith) in omega (arith, less, all_steps-wake qs)
Step-less (Step.signals m g) =
    let less = all_steps-Move m (omega arith) in omega (arith, less, all_steps-Signal g)

-- The calls that take the next step, and those of them that decide what comes of `is_running`.
abbrev pub active : Pc → Bool
active woken = true
active entered = true
active in_before = true
active in_after = true
active broadcasting = true
active signalling = true
active _ = false

abbrev pub deciding : Pc → Bool
deciding entered = true
deciding in_before = true
deciding _ = false

-- While `is_running` holds without a success, some call decides; while a call waits, some call is active.
pub record IsLive (s : WaitSuccess) : Type 0 where
  pub running : ((s.is_running && not s.succeeded) ≡ false) ⊎ (any deciding s.calls ≡ true)
  pub waited : (any is_waiting s.calls ≡ false) ⊎ (any active s.calls ≡ true)

deciding-active : (p : Pc) → deciding p ≡ true → active p ≡ true
deciding-active start h = cc
deciding-active waiting h = cc
deciding-active woken h = cc
deciding-active entered h = refl
deciding-active in_before h = refl
deciding-active in_after h = cc
deciding-active broadcasting h = cc
deciding-active signalling h = cc
deciding-active (finished result) h = cc
deciding-active returned h = cc

any-active : (ps : List Pc) → any deciding ps ≡ true → any active ps ≡ true
any-active ps h =
    let (a, decides, moves) = any-Move deciding ps h in
    let (qs, m) = moves a in Move-source active m (deciding-active a decides)

and_false : (a b : Bool) → b ≡ true → (a && not b) ≡ false
and_false true b h = rw h refl
and_false false b h = refl

running-Move :
    {a b : Pc} {ps qs : List Pc} {still : Bool}
    → Move a b ps qs
    → deciding a ≡ false
    → (still ≡ false) ⊎ (any deciding ps ≡ true)
    → (still ≡ false) ⊎ (any deciding qs ≡ true)
running-Move m idle (inl e) = inl e
running-Move m idle (inr h) = inr (Move-keeps deciding m idle h)

running-calls :
    (ps qs : List Pc) {still : Bool}
    → any deciding qs ≡ any deciding ps
    → (still ≡ false) ⊎ (any deciding ps ≡ true)
    → (still ≡ false) ⊎ (any deciding qs ≡ true)
running-calls ps qs e (inl h) = inl h
running-calls ps qs e (inr h) = inr (e ∙ h)

waited-Signal :
    {ps qs : List Pc} → Signal ps qs → (any is_waiting qs ≡ false) ⊎ (any active qs ≡ true)
waited-Signal (Signal.idle h) = inl h
waited-Signal (Signal.wakes m) = inr (Move-target active m refl)

IsLive-Step : {s t : WaitSuccess} → Step s t → IsLive s → IsLive t
IsLive-Step {s} (Step.waits h m) l = record {
  running = running-Move m refl l.running;
  waited = inr (
      Move-keeps active m refl
        (any-active s.calls (elim l.running [ inl e ↦ absurd (cc) | inr e ↦ e ])));
}
IsLive-Step (Step.enters h m) l = record {
  running = inr (Move-target deciding m refl);
  waited = inr (Move-target active m refl);
}
IsLive-Step (Step.enters_woken m) l = record {
  running = inr (Move-target deciding m refl);
  waited = inr (Move-target active m refl);
}
IsLive-Step {s} (Step.runs_after h m) l = record {
  running = inl (and_false s.is_running s.succeeded h);
  waited = inr (Move-target active m refl);
}
IsLive-Step (Step.runs_before h m) l = record {
  running = inr (Move-target deciding m refl);
  waited = inr (Move-target active m refl);
}
IsLive-Step (Step.succeeds {qs} m) l = record {
  running = inl refl;
  waited = inl (any-is_waiting-wake qs);
}
IsLive-Step (Step.fails m g) l = record { running = inl refl; waited = waited-Signal g }
IsLive-Step (Step.finds_success h m) l = record {
  running = running-Move m refl l.running;
  waited = inr (Move-target active m refl);
}
IsLive-Step (Step.finds_failure h m) l = record {
  running = running-Move m refl l.running;
  waited = inr (Move-target active m refl);
}
IsLive-Step (Step.broadcasts {qs} m) l = record {
  running =
      running-calls qs (map wake qs) (any-wake deciding refl qs) (running-Move m refl l.running);
  waited = inl (any-is_waiting-wake qs);
}
IsLive-Step (Step.signals {qs} {rs} m g) l = record {
  running = running-calls qs rs (any-Signal deciding refl g) (running-Move m refl l.running);
  waited = waited-Signal g;
}

none_waits : (ps : List Pc) → all_start ps ≡ true → any is_waiting ps ≡ false
none_waits [] h = refl
none_waits (start ∷ ps) h = none_waits ps h
none_waits (waiting ∷ ps) h = cc
none_waits (woken ∷ ps) h = cc
none_waits (entered ∷ ps) h = cc
none_waits (in_before ∷ ps) h = cc
none_waits (in_after ∷ ps) h = cc
none_waits (broadcasting ∷ ps) h = cc
none_waits (signalling ∷ ps) h = cc
none_waits (finished result ∷ ps) h = cc
none_waits (returned ∷ ps) h = cc

pub Reached-IsLive : {calls : List Pc} {s : WaitSuccess} → Reached calls s → IsLive s
unfolding new_wait_success
Reached-IsLive {calls} (Reached.new h) = record {
  running = inl refl;
  waited = inl (none_waits calls h);
}
Reached-IsLive (Reached.step r k) = IsLive-Step k (Reached-IsLive r)
