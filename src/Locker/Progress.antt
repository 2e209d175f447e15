-- ===== src/Locker/Progress.antt =====
-- Every call of Run returns, if `before` and `after` return.
use gocica.Base.{
  ℕ, suc, ◌+◌, ◌*◌, ◌≤◌, ◌≡◌, refl, subst, inl, inr, Bool, true, false, not, ◌&&◌, Bool-cases, List,
  [], ◌∷◌, any, length, arith,
}
use gocica.Locker.{
  Pc, waiting, woken, start, entered, in_before, in_after, broadcasting, signalling, finished,
  returned, WaitSuccess, Move, Signal, Step, Reached, is_waiting, all_start, new_wait_success,
}
use gocica.Locker.Moves.{any-Move, Move-source}
use gocica.Locker.Live.{active, all_steps, Step-less, IsLive, Reached-IsLive}

abbrev pub unfinished : Pc → Bool
unfinished (finished result) = false
unfinished returned = false
unfinished _ = true

is_waiting_only : (p : Pc) → is_waiting p ≡ true → p ≡ waiting
is_waiting_only start h = cc
is_waiting_only waiting h = refl
is_waiting_only woken h = cc
is_waiting_only entered h = cc
is_waiting_only in_before h = cc
is_waiting_only in_after h = cc
is_waiting_only broadcasting h = cc
is_waiting_only signalling h = cc
is_waiting_only (finished result) h = cc
is_waiting_only returned h = cc

Signal-total : (ps : List Pc) → (qs : List Pc) × Signal ps qs
Signal-total ps = elim (Bool-cases (any is_waiting ps)) [
  | inr h ↦ (ps, Signal.idle h)
  | inl h ↦
      let (a, waits, moves) = any-Move is_waiting ps h in
      let (qs, m) = moves woken in
      (qs, Signal.wakes (subst (λ p. Move p woken ps qs) (is_waiting_only a waits) m))
]

abbrev Moves : WaitSuccess → Pc → Type 0
Moves s a = (b : Pc) → (qs : List Pc) × Move a b s.calls qs

abbrev Next : WaitSuccess → Type 0
Next s = (t : WaitSuccess) × Step s t

-- A call that can go on does.
start-Next : (s : WaitSuccess) → Moves s start → Next s
start-Next s moves = elim (Bool-cases (s.is_running && not s.succeeded)) [
  | inl h ↦ let (qs, m) = moves waiting in (_, Step.waits h m)
  | inr h ↦ let (qs, m) = moves entered in (_, Step.enters h m)
]

active-Next : (s : WaitSuccess) (a : Pc) → active a ≡ true → Moves s a → Next s
active-Next s woken h moves = let (qs, m) = moves entered in (_, Step.enters_woken m)
active-Next s entered h moves = elim (Bool-cases s.succeeded) [
  | inl won ↦ let (qs, m) = moves in_after in (_, Step.runs_after won m)
  | inr lost ↦ let (qs, m) = moves in_before in (_, Step.runs_before lost m)
]
active-Next s in_before h moves = let (qs, m) = moves (finished true) in (_, Step.succeeds m)
active-Next s in_after h moves = elim (Bool-cases s.succeeded) [
  | inl won ↦ let (qs, m) = moves broadcasting in (_, Step.finds_success won m)
  | inr lost ↦ let (qs, m) = moves signalling in (_, Step.finds_failure lost m)
]
active-Next s broadcasting h moves = let (qs, m) = moves returned in (_, Step.broadcasts m)
active-Next s signalling h moves =
    let (qs, m) = moves returned in let (rs, g) = Signal-total qs in (_, Step.signals m g)
active-Next s start h moves = cc
active-Next s waiting h moves = cc
active-Next s (finished result) h moves = cc
active-Next s returned h moves = cc

waiting-Next : (s : WaitSuccess) → IsLive s → Moves s waiting → Next s
waiting-Next s live moves = elim live.waited [
  | inl nobody ↦ let (qs, m) = moves woken in absurd (cc (Move-source is_waiting m refl))
  | inr somebody ↦ let (a, h, other) = any-Move active s.calls somebody in active-Next s a h other
]

unfinished-Next : (s : WaitSuccess) (a : Pc) → IsLive s → unfinished a ≡ true → Moves s a → Next s
unfinished-Next s start live h moves = start-Next s moves
unfinished-Next s waiting live h moves = waiting-Next s live moves
unfinished-Next s woken live h moves = active-Next s woken refl moves
unfinished-Next s entered live h moves = active-Next s entered refl moves
unfinished-Next s in_before live h moves = active-Next s in_before refl moves
unfinished-Next s in_after live h moves = active-Next s in_after refl moves
unfinished-Next s broadcasting live h moves = active-Next s broadcasting refl moves
unfinished-Next s signalling live h moves = active-Next s signalling refl moves
unfinished-Next s (finished result) live h moves = cc
unfinished-Next s returned live h moves = cc

-- A run, and its number of steps.
pub data Run : WaitSuccess → WaitSuccess → ℕ → Type 0 where
  stop : {s : WaitSuccess} → Run s s 0
  next : {s t u : WaitSuccess} {n : ℕ} → Step s t → Run t u n → Run s u (suc n)

-- In every state that calls of Run reach, in whatever order they take their steps, some call can take a
-- step, unless all have returned: a call that waits is not left without one that wakes it.
pub Reached-Next :
    {calls : List Pc} {s : WaitSuccess}
    → Reached calls s
    → any unfinished s.calls ≡ true
    → (t : WaitSuccess) × Step s t
Reached-Next {calls} {s} r h =
    let (a, k, moves) = any-Move unfinished s.calls h in
    unfinished-Next s a (Reached-IsLive r) k moves

Run-less : {s t : WaitSuccess} {n : ℕ} → Run s t n → n + all_steps t.calls ≤ all_steps s.calls
Run-less Run.stop = omega arith
Run-less (Run.next k r) = omega (arith, Step-less k, Run-less r)

all_steps-start : (ps : List Pc) → all_start ps ≡ true → all_steps ps ≡ 7 * length ps
all_steps-start [] h = refl
all_steps-start (start ∷ ps) h = omega (arith, all_steps-start ps h)
all_steps-start (waiting ∷ ps) h = cc
all_steps-start (woken ∷ ps) h = cc
all_steps-start (entered ∷ ps) h = cc
all_steps-start (in_before ∷ ps) h = cc
all_steps-start (in_after ∷ ps) h = cc
all_steps-start (broadcasting ∷ ps) h = cc
all_steps-start (signalling ∷ ps) h = cc
all_steps-start (finished result ∷ ps) h = cc
all_steps-start (returned ∷ ps) h = cc

-- A run of calls of Run takes at most seven steps for each of them, in whatever order they take them.
pub Run-bounded :
    (calls : List Pc) {t : WaitSuccess} {n : ℕ}
    → all_start calls ≡ true
    → Run (new_wait_success calls) t n
    → n ≤ 7 * length calls
unfolding new_wait_success
Run-bounded calls h r = omega (arith, Run-less r, all_steps-start calls h)
