-- ===== src/Locker.antt =====
-- internal/pkg/locker/wait_success.go: several calls of `Run` on one WaitSuccess, as steps that
-- interleave. What is done under the mutex is one step, since no other call can come between.
pub mod Moves
pub mod Success
pub mod Live
pub mod Progress
use gocica.Base.{◌≡◌, Bool, true, false, not, ◌&&◌, ◌||◌, List, [], ◌∷◌, map, any}

-- Where a call of Run is: before its first lock; in cond.Wait; signalled, but still without the lock;
-- behind the first lock; in `before`; in `after`; before the last Broadcast or Signal of a call that ran
-- `after`; returned, with the result of its `before`, or with none.
pub data Pc : Type 0 where
  start waiting woken entered in_before in_after broadcasting signalling : Pc
  finished : (result : Bool) → Pc
  returned : Pc

pub record WaitSuccess : Type 0 where
  pub is_running : Bool
  pub succeeded : Bool
  pub calls : List Pc

-- `calls` is one for every call of Run.
abbrev pub all_start : List Pc → Bool
all_start [] = true
all_start (start ∷ ps) = all_start ps
all_start (_ ∷ ps) = false

unfoldable pub new_wait_success : List Pc → WaitSuccess
new_wait_success calls = record { is_running = false; succeeded = false; calls = calls }

-- One call goes from `a` to `b`.
pub data Move (a b : Pc) : List Pc → List Pc → Type 0 where
  here : {ps : List Pc} → Move a b (a ∷ ps) (b ∷ ps)
  there : {p : Pc} {ps qs : List Pc} → Move a b ps qs → Move a b (p ∷ ps) (p ∷ qs)

abbrev pub is_waiting : Pc → Bool
is_waiting waiting = true
is_waiting _ = false

-- cond.Broadcast wakes every call that waits.
abbrev pub wake : Pc → Pc
wake waiting = woken
wake p = p

-- cond.Signal wakes one call that waits, if there is any.
pub data Signal : List Pc → List Pc → Type 0 where
  wakes : {ps qs : List Pc} → Move waiting woken ps qs → Signal ps qs
  idle : {ps : List Pc} → any is_waiting ps ≡ false → Signal ps ps

pub data Step (s : WaitSuccess) : WaitSuccess → Type 0 where
  -- cond.Wait, once, without a test behind it
  waits :
      {qs : List Pc}
      → (s.is_running && not s.succeeded) ≡ true
      → Move start waiting s.calls qs
      → Step s (record s { calls = qs })
  enters :
      {qs : List Pc}
      → (s.is_running && not s.succeeded) ≡ false
      → Move start entered s.calls qs
      → Step s (record s { is_running = true; calls = qs })
  enters_woken :
      {qs : List Pc}
      → Move woken entered s.calls qs
      → Step s (record s { is_running = true; calls = qs })
  runs_after :
      {qs : List Pc}
      → s.succeeded ≡ true
      → Move entered in_after s.calls qs
      → Step s (record s { calls = qs })
  runs_before :
      {qs : List Pc}
      → s.succeeded ≡ false
      → Move entered in_before s.calls qs
      → Step s (record s { calls = qs })
  -- `before` returns, and the rest of its call under the lock
  succeeds :
      {qs : List Pc}
      → Move in_before (finished true) s.calls qs
      → Step s (record { is_running = false; succeeded = true; calls = map wake qs })
  fails :
      {qs rs : List Pc}
      → Move in_before (finished false) s.calls qs
      → Signal qs rs
      → Step s (record { is_running = false; succeeded = false; calls = rs })
  -- `after` returns, and the test behind it
  finds_success :
      {qs : List Pc}
      → s.succeeded ≡ true
      → Move in_after broadcasting s.calls qs
      → Step s (record s { calls = qs })
  finds_failure :
      {qs : List Pc}
      → s.succeeded ≡ false
      → Move in_after signalling s.calls qs
      → Step s (record s { calls = qs })
  broadcasts :
      {qs : List Pc}
      → Move broadcasting returned s.calls qs
      → Step s (record s { calls = map wake qs })
  signals :
      {qs rs : List Pc}
      → Move signalling returned s.calls qs
      → Signal qs rs
      → Step s (record s { calls = rs })

-- What steps lead to from a new WaitSuccess.
pub data Reached (calls : List Pc) : WaitSuccess → Type 0 where
  new : all_start calls ≡ true → Reached calls (new_wait_success calls)
  step : {s t : WaitSuccess} → Reached calls s → Step s t → Reached calls t
