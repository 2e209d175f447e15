-- ===== src/Examples/Locks.antt =====
-- Calls of Run that wait for each other, and the names of files.
use gocica.Base.{◌*◌, ◌≤◌, String, ◌≡◌, refl, true, false, List, [], ◌∷◌, any}
use gocica.Local.{encode_id}
use gocica.Local.Paths.{Without, encode_id-injective}
use gocica.Locker.{
  Pc, start, waiting, woken, entered, in_before, in_after, finished, WaitSuccess, Move, Signal,
  Step, Reached, new_wait_success,
}
use gocica.Locker.Success.{won, Reached-won}
use gocica.Locker.Progress.{Run, Reached-Next, Run-bounded}

abbrev at : List Pc → WaitSuccess
at calls = record { is_running = true; succeeded = false; calls = calls }

-- The second call waits for the first, which succeeds.
abbrev two : List Pc
two = start ∷ start ∷ []

second_waits : Reached two (at (entered ∷ waiting ∷ []))
unfolding new_wait_success
second_waits =
    Reached.step (Reached.step (Reached.new refl) (Step.enters refl Move.here))
      (Step.waits refl (Move.there Move.here))

abbrev won_state : List Pc → WaitSuccess
won_state calls = record { is_running = true; succeeded = true; calls = calls }

second_runs_after : Reached two (won_state (finished true ∷ in_after ∷ []))
second_runs_after =
    Reached.step
      (Reached.step
        (Reached.step (Reached.step second_waits (Step.runs_before refl Move.here))
          (Step.succeeds Move.here))
        (Step.enters_woken (Move.there Move.here)))
      (Step.runs_after refl (Move.there Move.here))

Reached-won_example : any won (finished true ∷ in_after ∷ []) ≡ true
Reached-won_example = Reached-won second_runs_after refl

Reached-Next_example : (t : WaitSuccess) × Step (at (entered ∷ waiting ∷ [])) t
Reached-Next_example = Reached-Next second_waits refl

two_steps : Run (new_wait_success two) (at (entered ∷ waiting ∷ [])) 2
unfolding new_wait_success
two_steps =
    Run.next (Step.enters refl Move.here)
      (Run.next (Step.waits refl (Move.there Move.here)) Run.stop)

Run-bounded_example : 2 ≤ 7 * 2
Run-bounded_example = Run-bounded two refl two_steps

-- A call that enters between a failure and the call that it woke: two calls are in `before` at once, and
-- a success is taken back.
abbrev three : List Pc
three = start ∷ start ∷ start ∷ []

first_fails :
    Reached three (record {
      is_running = false;
      succeeded = false;
      calls = finished false ∷ woken ∷ start ∷ [];
    })
unfolding new_wait_success
first_fails =
    Reached.step
      (Reached.step
        (Reached.step (Reached.step (Reached.new refl) (Step.enters refl Move.here))
          (Step.waits refl (Move.there Move.here)))
        (Step.runs_before refl Move.here))
      (Step.fails Move.here (Signal.wakes (Move.there Move.here)))

two_in_before : Reached three (at (finished false ∷ in_before ∷ in_before ∷ []))
two_in_before =
    Reached.step
      (Reached.step
        (Reached.step
          (Reached.step first_fails (Step.enters refl (Move.there (Move.there Move.here))))
          (Step.enters_woken (Move.there Move.here)))
        (Step.runs_before refl (Move.there Move.here)))
      (Step.runs_before refl (Move.there (Move.there Move.here)))

success_lost :
    (s : WaitSuccess) × (t : WaitSuccess) × Reached three s
    × (s.succeeded ≡ true)
    × Step s t
    × (t.succeeded ≡ false)
success_lost = (
  _,
  _,
  Reached.step two_in_before (Step.succeeds (Move.there (Move.there Move.here))),
  refl,
  Step.fails (Move.there Move.here) (Signal.idle refl),
  refl,
)

-- Output ids of the go command, which have no dash.
no_dash : Without b'-' "ab/c"
no_dash = (refl, (refl, (refl, (refl, tt))))

same_file : encode_id "ab/c" ≡ encode_id "ab-c"
unfolding encode_id
same_file = refl

encode_id-injective_example : ◌≡◌ {A = String} "ab/c" "ab/c"
encode_id-injective_example = encode_id-injective "ab/c" "ab/c" no_dash no_dash refl
