-- ===== src/Protocol/Process/Answers.antt =====
-- Every request is answered once, and the process is closed once.
use mathlib.Core.List.{Permᴰ}
use gocica.Base.{
  ℕ, ◌+◌, ◌≡◌, refl, ap, ap₂, sym, subst, ◌∙◌, Bool, true, false, Bool-cases, List, [], ◌∷◌, map,
  Option, none, some, arith, inl, inr, String, str_eq,
}
use gocica.Base.Go.{Result, ok, err}
use gocica.Protocol.{Request, Response, empty_response, cmd_get, cmd_put, cmd_close}
use gocica.Protocol.Process.{
  Handler, Once, Process, Source, close_once, close, call, handle, answer, answer_all,
  finish_response, decode_worker, run,
}

module _ {S : Type 0} (p : Process S) where
  finish_response-id :
      (req : Request) (res : Response) (r : Result (Unit {0}))
      → (finish_response req res r).id ≡ req.id
  finish_response-id req res (ok _) = refl
  finish_response-id req res (err e) = refl

  answer_all-ids :
      (reqs : List Request) (s : Once S)
      → map (λ res. res.id) (answer_all p reqs s).0 ≡ map (λ req. req.id) reqs
  unfolding answer_all answer
  answer_all-ids [] s = refl
  answer_all-ids (req ∷ reqs) s =
      let ((res, r), s') = handle p req empty_response s in
      ap₂ ◌∷◌ (finish_response-id req res r) (answer_all-ids reqs s')

map-Perm : {A B : Type 0} {xs ys : List A} (f : A → B) → Permᴰ xs ys → Permᴰ (map f xs) (map f ys)
map-Perm f Permᴰ.nil = Permᴰ.nil
map-Perm f (Permᴰ.cons e p) = Permᴰ.cons (ap f e) (map-Perm f p)
map-Perm f (Permᴰ.swap e g) = Permᴰ.swap (ap f e) (ap f g)
map-Perm f (Permᴰ.trans p q) = Permᴰ.trans (map-Perm f p) (map-Perm f q)

-- In whatever order the requests are handled, the responses carry 0, the id of the first response,
-- and then the id of each request that was read, each as often as it was read.
pub run-ids :
    {S R : Type 0} (source : Source R) (schedule : List Request → List Request) (fuel : ℕ)
    (p : Process S) (r : R) (s : Once S)
    → ((reqs : List Request) → Permᴰ reqs (schedule reqs))
    → Permᴰ
        (0 ∷ map (λ req. req.id) (decode_worker source fuel r).started)
        (map (λ res. res.id) (run source schedule fuel p r s).0.0)
unfolding run
run-ids source schedule fuel p r s perm =
    let started = (decode_worker source fuel r).started in
    Permᴰ.cons refl (
      subst (Permᴰ (map (λ req. req.id) started)) (sym (answer_all-ids p (schedule started) s))
        (map-Perm (λ req. req.id) (perm started)))

module _ {S : Type 0} (p : Process S) (h : S → Result (Unit {0}) × S) (count : S → ℕ)
    (closes : p.close_handler ≡ some (close_once h))
    (close_counts : (s : S) → count (h s).1 ≡ count s + 1)
    (handler_keeps : (g : Handler S) (req : Request) (res : Response) (s : S)
      → (p.get_handler ≡ some g → count (g req res s).1 ≡ count s)
        × (p.put_handler ≡ some g → count (g req res s).1 ≡ count s)) where
  -- The calls so far, and the one to come if the process is not closed.
  abbrev to_come : Bool → ℕ
  to_come true = 0
  to_come false = 1

  abbrev due : Once S → ℕ
  due s = count s.state + to_come s.closed

  close-due : (s : Once S) → (due (close p s).1 ≡ due s) × ((close p s).1.closed ≡ true)
  unfolding close close_once
  close-due s = elim (Bool-cases s.closed) [
    | inl e ↦ rw (closes, e) (refl, refl)
    | inr e ↦ rw (closes, e) (omega (arith, close_counts s.state), refl)
  ]

  call_keeps :
      (what : String) (g : Option (Handler S)) (req : Request) (res : Response) (s : Once S)
      → ((k : Handler S) → g ≡ some k → count (k req res s.state).1 ≡ count s.state)
      → due (call what g req res s).1 ≡ due s
  call_keeps what none req res s h = refl
  call_keeps what (some k) req res s h = ap (λ n. n + to_come s.closed) (h k refl)

  handle-due : (req : Request) (res : Response) (s : Once S) → due (handle p req res s).1 ≡ due s
  unfolding handle
  handle-due req res s =
      let got =
        call_keeps "get command not supported" p.get_handler req res s
          (λ k. (handler_keeps k req res s.state).0) in
      let put =
        call_keeps "put command not supported" p.put_handler req res s
          (λ k. (handler_keeps k req res s.state).1) in
      elim (Bool-cases (str_eq req.command cmd_get)) [
        | inl e ↦ rw e got
        | inr e ↦ elim (Bool-cases (str_eq req.command cmd_put)) [
          | inl e' ↦ rw (e, e') put
          | inr e' ↦ elim (Bool-cases (str_eq req.command cmd_close)) [
            | inl e'' ↦ rw (e, e', e'') (close-due s).0
            | inr e'' ↦ rw (e, e', e'') refl
          ]
        ]
      ]

  answer_all-due : (reqs : List Request) (s : Once S) → due (answer_all p reqs s).1 ≡ due s
  unfolding answer_all answer
  answer_all-due [] s = refl
  answer_all-due (req ∷ reqs) s =
      answer_all-due reqs (handle p req empty_response s).1 ∙ handle-due req empty_response s

  -- A run from an open process calls the close handler exactly once, however many close requests it
  -- reads, in whatever order they are handled. `count` is a count of its calls: the close handler
  -- raises it by 1, and the other handlers keep it.
  pub run-closes_once :
      {R : Type 0} (source : Source R) (schedule : List Request → List Request) (fuel : ℕ) (r : R)
      (s : Once S)
      → s.closed ≡ false
      → count (run source schedule fuel p r s).1.state ≡ count s.state + 1
  unfolding run
  run-closes_once source schedule fuel r s open_ =
      let reqs = schedule (decode_worker source fuel r).started in
      let after = (answer_all p reqs s).1 in
      let kept : due after ≡ due s = answer_all-due reqs s in
      let (same, closed) = close-due after in
      let end : due (close p after).1 ≡ count (close p after).1.state = rw closed (omega arith) in
      let begin : due s ≡ count s.state + 1 = rw open_ refl in sym end ∙ same ∙ kept ∙ begin
