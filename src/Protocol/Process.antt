-- ===== src/Protocol/Process.antt =====
-- The request loop of protocol/proccess.go.
pub mod RunStdin
pub mod Answers
pub mod Fuel
pub mod Stdin
pub mod Requests
pub mod Stdout
pub mod Exchange
use gocica.Base.{
  ℕ, zero, suc, Bool, true, false, not, ◌&&◌, List, [], ◌∷◌, ◌++◌, Option, none, some, String,
  Bytes, str_eq, length, ◌==◌, if◌then◌else◌,
}
use gocica.Base.Int64.{Int64, lt64}
use gocica.Base.Go.{Error, plain, wrap, join, is_error, Result, ok, err, wrapped}
use gocica.Log.{Logger, default_logger}
use gocica.Protocol.{Request, Response, Cmd, cmd_get, cmd_put, cmd_close, empty_response}

-- A handler fills the response that it is given, also when it fails.
abbrev pub Handler : Type 0 → Type 0
Handler S = Request → Response → S → (Response × Result (Unit {0})) × S

-- The state of the handlers, and whether the sync.Once of the close handler has run.
pub record Once (S : Type 0) : Type 0 where
  pub state : S
  pub closed : Bool

pub record Process (S : Type 0) : Type 0 where
  pub get_handler : Option (Handler S)
  pub put_handler : Option (Handler S)
  pub close_handler : Option (Once S → Result (Unit {0}) × Once S)
  pub logger : Logger
  pub response_buffer_size : Int64
  pub debug_stdin_leak_file : String

abbrev pub ProcessOption : Type 0 → Type 0
ProcessOption S = Process S → Process S

abbrev pub optional : {A : Type 0} → Option A → List Cmd → List Cmd
optional none cmds = []
optional (some _) cmds = cmds

-- The response that goes out: `res.Err = err.Error()` and `res.ID = req.ID`.
abbrev pub finish_response : Request → Response → Result (Unit {0}) → Response
finish_response req res (ok _) = record res { id = req.id }
finish_response req res (err e) = record res { id = req.id; failure = some e }

module _ {S : Type 0} where
  unfoldable pub with_get_handler : Handler S → ProcessOption S
  with_get_handler h o = record o { get_handler = some h }

  unfoldable pub with_put_handler : Handler S → ProcessOption S
  with_put_handler h o = record o { put_handler = some h }

  abbrev ran : Result (Unit {0}) × S → Result (Unit {0}) × Once S
  ran (r, s) = (r, record { state = s; closed = true })

  -- `once.Do`: a later call does nothing, and returns nil.
  unfoldable pub close_once : (S → Result (Unit {0}) × S) → Once S → Result (Unit {0}) × Once S
  close_once h o = if o.closed then (ok tt, o) else ran (h o.state)

  unfoldable pub with_close_handler : (S → Result (Unit {0}) × S) → ProcessOption S
  unfolding close_once
  with_close_handler h o = record o { close_handler = some (close_once h) }

  unfoldable pub with_response_buffer_size : Int64 → ProcessOption S
  with_response_buffer_size n o = record o {
    response_buffer_size = if lt64 0 n then n else o.response_buffer_size;
  }

  unfoldable pub with_logger : Logger → ProcessOption S
  with_logger l o = record o { logger = l }

  unfoldable pub with_debug_stdin_leak_file : String → ProcessOption S
  with_debug_stdin_leak_file file o = record o { debug_stdin_leak_file = file }

  abbrev apply_options : List (ProcessOption S) → Process S → Process S
  apply_options [] o = o
  apply_options (f ∷ fs) o = apply_options fs (f o)

  unfoldable pub new_process : List (ProcessOption S) → Process S
  new_process options = apply_options options (record {
    get_handler = none;
    put_handler = none;
    close_handler = none;
    logger = default_logger;
    response_buffer_size = 100;
    debug_stdin_leak_file = "";
  })

  unfoldable pub known_commands : Process S → List Cmd
  known_commands p =
      (cmd_close ∷ [])
      ++ optional p.get_handler (cmd_get ∷ [])
      ++ optional p.put_handler (cmd_put ∷ [])

  unfoldable pub close : Process S → Once S → Result (Unit {0}) × Once S
  close p s = elim p.close_handler [ none ↦ (ok tt, s) | some h ↦ h s ]

  abbrev on_state :
      (Response × Result (Unit {0})) × S → Once S → (Response × Result (Unit {0})) × Once S
  on_state (r, s') s = (r, record s { state = s' })

  abbrev pub call :
      String
      → Option (Handler S)
      → Request
      → Response
      → Once S
      → (Response × Result (Unit {0})) × Once S
  call what none req res s = ((res, err (plain what)), s)
  call what (some h) req res s = on_state (h req res s.state) s

  unfoldable pub handle :
      Process S → Request → Response → Once S → (Response × Result (Unit {0})) × Once S
  unfolding close
  handle p req res s =
      if str_eq req.command cmd_get
      then call "get command not supported" p.get_handler req res s
      else if str_eq req.command cmd_put
      then call "put command not supported" p.put_handler req res s
      else if str_eq req.command cmd_close
      then (let (r, s') = close p s in ((res, r), s'))
      else ((res, err (plain "unknown command")), s)

  -- The function that `run` gives to the decode loop. The context is not done while the loop runs, as
  -- no task of either group fails, so the response is sent.
  unfoldable pub answer : Process S → Request → Once S → Response × Once S
  unfolding handle
  answer p req s =
      let ((res, r), s') = handle p req empty_response s in (finish_response req res r, s')

  unfoldable pub answer_all : Process S → List Request → Once S → List Response × Once S
  unfolding answer
  answer_all p [] s = ([], s)
  answer_all p (req ∷ reqs) s =
      let (res, s1) = answer p req s in let (rest, s2) = answer_all p reqs s1 in (res ∷ rest, s2)

-- The reader of the requests: DelimReader.Next, the JSON decoder behind it, and the base64 text of a
-- body in quotes, decoded up to the end of the segment or an error.
pub record Source (R : Type 0) : Type 0 where
  pub next : R → Result (Unit {0}) × R
  pub decode : R → Result Request × R
  pub read_body : R → (Bytes × Option Error) × R

-- The requests that the loop starts, in order, and how it ends.
pub record Decoded : Type 0 where
  pub started : List Request
  pub result : Result (Unit {0})

abbrev pub stop : Result (Unit {0}) → Decoded
stop r = record { started = []; result = r }

-- io.EOF ends the loop without an error.
abbrev pub end_of : String → Error → Decoded
end_of what e = stop (if is_error e "EOF" then ok tt else err (wrap what e))

abbrev pub start : Request → Decoded → Decoded
start req d = record d { started = req ∷ d.started }

-- `err != nil && !errors.Is(err, io.EOF)`
abbrev pub real_error : Option Error → Option Error
real_error none = none
real_error (some e) = if is_error e "EOF" then none else some e

abbrev pub after_body : Request → Bytes → Option Error → Decoded → Decoded
after_body req buf (some e) rest = stop (err (wrap "read request body" e))
after_body req buf none rest =
    if length buf == req.body_size
    then start (record req { body = some buf }) rest
    else stop (err (plain "read request body: unexpected size"))

-- `req.Command == CmdPut && req.BodySize > 0`
abbrev pub has_body : Request → Bool
has_body req = str_eq req.command cmd_put && lt64 0 req.body_size

module _ {R : Type 0} (source : Source R) where
  -- A request that comes with its body.
  abbrev pub decode_body : Request → R → (R → Decoded) → Decoded
  decode_body req r rest =
      let (n, r1) = source.next r in
      elim n [
        | err e ↦ end_of "next request body" e
        | ok _ ↦
            let ((buf, failure), r2) = source.read_body r1 in
            after_body req buf (real_error failure) (rest r2)
      ]

  abbrev pub decode_request : Result Request × R → (R → Decoded) → Decoded
  decode_request (err e, r) rest = end_of "decode request" e
  decode_request (ok req, r) rest =
      if has_body req then decode_body req r rest else start req (rest r)

  -- The loop, on fuel. `Body` is not in the JSON text, so a decoded request has none.
  unfoldable pub decode_worker : ℕ → R → Decoded
  decode_worker zero r = stop (err (plain "out of fuel"))
  decode_worker (suc fuel) r =
      let (n, r1) = source.next r in
      elim n [
        | err e ↦ end_of "next request" e
        | ok _ ↦ decode_request (source.decode r1) (decode_worker fuel)
      ]

-- `if err == nil { err = deferErr } else { err = errors.Join(err, deferErr) }`
abbrev pub join_errors : Result (Unit {0}) → Result (Unit {0}) → Result (Unit {0})
join_errors r (ok _) = r
join_errors (ok _) (err e) = err e
join_errors (err d) (err e) = err (join d e)

-- `run`: the first response, the requests in the order that `schedule` gives to the goroutines that
-- handle them, and the cleanup. The encoder writes all responses and does not fail.
unfoldable pub run :
    {S R : Type 0}
    → Source R
    → (List Request → List Request)
    → ℕ
    → Process S
    → R
    → Once S
    → (List Response × Result (Unit {0})) × Once S
unfolding known_commands decode_worker answer_all close
run source schedule fuel p r s =
    let decoded = decode_worker source fuel r in
    let first = record empty_response { known_commands = known_commands p } in
    let (answers, s1) = answer_all p (schedule decoded.started) s in
    let (closed, s2) = close p s1 in
    (
      (
        first ∷ answers,
        join_errors (wrapped "decode worker" decoded.result) (wrapped "close process" closed),
      ),
      s2,
    )
