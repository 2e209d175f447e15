-- ===== src/Protocol.antt =====
-- The messages of protocol/model.go.
pub mod Process
use gocica.Base.{Bool, false, List, [], Option, none, String, Bytes}
use gocica.Base.Int64.{Int64}
use gocica.Base.Go.{Error}

abbrev pub Cmd : Type 0
Cmd = String

abbrev pub cmd_get : Cmd
cmd_get = "get"

abbrev pub cmd_put : Cmd
cmd_put = "put"

abbrev pub cmd_close : Cmd
cmd_close = "close"

-- A nil Body is `none`.
pub record Request : Type 0 where
  pub id : Int64
  pub command : Cmd
  pub action_id : String
  pub output_id : String
  pub body_size : Int64
  pub body : Option Bytes

-- `failure` is the error whose text is in Err; an empty Err is `none`.
pub record Response : Type 0 where
  pub id : Int64
  pub failure : Option Error
  pub known_commands : List Cmd
  pub miss : Bool
  pub output_id : String
  pub size : Int64
  pub time_nanos : Int64
  pub disk_path : String

-- Response{}
abbrev pub empty_response : Response
empty_response = record {
  id = 0;
  failure = none;
  known_commands = [];
  miss = false;
  output_id = "";
  size = 0;
  time_nanos = 0;
  disk_path = "";
}
