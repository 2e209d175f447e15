-- ===== src/Protocol/Process/RunStdin.antt =====
-- Run of protocol/proccess.go: the standard input, which may be copied to a file for debugging.
use gocica.Base.{ℕ, List, [], Option, none, some, String, str_eq, if◌then◌else◌}
use gocica.Base.Go.{Error, Result, ok, err, Io}
use Prim.Native.String.{◌++◌ as ◌&◌}
use gocica.Log.{Logger, warnf}
use gocica.PkgIo.Reader.{Reader}
use gocica.Protocol.{Request}
use gocica.Protocol.Process.{Once, Process}
use gocica.Protocol.Process.Stdin.{Decoders, stdin_source, new_input}
use gocica.Protocol.Process.Stdout.{Encoder, run_encoded}

-- `none` is the nil *os.File.
abbrev pub leak_file : {File : Type 0} → Result File → Option File
leak_file (ok f) = some f
leak_file (err e) = none

abbrev pub warn_leak :
    {File : Type 0} → (Error → String) → Logger → Result File → List String → List String
warn_leak text l (ok f) printed = printed
warn_leak text l (err e) printed = warnf l ("failed to create stdin leak file: " & text e) printed

-- `create` is os.Create and `tee` is io.TeeReader of the standard input, on the state `L` of the leak
-- file; what becomes of the file, and its Close, are left out.
module _ {S R D L File W : Type 0} (encoder : Encoder W) (text : Error → String) (stdin : Reader R)
    (create : String → Io L File) (tee : Option File → Reader (R × L))
    (decoders : (Q : Type 0) → Decoders Q D) (schedule : List Request → List Request)
    (fuel : ℕ) where
  abbrev pub run_reader :
      {Q : Type 0} → Reader Q → Process S → Q → D → Once S → W → (Result (Unit {0}) × Once S) × W
  run_reader {Q} io p r d s w =
      run_encoded encoder (stdin_source io fuel (decoders Q)) schedule fuel p (new_input r d) s w

  -- The second part is what the logger printed.
  unfoldable pub run_stdin :
      Process S → R → L → D → Once S → W → ((Result (Unit {0}) × Once S) × W) × List String
  unfolding run_encoded stdin_source new_input warnf
  run_stdin p r l d s w =
      if str_eq p.debug_stdin_leak_file ""
      then (run_reader stdin p r d s w, [])
      else (let (f, l1) = create p.debug_stdin_leak_file l in
          (run_reader (tee (leak_file f)) p (r, l1) d s w, warn_leak text p.logger f []))
