-- ===== src/Client.antt =====
-- cmd/dicta/main.go and proto/client.go: one command on the command line. What package flag makes of the
-- arguments, and what happens at the socket, are parameters.
pub mod Served
mod Tests
use dicta.Base.{
  ℕ, ◌≡◌, refl, Bool, true, false, not, ◌||◌, List, [], ◌∷◌, Option, none, some, Text, codes,
  is_empty, text_eq, if◌then◌else◌,
}
use dicta.Base.Ints.{ℤ, pos}
use dicta.Control.{Command, Response}

pub data Read : Type 0 where
  line : Option Response → Read
  read_error no_line : Read

-- What happens at the socket of one call: the errors of the dial and of the write, and what is read,
-- with what the line decodes to.
pub record Wire : Type 0 where
  pub dial_fails : Bool
  pub write_fails : Bool
  pub read : Read

pub data SendError : Type 0 where
  dial write read_response no_response decode_response : SendError

pub data Sent : Type 0 where
  answered : Response → Sent
  failed : SendError → Sent

abbrev pub decoded : Read → Sent
decoded read_error = failed read_response
decoded no_line = failed no_response
decoded (line none) = failed decode_response
decoded (line (some r)) = answered r

-- `Send`.
unfoldable pub send : Wire → Sent
send w =
    if w.dial_fails then failed dial else if w.write_fails then failed write else decoded w.read

-- The global flags and the arguments behind them.
pub record Global : Type 0 where
  pub socket : Text
  pub timeout : ℤ
  pub timeout_set : Bool
  pub rest : List Text

-- `parse_mode` and `parse_text` are the flag sets of toggle_talk and commit; `none` is an error.
pub record Env : Type 0 where
  pub parse : List Text → Option Global
  pub parse_mode : List Text → Option Text
  pub parse_text : List Text → Option Text
  pub default_socket : Option Text
  pub call : Text → Command → ℤ → Wire
  pub prints : Bool
  pub probe_mute : List Text → ℕ

-- The exit code, and the commands that were sent, each to a socket under a timeout.
pub record Run : Type 0 where
  pub code : ℕ
  pub calls : List (Text × Command × ℤ)

abbrev pub quits : ℕ → Run
quits code = record { code = code; calls = [] }

abbrev pub exit_code : Bool → Sent → ℕ
exit_code prints (failed err) = 1
exit_code prints (answered r) = if not prints then 1 else if not r.ok then 1 else 0

abbrev pub plain : Text → Command
plain cmd = record { cmd = cmd; mode = []; text = []; name = []; is_reset = false; events = [] }

abbrev pub check_client_timeout : ℤ
check_client_timeout = pos 35_000_000_000

module _ (e : Env) where
  unfoldable pub send_and_print : Text → Command → ℤ → Run
  unfolding send
  send_and_print socket cmd timeout = record {
    code = exit_code e.prints (send (e.call socket cmd timeout));
    calls = (socket, cmd, timeout) ∷ [];
  }

  unfoldable pub run_check : Text → ℤ → Bool → Run
  unfolding send_and_print
  run_check socket timeout timeout_set =
      send_and_print socket (plain (codes "check"))
        (if not timeout_set then check_client_timeout else timeout)

  abbrev pub toggle : Text → ℤ → Option Text → Run
  unfolding send_and_print
  toggle socket timeout none = quits 2
  toggle socket timeout (some mode) =
      if text_eq mode (codes "type") || text_eq mode (codes "clip")
      then send_and_print socket (record (plain (codes "toggle_talk")) { mode = mode }) timeout
      else quits 2

  unfoldable pub run_toggle : Text → ℤ → List Text → Run
  unfolding toggle
  run_toggle socket timeout args = toggle socket timeout (e.parse_mode args)

  abbrev pub commit : Text → ℤ → Option Text → Run
  unfolding send_and_print
  commit socket timeout none = quits 2
  commit socket timeout (some text) =
      send_and_print socket (record (plain (codes "commit")) { text = text }) timeout

  unfoldable pub run_commit : Text → ℤ → List Text → Run
  unfolding commit
  run_commit socket timeout args = commit socket timeout (e.parse_text args)

  -- The switch on the command.
  unfoldable pub dispatch : Text → Global → Text → List Text → Run
  unfolding run_check run_toggle run_commit send_and_print
  dispatch socket g name args =
      if text_eq name (codes "status")
      then send_and_print socket (plain (codes "status")) g.timeout
      else if text_eq name (codes "check")
      then run_check socket g.timeout g.timeout_set
      else if text_eq name (codes "toggle_talk")
      then run_toggle socket g.timeout args
      else if text_eq name (codes "commit")
      then run_commit socket g.timeout args
      else if text_eq name (codes "cancel")
      then send_and_print socket (plain (codes "cancel")) g.timeout
      else if text_eq name (codes "suspend")
      then send_and_print socket (plain (codes "suspend")) g.timeout
      else if text_eq name (codes "resume")
      then send_and_print socket (plain (codes "resume")) g.timeout
      else if text_eq name (codes "shutdown")
      then send_and_print socket (plain (codes "shutdown")) g.timeout
      else if text_eq name (codes "probe-mute")
      then quits (e.probe_mute args)
      else quits 2

  abbrev pub at_socket : Global → Text → List Text → Option Text → Run
  unfolding dispatch
  at_socket g name args none = quits 1
  at_socket g name args (some socket) = dispatch socket g name args

  abbrev pub commanded : Global → List Text → Run
  unfolding at_socket
  commanded g [] = quits 2
  commanded g (name ∷ args) =
      at_socket g name args (if is_empty g.socket then e.default_socket else some g.socket)

  abbrev pub parsed : Option Global → Run
  unfolding commanded
  parsed none = quits 2
  parsed (some g) = commanded g g.rest

  unfoldable pub run : List Text → Run
  unfolding parsed
  run args = parsed (e.parse args)
