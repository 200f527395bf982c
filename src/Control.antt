-- ===== src/Control.antt =====
-- internal/control/server.go: the commands of one connection, in their order. JSON is left to the
-- parameter of each line: what it decodes to.
pub mod Stream
pub mod Daemon
pub mod Listener
pub mod Returned
mod Tests
use dicta.Base.{
  ℕ, Bool, true, false, not, ◌||◌, List, [], ◌∷◌, Option, none, some, Text, codes, text_eq,
  if◌then◌else◌,
}

pub record Command : Type 0 where
  pub cmd : Text
  pub mode : Text
  pub text : Text
  pub name : Text
  pub is_reset : Bool
  pub events : List Text

-- What `errors.Is` tells apart.
pub data Failure : Type 0 where
  not_implemented unavailable other : Failure

-- `Response` without its message and data.
pub record Response : Type 0 where
  pub ok : Bool
  pub code : Text

-- The daemon's side, on its state `H`: each method answers with its error.
pub record Handler (H : Type 0) : Type 0 where
  pub status : H → H × Option Failure
  pub check : H → H × Option Failure
  pub toggle_talk : Text → H → H × Option Failure
  pub commit : Text → H → H × Option Failure
  pub cancel : H → H × Option Failure
  pub mic_list : H → H × Option Failure
  pub mic_select : Text → Bool → H → H × Option Failure
  pub suspend : H → H × Option Failure
  pub resume : H → H × Option Failure
  pub subscribe : List Text → H → H × Option Failure
  pub shutdown : H → H × Option Failure

abbrev pub refuse : Text → Response
refuse code = record { ok = false; code = code }

unfoldable pub err_resp : Failure → Response
err_resp not_implemented = refuse (codes "not_implemented")
err_resp unavailable = refuse (codes "unavailable")
err_resp other = refuse (codes "error")

unfoldable pub wrap_err : Option Failure → Response
unfolding err_resp
wrap_err none = record { ok = true; code = [] }
wrap_err (some f) = err_resp f

module _ {H : Type 0} (h : Handler H) where
  -- The state, the response, and whether the connection has subscribed.
  abbrev pub answered : H × Option Failure → H × Response × Bool
  unfolding wrap_err
  answered (s, err) = (s, wrap_err err, false)

  abbrev pub subscribed : H × Option Failure → H × Response × Bool
  unfolding wrap_err
  subscribed (s, none) = (s, wrap_err none, true)
  subscribed (s, some f) = (s, err_resp f, false)

  unfoldable pub dispatch : Command → H → H × Response × Bool
  unfolding answered subscribed
  dispatch c s =
      if text_eq c.cmd []
      then (s, refuse (codes "bad_request"), false)
      else if text_eq c.cmd (codes "status")
      then answered (h.status s)
      else if text_eq c.cmd (codes "check")
      then answered (h.check s)
      else if text_eq c.cmd (codes "toggle_talk")
      then answered (h.toggle_talk c.mode s)
      else if text_eq c.cmd (codes "commit")
      then answered (h.commit c.text s)
      else if text_eq c.cmd (codes "cancel")
      then answered (h.cancel s)
      else if text_eq c.cmd (codes "mic_list")
      then answered (h.mic_list s)
      else if text_eq c.cmd (codes "mic_select")
      then answered (h.mic_select c.name c.is_reset s)
      else if text_eq c.cmd (codes "suspend")
      then answered (h.suspend s)
      else if text_eq c.cmd (codes "resume")
      then answered (h.resume s)
      else if text_eq c.cmd (codes "subscribe")
      then subscribed (h.subscribe c.events s)
      else if text_eq c.cmd (codes "shutdown")
      then answered (h.shutdown s)
      else dispatch_rest c s
    where
      dispatch_rest : Command → H → H × Response × Bool
      dispatch_rest c s =
          if text_eq c.cmd (codes "wake_start")
            || text_eq c.cmd (codes "wake_stop")
            || text_eq c.cmd (codes "wake_status")
          then (s, refuse (codes "not_implemented"), false)
          else (s, refuse (codes "unknown_command"), false)

-- A line of the connection, and whether the client is gone when it is answered.
pub data Line : Type 0 where
  blank malformed too_long : Line
  decoded : Command → Bool → Line

module _ {H : Type 0} (h : Handler H) where
  -- `handleConn`: the state, and the responses in order.
  unfoldable pub handle_conn : List Line → Bool → H → H × List Response
  unfolding dispatch
  handle_conn [] is_stream s = (s, [])
  handle_conn (too_long ∷ lines) is_stream s = (s, refuse (codes "line_too_long") ∷ [])
  handle_conn (blank ∷ lines) is_stream s = handle_conn lines is_stream s
  handle_conn (malformed ∷ lines) is_stream s =
      let (s', rest) = handle_conn lines is_stream s in
      (s', refuse (if is_stream then codes "subscribed" else codes "bad_request") ∷ rest)
  handle_conn (decoded c gone ∷ lines) is_stream s =
      let (s', resp, did_subscribe) = dispatch h c s in
      let (s'', rest) = handle_conn lines did_subscribe s' in
      let (s''', refused) = handle_conn lines true s in
      if is_stream
      then (s''', refuse (codes "subscribed") ∷ refused)
      else if gone
      then (s', [])
      else (s'', resp ∷ rest)
