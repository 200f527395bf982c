-- ===== src/Control/Listener.antt =====
-- internal/control/server.go: the socket, and the end of Serve.
use dicta.Base.{
  ℕ, Bool, true, false, ◌&&◌, ◌||◌, List, [], ◌∷◌, Option, none, some, Text, codes, is_empty, ◌==◌,
  if◌then◌else◌,
}
use dicta.Paths.{join}

pub data ListenError : Type 0 where
  remove_stale bind chmod : ListenError

-- `Listen`, on the errors of its calls but that of a missing file.
unfoldable pub listen : Bool → Bool → Bool → Option ListenError
listen remove_fails bind_fails chmod_fails =
    if remove_fails
    then some remove_stale
    else if bind_fails
    then some bind
    else if chmod_fails
    then some chmod
    else none

pub data CloseError : Type 0 where
  listener remove : CloseError

-- `Close`: the first error counts, and the file is removed in any case.
unfoldable pub close : Bool → Bool → Option CloseError
close listener_fails remove_fails =
    if listener_fails then some listener else if remove_fails then some remove else none

-- `DefaultSocketPath` of proto/socket.go, on $XDG_RUNTIME_DIR; `none` is its error.
unfoldable pub default_socket_path : Text → Option Text
default_socket_path dir = if is_empty dir then none else some (join dir (codes "dicta.sock"))

-- `Serve`: the connections whose goroutines run, whether the context has ended, whether the loop has
-- left for the wait, whether an Accept failed before the context ended, and whether Serve has
-- returned without an error.
pub record Server : Type 0 where
  pub conns : List ℕ
  pub canceled : Bool
  pub waiting : Bool
  pub failed : Bool
  pub returned : Bool

unfoldable pub new : Server
new = record { conns = []; canceled = false; waiting = false; failed = false; returned = false }

-- An Accept that yields a connection or fails, the end of the context, the goroutine that closes
-- the listener then, and the end of a connection's goroutine: its peer has left, a line was too
-- long, or an answer could not be written.
pub data Step : Type 0 where
  connects ends : ℕ → Step
  accept_fails cancels closes : Step

abbrev pub without : ℕ → List ℕ → List ℕ
without n [] = []
without n (m ∷ ms) = if m == n then ms else m ∷ without n ms

-- The error of an Accept: it ends the loop with the wait once the context has ended, and Serve
-- otherwise.
abbrev pub on_error : Server → Server
on_error s =
    if s.waiting || s.failed
    then s
    else if s.canceled
    then record s { waiting = true }
    else record s { failed = true }

-- A goroutine of a connection does not look at the context. Between the end of the context and the
-- close of the listener an Accept may still yield a connection.
abbrev pub change : Step → Server → Server
change (connects n) s = if s.waiting || s.failed then s else record s { conns = n ∷ s.conns }
change (ends n) s = record s { conns = without n s.conns }
change accept_fails s = on_error s
change cancels s = record s { canceled = true }
change closes s = if s.canceled then on_error s else s

-- The wait for the goroutines of the connections is over.
abbrev pub wake : Server → Server
wake s = record s { returned = s.returned || (s.waiting && is_empty s.conns) }

unfoldable pub step : Step → Server → Server
step k s = wake (change k s)

unfoldable pub run : List Step → Server → Server
unfolding step
run [] s = s
run (k ∷ ks) s = run ks (step k s)
