-- ===== src/Control/Tests.antt =====
-- internal/control and cmd/dictad/handler.go: runs of a connection.
use dicta.Base.{ℕ, ◌≡◌, ◌↔◌, ◌++◌, refl, true, false, List, [], ◌∷◌, none, some, Text, codes}
use dicta.Control.{Command, Response, decoded, handle_conn}
use dicta.Control.Stream.{AreRefusals, handle_conn-subscribe}
use dicta.Control.Daemon.{Daemon, stub_handler}
use dicta.Control.Listener.{new, run, connects, ends, cancels, closes, Step}
use dicta.Control.Returned.{left, run-returned}
use dicta.Session.State
use dicta.Session.State.{Config, Env}

abbrev config : Config
config = record {
  has_clipper = true;
  has_preview = true;
  has_cuer = true;
  has_bus = true;
  has_vad_reset = true;
  has_flush = true;
  has_lifecycle = true;
  toggle_debounce = 250;
  idle_timeout = 60;
}

abbrev env : Env
env = record {
  now = 0;
  start_fails = false;
  spawn_fails = false;
  clip_fails = false;
  type_fails = false;
  flushed = none;
  clean = λ t. none;
}

abbrev daemon : Daemon
daemon = record { has_asr = true; session = some (State.new 2); bus = some []; watcher = none }

abbrev command : Text → Command
command cmd = record {
  cmd = cmd;
  mode = codes "type";
  text = codes "hi";
  name = [];
  is_reset = false;
  events = codes "transcript" ∷ [];
}

handle_conn-subscribe_example :
    let r =
      handle_conn
        (stub_handler config env 1)
        (decoded (command (codes "subscribe")) false
          ∷ decoded (command (codes "toggle_talk")) false
          ∷ [])
        false
        daemon in
    (r.0 ≡ ((stub_handler config env 1).subscribe (codes "transcript" ∷ []) daemon).0)
    × ((rs : List Response) × (r.1 ≡ record { ok = true; code = [] } ∷ rs) × AreRefusals rs)
unfolding stub_handler
handle_conn-subscribe_example =
    handle_conn-subscribe (stub_handler config env 1) (command (codes "subscribe"))
      (decoded (command (codes "toggle_talk")) false ∷ []) daemon refl refl

-- The first peer leaves before the context ends, the third comes after that, and before the listener
-- is closed; the fourth comes too late.
abbrev before : List Step
before = connects 1 ∷ connects 2 ∷ ends 1 ∷ []

abbrev between : List Step
between = connects 3 ∷ []

abbrev behind : List Step
behind = ends 2 ∷ connects 4 ∷ ends 3 ∷ []

abbrev all : List Step
all = before ++ (cancels ∷ between ++ closes ∷ behind)

run-returned_example :
    ((run all new).returned ≡ true) ↔ ((n : ℕ) → left n before between behind new ≡ 0)
unfolding new
run-returned_example = run-returned before between behind new refl refl refl refl tt tt tt

drains : (run all new).returned ≡ true
unfolding run new
drains = refl

-- The second peer is still there.
hangs : (run (before ++ (cancels ∷ between ++ closes ∷ ends 3 ∷ [])) new).returned ≡ false
unfolding run new
hangs = refl
