-- ===== src/Control/Daemon.antt =====
-- cmd/dictad/handler.go: the daemon's side of the control server, on the session and the watcher.
use dicta.Base.{ℕ, Bool, List, Option, none, some, Text, codes, if◌then◌else◌}
use dicta.Control.{Failure, not_implemented, unavailable, other, Handler}
use dicta.Session.State.{Session, Config, Env, Error}
use dicta.Session.Lifecycle
use dicta.MuteWatcher.{MuteWatcher}
use dicta.MuteWatcher
use dicta.EventBus.{Subscriber}
use dicta.EventBus

-- `stubHandler`; a field that is nil is `none`.
pub record Daemon : Type 0 where
  pub has_asr : Bool
  pub session : Option Session
  pub bus : Option (List Subscriber)
  pub watcher : Option MuteWatcher

abbrev pub failure : Option Error → Option Failure
failure none = none
failure (some e) = some other

abbrev pub with_session :
    (Session → Session × Option Error) → Option Session → Daemon → Daemon × Option Failure
with_session f none d = (d, some not_implemented)
with_session f (some s) d = let (s', err) = f s in (record d { session = some s' }, failure err)

abbrev pub with_watcher :
    (MuteWatcher → MuteWatcher) → Option MuteWatcher → Daemon → Daemon × Option Failure
with_watcher f none d = (d, some unavailable)
with_watcher f (some w) d = (record d { watcher = some (f w) }, none)

abbrev pub with_bus : ℕ → List Text → Option (List Subscriber) → Daemon → Daemon × Option Failure
with_bus id events none d = (d, some not_implemented)
with_bus id events (some b) d = (record d { bus = some (EventBus.subscribe id events b) }, none)

-- The answers of the collaborators during one command, and the number of the connection.
module _ (c : Config) (e : Env) (id : ℕ) where
  unfoldable pub stub_handler : Handler Daemon
  stub_handler = record {
    status = λ d. (d, none);
    check = λ d. (d, if d.has_asr then none else some not_implemented);
    toggle_talk = λ mode d. with_session (Lifecycle.toggle c e mode) d.session d;
    commit = λ text d. with_session (Lifecycle.commit c e text) d.session d;
    cancel = λ d. with_session (Lifecycle.cancel c e) d.session d;
    mic_list = λ d. (d, some not_implemented);
    mic_select = λ name is_reset d. (d, some not_implemented);
    suspend = λ d. with_watcher (MuteWatcher.suspend (codes "manual")) d.watcher d;
    resume = λ d. with_watcher MuteWatcher.resume d.watcher d;
    subscribe = λ events d. with_bus id events d.bus d;
    shutdown = λ d. (d, some not_implemented);
  }
