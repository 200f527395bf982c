-- ===== src/MuteWatcher.antt =====
-- cmd/dictad/mutewatch.go: the watcher that opens and closes type mode as the microphone is unmuted
-- and muted: the debounce, the suspension, the flap guard, the loss of the device.
pub mod Armed
pub mod Flap
pub mod Debounce
pub mod Guard
mod Tests
use Prim.Native.Nat.{ℕ}
use dicta.Base.{
  suc, ◌+◌, ◌%◌, ◌^◌, Bool, true, false, not, ◌&&◌, ◌||◌, List, [], ◌∷◌, ◌++◌, Option, none, some,
  Text, codes, length, ltb, leb, ◌==◌, if◌then◌else◌,
}

-- internal/mute: a state, and an observation of it; `initial` is the baseline of a source.
pub data State : Type 0 where
  unknown unmuted muted : State

abbrev pub state_eq : State → State → Bool
state_eq unknown unknown = true
state_eq unmuted unmuted = true
state_eq muted muted = true
state_eq _ _ = false

pub record Event : Type 0 where
  pub state : State
  pub initial : Bool

-- The calls on the toggler, whose errors are only logged, and on the desktop.
pub data Command : Type 0 where
  ensure_type_open close_if_type_open notify : Command

pub record MuteWatcher : Type 0 where
  pub debounce : ℕ
  pub flap_window : ℕ
  pub flap_threshold : ℕ  -- 0 stands for every threshold <= 0
  pub has_notify : Bool
  pub suspended : Bool
  pub suspend_reason : Text
  pub fire_times : List ℕ
  pub absent : Bool
  pub dev_ch : List Bool
  pub fired : ℕ
  -- The variables of `Run`; `timer` is the deadline of `timerC`.
  pub last_state : State
  pub seeded : Bool
  pub pending : State
  pub has_pending : Bool
  pub timer : Option ℕ
  -- The calls, newest first.
  pub trace : List Command

unfoldable pub new : ℕ → MuteWatcher
new debounce = record {
  debounce = if debounce == 0 then 1000000 else debounce;
  flap_window = 10000000000;
  flap_threshold = 6;
  has_notify = false;
  suspended = false;
  suspend_reason = [];
  fire_times = [];
  absent = false;
  dev_ch = [];
  fired = 0;
  last_state = unknown;
  seeded = false;
  pending = unknown;
  has_pending = false;
  timer = none;
  trace = [];
}

unfoldable pub set_flap_guard : ℕ → ℕ → MuteWatcher → MuteWatcher
set_flap_guard window threshold w = record w { flap_window = window; flap_threshold = threshold }

unfoldable pub call : Command → MuteWatcher → MuteWatcher
call k w = record w { trace = k ∷ w.trace }

-- Suspension closes an open type-mode session, once.
unfoldable pub suspend : Text → MuteWatcher → MuteWatcher
unfolding call
suspend reason w =
    let w' = record w { suspended = true; suspend_reason = reason } in
    if w.suspended then w' else call close_if_type_open w'

unfoldable pub resume : MuteWatcher → MuteWatcher
resume w = record w { suspended = false; suspend_reason = []; fire_times = [] }

-- A send that does not block, on a channel of 8.
unfoldable pub signal_device : Bool → MuteWatcher → MuteWatcher
signal_device lost w =
    if ltb (length w.dev_ch) 8 then record w { dev_ch = w.dev_ch ++ lost ∷ [] } else w

unfoldable pub device_lost : MuteWatcher → MuteWatcher
unfolding signal_device
device_lost w = signal_device true (record w { absent = true })

unfoldable pub device_restored : MuteWatcher → MuteWatcher
unfolding signal_device
device_restored w = signal_device false (record w { absent = false })

-- The times after the cutoff `now - window`.
abbrev pub recent : ℕ → ℕ → List ℕ → List ℕ
recent now window [] = []
recent now window (t ∷ ts) =
    if ltb now (t + window) then t ∷ recent now window ts else recent now window ts

-- The Boolean says that the watcher has just suspended itself.
unfoldable pub record_fire_and_check_flap : ℕ → MuteWatcher → MuteWatcher × Bool
record_fire_and_check_flap now w =
    let times = recent now w.flap_window w.fire_times ++ now ∷ [] in
    if w.flap_threshold == 0 || w.suspended
    then (w, false)
    else if ltb w.flap_threshold (length times)
    then (record w { suspended = true; suspend_reason = codes "flapping"; fire_times = [] }, true)
    else (record w { fire_times = times }, false)

unfoldable pub stop_timer : MuteWatcher → MuteWatcher
stop_timer w = record w { timer = none; has_pending = false }

unfoldable pub arm_timer : ℕ → State → MuteWatcher → MuteWatcher
arm_timer now state w = record w {
  pending = state;
  has_pending = true;
  timer = some (now + w.debounce);
}

-- The `switch` of `fire`.
unfoldable pub act : State → MuteWatcher → MuteWatcher
unfolding call
act muted w = call close_if_type_open w
act unmuted w = call ensure_type_open w
act unknown w = w

-- The end of `fire`: the flap guard's close and its notice.
unfoldable pub after_record : MuteWatcher × Bool → MuteWatcher
unfolding call
after_record (w, false) = w
after_record (w, true) =
    let w' = call close_if_type_open w in if w.has_notify then call notify w' else w'

unfoldable pub fire : ℕ → State → MuteWatcher → MuteWatcher
unfolding act record_fire_and_check_flap after_record
fire now state w =
    if w.suspended
    then record w { last_state = state }
    else if w.absent
    then w
    else after_record (
        record_fire_and_check_flap now
          (act state (record w { last_state = state; fired = (w.fired + 1) % 2 ^ 64 })))

-- The case of `timerC`, once the deadline has passed.
abbrev fire_at : ℕ → Option ℕ → MuteWatcher → MuteWatcher
unfolding fire stop_timer
fire_at now none w = w
fire_at now (some deadline) w = if leb deadline now then fire now w.pending (stop_timer w) else w

unfoldable pub on_timer : ℕ → MuteWatcher → MuteWatcher
unfolding fire stop_timer fire_at
on_timer now w = fire_at now w.timer w

-- The case of `devCh`.
abbrev take_device : List Bool → MuteWatcher → MuteWatcher
unfolding stop_timer
take_device [] w = w
take_device (lost ∷ rest) w =
    let w' = record w { dev_ch = rest } in if lost then stop_timer w' else w'

unfoldable pub on_device : MuteWatcher → MuteWatcher
unfolding stop_timer take_device
on_device w = take_device w.dev_ch w

-- The case of an event.
unfoldable pub on_event : ℕ → Event → MuteWatcher → MuteWatcher
unfolding stop_timer arm_timer
on_event now ev w =
    let known = record w { last_state = ev.state } in
    if ev.initial
    then stop_timer (record known { seeded = true })
    else if not w.seeded
    then record known { seeded = true }
    else if w.suspended
    then stop_timer known
    else if w.absent
    then stop_timer known
    else if state_eq ev.state w.last_state
    then stop_timer w
    else if w.has_pending && state_eq w.pending ev.state
    then w
    else arm_timer now ev.state w

-- The rounds of `Run` and the calls of the other goroutines, at their times; `ends` is the round in
-- which the context has ended or the source has closed its channel, behind which `Run` returns. The
-- steps of a run of the program hold no round behind it, which the steps here may.
pub data Step : Type 0 where
  ticks : ℕ → Step
  takes_device loses_device restores_device resumes ends : Step
  observes : ℕ → Event → Step
  suspends : Text → Step

unfoldable pub step : Step → MuteWatcher → MuteWatcher
unfolding on_timer on_device on_event device_lost device_restored resume suspend stop_timer
step (ticks now) w = on_timer now w
step ends w = stop_timer w
step takes_device w = on_device w
step loses_device w = device_lost w
step restores_device w = device_restored w
step resumes w = resume w
step (observes now ev) w = on_event now ev w
step (suspends reason) w = suspend reason w

unfoldable pub run : List Step → MuteWatcher → MuteWatcher
unfolding step
run [] w = w
run (k ∷ ks) w = run ks (step k w)
