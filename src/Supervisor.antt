-- ===== src/Supervisor.antt =====
-- internal/whispersup/supervisor.go: the goroutine that keeps whisper-server running. An endpoint is
-- the port that its URL names, since the rest of the URL is constant.
pub mod Bounds
pub mod Settings
mod Tests
use dicta.Base.{
  ℕ, suc, ◌+◌, ◌*◌, Bool, true, false, not, ◌&&◌, ◌||◌, List, [], ◌∷◌, Option, none, some, ltb,
  ◌==◌, if◌then◌else◌,
}

pub data State : Type 0 where
  idle starting ready crashed stopping stopped : State

pub data Error : Type 0 where
  port_unavailable start_failed probe_failed process_exited : Error

-- Durations in nanoseconds; `port` 0 asks for a free one.
pub record Config : Type 0 where
  pub port : ℕ
  pub backoff_initial : ℕ
  pub backoff_max : ℕ

-- Where `run` stands: at the head of its loop, in the `select` behind a successful start, or at
-- its end.
pub data Phase : Type 0 where
  before_run looping serving finished : Phase

pub record Supervisor : Type 0 where
  pub state : State
  pub port : ℕ
  pub endpoint : Option ℕ
  pub started_once : Bool
  pub ready_closed : Bool
  pub last_err : Option Error
  pub restarts : ℕ
  -- The variables of `run`, and the delays that it slept, newest first.
  pub phase : Phase
  pub backoff : ℕ
  pub sleeps : List ℕ

unfoldable pub new : Config → Supervisor
new c = record {
  state = idle;
  port = 0;
  endpoint = none;
  started_once = false;
  ready_closed = false;
  last_err = none;
  restarts = 0;
  phase = before_run;
  backoff = 0;
  sleeps = [];
}

-- `Start`; the Boolean is its error.
unfoldable pub start : Config → Supervisor → Supervisor × Bool
start c s = if s.started_once then (s, true) else (
  record s {
    started_once = true;
    state = starting;
    port = if c.port == 0 then s.port else c.port;
    endpoint = if c.port == 0 then s.endpoint else some c.port;
    phase = looping;
    backoff = c.backoff_initial;
  },
  false,
)

unfoldable pub next_backoff : ℕ → ℕ → ℕ
next_backoff d max = if ltb max (d * 2) then max else d * 2

-- The two deferred calls at the end of `run`.
unfoldable pub finish : Supervisor → Supervisor
finish s = record s { state = stopped; phase = finished }

-- The sleep, which a stop interrupts, and the next delay.
unfoldable pub back_off : Config → Bool → Supervisor → Supervisor
unfolding next_backoff finish
back_off c interrupted s =
    let slept = record s { sleeps = s.backoff ∷ s.sleeps } in
    if not (s.backoff == 0) && interrupted
    then finish slept
    else record slept { backoff = next_backoff s.backoff c.backoff_max; phase = looping }

unfoldable pub crash : Error → Supervisor → Supervisor
crash err s = record s { last_err = some err; state = crashed; restarts = suc s.restarts }

unfoldable pub mark_ready : Config → Supervisor → Supervisor
mark_ready c s = record s {
  state = ready;
  endpoint = some s.port;
  last_err = none;
  ready_closed = true;
  backoff = c.backoff_initial;
  phase = serving;
}

-- What a round of the loop meets: a stop, the free port that the system offers, the start of the
-- process, the probe, and whether a stop interrupts the sleep.
pub record Round : Type 0 where
  pub stops : Bool
  pub free_port : Option ℕ
  pub start_fails : Bool
  pub probe_fails : Bool
  pub interrupted : Bool

-- `resolvePort`.
unfoldable pub resolve_port : Option ℕ → Supervisor → Supervisor × Bool
resolve_port none s = if s.port == 0 then (s, false) else (s, true)
resolve_port (some p) s =
    if s.port == 0 then (record s { port = p; endpoint = some p }, true) else (s, true)

-- The round once it has a port.
unfoldable pub launch : Config → Round → Supervisor → Supervisor
unfolding back_off crash mark_ready
launch c r s =
    if r.start_fails
    then back_off c r.interrupted (crash start_failed s)
    else if r.probe_fails
    then back_off c r.interrupted (crash probe_failed s)
    else mark_ready c s

unfoldable pub try : Config → Round → Supervisor → Supervisor
unfolding finish resolve_port launch back_off
try c r s =
    let (s', resolved) = resolve_port r.free_port s in
    if r.stops
    then finish s
    else if resolved
    then launch c r s'
    else back_off c r.interrupted (record s' { last_err = some port_unavailable })

-- The `select` behind a successful start: a stop, or the exit of the process.
pub data End : Type 0 where
  stop_requested : End
  exits : Bool → End

unfoldable pub end : Config → End → Supervisor → Supervisor
unfolding finish back_off crash
end c stop_requested s = finish (record s { state = stopping })
end c (exits interrupted) s = back_off c interrupted (crash process_exited s)

pub data Step : Type 0 where
  tries : Round → Step
  ends : End → Step

abbrev pub is_looping : Phase → Bool
is_looping looping = true
is_looping _ = false

abbrev pub is_serving : Phase → Bool
is_serving serving = true
is_serving _ = false

unfoldable pub step : Config → Step → Supervisor → Supervisor
unfolding try end
step c (tries r) s = if is_looping s.phase then try c r s else s
step c (ends e) s = if is_serving s.phase then end c e s else s

unfoldable pub run : Config → List Step → Supervisor → Supervisor
unfolding step
run c [] s = s
run c (k ∷ ks) s = run c ks (step c k s)
