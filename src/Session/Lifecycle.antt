-- ===== src/Session/Lifecycle.antt =====
-- cmd/dictad/session.go: opening, closing and toggling, and the hooks that lead to them.
use Prim.Native.Nat.{ℕ}
use dicta.Base.{
  ◌+◌, ◌-◌, ◌^◌, Bool, true, false, not, ◌&&◌, ◌||◌, List, Option, none, some, Text, codes, text_eq,
  leb, ltb, ◌==◌, if◌then◌else◌,
}
use dicta.Session.State.{
  Mode, mode_none, mode_type, mode_clip, mode_eq, Error, unknown_mode, clip_not_configured,
  commit_only_valid_in_clip_mode, cancel_only_valid_in_clip_mode, audio_capture, preview_spawn,
  clipper, Config, Env, vad_reset, start_capture, stop_capture, spawn_panel, kill_panel,
  flush_audio, cue_open, cue_close, session_state, clip, IdleTimer, Session, emit, emit_if,
  bump_epoch,
}
use dicta.Session.Utterance.{on_utterance}

-- Capture follows the open state; the Boolean says that the call failed.
unfoldable pub sync_audio : Config → Env → Session → Session × Bool
sync_audio c e s =
    if not c.has_lifecycle
    then (s, false)
    else if s.open_state
    then if e.start_fails
      then (emit start_capture s, true)
      else (record (emit start_capture s) { capturing = true }, false)
    else (record (emit stop_capture s) { capturing = false }, false)

unfoldable pub publish_state : Config → Mode → Bool → Session → Session
publish_state c mode is_open s = emit_if c.has_bus (session_state mode is_open) s

unfoldable pub arm_idle : Config → Env → ℕ → Session → Session
arm_idle c e epoch s = if c.idle_timeout == 0 then s else record s {
  idle_timer = some (record { for_epoch = epoch; deadline = some (e.now + c.idle_timeout) });
}

unfoldable pub rollback_open : Config → Env → Session → Session
rollback_open c e s =
    (sync_audio c e (record s {
      epoch = bump_epoch s.epoch;
      mode = mode_none;
      open_state = false;
      idle_timer = none;
    })).0

-- A panel that already runs is not spawned again, which is an error of `Spawn`.
unfoldable pub spawn : Env → Session → Session × Bool
spawn e s =
    if s.panel || e.spawn_fails
    then (emit spawn_panel s, true)
    else (record (emit spawn_panel s) { panel = true }, false)

-- `open_` once capture runs and the panel is up.
unfoldable pub announce_open : Config → Env → Mode → Session → Session
announce_open c e mode s =
    let told = emit_if c.has_cuer cue_open (publish_state c mode true s) in
    if mode_eq mode mode_type then arm_idle c e s.epoch told else told

unfoldable pub open_panel : Config → Env → Mode → Session → Session × Option Error
open_panel c e mode s =
    let (s', failed) = spawn e s in
    if mode_eq mode mode_clip && c.has_preview
    then if failed
      then (rollback_open c e s', some preview_spawn)
      else (announce_open c e mode s', none)
    else (announce_open c e mode s, none)

-- `open_` from the answer of the capture on.
unfoldable pub after_start : Config → Env → Mode → Session × Bool → Session × Option Error
after_start c e mode (s, true) = (rollback_open c e s, some audio_capture)
after_start c e mode (s, false) = open_panel c e mode s

unfoldable pub open_session : Config → Env → Mode → Session → Session × Option Error
open_session c e mode s =
    let opened = record s { epoch = bump_epoch s.epoch; mode = mode; open_state = true } in
    if s.open_state && mode_eq s.mode mode
    then (s, none)
    else after_start c e mode (sync_audio c e (emit_if c.has_vad_reset vad_reset opened))

abbrev pub flushed_utterance : Config → Env → Option (List ℕ) → Session → Session
flushed_utterance c e none s = s
flushed_utterance c e (some pcm) s = on_utterance c e pcm s

-- The utterance in flight is handed over while the session is still open.
unfoldable pub flush : Config → Env → Session → Session
flush c e s = if c.has_flush then flushed_utterance c e e.flushed (emit flush_audio s) else s

unfoldable pub kill : Config → Mode → Session → Session
kill c prev s =
    if mode_eq prev mode_clip && c.has_preview
    then record (emit kill_panel s) { panel = false }
    else s

unfoldable pub close : Config → Env → Session → Session
close c e s =
    let flushed = flush c e s in
    let closed = record flushed { mode = mode_none; open_state = false; idle_timer = none } in
    let quiet = kill c s.mode (sync_audio c e closed).0 in
    if s.open_state then emit_if c.has_cuer cue_close (publish_state c mode_none false quiet) else s

unfoldable pub parse_session_mode : Text → Option Mode
parse_session_mode t =
    if text_eq t (codes "type")
    then some mode_type
    else if text_eq t (codes "clip")
    then some mode_clip
    else none

-- `t.Sub(s.lastToggle)`: the zero time lies further back than a `Duration` can say.
abbrev pub since_last : ℕ → Option ℕ → ℕ
since_last t none = 2 ^ 63 - 1
since_last t (some last) = t - last

-- The `switch` of `Toggle`.
unfoldable pub toggle_to : Config → Env → Mode → Session → Session × Option Error
toggle_to c e target s =
    if s.open_state
    then if mode_eq s.mode target
      then (close c e s, none)
      else open_session c e target (close c e s)
    else open_session c e target s

unfoldable pub toggle_debounced : Config → Env → Mode → Session → Session × Option Error
toggle_debounced c e target s =
    if c.toggle_debounce == 0
    then toggle_to c e target s
    else let stamped = record s { last_toggle = some e.now } in
      if ltb (since_last e.now s.last_toggle) c.toggle_debounce
      then (stamped, none)
      else toggle_to c e target stamped

abbrev pub toggle_parsed : Config → Env → Option Mode → Session → Session × Option Error
toggle_parsed c e none s = (s, some unknown_mode)
toggle_parsed c e (some target) s =
    if mode_eq target mode_clip && (not c.has_preview || not c.has_clipper)
    then (s, some clip_not_configured)
    else toggle_debounced c e target s

unfoldable pub toggle : Config → Env → Text → Session → Session × Option Error
toggle c e mode s = toggle_parsed c e (parse_session_mode mode) s

unfoldable pub ensure_type_open : Config → Env → Session → Session × Option Error
ensure_type_open c e s = if s.open_state then (s, none) else open_session c e mode_type s

unfoldable pub close_type_if_open : Config → Env → Session → Session
close_type_if_open c e s = if s.open_state && mode_eq s.mode mode_type then close c e s else s

-- The function of the idle timer that was armed for `epoch`.
unfoldable pub on_idle : Config → Env → ℕ → Session → Session
on_idle c e epoch s =
    if not s.open_state || not (mode_eq s.mode mode_type) || not (s.epoch == epoch)
    then s
    else close c e s

abbrev pub fire_timer : Config → Env → Option IdleTimer → Session → Session
fire_timer c e none s = s
fire_timer c e (some t) s = elim t.deadline [
  | none ↦ s
  | some d ↦
      if leb d e.now
      then on_idle c e t.for_epoch (record s { idle_timer = some (record t { deadline = none }) })
      else s
]

-- The runtime calls the timer's function once its deadline has passed.
unfoldable pub timer_tick : Config → Env → Session → Session
timer_tick c e s = fire_timer c e s.idle_timer s

unfoldable pub on_capture_lost : Config → Env → Session → Session
on_capture_lost c e s =
    if s.open_state && mode_eq s.mode mode_type then close_type_if_open c e s else s

-- The panel exits by itself, and its exit hook closes the session.
unfoldable pub panel_exited : Config → Env → Session → Session
panel_exited c e s = if s.panel then close c e (record s { panel = false }) else s

unfoldable pub commit : Config → Env → Text → Session → Session × Option Error
commit c e text s =
    if s.open_state && mode_eq s.mode mode_clip
    then (close c e (emit (clip text) s), if e.clip_fails then some clipper else none)
    else (s, some commit_only_valid_in_clip_mode)

unfoldable pub cancel : Config → Env → Session → Session × Option Error
cancel c e s =
    if s.open_state && mode_eq s.mode mode_clip
    then (close c e s, none)
    else (s, some cancel_only_valid_in_clip_mode)

-- The wait for the worker's exit is left to the worker's own steps.
unfoldable pub shutdown : Config → Env → Session → Session
shutdown c e s = record (if s.open_state then close c e s else s) { queue_closed = true }
