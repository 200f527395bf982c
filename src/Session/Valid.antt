-- ===== src/Session/Valid.antt =====
-- cmd/dictad/session.go: what opening and closing keep true of a session.
pub mod Runs
use Prim.Native.Nat.{ℕ}
use dicta.Base.{
  ◌≡◌, ◌≢◌, ◌⊎◌, ◌∙◌, inl, inr, refl, sym, ap, true, false, ◌&&◌, Bool, Bool-cases, if_intro, ◌==◌,
  ltb, leb, List, [], ◌∷◌, Option, none, some, Text, Unicode, arith,
}
use dicta.Session.State.{
  emit, clip, bump_epoch, emit_if, vad_reset, Mode, mode_none, mode_type, mode_clip, mode_eq,
  Config, Env, Session, IdleTimer, armed, new, Error,
}
use dicta.Session.Lifecycle.{
  fire_timer, open_session, after_start, open_panel, announce_open, spawn, rollback_open,
  sync_audio, publish_state, arm_idle, close, flush, kill, toggle_parsed, parse_session_mode,
  toggle, toggle_to, toggle_debounced, since_last, ensure_type_open, close_type_if_open, on_idle,
  timer_tick, on_capture_lost, panel_exited, commit, cancel, shutdown,
}
use dicta.Session.Utterance.{on_utterance}
use dicta.Session.Run.{
  Call, toggles, ensures_type_open, closes_type_if_open, ticks, loses_capture, panel_exits, cancels,
  shuts_down, idles, commits, hears_speech, worker_takes, worker_types, utters, replies, step, run,
}
use dicta.Session.Frame.{
  Frame, on_utterance-Frame, on_reply-Frame, note_speech-Frame, worker_take-Frame,
  worker_type-Frame, flush-Frame,
}

pub record IsValid (c : Config) (s : Session) : Type 0 where
  -- A session is open in one of the two modes, or closed in none.
  pub open_mode : s.open_state ≡ true → s.mode ≢ mode_none
  pub closed_mode : s.open_state ≡ false → s.mode ≡ mode_none
  -- An armed idle timer belongs to the open type-mode session of this epoch.
  pub timer :
      (armed s.idle_timer ≡ none) ⊎ ((armed s.idle_timer ≡ some s.epoch) × (s.mode ≡ mode_type))
  -- On-demand capture runs exactly while a session is open.
  pub capture : c.has_lifecycle ≡ true → s.capturing ≡ s.open_state
  -- The panel runs exactly while a clip-mode session is open.
  pub panel : s.panel ≡ (mode_eq s.mode mode_clip && c.has_preview)

pub new-IsValid : (c : Config) (n : ℕ) → IsValid c (new n)
unfolding new
new-IsValid c n = ground arith

-- What leaves the fields of opening and closing alone keeps the invariant.
pub Frame-IsValid : {c : Config} {s t : Session} → Frame s t → IsValid c s → IsValid c t
Frame-IsValid f v = ground arith

-- A close leaves nothing armed, capturing or shown; the panel may have exited before it.
pub close_open-IsValid :
    (c : Config) (e : Env) (s : Session)
    → s.open_state ≡ true
    → ((mode_eq s.mode mode_clip && c.has_preview) ≡ false → s.panel ≡ false)
    → IsValid c (close c e s)
unfolding close sync_audio kill publish_state
close_open-IsValid c e s h p = ground (arith, flush-Frame c e s)

pub close-IsValid : (c : Config) (e : Env) (s : Session) → IsValid c s → IsValid c (close c e s)
unfolding close sync_audio kill publish_state
close-IsValid c e s v = ground (arith, flush-Frame c e s)

pub close-open_state : (c : Config) (e : Env) (s : Session) → (close c e s).open_state ≡ false
unfolding close sync_audio kill publish_state
close-open_state c e s = ground arith

rollback_open-IsValid :
    (c : Config) (e : Env) (s : Session) → s.panel ≡ false → IsValid c (rollback_open c e s)
unfolding rollback_open sync_audio
rollback_open-IsValid c e s h = ground arith

announce_open-IsValid :
    (c : Config) (e : Env) (s : Session)
    → IsValid c s
    → s.open_state ≡ true
    → armed s.idle_timer ≡ none
    → IsValid c (announce_open c e s.mode s)
unfolding announce_open publish_state arm_idle
announce_open-IsValid c e s v h t = ground arith

-- Before it opens, a session is closed.
open_panel-IsValid :
    (c : Config) (e : Env) (s : Session) (mode : Mode)
    → mode ≢ mode_none
    → s.mode ≡ mode
    → s.open_state ≡ true
    → s.panel ≡ false
    → armed s.idle_timer ≡ none
    → (c.has_lifecycle ≡ true → s.capturing ≡ true)
    → IsValid c (open_panel c e mode s).0
unfolding open_panel announce_open publish_state arm_idle rollback_open sync_audio spawn
open_panel-IsValid c e s mode_none named m o p t k = absurd (named refl)
open_panel-IsValid c e s mode_type named m o p t k = ground arith
open_panel-IsValid c e s mode_clip named m o p t k = ground arith

-- What the start of capture leaves of the session that opens.
record Started (c : Config) (s : Session) (r : Session × Bool) : Type 0 where
  mode : r.0.mode ≡ s.mode
  open_state : r.0.open_state ≡ s.open_state
  panel : r.0.panel ≡ s.panel
  timer : armed r.0.idle_timer ≡ armed s.idle_timer
  capture : r.1 ≡ false → c.has_lifecycle ≡ true → r.0.capturing ≡ true

sync_audio-Started :
    (c : Config) (e : Env) (s : Session) → s.open_state ≡ true → Started c s (sync_audio c e s)
unfolding sync_audio
sync_audio-Started c e s h = ground arith

after_start-IsValid :
    (c : Config) (e : Env) (mode : Mode) (s : Session) (r : Session × Bool)
    → mode ≢ mode_none
    → s.mode ≡ mode
    → s.open_state ≡ true
    → s.panel ≡ false
    → armed s.idle_timer ≡ none
    → Started c s r
    → IsValid c (after_start c e mode r).0
unfolding after_start
after_start-IsValid c e mode s (r, true) named m o p t b = rollback_open-IsValid c e r (b.panel ∙ p)
after_start-IsValid c e mode s (r, false) named m o p t b =
    open_panel-IsValid c e r mode named (b.mode ∙ m) (b.open_state ∙ o) (b.panel ∙ p) (b.timer ∙ t)
      (b.capture refl)

-- A valid session that is closed has no panel and no timer.
pub IsClosed : Session → Type 0
IsClosed s = (s.open_state ≡ false) × (s.panel ≡ false) × (armed s.idle_timer ≡ none)

pub IsValid-IsClosed : {c : Config} {s : Session} → IsValid c s → s.open_state ≡ false → IsClosed s
unfolding IsClosed
IsValid-IsClosed v h = ground arith

pub open_session-IsValid :
    (c : Config) (e : Env) (s : Session) (mode : Mode)
    → mode ≢ mode_none
    → IsClosed s
    → IsValid c (open_session c e mode s).0
unfolding open_session IsClosed
open_session-IsValid c e s mode named shut = rw shut.0 (
    after_start-IsValid c e mode opened (sync_audio c e opened) named refl refl shut.1 shut.2
      (sync_audio-Started c e opened refl))
  where
    opened : Session
    opened =
        emit_if c.has_vad_reset vad_reset
          (record s { epoch = bump_epoch s.epoch; mode = mode; open_state = true })
