-- ===== src/Session/Opening.antt =====
-- cmd/dictad/session.go: `open_` opens a session or rolls back, and a toggle between two modes.
use dicta.Base.{
  ◌≡◌, ◌+◌, sym, Bool, true, false, not, ◌&&◌, ◌||◌, if◌then◌else◌, if_intro, ◌==◌, List, [], ◌∷◌,
  Option, none, some, arith,
}
use dicta.Session.State.{
  Mode, mode_none, mode_type, mode_clip, mode_eq, Error, audio_capture, preview_spawn, Effect,
  session_state, spawn_panel, cue_open, cue_close, Config, Env, Session, bump_epoch, emit_if,
  vad_reset,
}
use dicta.Session.Lifecycle.{
  sync_audio, publish_state, arm_idle, rollback_open, spawn, announce_open, open_panel, after_start,
  open_session,
}

-- What the user and the bus are told.
abbrev pub is_announcement : Effect → Bool
is_announcement (session_state m b) = true
is_announcement cue_open = true
is_announcement cue_close = true
is_announcement _ = false

abbrev pub announcements : List Effect → List Effect
announcements [] = []
announcements (f ∷ fs) = if is_announcement f then f ∷ announcements fs else announcements fs

-- The error of an open, from the configuration and the answers alone.
abbrev pub failure : Config → Env → Mode → Session → Option Error
failure c e m s =
    if c.has_lifecycle && e.start_fails
    then some audio_capture
    else if (mode_eq m mode_clip && c.has_preview) && (s.panel || e.spawn_fails)
    then some preview_spawn
    else none

pub record IsOpened (c : Config) (e : Env) (m : Mode) (s s' : Session) : Type 0 where
  pub open_state : s'.open_state ≡ true
  pub mode : s'.mode ≡ m
  pub epoch : s'.epoch ≡ bump_epoch s.epoch
  pub timer : s'.idle_timer ≡ (
      if mode_eq m mode_type && not (c.idle_timeout == 0)
      then some
          (record { for_epoch = bump_epoch s.epoch; deadline = some (e.now + c.idle_timeout) })
      else s.idle_timer)
  pub told :
      announcements s'.trace
      ≡ announcements ((emit_if c.has_cuer cue_open (publish_state c m true s)).trace)

pub record IsRolledBack (c : Config) (s s' : Session) : Type 0 where
  pub open_state : s'.open_state ≡ false
  pub mode : s'.mode ≡ mode_none
  pub epoch : s'.epoch ≡ bump_epoch (bump_epoch s.epoch)
  pub timer : s'.idle_timer ≡ none
  pub panel : s'.panel ≡ s.panel
  pub capture : c.has_lifecycle ≡ true → s'.capturing ≡ false
  pub silent : announcements s'.trace ≡ announcements s.trace

pub record IsAtomic (c : Config) (e : Env) (m : Mode) (s : Session) (r : Session × Option Error)
    : Type 0 where
  pub error : r.1 ≡ failure c e m s
  pub opened : r.1 ≡ none → IsOpened c e m s r.0
  pub rolled_back : (err : Error) → r.1 ≡ some err → IsRolledBack c s r.0

-- The session that an open starts from, whatever the answer of the capture.
record IsBegun (m : Mode) (s x : Session) : Type 0 where
  open_state : x.open_state ≡ true
  mode : x.mode ≡ m
  epoch : x.epoch ≡ bump_epoch s.epoch
  timer : x.idle_timer ≡ s.idle_timer
  told : announcements x.trace ≡ announcements s.trace

sync_audio-IsBegun :
    (c : Config) (e : Env) (m : Mode) (s x : Session)
    → IsBegun m s x
    → IsBegun m s (sync_audio c e x).0
      × ((sync_audio c e x).0.panel ≡ x.panel)
      × ((sync_audio c e x).1 ≡ (c.has_lifecycle && e.start_fails))
unfolding sync_audio
sync_audio-IsBegun c e m s x b = ground (arith, b)

rollback_open-IsRolledBack :
    (c : Config) (e : Env) (m : Mode) (s x : Session)
    → IsBegun m s x
    → x.panel ≡ s.panel
    → IsRolledBack c s (rollback_open c e x)
unfolding rollback_open sync_audio
rollback_open-IsRolledBack c e m s x b p = ground (arith, b)

announce_open-IsOpened :
    (c : Config) (e : Env) (m : Mode) (s x : Session)
    → IsBegun m s x
    → IsOpened c e m s (announce_open c e m x)
unfolding announce_open publish_state arm_idle
announce_open-IsOpened c e m s x b = ground (arith, b)

open_panel-IsAtomic :
    (c : Config) (e : Env) (m : Mode) (s x : Session)
    → IsBegun m s x
    → x.panel ≡ s.panel
    → (c.has_lifecycle && e.start_fails) ≡ false
    → IsAtomic c e m s (open_panel c e m x)
unfolding open_panel spawn
open_panel-IsAtomic c e m s x b p f =
    if_intro (IsAtomic c e m s) (mode_eq m mode_clip && c.has_preview)
      (λ shows.
        if_intro Good (x.panel || e.spawn_fails)
          (λ q. record {
            error = ground arith;
            opened = λ q. cc;
            rolled_back = λ err q.
                rollback_open-IsRolledBack c e m s (record x { trace = spawn_panel ∷ x.trace })
                  (ground (arith, b)) p;
          })
          (λ q. record {
            error = ground arith;
            opened = λ q.
                announce_open-IsOpened c e m s
                  (record x { trace = spawn_panel ∷ x.trace; panel = true }) (ground (arith, b));
            rolled_back = λ err q. cc;
          }))
      (λ q. record {
        error = ground arith;
        opened = λ q. announce_open-IsOpened c e m s x b;
        rolled_back = λ err q. cc;
      })
  where
    Good : Session × Bool → Type 0
    Good r = IsAtomic c e m s (
        if r.1
        then (rollback_open c e r.0, some preview_spawn)
        else (announce_open c e m r.0, none))

after_start-IsAtomic :
    (c : Config) (e : Env) (m : Mode) (s : Session) (x : Session) (failed : Bool)
    → IsBegun m s x
    → x.panel ≡ s.panel
    → failed ≡ (c.has_lifecycle && e.start_fails)
    → IsAtomic c e m s (after_start c e m (x, failed))
unfolding after_start
after_start-IsAtomic c e m s x true b p f = record {
  error = ground arith;
  opened = λ q. cc;
  rolled_back = λ err q. rollback_open-IsRolledBack c e m s x b p;
}
after_start-IsAtomic c e m s x false b p f = open_panel-IsAtomic c e m s x b p (sym f)

-- The open of a closed session is atomic: its error is the capture's, else the panel's, else none.
-- Without an error the session is open in that mode under the next epoch, with the idle timer armed
-- in type mode, and announced. With an error it is closed again: an epoch further, nothing armed, no
-- capture, no new panel, and nothing announced.
pub open_session-IsAtomic :
    (c : Config) (e : Env) (m : Mode) (s : Session)
    → s.open_state ≡ false
    → IsAtomic c e m s (open_session c e m s)
unfolding open_session
open_session-IsAtomic c e m s h =
    if_intro (IsAtomic c e m s) (s.open_state && mode_eq s.mode m) (λ q. absurd (shut q))
      (λ _. after_start-IsAtomic c e m s r.0 r.1 begun.0 begun.1 begun.2)
  where
    opened : Session
    opened =
        emit_if c.has_vad_reset vad_reset
          (record s { epoch = bump_epoch s.epoch; mode = m; open_state = true })

    r : Session × Bool
    r = sync_audio c e opened

    begun : IsBegun m s r.0 × (r.0.panel ≡ s.panel) × (r.1 ≡ (c.has_lifecycle && e.start_fails))
    begun = sync_audio-IsBegun c e m s opened (ground arith)

    shut : (s.open_state && mode_eq s.mode m) ≡ true → ⊥
    shut q = ground arith
