-- ===== src/Session/Kept.antt =====
-- The calls that leave the queue, the transcriptions and the typed texts as they are.
use dicta.Base.{◌≡◌, true, false, ◌&&◌, Bool, if_intro, Option, arith}
use dicta.Session.State.{Mode, mode_clip, mode_eq, Error, Config, Env, Session}
use dicta.Session.Lifecycle.{
  sync_audio, publish_state, arm_idle, rollback_open, spawn, announce_open, open_panel, after_start,
}
use dicta.Session.Utterance.{note_speech}

-- What the worker and the transcriptions go by.
pub record Kept (s s' : Session) : Type 0 where
  pub typed : s'.typed ≡ s.typed
  pub current : s'.current ≡ s.current
  pub type_queue : s'.type_queue ≡ s.type_queue
  pub resolved : s'.resolved ≡ s.resolved
  pub next_id : s'.next_id ≡ s.next_id
  pub asr : s'.asr ≡ s.asr
  pub queue_closed : s'.queue_closed ≡ s.queue_closed
  pub panicked : s'.panicked ≡ s.panicked

pub Kept-refl : (s : Session) → Kept s s
Kept-refl s = ground arith

pub Kept-trans : {s t u : Session} → Kept s t → Kept t u → Kept s u
Kept-trans f g = ground arith

pub note_speech-Kept : (c : Config) (e : Env) (s : Session) → Kept s (note_speech c e s)
unfolding note_speech
note_speech-Kept c e s = ground arith

pub sync_audio-Kept : (c : Config) (e : Env) (s : Session) → Kept s (sync_audio c e s).0
unfolding sync_audio
sync_audio-Kept c e s = ground arith

pub rollback_open-Kept : (c : Config) (e : Env) (s : Session) → Kept s (rollback_open c e s)
unfolding rollback_open sync_audio
rollback_open-Kept c e s = ground arith

pub announce_open-Kept :
    (c : Config) (e : Env) (m : Mode) (s : Session) → Kept s (announce_open c e m s)
unfolding announce_open publish_state arm_idle
announce_open-Kept c e m s = ground arith

pub spawn-Kept : (e : Env) (s : Session) → Kept s (spawn e s).0
unfolding spawn
spawn-Kept e s = ground arith

pub open_panel-Kept :
    (c : Config) (e : Env) (m : Mode) (s : Session) → Kept s (open_panel c e m s).0
unfolding open_panel
open_panel-Kept c e m s =
    if_intro Good (mode_eq m mode_clip && c.has_preview)
      (λ _.
        if_intro Good r.1 (λ _. Kept-trans (spawn-Kept e s) (rollback_open-Kept c e r.0))
          (λ _. Kept-trans (spawn-Kept e s) (announce_open-Kept c e m r.0)))
      (λ _. announce_open-Kept c e m s)
  where
    Good : Session × Option Error → Type 0
    Good r = Kept s r.0

    r : Session × Bool
    r = spawn e s

pub after_start-Kept :
    (c : Config) (e : Env) (m : Mode) (r : Session × Bool) → Kept r.0 (after_start c e m r).0
unfolding after_start
after_start-Kept c e m (r, true) = rollback_open-Kept c e r
after_start-Kept c e m (r, false) = open_panel-Kept c e m r
