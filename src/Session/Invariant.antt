-- ===== src/Session/Invariant.antt =====
-- Invariants of the queue and the transcriptions: what keeps one keeps it through every run.
use Prim.Native.Nat.{ℕ}
use dicta.Base.{
  ◌≡◌, refl, true, false, not, ◌&&◌, ◌||◌, Bool, if◌then◌else◌, if_intro, ◌==◌, ltb, leb, List, [],
  ◌∷◌, Option, none, some, Text, Unicode, arith,
}
use dicta.AsrMonitor.{Reply}
use dicta.Session.State.{
  Mode, mode_type, mode_clip, mode_eq, Error, Config, Env, Session, IdleTimer, bump_epoch, emit,
  emit_if, flush_audio, vad_reset, clip,
}
use dicta.Session.Lifecycle.{
  sync_audio, publish_state, open_session, flushed_utterance, flush, kill, close, toggle, toggle_to,
  toggle_debounced, toggle_parsed, parse_session_mode, since_last, ensure_type_open,
  close_type_if_open, on_idle, fire_timer, timer_tick, on_capture_lost, panel_exited, commit,
  cancel, shutdown,
}
use dicta.Session.Run.{
  Call, toggles, ensures_type_open, closes_type_if_open, ticks, loses_capture, panel_exits, cancels,
  shuts_down, idles, commits, hears_speech, worker_takes, worker_types, utters, replies, step, run,
}
use dicta.Session.Utterance.{on_utterance, on_reply}
use dicta.Session.Worker.{worker_take, worker_type}
use dicta.Session.Kept.{Kept, Kept-trans, note_speech-Kept, sync_audio-Kept, after_start-Kept}

-- A statement on what the worker and the transcriptions go by, kept by the calls on them.
pub record IsRule (P : Session → Type 0) : Type 0 where
  pub kept : (s s' : Session) → Kept s s' → P s → P s'
  pub utters :
      (c : Config) (e : Env) (pcm : List ℕ) (s : Session) → P s → P (on_utterance c e pcm s)
  pub replies :
      (c : Config) (u : Unicode) (strip : Text → Text) (e : Env) (t : ℕ) (r : Reply) (s : Session)
      → P s
      → P (on_reply c u strip e t r s)
  pub takes : (s : Session) → P s → P (worker_take s)
  pub types : (e : Env) (s : Session) → P s → P (worker_type e s)
  pub closes : (s : Session) → P s → P (record s { queue_closed = true })

module _ (P : Session → Type 0) (rules : IsRule P) where
  keep : {s s' : Session} → Kept s s' → P s → P s'
  keep {s} {s'} k v = rules.kept s s' k v

  open_session_keeps :
      (c : Config) (e : Env) (m : Mode) (s : Session) → P s → P (open_session c e m s).0
  unfolding open_session
  open_session_keeps c e m s v =
      if_intro (λ (r : Session × Option Error). P r.0) (s.open_state && mode_eq s.mode m) (λ _. v)
        (λ _.
          keep
            (Kept-trans {t = opened} (ground arith) (
              Kept-trans (sync_audio-Kept c e opened)
                (after_start-Kept c e m (sync_audio c e opened))))
            v)
    where
      opened : Session
      opened =
          emit_if c.has_vad_reset vad_reset
            (record s { epoch = bump_epoch s.epoch; mode = m; open_state = true })

  flush_keeps : (c : Config) (e : Env) (s : Session) → P s → P (flush c e s)
  unfolding flush
  flush_keeps c e s v = if_intro P c.has_flush (λ _. go e.flushed) (λ _. v)
    where
      told : Session
      told = emit flush_audio s

      w : P told
      w = keep (ground arith) v

      go : (o : Option (List ℕ)) → P (flushed_utterance c e o told)
      go none = w
      go (some pcm) = rules.utters c e pcm told w

  close_keeps : (c : Config) (e : Env) (s : Session) → P s → P (close c e s)
  unfolding close sync_audio kill publish_state
  close_keeps c e s v =
      if_intro P s.open_state (λ _. keep (ground arith) (flush_keeps c e s v)) (λ _. v)

  Good : Session × Option Error → Type 0
  Good r = P r.0

  toggle_to_keeps : (c : Config) (e : Env) (m : Mode) (s : Session) → P s → P (toggle_to c e m s).0
  unfolding toggle_to Good
  toggle_to_keeps c e m s v =
      if_intro Good s.open_state
        (λ _.
          if_intro Good (mode_eq s.mode m) (λ _. close_keeps c e s v)
            (λ _. open_session_keeps c e m (close c e s) (close_keeps c e s v)))
        (λ _. open_session_keeps c e m s v)

  toggle_debounced_keeps :
      (c : Config) (e : Env) (m : Mode) (s : Session) → P s → P (toggle_debounced c e m s).0
  unfolding toggle_debounced Good
  toggle_debounced_keeps c e m s v =
      let w : P (record s { last_toggle = some e.now }) = keep (ground arith) v in
      if_intro Good (c.toggle_debounce == 0) (λ _. toggle_to_keeps c e m s v)
        (λ _.
          if_intro Good (ltb (since_last e.now s.last_toggle) c.toggle_debounce) (λ _. w)
            (λ _. toggle_to_keeps c e m (record s { last_toggle = some e.now }) w))

  toggle_parsed_keeps :
      (c : Config) (e : Env) (o : Option Mode) (s : Session) → P s → P (toggle_parsed c e o s).0
  unfolding Good
  toggle_parsed_keeps c e none s v = v
  toggle_parsed_keeps c e (some m) s v =
      if_intro Good (mode_eq m mode_clip && (not c.has_preview || not c.has_clipper)) (λ _. v)
        (λ _. toggle_debounced_keeps c e m s v)

  on_idle_keeps : (c : Config) (e : Env) (n : ℕ) (s : Session) → P s → P (on_idle c e n s)
  unfolding on_idle
  on_idle_keeps c e n s v =
      if_intro P (not s.open_state || not (mode_eq s.mode mode_type) || not (s.epoch == n)) (λ _. v)
        (λ _. close_keeps c e s v)

  timer_tick_keeps : (c : Config) (e : Env) (s : Session) → P s → P (timer_tick c e s)
  unfolding timer_tick
  timer_tick_keeps c e s v = fire s.idle_timer
    where
      at : (t : IdleTimer) (o : Option ℕ) → t.deadline ≡ o → P (fire_timer c e (some t) s)
      at t none h = rw h v
      at t (some n) h = rw h (
          if_intro P (leb n e.now)
            (λ _.
              on_idle_keeps c e t.for_epoch
                (record s { idle_timer = some (record t { deadline = none }) })
                (keep (ground arith) v))
            (λ _. v))

      fire : (o : Option IdleTimer) → P (fire_timer c e o s)
      fire none = v
      fire (some t) = at t t.deadline refl

  step_keeps :
      (c : Config) (u : Unicode) (strip : Text → Text) (e : Env) (k : Call) (s : Session)
      → P s
      → P (step c u strip e k s)
  unfolding step toggle ensure_type_open close_type_if_open on_capture_lost panel_exited commit
      cancel shutdown Good
  step_keeps c u strip e (toggles mode) s v = toggle_parsed_keeps c e (parse_session_mode mode) s v
  step_keeps c u strip e ensures_type_open s v =
      if_intro Good s.open_state (λ _. v) (λ _. open_session_keeps c e mode_type s v)
  step_keeps c u strip e closes_type_if_open s v =
      if_intro P (s.open_state && mode_eq s.mode mode_type) (λ _. close_keeps c e s v) (λ _. v)
  step_keeps c u strip e ticks s v = timer_tick_keeps c e s v
  step_keeps c u strip e loses_capture s v =
      let t : Bool = s.open_state && mode_eq s.mode mode_type in
      if_intro P t (λ _. if_intro P t (λ _. close_keeps c e s v) (λ _. v)) (λ _. v)
  step_keeps c u strip e panel_exits s v =
      if_intro P s.panel (λ _. close_keeps c e (record s { panel = false }) (keep (ground arith) v))
        (λ _. v)
  step_keeps c u strip e cancels s v =
      if_intro Good (s.open_state && mode_eq s.mode mode_clip) (λ _. close_keeps c e s v) (λ _. v)
  step_keeps c u strip e shuts_down s v =
      shut (if s.open_state then close c e s else s)
        (if_intro P s.open_state (λ _. close_keeps c e s v) (λ _. v))
    where
      shut : (t : Session) → P t → P (record t { queue_closed = true })
      shut t w = rules.closes t w
  step_keeps c u strip e (idles n) s v = on_idle_keeps c e n s v
  step_keeps c u strip e (commits text) s v =
      if_intro Good (s.open_state && mode_eq s.mode mode_clip)
        (λ _. close_keeps c e (emit (clip text) s) (keep (ground arith) v)) (λ _. v)
  step_keeps c u strip e hears_speech s v = keep (note_speech-Kept c e s) v
  step_keeps c u strip e worker_takes s v = rules.takes s v
  step_keeps c u strip e worker_types s v = rules.types e s v
  step_keeps c u strip e (utters pcm) s v = rules.utters c e pcm s v
  step_keeps c u strip e (replies ticket r) s v = rules.replies c u strip e ticket r s v

  -- Then every run keeps it.
  pub run-keeps :
      (c : Config) (u : Unicode) (strip : Text → Text) (calls : List (Env × Call)) (s : Session)
      → P s
      → P (run c u strip calls s)
  unfolding run
  run-keeps c u strip [] s v = v
  run-keeps c u strip ((e, k) ∷ calls) s v =
      run-keeps c u strip calls (step c u strip e k s) (step_keeps c u strip e k s v)
