-- ===== src/Session/Valid/Runs.antt =====
-- cmd/dictad/session.go: every call keeps a session valid.
use Prim.Native.Nat.{ℕ}
use dicta.Base.{
  ◌≡◌, ◌≢◌, refl, ap, true, false, ◌&&◌, Bool, if_intro, ◌==◌, ltb, leb, List, [], ◌∷◌, Option,
  none, some, Text, Unicode, arith,
}
use dicta.Session.State.{
  emit, clip, Mode, mode_none, mode_type, mode_clip, mode_eq, Config, Env, Session, IdleTimer, new,
  Error,
}
use dicta.Session.Lifecycle.{
  fire_timer, close, toggle_parsed, parse_session_mode, toggle, toggle_to, toggle_debounced,
  since_last, ensure_type_open, close_type_if_open, on_idle, timer_tick, on_capture_lost,
  panel_exited, commit, cancel, shutdown,
}
use dicta.Session.Run.{
  Call, toggles, ensures_type_open, closes_type_if_open, ticks, loses_capture, panel_exits, cancels,
  shuts_down, idles, commits, hears_speech, worker_takes, worker_types, utters, replies, step, run,
}
use dicta.Session.Frame.{
  on_utterance-Frame, on_reply-Frame, note_speech-Frame, worker_take-Frame, worker_type-Frame,
}
use dicta.Session.Valid.{
  IsValid, new-IsValid, Frame-IsValid, close_open-IsValid, close-IsValid, close-open_state,
  IsValid-IsClosed, open_session-IsValid,
}

-- A step that only stamps the toggle or the deadline keeps the invariant.
stamp-IsValid :
    {c : Config} {s : Session} (t : Option ℕ)
    → IsValid c s
    → IsValid c (record s { last_toggle = t })
stamp-IsValid t v = ground arith

toggle_to-IsValid :
    (c : Config) (e : Env) (target : Mode) (s : Session)
    → target ≢ mode_none
    → IsValid c s
    → IsValid c (toggle_to c e target s).0
unfolding toggle_to
toggle_to-IsValid c e target s named v =
    if_intro Good s.open_state
      (λ _.
        if_intro Good (mode_eq s.mode target) (λ _. close-IsValid c e s v)
          (λ _.
            open_session-IsValid c e (close c e s) target named
              (IsValid-IsClosed (close-IsValid c e s v) (close-open_state c e s))))
      (λ h. open_session-IsValid c e s target named (IsValid-IsClosed v h))
  where
    Good : Session × Option Error → Type 0
    Good r = IsValid c r.0

toggle_debounced-IsValid :
    (c : Config) (e : Env) (target : Mode) (s : Session)
    → target ≢ mode_none
    → IsValid c s
    → IsValid c (toggle_debounced c e target s).0
unfolding toggle_debounced
toggle_debounced-IsValid c e target s named v =
    if_intro Good (c.toggle_debounce == 0) (λ _. toggle_to-IsValid c e target s named v)
      (λ _.
        if_intro Good (ltb (since_last e.now s.last_toggle) c.toggle_debounce) (λ _. w)
          (λ _. toggle_to-IsValid c e target (record s { last_toggle = some e.now }) named w))
  where
    Good : Session × Option Error → Type 0
    Good r = IsValid c r.0

    w : IsValid c (record s { last_toggle = some e.now })
    w = stamp-IsValid (some e.now) v

toggle_parsed-IsValid :
    (c : Config) (e : Env) (o : Option Mode) (s : Session)
    → o ≢ some mode_none
    → IsValid c s
    → IsValid c (toggle_parsed c e o s).0
toggle_parsed-IsValid c e none s named v = v
toggle_parsed-IsValid c e (some target) s named v =
    ground (arith, toggle_debounced-IsValid c e target s (λ q. named (ap some q)) v)

parse_named : (t : Text) → parse_session_mode t ≢ some mode_none
unfolding parse_session_mode
parse_named t = ground arith

on_idle-IsValid :
    (c : Config) (e : Env) (n : ℕ) (s : Session) → IsValid c s → IsValid c (on_idle c e n s)
unfolding on_idle
on_idle-IsValid c e n s v = ground (arith, close-IsValid c e s v)

timer_tick-IsValid :
    (c : Config) (e : Env) (s : Session) → IsValid c s → IsValid c (timer_tick c e s)
unfolding timer_tick
timer_tick-IsValid c e s v = fire s.idle_timer refl
  where
    Good : Session → Type 0
    Good t = IsValid c t

    fired :
        (t : IdleTimer)
        → s.idle_timer ≡ some t
        → Good (record s { idle_timer = some (record t { deadline = none }) })
    fired t q = ground arith

    at :
        (o : Option ℕ) (t : IdleTimer)
        → s.idle_timer ≡ some t
        → t.deadline ≡ o
        → Good (fire_timer c e (some t) s)
    at none t q d = rw d v
    at (some n) t q d = rw d (
        if_intro Good (leb n e.now)
          (λ _.
            on_idle-IsValid c e t.for_epoch
              (record s { idle_timer = some (record t { deadline = none }) }) (fired t q))
          (λ _. v))

    fire : (o : Option IdleTimer) → s.idle_timer ≡ o → Good (fire_timer c e o s)
    fire none q = v
    fire (some t) q = at t.deadline t q refl

panel_exited-IsValid :
    (c : Config) (e : Env) (s : Session) → IsValid c s → IsValid c (panel_exited c e s)
unfolding panel_exited
panel_exited-IsValid c e s v =
    if_intro (IsValid c) s.panel
      (λ h. close_open-IsValid c e (record s { panel = false }) (shown h) (λ _. refl)) (λ _. v)
  where
    shown : s.panel ≡ true → s.open_state ≡ true
    shown h = ground (arith, v)

-- Every call, whatever the collaborators answer, keeps the invariant.
pub step-IsValid :
    (c : Config) (u : Unicode) (strip : Text → Text) (e : Env) (k : Call) (s : Session)
    → IsValid c s
    → IsValid c (step c u strip e k s)
unfolding step toggle ensure_type_open close_type_if_open on_capture_lost commit cancel shutdown
step-IsValid c u strip e (toggles mode) s v =
    toggle_parsed-IsValid c e (parse_session_mode mode) s (parse_named mode) v
step-IsValid c u strip e ensures_type_open s v =
    if_intro (λ (r : Session × Option Error). IsValid c r.0) s.open_state (λ _. v)
      (λ h. open_session-IsValid c e s mode_type (λ q. cc) (IsValid-IsClosed v h))
step-IsValid c u strip e closes_type_if_open s v =
    if_intro (IsValid c) (s.open_state && mode_eq s.mode mode_type) (λ _. close-IsValid c e s v)
      (λ _. v)
step-IsValid c u strip e ticks s v = timer_tick-IsValid c e s v
step-IsValid c u strip e loses_capture s v =
    let t : Bool = s.open_state && mode_eq s.mode mode_type in
    if_intro (IsValid c) t (λ _. if_intro (IsValid c) t (λ _. close-IsValid c e s v) (λ _. v))
      (λ _. v)
step-IsValid c u strip e panel_exits s v = panel_exited-IsValid c e s v
step-IsValid c u strip e cancels s v =
    if_intro (λ (r : Session × Option Error). IsValid c r.0)
      (s.open_state && mode_eq s.mode mode_clip) (λ _. close-IsValid c e s v) (λ _. v)
step-IsValid c u strip e shuts_down s v = ground (arith, close-IsValid c e s v)
step-IsValid c u strip e (idles n) s v = on_idle-IsValid c e n s v
step-IsValid c u strip e (commits text) s v =
    if_intro (λ (r : Session × Option Error). IsValid c r.0)
      (s.open_state && mode_eq s.mode mode_clip)
      (λ _. close-IsValid c e (emit (clip text) s) (Frame-IsValid (ground arith) v)) (λ _. v)
step-IsValid c u strip e hears_speech s v = Frame-IsValid (note_speech-Frame c e s) v
step-IsValid c u strip e worker_takes s v = Frame-IsValid (worker_take-Frame s) v
step-IsValid c u strip e worker_types s v = Frame-IsValid (worker_type-Frame e s) v
step-IsValid c u strip e (utters pcm) s v = Frame-IsValid (on_utterance-Frame c e pcm s) v
step-IsValid c u strip e (replies ticket r) s v =
    Frame-IsValid (on_reply-Frame c u strip e ticket r s) v

run_from-IsValid :
    (c : Config) (u : Unicode) (strip : Text → Text) (calls : List (Env × Call)) (s : Session)
    → IsValid c s
    → IsValid c (run c u strip calls s)
unfolding run
run_from-IsValid c u strip [] s v = v
run_from-IsValid c u strip ((e, k) ∷ calls) s v =
    run_from-IsValid c u strip calls (step c u strip e k s) (step-IsValid c u strip e k s v)

-- A new session stays valid under every schedule of calls, with any answers of the collaborators:
-- it is open in type mode or in clip mode or closed in none, an armed idle timer belongs to the
-- type-mode session that is open, on-demand capture runs exactly while a session is open, and the
-- panel runs exactly while a clip-mode session is open.
pub run-IsValid :
    (c : Config) (u : Unicode) (strip : Text → Text) (n : ℕ) (calls : List (Env × Call))
    → IsValid c (run c u strip calls (new n))
run-IsValid c u strip n calls = run_from-IsValid c u strip calls (new n) (new-IsValid c n)
