-- ===== src/Session/Run.antt =====
-- Every call that the daemon's other parts, the timers and the goroutines make on a session, as
-- one step relation by evaluation: the schedule chooses the calls, and the answers of each.
use Prim.Native.Nat.{ℕ}
use dicta.Base.{List, [], ◌∷◌, Text, Unicode}
use dicta.AsrMonitor.{Reply}
use dicta.Session.State.{Config, Env, Session}
use dicta.Session.Lifecycle.{
  toggle, ensure_type_open, close_type_if_open, on_idle, timer_tick, on_capture_lost, panel_exited,
  commit, cancel, shutdown,
}
use dicta.Session.Utterance.{note_speech, on_utterance, on_reply}
use dicta.Session.Worker.{worker_take, worker_type}

pub data Call : Type 0 where
  toggles : Text → Call
  ensures_type_open closes_type_if_open ticks loses_capture panel_exits cancels shuts_down : Call
  idles : ℕ → Call
  commits : Text → Call
  hears_speech worker_takes worker_types : Call
  utters : List ℕ → Call
  replies : ℕ → Reply → Call

module _ (c : Config) (u : Unicode) (strip : Text → Text) where
  unfoldable pub step : Env → Call → Session → Session
  step e (toggles mode) s = (toggle c e mode s).0
  step e ensures_type_open s = (ensure_type_open c e s).0
  step e closes_type_if_open s = close_type_if_open c e s
  step e ticks s = timer_tick c e s
  step e loses_capture s = on_capture_lost c e s
  step e panel_exits s = panel_exited c e s
  step e cancels s = (cancel c e s).0
  step e shuts_down s = shutdown c e s
  step e (idles epoch) s = on_idle c e epoch s
  step e (commits text) s = (commit c e text s).0
  step e hears_speech s = note_speech c e s
  step e worker_takes s = worker_take s
  step e worker_types s = worker_type e s
  step e (utters pcm) s = on_utterance c e pcm s
  step e (replies ticket r) s = on_reply c u strip e ticket r s

  unfoldable pub run : List (Env × Call) → Session → Session
  run [] s = s
  run ((e, call) ∷ calls) s = run calls (step e call s)
