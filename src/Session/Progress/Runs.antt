-- ===== src/Session/Progress/Runs.antt =====
-- Once the running transcriptions are answered, the worker finishes every job that is left.
use Prim.Native.Nat.{ℕ, zero, suc}
use dicta.Base.{
  ◌≡◌, refl, sym, ap₂, ◌∙◌, true, List, [], ◌∷◌, ◌++◌, Option, none, some, Text, Unicode, length,
}
use mathlib.Core.Path.{subst}
use dicta.AsrMonitor
use dicta.AsrMonitor.{AsrMonitor, Pending, Reply, find, remove}
use dicta.Session.State.{Config, Env, Session, Submission, TypeJob, new}
use dicta.Session.Utterance.{on_reply}
use dicta.Session.Worker.{worker_take, worker_type}
use dicta.Session.Run.{Call, replies, worker_takes, worker_types, step, run}
use dicta.Session.Invariant.{IsRule, run-keeps}
use dicta.Session.Order.{outstanding}
use dicta.Session.Progress.{IsLive}
use dicta.Session.Progress.Calls.{Kept-IsLiveBut, on_reply-IsLive, on_utterance-IsLive}
use dicta.Session.Progress.Work.{worker_take-IsLive, worker_type-IsLive}
use dicta.Session.Progress.Rounds.{IsAnsweredFirst, on_reply-first, IsRound, worker-IsRound}

close_queue-IsLive : (s : Session) → IsLive s → IsLive (record s { queue_closed = true })
close_queue-IsLive s v = record { covered = v.covered; all_typed = v.all_typed }

IsLive-IsRule : IsRule IsLive
IsLive-IsRule = record {
  kept = Kept-IsLiveBut none;
  utters = on_utterance-IsLive;
  replies = on_reply-IsLive;
  takes = worker_take-IsLive;
  types = worker_type-IsLive;
  closes = close_queue-IsLive;
}

new-IsLive : (n : ℕ) → IsLive (new n)
unfolding new AsrMonitor.new
new-IsLive n = record { covered = tt; all_typed = tt }

-- The backend answers these transcriptions, as `answer` says, one after the other.
abbrev pub replies_to : (ℕ → Env × Reply) → List (Pending Submission) → List (Env × Call)
replies_to answer [] = []
replies_to answer (p ∷ ps) =
    ((answer p.ticket).0, replies p.ticket (answer p.ticket).1) ∷ replies_to answer ps

-- That many rounds of the worker's loop.
abbrev pub rounds : (ℕ → Env) → ℕ → List (Env × Call)
rounds env zero = []
rounds env (suc n) = (env n, worker_takes) ∷ (env n, worker_types) ∷ rounds env n

abbrev pub settle : (ℕ → Env × Reply) → (ℕ → Env) → Session → List (Env × Call)
settle answer env s =
    replies_to answer s.asr.inflight ++ rounds env (length (outstanding s.current s.type_queue))

outstanding-nil :
    (o : Option TypeJob) (js : List TypeJob) → outstanding o js ≡ [] → (o ≡ none) × (js ≡ [])
outstanding-nil none [] h = (refl, refl)
outstanding-nil none (j ∷ js) h = cc
outstanding-nil (some i) js h = cc

-- The worker waits for nothing, its queue is empty, and no transcription runs.
pub record IsSettled (s : Session) : Type 0 where
  pub current : s.current ≡ none
  pub type_queue : s.type_queue ≡ []
  pub inflight : s.asr.inflight ≡ []

module _ (c : Config) (u : Unicode) (strip : Text → Text) where
  run-append :
      (ks ls : List (Env × Call)) (s : Session)
      → run c u strip (ks ++ ls) s ≡ run c u strip ls (run c u strip ks s)
  unfolding run
  run-append [] ls s = refl
  run-append ((e, k) ∷ ks) ls s = run-append ks ls (step c u strip e k s)

  rounds-IsSettled :
      (env : ℕ → Env) (l : List ℕ) (s : Session)
      → IsLive s
      → IsRound l s
      → IsSettled (run c u strip (rounds env (length l)) s)
  unfolding run step
  rounds-IsSettled env [] s v r =
      let o : (s.current ≡ none) × (s.type_queue ≡ []) =
        outstanding-nil s.current s.type_queue r.left in
      record { current = o.0; type_queue = o.1; inflight = r.idle }
  rounds-IsSettled env (id ∷ l) s v r =
      rounds-IsSettled env l (worker_type (env (length l)) (worker_take s))
        (worker_type-IsLive (env (length l)) (worker_take s) (worker_take-IsLive s v))
        (worker-IsRound (env (length l)) id l s v r)

  -- The answers leave the queue as it is, and no transcription.
  replies-IsRound :
      (answer : ℕ → Env × Reply) (ps : List (Pending Submission)) (s : Session)
      → s.asr.inflight ≡ ps
      → IsRound (outstanding s.current s.type_queue) (run c u strip (replies_to answer ps) s)
  unfolding run step
  replies-IsRound answer [] s h = record { left = refl; idle = h }
  replies-IsRound answer (p ∷ ps) s h =
      let a : Env × Reply = answer p.ticket in
      let t : Session = on_reply c u strip a.0 p.ticket a.1 s in
      let f : IsAnsweredFirst ps s t = on_reply-first c u strip a.0 a.1 p ps s h in
      let r : IsRound (outstanding t.current t.type_queue)
          (run c u strip (replies_to answer ps) t) =
        replies-IsRound answer ps t f.inflight in
      record { left = r.left ∙ ap₂ outstanding f.current f.type_queue; idle = r.idle }

  -- The worker never waits for a transcript that does not come: after any schedule on a new
  -- session, once the backend has answered the running transcriptions, whatever it answers, one
  -- round for each unfinished job takes the worker through its queue, whether or not the typer
  -- fails. Then nothing is queued, awaited or running.
  pub run-settles :
      (answer : ℕ → Env × Reply) (env : ℕ → Env) (n : ℕ) (calls : List (Env × Call))
      → IsSettled (
          run c u strip
            (settle answer env (run c u strip calls (new n)))
            (run c u strip calls (new n)))
  run-settles answer env n calls =
      subst IsSettled (sym (run-append asked (rounds env (length left)) s)) (
        rounds-IsSettled env left (run c u strip asked s)
          (run-keeps IsLive IsLive-IsRule c u strip asked s
            (run-keeps IsLive IsLive-IsRule c u strip calls (new n) (new-IsLive n)))
          (replies-IsRound answer s.asr.inflight s refl))
    where
      s : Session
      s = run c u strip calls (new n)

      asked : List (Env × Call)
      asked = replies_to answer s.asr.inflight

      left : List ℕ
      left = outstanding s.current s.type_queue
