-- ===== src/Session/Order/Runs.antt =====
-- Every call keeps the order of typing; what that says of a run.
use Prim.Native.Nat.{ℕ}
use dicta.Base.{true, List, Text, Unicode, arith}
use dicta.AsrMonitor
use dicta.Session.State.{Config, Env, Session, new}
use dicta.Session.Run.{Call, run}
use dicta.Session.Invariant.{IsRule, run-keeps}
use dicta.Session.Order.{IsOrdered}
use dicta.Session.Order.Kept.{Kept-IsOrdered}
use dicta.Session.Order.Replies.{on_reply-IsOrdered}
use dicta.Session.Order.Utterances.{on_utterance-IsOrdered}
use dicta.Session.Order.Steps.{worker_take-IsOrdered, worker_type-IsOrdered}

close_queue-IsOrdered : (s : Session) → IsOrdered s → IsOrdered (record s { queue_closed = true })
close_queue-IsOrdered s v = ground arith

IsOrdered-IsRule : IsRule IsOrdered
IsOrdered-IsRule = record {
  kept = λ s s' k v. Kept-IsOrdered k v;
  utters = on_utterance-IsOrdered;
  replies = on_reply-IsOrdered;
  takes = worker_take-IsOrdered;
  types = worker_type-IsOrdered;
  closes = close_queue-IsOrdered;
}

new-IsOrdered : (n : ℕ) → IsOrdered (new n)
unfolding new AsrMonitor.new
new-IsOrdered n = ground arith

-- Under every schedule of calls on a new session, with any answers of the collaborators, the
-- session stays ordered: what was typed was submitted in that order, each utterance at most once;
-- the awaited and queued jobs follow in that order; the type jobs of the running transcriptions
-- ascend too and are not ready; the queue holds at most 8 jobs; at most `max_concurrent`
-- transcriptions run; and until the queue is closed no channel is closed twice or sent to after
-- its close.
pub run-IsOrdered :
    (c : Config) (u : Unicode) (strip : Text → Text) (n : ℕ) (calls : List (Env × Call))
    → IsOrdered (run c u strip calls (new n))
run-IsOrdered c u strip n calls =
    run-keeps IsOrdered IsOrdered-IsRule c u strip calls (new n) (new-IsOrdered n)
