-- ===== src/Session/Order/Kept.antt =====
-- The calls that leave the queue, the transcriptions and the typed texts as they are, keep the order.
use dicta.Session.State.{Config, Env, Session}
use dicta.Session.Utterance.{note_speech}
use dicta.Session.Kept.{Kept, note_speech-Kept}
use dicta.Session.Order.{IsOrdered}

pub Kept-IsOrdered : {s s' : Session} → Kept s s' → IsOrdered s → IsOrdered s'
Kept-IsOrdered {s} {s'} k v = record {
  ascending = rw (k.typed, k.current, k.type_queue, k.next_id) v.ascending;
  typed = rw k.typed v.typed;
  awaited = rw (k.next_id, k.resolved, k.asr) v.awaited;
  resolved = rw (k.next_id, k.resolved) v.resolved;
  queue_bound = rw k.type_queue v.queue_bound;
  slot_bound = rw k.asr v.slot_bound;
  calm = rw (k.queue_closed, k.panicked) v.calm;
}

pub note_speech-IsOrdered :
    (c : Config) (e : Env) (s : Session) → IsOrdered s → IsOrdered (note_speech c e s)
note_speech-IsOrdered c e s v = Kept-IsOrdered (note_speech-Kept c e s) v
