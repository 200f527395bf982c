-- ===== src/Session/Order/Utterances.antt =====
-- The submission of an utterance keeps the order: `OnUtterance` up to the goroutine.
use Prim.Native.Nat.{ℕ, suc}
use dicta.Base.{
  ◌≡◌, refl, Bool, true, if◌then◌else◌, if_intro, List, [], ◌∷◌, ◌++◌, none, some, length,
  length-append, ltb, is_empty, arith,
}
use dicta.AsrMonitor
use dicta.AsrMonitor.{AsrMonitor, Pending, Reply, find, remove}
use dicta.Session.State.{
  Mode, mode_none, mode_type, mode_clip, Config, Env, Session, Submission, TypeJob, queue_capacity,
  lookup,
}
use dicta.Session.Utterance.{close_job, note_speech, on_skip, submit, enqueue, on_utterance}
use dicta.Session.Order.{typed_next, jobs, Awaited, IsOrdered}
use dicta.Session.Order.Jobs.{
  Asc-outstanding, lookup-Below, Below-mono, Awaited-snoc, Awaited-snoc_none, Awaited-up,
  Awaited-newer, jobs-append,
}
use dicta.Session.Order.Kept.{note_speech-IsOrdered}
use dicta.Session.Order.Replies.{Fits, close_job-IsOrdered}

submit-IsOrdered :
    (pcm : List ℕ) (k : Submission) (s : Session)
    → Fits k.job s
    → Awaited 0 s.next_id s.resolved (jobs s.asr.inflight ++ k.job ∷ [])
    → IsOrdered s
    → IsOrdered (submit pcm k s)
unfolding submit on_skip AsrMonitor.on_utterance
submit-IsOrdered pcm k s f a v =
    if_intro Good (is_empty pcm) (λ _. skipped)
      (λ _.
        if_intro Good (ltb (length s.asr.inflight) s.asr.max_concurrent)
          (λ h. record {
            ascending = v.ascending;
            typed = v.typed;
            awaited = rw (jobs-append s.asr.inflight (p ∷ [])) a;
            resolved = v.resolved;
            queue_bound = v.queue_bound;
            slot_bound = ground (arith, length-append s.asr.inflight (p ∷ []));
            calm = v.calm;
          })
          (λ _. skipped))
  where
    Good : AsrMonitor Submission × Bool → Type 0
    Good r =
        IsOrdered
          (if r.1 then close_job k.job [] (record s { asr = r.0 }) else record s { asr = r.0 })

    p : Pending Submission
    p = record { ticket = s.asr.next_ticket; callbacks = k; pcm = pcm }

    skipped : Good (s.asr, true)
    skipped = close_job-IsOrdered k.job [] s f v

enqueue-IsOrdered : (pcm : List ℕ) (s : Session) → IsOrdered s → IsOrdered (enqueue pcm s)
unfolding enqueue
enqueue-IsOrdered pcm s v =
    if_intro IsOrdered s.queue_closed
      (λ h. record {
        ascending = v.ascending;
        typed = v.typed;
        awaited = v.awaited;
        resolved = v.resolved;
        queue_bound = v.queue_bound;
        slot_bound = v.slot_bound;
        calm = λ q. cc;
      })
      (λ _.
        if_intro IsOrdered (ltb (length s.type_queue) queue_capacity)
          (λ h.
            submit-IsOrdered pcm k queued
              (
                omega arith,
                fresh,
                λ x. Awaited-up 0 s.next_id ((s.next_id, x) ∷ s.resolved) (jobs s.asr.inflight) (
                    Awaited-newer 0 s.next_id s.next_id x s.resolved (jobs s.asr.inflight)
                      (omega arith) v.awaited),
              )
              (Awaited-snoc 0 s.next_id s.resolved (jobs s.asr.inflight) fresh v.awaited)
              (record {
                ascending =
                    Asc-outstanding (typed_next s.typed) s.next_id s.current s.type_queue j refl
                      v.ascending;
                typed = v.typed;
                awaited = up;
                resolved = Below-mono s.resolved (omega arith) v.resolved;
                queue_bound = ground (arith, length-append s.type_queue (j ∷ []));
                slot_bound = v.slot_bound;
                calm = v.calm;
              }))
          (λ _. v))
  where
    j : TypeJob
    j = record { id = s.next_id; epoch = s.epoch }

    k : Submission
    k = record { mode = mode_type; epoch = s.epoch; job = some s.next_id }

    queued : Session
    queued = record s { type_queue = s.type_queue ++ j ∷ []; next_id = suc s.next_id }

    fresh : lookup s.next_id s.resolved ≡ none
    fresh = lookup-Below s.resolved s.next_id v.resolved (omega arith)

    up : Awaited 0 (suc s.next_id) s.resolved (jobs s.asr.inflight)
    up = Awaited-up 0 s.next_id s.resolved (jobs s.asr.inflight) v.awaited

pub on_utterance-IsOrdered :
    (c : Config) (e : Env) (pcm : List ℕ) (s : Session)
    → IsOrdered s
    → IsOrdered (on_utterance c e pcm s)
unfolding on_utterance
on_utterance-IsOrdered c e pcm s v = if_intro IsOrdered s.open_state (λ _. at s.mode) (λ _. v)
  where
    heard : Session
    heard = note_speech c e s

    w : IsOrdered heard
    w = note_speech-IsOrdered c e s v

    at :
        (m : Mode)
        → IsOrdered (elim m [
          | mode_type ↦ enqueue pcm heard
          | mode_clip ↦ submit pcm (record { mode = mode_clip; epoch = s.epoch; job = none }) heard
          | mode_none ↦ s
        ])
    at mode_type = enqueue-IsOrdered pcm heard w
    at mode_clip =
        submit-IsOrdered pcm (record { mode = mode_clip; epoch = s.epoch; job = none }) heard tt
          (Awaited-snoc_none 0 heard.next_id heard.resolved (jobs heard.asr.inflight) w.awaited) w
    at mode_none = v
