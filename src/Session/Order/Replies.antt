-- ===== src/Session/Order/Replies.antt =====
-- The answer of the ASR backend keeps the order: the callbacks of `OnUtterance`.
use Prim.Native.Nat.{ℕ, ◌<◌, ◌≤◌}
use dicta.Base.{
  ◌≡◌, refl, sym, not, ◌&&◌, ◌||◌, ◌==◌, if_intro, List, [], ◌∷◌, ◌++◌, Option, none, some, Text,
  Unicode, length, length-append, arith,
}
use dicta.AsrMonitor
use dicta.AsrMonitor.{AsrMonitor, Pending, Reply, find, remove}
use dicta.Session.State.{
  Mode, mode_none, mode_type, mode_clip, mode_eq, Config, Env, Session, Submission, lookup,
}
use dicta.Session.Utterance.{
  close_ready, close_job, deliver, on_transcript, on_skip, on_reply, finish_reply, reply_to,
  after_reply, publish_transcript,
}
use dicta.Session.Order.{jobs, Awaited, IsOrdered}
use dicta.Session.Order.Jobs.{Freed, Awaited-Freed, Awaited-remove, jobs-append, Found, find-Found}
use dicta.Session.Order.Kept.{Kept-IsOrdered}

-- The job of an utterance that is in no callback any more, and not ready.
abbrev FitsIn : Option ℕ → ℕ → List (ℕ × Text) → List (Pending Submission) → Type 0
FitsIn none hi done ps = Unit {0}
FitsIn (some id) hi done ps =
    (id < hi) × (lookup id done ≡ none) × ((x : Text) → Awaited 0 hi ((id, x) ∷ done) (jobs ps))

abbrev pub Fits : Option ℕ → Session → Type 0
Fits o s = FitsIn o s.next_id s.resolved s.asr.inflight

pub close_job-IsOrdered :
    (o : Option ℕ) (x : Text) (s : Session) → Fits o s → IsOrdered s → IsOrdered (close_job o x s)
unfolding close_job close_ready
close_job-IsOrdered none x s f v = v
close_job-IsOrdered (some id) x s f v =
    rw (f.1, close_ready)
      (record {
        ascending = v.ascending;
        typed = v.typed;
        awaited = f.2 x;
        resolved = (f.0, v.resolved);
        queue_bound = v.queue_bound;
        slot_bound = v.slot_bound;
        calm = v.calm;
      })

deliver-IsOrdered :
    (c : Config) (e : Env) (k : Submission) (x : Text) (s : Session)
    → Fits k.job s
    → IsOrdered s
    → IsOrdered (deliver c e k x s)
unfolding deliver publish_transcript
deliver-IsOrdered c e k x s f v = at k.mode
  where
    told : (o : Option ℕ) → Fits o s → IsOrdered (close_job o x (publish_transcript c x s))
    told o f =
        close_job-IsOrdered o x (publish_transcript c x s) f (Kept-IsOrdered (ground arith) v)

    at : (m : Mode) → IsOrdered (deliver c e (record k { mode = m }) x s)
    at mode_clip = Kept-IsOrdered (ground arith) v
    at mode_type = Kept-IsOrdered (ground arith) (told k.job f)
    at mode_none = Kept-IsOrdered (ground arith) v

on_transcript-IsOrdered :
    (c : Config) (e : Env) (k : Submission) (x : Text) (s : Session)
    → Fits k.job s
    → IsOrdered s
    → IsOrdered (on_transcript c e k x s)
unfolding on_transcript
on_transcript-IsOrdered c e k x s f v =
    if_intro IsOrdered
      (not (s.epoch == k.epoch) || (not (mode_eq s.mode k.mode) && not (mode_eq s.mode mode_none)))
      (λ _. close_job-IsOrdered k.job [] s f v) (λ _. deliver-IsOrdered c e k x s f v)

after_reply-IsOrdered :
    (c : Config) (e : Env) (k : Submission) (out : Option Text) (s : Session)
    → Fits k.job s
    → IsOrdered s
    → IsOrdered (after_reply c e k out s)
unfolding on_skip
after_reply-IsOrdered c e k none s f v = close_job-IsOrdered k.job [] s f v
after_reply-IsOrdered c e k (some x) s f v = on_transcript-IsOrdered c e k x s f v

-- `transcribe` leaves the slots alone.
pub transcribe-inflight :
    {K : Type 0} (u : Unicode) (strip : Text → Text) (r : Reply) (m : AsrMonitor K)
    → ((AsrMonitor.transcribe u strip r m).0.inflight ≡ m.inflight)
      × ((AsrMonitor.transcribe u strip r m).0.max_concurrent ≡ m.max_concurrent)
unfolding AsrMonitor.transcribe AsrMonitor.accept
transcribe-inflight u strip (AsrMonitor.error x) m = (refl, refl)
transcribe-inflight u strip (AsrMonitor.text raw) m = ground arith

-- The transcription of a finished reply leaves the list, and its job is not ready.
part :
    (hi : ℕ) (done : List (ℕ × Text)) (o : Option ℕ) (bs cs : List (Pending Submission))
    → Awaited 0 hi done (jobs bs ++ o ∷ jobs cs)
    → FitsIn o hi done (bs ++ cs)
part hi done none bs cs a = tt
part hi done (some id) bs cs a = (f.below, f.unready, λ x. rw (jobs-append bs cs) (f.others x))
  where
    f : Freed 0 hi done (jobs bs) (jobs cs) id
    f = Awaited-Freed 0 hi done (jobs bs) (jobs cs) id a

finish_reply-IsOrdered :
    (c : Config) (u : Unicode) (strip : Text → Text) (e : Env) (t : ℕ) (p : Pending Submission)
    (r : Reply) (s : Session)
    → find t s.asr.inflight ≡ some p
    → IsOrdered s
    → IsOrdered (finish_reply c u strip e p r s)
unfolding finish_reply AsrMonitor.release
finish_reply-IsOrdered c u strip e t p r s h v =
    after_reply-IsOrdered c e p.callbacks (AsrMonitor.transcribe u strip r s.asr).1 freed
      (rw (same) (part s.next_id s.resolved p.callbacks.job f.before f.after parted))
      (record {
        ascending = v.ascending;
        typed = v.typed;
        awaited =
            rw (same, jobs-append f.before f.after)
              (Awaited-remove 0 s.next_id s.resolved (jobs f.before) (jobs f.after) p.callbacks.job
                parted);
        resolved = v.resolved;
        queue_bound = v.queue_bound;
        slot_bound = rw (same, kept.1) (fewer v.slot_bound);
        calm = v.calm;
      })
  where
    f : Found t s.asr.inflight p
    f = find-Found t s.asr.inflight p h

    m : AsrMonitor Submission
    m = (AsrMonitor.transcribe u strip r s.asr).0

    kept : (m.inflight ≡ s.asr.inflight) × (m.max_concurrent ≡ s.asr.max_concurrent)
    kept = transcribe-inflight u strip r s.asr

    freed : Session
    freed = record s { asr = AsrMonitor.release p.ticket m }

    same : remove p.ticket m.inflight ≡ f.before ++ f.after
    same = rw (f.ticket, kept.0) f.rest

    parted : Awaited 0 s.next_id s.resolved (jobs f.before ++ p.callbacks.job ∷ jobs f.after)
    parted = rw (sym (jobs-append f.before (p ∷ f.after)), sym f.whole) v.awaited

    fewer : {n : ℕ} → length s.asr.inflight ≤ n → length (f.before ++ f.after) ≤ n
    fewer q =
        ground
          (arith, q, f.whole, length-append f.before (p ∷ f.after), length-append f.before f.after)

pub on_reply-IsOrdered :
    (c : Config) (u : Unicode) (strip : Text → Text) (e : Env) (t : ℕ) (r : Reply) (s : Session)
    → IsOrdered s
    → IsOrdered (on_reply c u strip e t r s)
unfolding on_reply
on_reply-IsOrdered c u strip e t r s v = go (find t s.asr.inflight) refl
  where
    go :
        (o : Option (Pending Submission))
        → find t s.asr.inflight ≡ o
        → IsOrdered (reply_to c u strip e o r s)
    go none h = v
    go (some p) h = finish_reply-IsOrdered c u strip e t p r s h v
