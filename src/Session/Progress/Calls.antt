-- ===== src/Session/Progress/Calls.antt =====
-- An utterance and the end of a transcription keep every unfinished job ready or awaited.
use Prim.Native.Nat.{ℕ, suc}
use dicta.Base.{
  ◌≡◌, ◌≢◌, ◌⊎◌, inl, inr, refl, Bool, true, not, ◌&&◌, ◌||◌, ◌==◌, ltb, if◌then◌else◌, if_intro,
  List, [], ◌∷◌, ◌++◌, Option, none, some, Text, Unicode, is_empty, length, arith,
}
use dicta.AsrMonitor
use dicta.AsrMonitor.{AsrMonitor, Pending, Reply, find, remove}
use dicta.Session.State.{
  Mode, mode_none, mode_type, mode_clip, mode_eq, Config, Env, Session, Submission, TypeJob,
  queue_capacity, lookup,
}
use dicta.Session.Utterance.{
  close_ready, close_job, note_speech, deliver, on_transcript, on_skip, submit, enqueue,
  on_utterance, on_reply, finish_reply, reply_to, after_reply, publish_transcript,
}
use dicta.Session.Kept.{Kept, note_speech-Kept}
use dicta.Session.Order.{jobs, outstanding}
use dicta.Session.Order.Jobs.{jobs-append, Found, find-Found}
use dicta.Session.Order.Replies.{transcribe-inflight}
use dicta.Session.Progress.{IsAnswered, IsTyped, AllTyped, IsLiveBut, IsLive}
use dicta.Session.Progress.Cover.{
  Covered-map, Waits-middle, Waits-snoc, IsAnswered-close, IsAnswered-ready, Covered-outstanding,
  AllTyped-append, AllTyped-part,
}

pub Kept-IsLiveBut : (o : Option ℕ) (s s' : Session) → Kept s s' → IsLiveBut o s → IsLiveBut o s'
Kept-IsLiveBut o s s' k v = record {
  covered = rw (k.current, k.type_queue, k.resolved, k.asr) v.covered;
  all_typed = rw k.asr v.all_typed;
}

close_job-IsLive :
    (o : Option ℕ) (x : Text) (s : Session) → IsLiveBut o s → IsLive (close_job o x s)
unfolding close_job close_ready
close_job-IsLive none x s v = v
close_job-IsLive (some id) x s v = at (lookup id s.resolved) refl
  where
    at :
        (r : Option Text)
        → lookup id s.resolved ≡ r
        → IsLive (elim r [
          | none ↦ record s { resolved = (id, x) ∷ s.resolved }
          | some _ ↦ record s { panicked = true }
        ])
    at none h = record {
      covered =
          Covered-map s.resolved ((id, x) ∷ s.resolved) (some id ∷ jobs s.asr.inflight)
            (none ∷ jobs s.asr.inflight) (outstanding s.current s.type_queue)
            (IsAnswered-close s.resolved (jobs s.asr.inflight) id x) v.covered;
      all_typed = v.all_typed;
    }
    at (some y) h = record {
      covered =
          Covered-map s.resolved s.resolved (some id ∷ jobs s.asr.inflight)
            (none ∷ jobs s.asr.inflight) (outstanding s.current s.type_queue)
            (λ k. IsAnswered-ready s.resolved (jobs s.asr.inflight) id y k h) v.covered;
      all_typed = v.all_typed;
    }

untyped : (m : Mode) (id : ℕ) → m ≢ mode_type → (m ≡ mode_type) ⊎ (some id ≡ none) → ⊥
untyped m id n (inl e) = n e
untyped m id n (inr e) = cc

deliver-IsLive :
    (c : Config) (e : Env) (k : Submission) (x : Text) (s : Session)
    → IsTyped k
    → IsLiveBut k.job s
    → IsLive (deliver c e k x s)
unfolding deliver publish_transcript
deliver-IsLive c e k x s t v = at k.mode k.job t v
  where
    at :
        (m : Mode) (o : Option ℕ)
        → (m ≡ mode_type) ⊎ (o ≡ none)
        → IsLiveBut o s
        → IsLive (deliver c e (record k { mode = m; job = o }) x s)
    at mode_type o t v =
        Kept-IsLiveBut none (close_job o x (publish_transcript c x s)) _ (ground arith) (
          close_job-IsLive o x (publish_transcript c x s)
            (Kept-IsLiveBut o s (publish_transcript c x s) (ground arith) v))
    at mode_clip none t v = Kept-IsLiveBut none s _ (ground arith) v
    at mode_clip (some id) t v = absurd (untyped mode_clip id (λ q. cc) t)
    at mode_none none t v = Kept-IsLiveBut none s _ (ground arith) v
    at mode_none (some id) t v = absurd (untyped mode_none id (λ q. cc) t)

after_reply-IsLive :
    (c : Config) (e : Env) (k : Submission) (out : Option Text) (s : Session)
    → IsTyped k
    → IsLiveBut k.job s
    → IsLive (after_reply c e k out s)
unfolding on_skip on_transcript
after_reply-IsLive c e k none s t v = close_job-IsLive k.job [] s v
after_reply-IsLive c e k (some x) s t v =
    if_intro IsLive
      (not (s.epoch == k.epoch) || (not (mode_eq s.mode k.mode) && not (mode_eq s.mode mode_none)))
      (λ _. close_job-IsLive k.job [] s v) (λ _. deliver-IsLive c e k x s t v)

finish_reply-IsLive :
    (c : Config) (u : Unicode) (strip : Text → Text) (e : Env) (t : ℕ) (p : Pending Submission)
    (r : Reply) (s : Session)
    → find t s.asr.inflight ≡ some p
    → IsLive s
    → IsLive (finish_reply c u strip e p r s)
unfolding finish_reply AsrMonitor.release
finish_reply-IsLive c u strip e t p r s h v =
    after_reply-IsLive c e p.callbacks (AsrMonitor.transcribe u strip r s.asr).1 freed parts.0
      (record {
        covered =
            rw (same, jobs-append f.before f.after)
              (Covered-map s.resolved s.resolved (none ∷ jobs s.asr.inflight)
                (p.callbacks.job ∷ jobs f.before ++ jobs f.after)
                (outstanding s.current s.type_queue) moved v.covered);
        all_typed = rw same parts.1;
      })
  where
    f : Found t s.asr.inflight p
    f = find-Found t s.asr.inflight p h

    m : AsrMonitor Submission
    m = (AsrMonitor.transcribe u strip r s.asr).0

    freed : Session
    freed = record s { asr = AsrMonitor.release p.ticket m }

    same : remove p.ticket m.inflight ≡ f.before ++ f.after
    same = rw (f.ticket, (transcribe-inflight u strip r s.asr).0) f.rest

    parts : IsTyped p.callbacks × AllTyped (f.before ++ f.after)
    parts = AllTyped-part f.before f.after p (rw f.whole at v.all_typed)

    whole : jobs s.asr.inflight ≡ jobs f.before ++ p.callbacks.job ∷ jobs f.after
    whole = rw f.whole (jobs-append f.before (p ∷ f.after))

    moved :
        (id : ℕ)
        → IsAnswered s.resolved (none ∷ jobs s.asr.inflight) id
        → IsAnswered s.resolved (p.callbacks.job ∷ jobs f.before ++ jobs f.after) id
    moved id (inl a) = inl a
    moved id (inr w) =
        inr (Waits-middle p.callbacks.job (jobs f.before) (jobs f.after) id (rw whole at w))

pub on_reply-IsLive :
    (c : Config) (u : Unicode) (strip : Text → Text) (e : Env) (t : ℕ) (r : Reply) (s : Session)
    → IsLive s
    → IsLive (on_reply c u strip e t r s)
unfolding on_reply
on_reply-IsLive c u strip e t r s v = go (find t s.asr.inflight) refl
  where
    go :
        (o : Option (Pending Submission))
        → find t s.asr.inflight ≡ o
        → IsLive (reply_to c u strip e o r s)
    go none h = v
    go (some p) h = finish_reply-IsLive c u strip e t p r s h v

submit-IsLive :
    (pcm : List ℕ) (k : Submission) (s : Session)
    → IsTyped k
    → IsLiveBut k.job s
    → IsLive (submit pcm k s)
unfolding submit on_skip AsrMonitor.on_utterance
submit-IsLive pcm k s t v =
    if_intro Good (is_empty pcm) (λ _. close_job-IsLive k.job [] s v)
      (λ _.
        if_intro Good (ltb (length s.asr.inflight) s.asr.max_concurrent)
          (λ _. record {
            covered = rw (jobs-append s.asr.inflight (p ∷ [])) (
                Covered-map s.resolved s.resolved (k.job ∷ jobs s.asr.inflight)
                  (none ∷ jobs s.asr.inflight ++ k.job ∷ []) (outstanding s.current s.type_queue)
                  moved v.covered);
            all_typed = AllTyped-append s.asr.inflight (p ∷ []) v.all_typed (t, tt);
          })
          (λ _. close_job-IsLive k.job [] s v))
  where
    Good : AsrMonitor Submission × Bool → Type 0
    Good r =
        IsLive (if r.1 then close_job k.job [] (record s { asr = r.0 }) else record s { asr = r.0 })

    p : Pending Submission
    p = record { ticket = s.asr.next_ticket; callbacks = k; pcm = pcm }

    moved :
        (id : ℕ)
        → IsAnswered s.resolved (k.job ∷ jobs s.asr.inflight) id
        → IsAnswered s.resolved (none ∷ jobs s.asr.inflight ++ k.job ∷ []) id
    moved id (inl a) = inl a
    moved id (inr w) = inr (Waits-snoc k.job (jobs s.asr.inflight) id w)

enqueue-IsLive : (pcm : List ℕ) (s : Session) → IsLive s → IsLive (enqueue pcm s)
unfolding enqueue
enqueue-IsLive pcm s v =
    if_intro IsLive s.queue_closed (λ _. record { covered = v.covered; all_typed = v.all_typed })
      (λ _.
        if_intro IsLive (ltb (length s.type_queue) queue_capacity)
          (λ _. submit-IsLive pcm k queued (inl refl) (record {
            covered =
                Covered-outstanding s.resolved (some s.next_id ∷ jobs s.asr.inflight) s.current
                  s.type_queue j
                  (Covered-map s.resolved s.resolved (none ∷ jobs s.asr.inflight)
                    (some s.next_id ∷ jobs s.asr.inflight) (outstanding s.current s.type_queue) more
                    v.covered)
                  (inr (inl refl));
            all_typed = v.all_typed;
          }))
          (λ _. v))
  where
    j : TypeJob
    j = record { id = s.next_id; epoch = s.epoch }

    k : Submission
    k = record { mode = mode_type; epoch = s.epoch; job = some s.next_id }

    queued : Session
    queued = record s { type_queue = s.type_queue ++ j ∷ []; next_id = suc s.next_id }

    more :
        (id : ℕ)
        → IsAnswered s.resolved (none ∷ jobs s.asr.inflight) id
        → IsAnswered s.resolved (some s.next_id ∷ jobs s.asr.inflight) id
    more id (inl a) = inl a
    more id (inr w) = inr (inr w)

pub on_utterance-IsLive :
    (c : Config) (e : Env) (pcm : List ℕ) (s : Session) → IsLive s → IsLive (on_utterance c e pcm s)
unfolding on_utterance
on_utterance-IsLive c e pcm s v = if_intro IsLive s.open_state (λ _. at s.mode) (λ _. v)
  where
    heard : Session
    heard = note_speech c e s

    w : IsLive heard
    w = Kept-IsLiveBut none s heard (note_speech-Kept c e s) v

    at :
        (m : Mode)
        → IsLive (elim m [
          | mode_type ↦ enqueue pcm heard
          | mode_clip ↦ submit pcm (record { mode = mode_clip; epoch = s.epoch; job = none }) heard
          | mode_none ↦ s
        ])
    at mode_type = enqueue-IsLive pcm heard w
    at mode_clip =
        submit-IsLive pcm (record { mode = mode_clip; epoch = s.epoch; job = none }) heard
          (inr refl) w
    at mode_none = v
