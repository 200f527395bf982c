-- ===== src/Session/Progress/Rounds.antt =====
-- What one answer of the backend and one round of the worker leave.
use Prim.Native.Nat.{ℕ}
use dicta.Base.{
  ◌≡◌, ◌≢◌, inl, inr, refl, sym, ap, ◌∙◌, Option-cases, not, ◌&&◌, ◌||◌, ◌==◌, if_intro, List, [],
  ◌∷◌, Option, none, some, Text, Unicode, arith,
}
use mathlib.Core.Path.{subst}
use dicta.AsrMonitor
use dicta.AsrMonitor.{AsrMonitor, Pending, Reply, find, remove}
use dicta.Session.State.{
  Mode, mode_none, mode_type, mode_clip, mode_eq, Config, Env, Session, Submission, TypeJob, lookup,
}
use dicta.Session.Utterance.{
  close_ready, close_job, deliver, on_transcript, on_skip, on_reply, finish_reply, reply_to,
  after_reply, publish_transcript,
}
use dicta.Session.Worker.{take_from, start_job, worker_take, worker_type, dispatch}
use dicta.Session.Drain.{worker_type-dispatch}
use dicta.Session.Order.{jobs, ids, outstanding}
use dicta.Session.Order.Replies.{transcribe-inflight}
use dicta.Session.Progress.{Covered, IsLive}
use dicta.Session.Progress.Work.{worker_take-IsLive, IsFinished, dispatch-IsFinished}

-- The worker and the running transcriptions stand as before.
record SameWork (s s' : Session) : Type 0 where
  current : s'.current ≡ s.current
  type_queue : s'.type_queue ≡ s.type_queue
  inflight : s'.asr.inflight ≡ s.asr.inflight

close_job-SameWork : (o : Option ℕ) (x : Text) (s : Session) → SameWork s (close_job o x s)
unfolding close_job close_ready
close_job-SameWork none x s = ground arith
close_job-SameWork (some id) x s = ground arith

after_reply-SameWork :
    (c : Config) (e : Env) (k : Submission) (out : Option Text) (s : Session)
    → SameWork s (after_reply c e k out s)
unfolding on_skip on_transcript deliver publish_transcript
after_reply-SameWork c e k none s = close_job-SameWork k.job [] s
after_reply-SameWork c e k (some x) s =
    if_intro (SameWork s)
      (not (s.epoch == k.epoch) || (not (mode_eq s.mode k.mode) && not (mode_eq s.mode mode_none)))
      (λ _. close_job-SameWork k.job [] s) (λ _. at k.mode)
  where
    at : (m : Mode) → SameWork s (deliver c e (record k { mode = m }) x s)
    at mode_clip = ground arith
    at mode_none = ground arith
    at mode_type = ground (arith, close_job-SameWork k.job x (publish_transcript c x s))

-- What the answer of the first transcription leaves.
pub record IsAnsweredFirst (ps : List (Pending Submission)) (s s' : Session) : Type 0 where
  pub current : s'.current ≡ s.current
  pub type_queue : s'.type_queue ≡ s.type_queue
  pub inflight : s'.asr.inflight ≡ ps

find-first :
    (p : Pending Submission) (ps : List (Pending Submission))
    → (find p.ticket (p ∷ ps) ≡ some p) × (remove p.ticket (p ∷ ps) ≡ ps)
unfolding find remove
find-first p ps = ground arith

pub on_reply-first :
    (c : Config) (u : Unicode) (strip : Text → Text) (e : Env) (r : Reply) (p : Pending Submission)
    (ps : List (Pending Submission)) (s : Session)
    → s.asr.inflight ≡ p ∷ ps
    → IsAnsweredFirst ps s (on_reply c u strip e p.ticket r s)
unfolding on_reply finish_reply AsrMonitor.release
on_reply-first c u strip e r p ps s h =
    subst (IsAnsweredFirst ps s) (sym found)
      (record { current = k.current; type_queue = k.type_queue; inflight = k.inflight ∙ left })
  where
    m : AsrMonitor Submission
    m = (AsrMonitor.transcribe u strip r s.asr).0

    freed : Session
    freed = record s { asr = AsrMonitor.release p.ticket m }

    out : Option Text
    out = (AsrMonitor.transcribe u strip r s.asr).1

    found : on_reply c u strip e p.ticket r s ≡ after_reply c e p.callbacks out freed
    found = ap (λ o. reply_to c u strip e o r s) (ap (find p.ticket) h ∙ (find-first p ps).0)

    k : SameWork freed (after_reply c e p.callbacks out freed)
    k = after_reply-SameWork c e p.callbacks out freed

    left : remove p.ticket m.inflight ≡ ps
    left = ap (remove p.ticket) ((transcribe-inflight u strip r s.asr).0 ∙ h) ∙ (find-first p ps).1

-- The worker awaits the first unfinished job.
record IsStarted (l : List ℕ) (s s' : Session) : Type 0 where
  job : TypeJob
  awaits : s'.current ≡ some job
  rest : ids s'.type_queue ≡ l
  resolved : s'.resolved ≡ s.resolved
  asr : s'.asr ≡ s.asr

start_job-IsStarted :
    (j : TypeJob) (js : List TypeJob) (s : Session) → IsStarted (ids js) s (start_job j js s)
unfolding start_job
start_job-IsStarted j js s =
    if_intro (IsStarted (ids js) s) (not s.initialized || not (j.epoch == s.current_epoch))
      (λ _. record { job = j; awaits = refl; rest = refl; resolved = refl; asr = refl })
      (λ _. record { job = j; awaits = refl; rest = refl; resolved = refl; asr = refl })

cons_eq {ℓ} : {A : Type ℓ} {x y : A} {xs ys : List A} → x ∷ xs ≡ y ∷ ys → (x ≡ y) × (xs ≡ ys)
cons_eq h = (cc, cc)

worker_take-IsStarted :
    (id : ℕ) (l : List ℕ) (s : Session)
    → outstanding s.current s.type_queue ≡ id ∷ l
    → IsStarted l s (worker_take s)
unfolding worker_take take_from
worker_take-IsStarted id l s h = at s.current s.type_queue refl refl h
  where
    at :
        (o : Option TypeJob) (js : List TypeJob)
        → s.current ≡ o
        → s.type_queue ≡ js
        → outstanding o js ≡ id ∷ l
        → IsStarted l s (take_from o js s)
    at none [] p q h = cc
    at none (j ∷ js) p q h =
        subst (λ k. IsStarted k s (start_job j js s)) (cons_eq h).1 (start_job-IsStarted j js s)
    at (some i) js p q h = record {
      job = i;
      awaits = p;
      rest = ap ids q ∙ (cons_eq h).1;
      resolved = refl;
      asr = refl;
    }

pub record IsRound (l : List ℕ) (s : Session) : Type 0 where
  pub left : outstanding s.current s.type_queue ≡ l
  pub idle : s.asr.inflight ≡ []

ready_of_Covered :
    (done : List (ℕ × Text)) (os : List (Option ℕ)) (id : ℕ) (l : List ℕ)
    → os ≡ []
    → Covered done (none ∷ os) (id ∷ l)
    → lookup id done ≢ none
ready_of_Covered done [] id l e (inl a, c) = a
ready_of_Covered done [] id l e (inr w, c) = absurd w
ready_of_Covered done (o ∷ os) id l e c = cc

-- Where no transcription runs, a round of the worker finishes a job.
pub worker-IsRound :
    (env : Env) (id : ℕ) (l : List ℕ) (s : Session)
    → IsLive s
    → IsRound (id ∷ l) s
    → IsRound l (worker_type env (worker_take s))
worker-IsRound env id l s v r = elim (Option-cases (lookup st.job.id t.resolved)) [
  | inl q ↦ absurd (ready q)
  | inr (x, q) ↦
      subst (IsRound l) (sym (worker_type-dispatch env st.job x t st.awaits q))
        (done x (dispatch-IsFinished env st.job x t))
]
  where
    t : Session
    t = worker_take s

    st : IsStarted l s t
    st = worker_take-IsStarted id l s r.left

    idle : t.asr.inflight ≡ []
    idle = ap (λ m. m.inflight) st.asr ∙ r.idle

    ready : lookup st.job.id t.resolved ≢ none
    ready =
        ready_of_Covered t.resolved (jobs t.asr.inflight) st.job.id (ids t.type_queue)
          (ap jobs idle)
          (subst (λ o. Covered t.resolved (none ∷ jobs t.asr.inflight) (outstanding o t.type_queue))
            st.awaits (worker_take-IsLive s v).covered)

    done : (x : Text) → IsFinished t (dispatch env st.job x t) → IsRound l (dispatch env st.job x t)
    done x f = record {
      left = rw (f.current, f.type_queue) st.rest;
      idle = ap (λ m. m.inflight) f.asr ∙ idle;
    }
