-- ===== src/Session/Progress/Work.antt =====
-- The worker keeps every unfinished job ready or awaited.
use dicta.Base.{
  ◌≡◌, refl, not, ◌||◌, ◌==◌, if_intro, List, [], ◌∷◌, Option, none, some, Text, arith,
}
use dicta.Session.State.{Env, Session, TypeJob, lookup}
use dicta.Session.Worker.{
  take_from, start_job, dispatch, dispatch_if_ready, dispatch_current, worker_take, worker_type,
}
use dicta.Session.Order.{jobs, outstanding}
use dicta.Session.Progress.{Covered, IsLive}

start_job-outstanding :
    (j : TypeJob) (js : List TypeJob) (s : Session)
    → IsLive (record s { current = some j; type_queue = js })
    → IsLive (start_job j js s)
unfolding start_job
start_job-outstanding j js s v =
    if_intro IsLive (not s.initialized || not (j.epoch == s.current_epoch))
      (λ _. record { covered = v.covered; all_typed = v.all_typed }) (λ _. v)

pub worker_take-IsLive : (s : Session) → IsLive s → IsLive (worker_take s)
unfolding worker_take take_from
worker_take-IsLive s v = at s.current s.type_queue v.covered
  where
    at :
        (o : Option TypeJob) (js : List TypeJob)
        → Covered s.resolved (none ∷ jobs s.asr.inflight) (outstanding o js)
        → IsLive (take_from o js s)
    at none [] c = v
    at (some i) js c = v
    at none (j ∷ js) c =
        start_job-outstanding j js s (record { covered = c; all_typed = v.all_typed })

-- The awaited job is ready, so the worker finishes it.
pub record IsFinished (s s' : Session) : Type 0 where
  pub current : s'.current ≡ none
  pub type_queue : s'.type_queue ≡ s.type_queue
  pub resolved : s'.resolved ≡ s.resolved
  pub asr : s'.asr ≡ s.asr

pub dispatch-IsFinished :
    (e : Env) (j : TypeJob) (x : Text) (s : Session) → IsFinished s (dispatch e j x s)
unfolding dispatch
dispatch-IsFinished e j x s = ground arith

pub worker_type-IsLive : (e : Env) (s : Session) → IsLive s → IsLive (worker_type e s)
unfolding worker_type
worker_type-IsLive e s v = go s.current refl
  where
    ready :
        (j : TypeJob) (o : Option Text) → s.current ≡ some j → IsLive (dispatch_if_ready e j o s)
    ready j none h = v
    ready j (some x) h =
        let f : IsFinished s (dispatch e j x s) = dispatch-IsFinished e j x s in
        let c : Covered s.resolved (none ∷ jobs s.asr.inflight)
            (outstanding (some j) s.type_queue) =
          rw h at v.covered in
        record {
          covered = rw (f.current, f.type_queue, f.resolved, f.asr) c.1;
          all_typed = rw f.asr v.all_typed;
        }

    go : (o : Option TypeJob) → s.current ≡ o → IsLive (dispatch_current e o s)
    go none h = v
    go (some j) h = ready j (lookup j.id s.resolved) h
