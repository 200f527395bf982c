-- ===== src/Session/Order/Steps.antt =====
-- A round of the type worker keeps the order.
use Prim.Native.Nat.{suc, ◌≤◌}
use dicta.Base.{◌≡◌, refl, not, ◌==◌, if_intro, Option, none, some, Text, is_empty, arith}
use dicta.Session.State.{Env, Session, TypeJob, lookup}
use dicta.Session.Worker.{
  take_from, start_job, dispatch, dispatch_if_ready, dispatch_current, worker_take, worker_type,
}
use dicta.Session.Order.{Asc, ids, typed_next, IsOrdered}
use dicta.Session.Order.Jobs.{Asc-mono}

pub worker_take-IsOrdered : (s : Session) → IsOrdered s → IsOrdered (worker_take s)
unfolding worker_take take_from start_job
worker_take-IsOrdered s v = ground (arith, v)

dispatch-IsOrdered :
    (e : Env) (j : TypeJob) (x : Text) (s : Session)
    → s.current ≡ some j
    → IsOrdered s
    → IsOrdered (dispatch e j x s)
unfolding dispatch
dispatch-IsOrdered e j x s h v =
    if_intro IsOrdered (is_empty x) (λ _. free)
      (λ _.
        if_intro IsOrdered (not (s.epoch == j.epoch)) (λ _. free)
          (λ _.
            if_intro IsOrdered e.type_fails (λ _. free)
              (λ _. record {
                ascending = next.1;
                typed = (next.0, v.typed);
                awaited = v.awaited;
                resolved = v.resolved;
                queue_bound = v.queue_bound;
                slot_bound = v.slot_bound;
                calm = v.calm;
              })))
  where
    next : (typed_next s.typed ≤ j.id) × Asc (suc j.id) s.next_id (ids s.type_queue)
    next = rw h at v.ascending

    free : IsOrdered (record s { current = none })
    free = record {
      ascending =
          Asc-mono (suc j.id) (typed_next s.typed) s.next_id (ids s.type_queue)
            (omega (arith, next.0)) next.1;
      typed = v.typed;
      awaited = v.awaited;
      resolved = v.resolved;
      queue_bound = v.queue_bound;
      slot_bound = v.slot_bound;
      calm = v.calm;
    }

pub worker_type-IsOrdered : (e : Env) (s : Session) → IsOrdered s → IsOrdered (worker_type e s)
unfolding worker_type
worker_type-IsOrdered e s v = go s.current refl
  where
    ready :
        (j : TypeJob) (o : Option Text) → s.current ≡ some j → IsOrdered (dispatch_if_ready e j o s)
    ready j none h = v
    ready j (some x) h = dispatch-IsOrdered e j x s h v

    go : (o : Option TypeJob) → s.current ≡ o → IsOrdered (dispatch_current e o s)
    go none h = v
    go (some j) h = ready j (lookup j.id s.resolved) h
