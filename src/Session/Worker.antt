-- ===== src/Session/Worker.antt =====
-- cmd/dictad/session.go: the loop of `typeWorker`, a round in two steps.
use dicta.Base.{
  ℕ, suc, true, not, ◌||◌, List, ◌∷◌, Option, none, some, Text, is_empty, ltb, ◌==◌, if◌then◌else◌,
}
use dicta.Session.State.{Env, TypeJob, Session, lookup}

-- The next job comes off the channel, and the counter is reset where the epoch changes.
unfoldable pub start_job : TypeJob → List TypeJob → Session → Session
start_job j rest s =
    if not s.initialized || not (j.epoch == s.current_epoch)
    then record s {
      type_queue = rest;
      current = some j;
      current_epoch = j.epoch;
      typed_in_epoch = 0;
      initialized = true;
    }
    else record s { type_queue = rest; current = some j }

unfoldable pub take_from : Option TypeJob → List TypeJob → Session → Session
take_from none (j ∷ rest) s = start_job j rest s
take_from _ _ s = s

unfoldable pub worker_take : Session → Session
worker_take s = take_from s.current s.type_queue s

-- A code point 32 between two utterances of one epoch.
abbrev pub with_space : ℕ → Text → Text
with_space n text = if ltb 0 n then 32 ∷ text else text

-- The awaited job is ready with `text`.
unfoldable pub dispatch : Env → TypeJob → Text → Session → Session
dispatch e j text s =
    let free = record s { current = none } in
    if is_empty text
    then free
    else if not (s.epoch == j.epoch)
    then free
    else if e.type_fails
    then free
    else record free {
      typed =
          record { id = j.id; epoch = j.epoch; text = with_space s.typed_in_epoch text } ∷ s.typed;
      typed_in_epoch = suc s.typed_in_epoch;
    }

abbrev pub dispatch_if_ready : Env → TypeJob → Option Text → Session → Session
dispatch_if_ready e j none s = s
dispatch_if_ready e j (some text) s = dispatch e j text s

abbrev pub dispatch_current : Env → Option TypeJob → Session → Session
dispatch_current e none s = s
dispatch_current e (some j) s = dispatch_if_ready e j (lookup j.id s.resolved) s

unfoldable pub worker_type : Env → Session → Session
worker_type e s = dispatch_current e s.current s
