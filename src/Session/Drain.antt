-- ===== src/Session/Drain.antt =====
-- cmd/dictad/session.go: what `typeWorker` types of the jobs that are ready.
use Prim.Native.Nat.{ℕ, zero, suc}
use dicta.Base.{
  ◌≡◌, ◌≢◌, refl, ap, ◌∙◌, true, false, not, ◌&&◌, ◌||◌, if◌then◌else◌, if_intro, ◌==◌, List, [],
  ◌∷◌, Bool, Option, none, some, Text, is_empty, length, arith,
}
use dicta.Session.State.{Env, TypeJob, Typed, Session, lookup}
use dicta.Session.Worker.{
  start_job, take_from, worker_take, with_space, dispatch, dispatch_if_ready, dispatch_current,
  worker_type,
}

-- That many rounds of the worker's loop.
unfoldable pub drain : Env → ℕ → Session → Session
drain e zero s = s
drain e (suc n) s = drain e n (worker_type e (worker_take s))

-- Each job is of this epoch and ready with its text, which is not empty.
abbrev pub IsReady : ℕ → List (ℕ × Text) → List TypeJob → List Text → Type 0
IsReady epoch done [] [] = Unit {0}
IsReady epoch done (j ∷ js) (t ∷ ts) =
    (j.epoch ≡ epoch)
    × (lookup j.id done ≡ some t)
    × (is_empty t ≡ false)
    × IsReady epoch done js ts
IsReady epoch done _ _ = ⊥

-- What is typed for the texts, in order, onto what was typed before, newest first. The Boolean says
-- that the first of them is the epoch's first, which is typed as it is; any other has a space, code
-- point 32, before it.
abbrev pub spaced : Bool → List TypeJob → List Text → List Typed → List Typed
spaced is_first (j ∷ js) (t ∷ ts) old =
    let shown : Text = if is_first then t else 32 ∷ t in
    spaced false js ts (record { id = j.id; epoch = j.epoch; text = shown } ∷ old)
spaced is_first _ _ old = old

-- How much the worker has typed in this epoch.
abbrev pub typed_so_far : Session → ℕ
typed_so_far s = if s.initialized && (s.epoch == s.current_epoch) then s.typed_in_epoch else 0

with_space_lem : (n : ℕ) (t : Text) → with_space n t ≡ (if n == 0 then t else 32 ∷ t)
with_space_lem n t = ground arith

round : Env → TypeJob → Text → Session → Session
round e j t s = record s {
  typed = record { id = j.id; epoch = j.epoch; text = with_space (typed_so_far s) t } ∷ s.typed;
  typed_in_epoch = suc (typed_so_far s);
  current = none;
  current_epoch = s.epoch;
  initialized = true;
}

begun : TypeJob → List TypeJob → Session → Session
begun j js s = record s {
  type_queue = js;
  current = some j;
  current_epoch = s.epoch;
  typed_in_epoch = typed_so_far s;
  initialized = true;
}

worker_take-begun :
    (j : TypeJob) (js : List TypeJob) (s : Session)
    → s.current ≡ none
    → s.type_queue ≡ j ∷ js
    → j.epoch ≡ s.epoch
    → worker_take s ≡ begun j js s
unfolding worker_take take_from start_job begun
worker_take-begun j js s c q h = rw (c, q) start
  where
    start : start_job j js s ≡ begun j js s
    start = ground arith

worker_type-round :
    (e : Env) (j : TypeJob) (js : List TypeJob) (t : Text) (s : Session)
    → e.type_fails ≡ false
    → j.epoch ≡ s.epoch
    → lookup j.id s.resolved ≡ some t
    → is_empty t ≡ false
    → worker_type e (begun j js s) ≡ record (round e j t s) { type_queue = js }
unfolding worker_type dispatch round begun
worker_type-round e j js t s f h r n = rw r typed
  where
    typed : dispatch e j t (begun j js s) ≡ record (round e j t s) { type_queue = js }
    typed = ground arith

-- The worker types every ready utterance of the session's epoch, in order, with one space between
-- two of them and none before the epoch's first, and leaves the queue empty; the typer does not fail.
pub drain-types :
    (e : Env) (js : List TypeJob) (ts : List Text) (s : Session)
    → e.type_fails ≡ false
    → s.current ≡ none
    → s.type_queue ≡ js
    → IsReady s.epoch s.resolved js ts
    → ((drain e (length js) s).typed ≡ spaced (typed_so_far s == 0) js ts s.typed)
      × ((drain e (length js) s).type_queue ≡ [])
unfolding drain round
drain-types e [] [] s f c q r = (refl, q)
drain-types e [] (t ∷ ts) s f c q r = absurd r
drain-types e (j ∷ js) [] s f c q r = absurd r
drain-types e (j ∷ js) (t ∷ ts) s f c q r =
    let after : Session = record (round e j t s) { type_queue = js } in
    let once : worker_type e (worker_take s) ≡ after =
      ap (worker_type e) (worker_take-begun j js s c q r.0)
      ∙ worker_type-round e j js t s f r.0 r.1 r.2 in
    let rest : ((drain e (length js) after).typed
          ≡ spaced (typed_so_far after == 0) js ts after.typed)
        × ((drain e (length js) after).type_queue ≡ []) =
      drain-types e js ts after f refl refl r.3 in
    let counted : (typed_so_far after == 0) ≡ false = ground arith in
    (
      ap (λ x. (drain e (length js) x).typed) once
          ∙ (rest.0
              ∙ (ap (λ b. spaced b js ts after.typed) counted
                  ∙ ap
                      (λ (x : Text).
                        spaced false js ts
                          (record { id = j.id; epoch = j.epoch; text = x } ∷ s.typed))
                      (with_space_lem (typed_so_far s) t))),
      ap (λ x. (drain e (length js) x).type_queue) once ∙ rest.1,
    )

-- Each job is ready, and of another epoch.
abbrev pub IsStale : ℕ → List (ℕ × Text) → List TypeJob → List Text → Type 0
IsStale epoch done [] [] = Unit {0}
IsStale epoch done (j ∷ js) (t ∷ ts) =
    (epoch ≢ j.epoch) × (lookup j.id done ≡ some t) × IsStale epoch done js ts
IsStale epoch done _ _ = ⊥

-- What a round leaves when it types nothing.
record IsSkipped (js : List TypeJob) (s s' : Session) : Type 0 where
  typed : s'.typed ≡ s.typed
  current : s'.current ≡ none
  queue : s'.type_queue ≡ js
  epoch : s'.epoch ≡ s.epoch
  resolved : s'.resolved ≡ s.resolved

take_from-starts :
    (o : Option TypeJob) (j : TypeJob) (q js : List TypeJob) (s : Session)
    → o ≡ none
    → q ≡ j ∷ js
    → take_from o q s ≡ start_job j js s
unfolding take_from
take_from-starts o j q js s c h = rw (c, h) refl

pub worker_type-dispatch :
    (e : Env) (j : TypeJob) (t : Text) (s : Session)
    → s.current ≡ some j
    → lookup j.id s.resolved ≡ some t
    → worker_type e s ≡ dispatch e j t s
unfolding worker_type
worker_type-dispatch e j t s c r =
    ap (λ o. dispatch_current e o s) c ∙ ap (λ o. dispatch_if_ready e j o s) r

round-IsSkipped :
    (e : Env) (j : TypeJob) (js : List TypeJob) (t : Text) (s : Session)
    → s.current ≡ none
    → s.type_queue ≡ j ∷ js
    → s.epoch ≢ j.epoch
    → lookup j.id s.resolved ≡ some t
    → IsSkipped js s (worker_type e (worker_take s))
unfolding worker_take start_job dispatch
round-IsSkipped e j js t s c q h r =
    rw (take_from-starts s.current j s.type_queue js s c q)
      (rw (worker_type-dispatch e j t started (ground arith) ready) skipped)
  where
    started : Session
    started = start_job j js s

    ready : lookup j.id started.resolved ≡ some t
    ready =
        if_intro (λ (x : Session). lookup j.id x.resolved ≡ some t)
          (not s.initialized || not (j.epoch == s.current_epoch)) (λ _. r) (λ _. r)

    skipped : IsSkipped js s (dispatch e j t started)
    skipped = ground arith

-- The worker types no utterance of another epoch than the session's, as after a reopen: it takes
-- the ready jobs off the queue one by one.
pub drain-IsStale :
    (e : Env) (js : List TypeJob) (ts : List Text) (s : Session)
    → s.current ≡ none
    → s.type_queue ≡ js
    → IsStale s.epoch s.resolved js ts
    → ((drain e (length js) s).typed ≡ s.typed) × ((drain e (length js) s).type_queue ≡ [])
unfolding drain
drain-IsStale e [] [] s c q r = (refl, q)
drain-IsStale e [] (t ∷ ts) s c q r = absurd r
drain-IsStale e (j ∷ js) [] s c q r = absurd r
drain-IsStale e (j ∷ js) (t ∷ ts) s c q r =
    let after : Session = worker_type e (worker_take s) in
    let k : IsSkipped js s after = round-IsSkipped e j js t s c q r.0 r.1 in
    let rest : ((drain e (length js) after).typed ≡ after.typed)
        × ((drain e (length js) after).type_queue ≡ []) =
      drain-IsStale e js ts after k.current k.queue (rw (k.epoch, k.resolved) r.2) in
    (rest.0 ∙ k.typed, rest.1)
