-- ===== src/Supervisor/Bounds.antt =====
-- internal/whispersup/supervisor.go: the delays, the port and the states of a run.
use dicta.Base.{
  ℕ, ◌≤◌, ◌≡◌, ◌≢◌, refl, sym, ◌∙◌, Bool, true, List, [], ◌∷◌, Option, none, some, if◌then◌else◌,
  if_intro, arith,
}
use dicta.Supervisor.{
  ready, stopped, start_failed, probe_failed, process_exited, port_unavailable, Config, finished,
  serving, Supervisor, new, start, next_backoff, finish, back_off, crash, mark_ready, Round,
  resolve_port, launch, try, end, stop_requested, exits, Step, tries, ends, is_looping, is_serving,
  step, run,
}

abbrev pub AllAtMost : ℕ → List ℕ → Type 0
AllAtMost n [] = Unit {0}
AllAtMost n (x ∷ xs) = (x ≤ n) × AllAtMost n xs

-- No delay exceeds the ceiling; a run that is over has stopped; a server that is up is ready, has
-- been announced under its port, and has no error.
pub record IsSupervised (c : Config) (s : Supervisor) : Type 0 where
  pub backoff : s.backoff ≤ c.backoff_max
  pub sleeps : AllAtMost c.backoff_max s.sleeps
  pub over : s.phase ≡ finished → s.state ≡ stopped
  pub up :
      s.phase ≡ serving
      → (s.state ≡ ready)
        × (s.ready_closed ≡ true)
        × (s.endpoint ≡ some s.port)
        × (s.last_err ≡ none)

back_off-IsSupervised :
    (c : Config) (b : Bool) (s : Supervisor)
    → s.backoff ≤ c.backoff_max
    → AllAtMost c.backoff_max s.sleeps
    → IsSupervised c (back_off c b s)
unfolding back_off next_backoff finish
back_off-IsSupervised c b s h l = ground arith

resolve_port-kept :
    (o : Option ℕ) (s : Supervisor)
    → let s' = (resolve_port o s).0 in (s'.backoff ≡ s.backoff) × (s'.sleeps ≡ s.sleeps)
unfolding resolve_port
resolve_port-kept none s = ground arith
resolve_port-kept (some p) s = ground arith

launch-IsSupervised :
    (c : Config) (r : Round) (s : Supervisor)
    → c.backoff_initial ≤ c.backoff_max
    → s.backoff ≤ c.backoff_max
    → AllAtMost c.backoff_max s.sleeps
    → IsSupervised c (launch c r s)
unfolding launch crash mark_ready
launch-IsSupervised c r s i h l =
    if_intro (IsSupervised c) r.start_fails
      (λ _. back_off-IsSupervised c r.interrupted (crash start_failed s) h l)
      (λ _.
        if_intro (IsSupervised c) r.probe_fails
          (λ _. back_off-IsSupervised c r.interrupted (crash probe_failed s) h l)
          (λ _. record {
            backoff = i;
            sleeps = l;
            over = λ q. cc;
            up = λ q. (refl, refl, refl, refl);
          }))

step-IsSupervised :
    (c : Config) (k : Step) (s : Supervisor)
    → c.backoff_initial ≤ c.backoff_max
    → IsSupervised c s
    → IsSupervised c (step c k s)
unfolding step try end finish crash
step-IsSupervised c (tries r) s i v =
    if_intro (IsSupervised c) (is_looping s.phase)
      (λ _.
        if_intro (IsSupervised c) r.stops
          (λ _. record { backoff = v.backoff; sleeps = v.sleeps; over = λ q. refl; up = λ q. cc })
          (λ _.
            if_intro (IsSupervised c) (resolve_port r.free_port s).1
              (λ _. launch-IsSupervised c r s' i h l)
              (λ _.
                back_off-IsSupervised c r.interrupted
                  (record s' { last_err = some port_unavailable }) h l)))
      (λ _. v)
  where
    s' : Supervisor
    s' = (resolve_port r.free_port s).0

    kept : (s'.backoff ≡ s.backoff) × (s'.sleeps ≡ s.sleeps)
    kept = resolve_port-kept r.free_port s

    h : s'.backoff ≤ c.backoff_max
    h = rw kept.0 v.backoff

    l : AllAtMost c.backoff_max s'.sleeps
    l = rw kept.1 v.sleeps
step-IsSupervised c (ends stop_requested) s i v =
    if_intro (IsSupervised c) (is_serving s.phase)
      (λ _. record { backoff = v.backoff; sleeps = v.sleeps; over = λ q. refl; up = λ q. cc })
      (λ _. v)
step-IsSupervised c (ends (exits b)) s i v =
    if_intro (IsSupervised c) (is_serving s.phase)
      (λ _. back_off-IsSupervised c b (crash process_exited s) v.backoff v.sleeps) (λ _. v)

run-keeps :
    (c : Config) (ks : List Step) (s : Supervisor)
    → c.backoff_initial ≤ c.backoff_max
    → IsSupervised c s
    → IsSupervised c (run c ks s)
unfolding run
run-keeps c [] s i v = v
run-keeps c (k ∷ ks) s i v = run-keeps c ks (step c k s) i (step-IsSupervised c k s i v)

-- A started supervisor, whatever it meets, sleeps no longer than the ceiling, whose value is at
-- least the initial delay; when its run is over it has stopped; while its server is up it is ready,
-- was announced under its port, and has no error.
pub run-IsSupervised :
    (c : Config) (ks : List Step)
    → c.backoff_initial ≤ c.backoff_max
    → IsSupervised c (run c ks (start c (new c)).0)
unfolding start new
run-IsSupervised c ks i =
    run-keeps c ks (start c (new c)).0 i
      (record { backoff = i; sleeps = tt; over = λ q. cc; up = λ q. cc })

-- What a step leaves of the port, and of the sleeps that it adds.
step-port : (c : Config) (k : Step) (s : Supervisor) → s.port ≢ 0 → (step c k s).port ≡ s.port
unfolding step try end finish crash launch back_off mark_ready resolve_port
step-port c (tries r) s h = at r.free_port
  where
    at :
        (o : Option ℕ)
        → (if is_looping s.phase then try c (record r { free_port = o }) s else s).port ≡ s.port
    at none = ground arith
    at (some p) = ground arith
step-port c (ends stop_requested) s h = ground arith
step-port c (ends (exits b)) s h = ground arith

-- Once it has a port, a supervisor keeps it through all restarts.
pub run-port :
    (c : Config) (ks : List Step) (s : Supervisor) → s.port ≢ 0 → (run c ks s).port ≡ s.port
unfolding run
run-port c [] s h = refl
run-port c (k ∷ ks) s h =
    run-port c ks (step c k s) (λ q. h (sym (step-port c k s h) ∙ q)) ∙ step-port c k s h
