-- ===== src/Preview/Process.antt =====
-- cmd/dictad/preview.go: when the exit hook fires.
use dicta.Base.{ℕ, suc, ◌≡◌, refl, ap, ◌∙◌, true, false, List, [], ◌∷◌, Option, none, some, arith}
use dicta.Preview.{PreviewProc, spawn, spawn_from, exit, watch_from, kill, kill_from, on_exit}

-- The calls, but for `Spawn`.
pub data Call : Type 0 where
  exits kills registers : Call

unfoldable pub step : Call → PreviewProc → PreviewProc
unfolding exit kill on_exit
step exits p = exit p
step kills p = kill p
step registers p = on_exit p

unfoldable pub run : List Call → PreviewProc → PreviewProc
unfolding step
run [] p = p
run (k ∷ ks) p = run ks (step k p)

record IsQuiet (p p' : PreviewProc) : Type 0 where
  hooked : p'.hooked ≡ p.hooked
  stopped : p'.stopped ≡ true

watch_from-IsQuiet :
    (o : Option ℕ) (p : PreviewProc) → p.stopped ≡ true → IsQuiet p (watch_from o p)
watch_from-IsQuiet none p h = ground arith
watch_from-IsQuiet (some n) p h = ground arith

kill_from-IsQuiet : (o : Option ℕ) (p : PreviewProc) → p.stopped ≡ true → IsQuiet p (kill_from o p)
kill_from-IsQuiet none p h = ground arith
kill_from-IsQuiet (some n) p h = ground arith

step-IsQuiet : (k : Call) (p : PreviewProc) → p.stopped ≡ true → IsQuiet p (step k p)
unfolding step exit kill on_exit
step-IsQuiet exits p h = watch_from-IsQuiet p.running p h
step-IsQuiet kills p h =
    ground (arith, kill_from-IsQuiet p.running (record p { stopped = true }) refl)
step-IsQuiet registers p h = ground arith

run-IsQuiet : (ks : List Call) (p : PreviewProc) → p.stopped ≡ true → IsQuiet p (run ks p)
unfolding run
run-IsQuiet [] p h = ground arith
run-IsQuiet (k ∷ ks) p h =
    let once : IsQuiet p (step k p) = step-IsQuiet k p h in
    let rest : IsQuiet (step k p) (run ks (step k p)) = run-IsQuiet ks (step k p) once.stopped in
    record { hooked = rest.hooked ∙ once.hooked; stopped = rest.stopped }

-- After a kill the exit hook does not fire, whatever is called, until the next spawn. A panel that
-- exits unkilled after its spawn fires it once, if it is registered.
pub kill-hooked :
    (ks : List Call) (p : PreviewProc)
    → ((run ks (kill p)).hooked ≡ p.hooked)
      × (p.running ≡ none → p.has_on_exit ≡ true → (exit (spawn false p).0).hooked ≡ suc p.hooked)
unfolding kill exit spawn
kill-hooked ks p = (
  (run-IsQuiet ks (kill p) (killed p.running)).hooked ∙ same p.running,
  λ h r. rw (ap (λ o. (spawn_from false o p).0) h) (ground arith),
)
  where
    marked : PreviewProc
    marked = record p { stopped = true }

    killed : (o : Option ℕ) → (kill_from o marked).stopped ≡ true
    killed o = (kill_from-IsQuiet o marked refl).stopped

    same : (o : Option ℕ) → (kill_from o marked).hooked ≡ p.hooked
    same o = (kill_from-IsQuiet o marked refl).hooked
