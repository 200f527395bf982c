-- ===== src/Supervisor/Tests.antt =====
-- internal/whispersup/supervisor.go: a run of the supervisor.
use dicta.Base.{◌≡◌, refl, true, false, List, [], ◌∷◌, some, arith}
use dicta.Supervisor.{
  Config, Round, Step, tries, ends, exits, new, start, run, step, try, end, finish, back_off,
  next_backoff, crash, launch, mark_ready, resolve_port,
}
use dicta.Supervisor.Bounds.{IsSupervised, run-IsSupervised}

abbrev config : Config
config = record { port = 0; backoff_initial = 5; backoff_max = 15 }

-- The process starts, or does not.
abbrev good : Round
good = record {
  stops = false;
  free_port = some 8080;
  start_fails = false;
  probe_fails = false;
  interrupted = false;
}

abbrev bad : Round
bad = record good { start_fails = true }

-- Three failures, a success, an exit, a failure.
abbrev steps : List Step
steps = tries bad ∷ tries bad ∷ tries bad ∷ tries good ∷ ends (exits false) ∷ tries bad ∷ []

delays : (run config steps (start config (new config)).0).sleeps ≡ 10 ∷ 5 ∷ 15 ∷ 10 ∷ 5 ∷ []
unfolding run step try end finish back_off next_backoff crash launch mark_ready resolve_port start
    new
delays = refl

run-IsSupervised_example : IsSupervised config (run config steps (start config (new config)).0)
run-IsSupervised_example = run-IsSupervised config steps (omega arith)
