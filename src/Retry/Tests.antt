-- ===== src/Retry/Tests.antt =====
-- internal/asr/retry.go: runs of a transcription.
use dicta.Base.{
  ℕ, ◌≡◌, ◌≤◌, refl, Bool, true, false, [], ◌∷◌, Option, none, some, ltb, length, arith,
}
use dicta.Retry.{Config, Env, Error, Outcome, judge, loop, transcribe}
use dicta.Retry.Backoff.{IsBackoff, transcribe-ends}

abbrev config : Config
config = record { initial = 10; max = 25; max_attempts = 5 }

-- The server is back for the fifth attempt.
abbrev env : Env ℕ
env = record {
  answer = λ i. if_late (ltb 4 i);
  is_done = λ i. false;
  interrupts = λ i. false;
  zero_transcript = 0;
}
  where
    if_late : Bool → ℕ × Option Error
    if_late true = (7, none)
    if_late false = (0, some (record { transport = true; code = 1 }))

retried :
    transcribe config env 5
    ≡ some (record { transcript = 7; error = none; attempts = 5; sleeps = 10 ∷ 20 ∷ 25 ∷ 25 ∷ [] })
unfolding transcribe loop judge
retried = refl

transcribe-ends_example :
    (o : Outcome ℕ) × (transcribe config env 5 ≡ some o)
    × (o.attempts ≤ 5)
    × (length o.sleeps ≤ o.attempts)
    × IsBackoff 10 25 0 o.sleeps
transcribe-ends_example = transcribe-ends config env (λ h. omega arith) (omega arith)
