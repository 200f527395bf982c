-- ===== src/Retry/Backoff.antt =====
-- internal/asr/retry.go: the number of attempts and the delays between them.
use dicta.Base.{
  ℕ, zero, suc, ◌+◌, ◌*◌, ◌≤◌, ◌<◌, ◌≡◌, ◌≢◌, refl, ap, min, false, not, ◌&&◌, List, [], ◌∷◌,
  Option, none, some, leb, ◌==◌, if_intro, length, arith,
}
use dicta.Retry.{Config, Error, Env, Outcome, slept, judge, loop, transcribe}

abbrev pub doubled : ℕ → ℕ → ℕ
doubled zero d = d
doubled (suc k) d = doubled k d * 2

-- From the `k`-th sleep on: `initial` doubled as often as there were sleeps before, `cap` at most.
abbrev pub IsBackoff : ℕ → ℕ → ℕ → List ℕ → Type 0
IsBackoff initial cap k [] = Unit {0}
IsBackoff initial cap k (d ∷ ds) =
    (d ≡ min (doubled k initial) cap) × IsBackoff initial cap (suc k) ds

next_delay : (d cap x : ℕ) → x ≡ min d cap → min (x * 2) cap ≡ min (d * 2) cap
next_delay d cap x h = omega (arith, h)

module _ {T : Type 0} (c : Config) (e : Env T) where
  -- The loop ends by the last attempt that is allowed, with the sleeps of the backoff.
  record Ends (attempt : ℕ) (k : ℕ) (r : Option (Outcome T)) : Type 0 where
    outcome : Outcome T
    ended : r ≡ some outcome
    attempts : outcome.attempts ≤ c.max_attempts
    counted : length outcome.sleeps + attempt ≤ outcome.attempts + 1
    backoff : IsBackoff c.initial c.max k outcome.sleeps

  slept-Ends :
      (attempt k delay : ℕ) (r : Option (Outcome T))
      → delay ≡ min (doubled k c.initial) c.max
      → Ends (attempt + 1) (suc k) r
      → Ends attempt k (slept c e delay r)
  slept-Ends attempt k delay r d v = record {
    outcome = record o { sleeps = delay ∷ o.sleeps };
    ended = ap (slept c e delay) v.ended;
    attempts = v.attempts;
    counted = omega (arith, v.counted);
    backoff = (d, v.backoff);
  }
    where
      o : Outcome T
      o = v.outcome

  judge-Ends :
      (attempt k delay : ℕ) (a : T × Option Error) (r : Option (Outcome T))
      → c.max_attempts ≢ 0
      → attempt ≤ c.max_attempts
      → delay ≡ min (doubled k c.initial) c.max
      → (attempt < c.max_attempts → Ends (attempt + 1) (suc k) r)
      → Ends attempt k (judge c e attempt delay a r)
  unfolding judge
  judge-Ends attempt k delay (tr, none) r m a d v = record {
    outcome = record { transcript = tr; error = none; attempts = attempt; sleeps = [] };
    ended = refl;
    attempts = a;
    counted = omega arith;
    backoff = tt;
  }
  judge-Ends attempt k delay (tr, some err) r m a d v =
      if_intro (Ends attempt k) (e.is_done attempt) (λ _. given)
        (λ _.
          if_intro (Ends attempt k) (not err.transport) (λ _. given)
            (λ _.
              if_intro (Ends attempt k) (not (c.max_attempts == 0) && leb c.max_attempts attempt)
                (λ _. given)
                (λ q.
                  if_intro (Ends attempt k) (e.interrupts attempt)
                    (λ _. record {
                      outcome = record out { transcript = e.zero_transcript; sleeps = delay ∷ [] };
                      ended = refl;
                      attempts = a;
                      counted = omega arith;
                      backoff = (d, tt);
                    })
                    (λ _. slept-Ends attempt k delay r d (v (left q))))))
    where
      out : Outcome T
      out = record { transcript = tr; error = some err; attempts = attempt; sleeps = [] }

      given : Ends attempt k (some out)
      given = record {
        outcome = out;
        ended = refl;
        attempts = a;
        counted = omega arith;
        backoff = tt;
      }

      left :
          (not (c.max_attempts == 0) && leb c.max_attempts attempt) ≡ false
          → attempt < c.max_attempts
      left q = ground arith

  loop-Ends :
      (n attempt k delay : ℕ)
      → c.max_attempts ≢ 0
      → attempt ≤ c.max_attempts
      → c.max_attempts < attempt + n
      → delay ≡ min (doubled k c.initial) c.max
      → Ends attempt k (loop c e n attempt delay)
  unfolding loop
  loop-Ends zero attempt k delay m a b d = absurd (omega arith)
  loop-Ends (suc n) attempt k delay m a b d =
      judge-Ends attempt k delay (e.answer attempt)
        (loop c e n (attempt + 1) (min (delay * 2) c.max)) m a d
        (λ l.
          loop-Ends n (attempt + 1) (suc k) (min (delay * 2) c.max) m (omega arith) (omega arith)
            (next_delay (doubled k c.initial) c.max delay d))

  -- With a cap on the attempts, as much fuel as the cap is enough: the transcription ends, whatever
  -- the backend answers. It takes the cap's number of attempts at most, sleeps no more often
  -- than it takes attempts, and its `k`-th sleep, counted from 0, is the initial delay doubled `k`
  -- times, or the longest delay if that is less.
  pub transcribe-ends :
      c.max_attempts ≢ 0
      → c.initial ≤ c.max
      → (o : Outcome T) × (transcribe c e c.max_attempts ≡ some o)
        × (o.attempts ≤ c.max_attempts)
        × (length o.sleeps ≤ o.attempts)
        × IsBackoff c.initial c.max 0 o.sleeps
  unfolding transcribe
  transcribe-ends o l =
      let v : Ends 1 0 (loop c e c.max_attempts 1 c.initial) =
        loop-Ends c.max_attempts 1 0 c.initial o (omega (arith, o)) (omega arith) (omega arith) in
      (v.outcome, v.ended, v.attempts, omega (arith, v.counted), v.backoff)
