-- ===== src/Retry.antt =====
-- internal/asr/retry.go: the transcription that is tried again after a transport error.
pub mod Backoff
mod Tests
use dicta.Base.{
  ℕ, zero, suc, ◌+◌, ◌*◌, min, Bool, true, false, not, ◌&&◌, ◌||◌, List, [], ◌∷◌, Option, none,
  some, ltb, leb, ◌==◌, if◌then◌else◌,
}

-- Durations in nanoseconds; `max_attempts` 0 is no cap.
pub record Config : Type 0 where
  pub initial : ℕ
  pub max : ℕ
  pub max_attempts : ℕ

-- `newRetryBackend`; a duration <= 0 is 0 here.
unfoldable pub new_config : Config → Config
new_config c =
    let initial = if c.initial == 0 then 1000000000 else c.initial in
    let max = if c.max == 0 then 30000000000 else c.max in
    record {
      initial = initial;
      max = if ltb max initial then initial else max;
      max_attempts = c.max_attempts;
    }

-- An error, and what `isTransportError` says of it.
pub record Error : Type 0 where
  pub transport : Bool
  pub code : ℕ

-- What the inner backend answers to the attempts, from 1 on; whether the context has ended after an
-- attempt, and whether it ends in the sleep behind it.
pub record Env (T : Type 0) : Type 0 where
  pub answer : ℕ → T × Option Error
  pub is_done : ℕ → Bool
  pub interrupts : ℕ → Bool
  pub zero_transcript : T

pub record Outcome (T : Type 0) : Type 0 where
  pub transcript : T
  pub error : Option Error
  pub attempts : ℕ
  pub sleeps : List ℕ

module _ {T : Type 0} (c : Config) (e : Env T) where
  abbrev pub slept : ℕ → Option (Outcome T) → Option (Outcome T)
  slept delay none = none
  slept delay (some o) = some (record o { sleeps = delay ∷ o.sleeps })

  -- A round from the answer on; `rest` is what the rounds behind it come to.
  unfoldable pub judge : ℕ → ℕ → T × Option Error → Option (Outcome T) → Option (Outcome T)
  judge attempt delay (tr, none) rest =
      some (record { transcript = tr; error = none; attempts = attempt; sleeps = [] })
  judge attempt delay (tr, some err) rest =
      let given : Outcome T = record {
        transcript = tr;
        error = some err;
        attempts = attempt;
        sleeps = [];
      } in
      if e.is_done attempt
      then some given
      else if not err.transport
      then some given
      else if not (c.max_attempts == 0) && leb c.max_attempts attempt
      then some given
      else if e.interrupts attempt
      then some (record given { transcript = e.zero_transcript; sleeps = delay ∷ [] })
      else slept delay rest

  -- The loop with its variables, on fuel.
  unfoldable pub loop : ℕ → ℕ → ℕ → Option (Outcome T)
  unfolding judge
  loop zero attempt delay = none
  loop (suc n) attempt delay =
      judge attempt delay (e.answer attempt) (loop n (attempt + 1) (min (delay * 2) c.max))

  unfoldable pub transcribe : ℕ → Option (Outcome T)
  unfolding loop
  transcribe fuel = loop fuel 1 c.initial
