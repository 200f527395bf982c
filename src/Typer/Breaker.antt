-- ===== src/Typer/Breaker.antt =====
-- internal/dispatch/typer.go: the circuit breaker.
use dicta.Base.{
  ℕ, suc, ◌+◌, ◌≡◌, ◌≢◌, refl, Bool, true, false, not, ◌&&◌, ◌||◌, List, [], ◌∷◌, Option, none,
  some, Text, Unicode, length, map, is_empty, trim_space, trim_left, trim_right, leb, ◌==◌,
  if◌then◌else◌, if_intro, arith,
}
use dicta.Typer.{
  Config, Env, Error, breaker_open, Typer, new, flat, byte_length, chunks, chunk_string,
  type_chunks, type_text, breaker_allow_attempt, record_result,
}

-- What one call of `Type` shows: whether ydotool was called, whether the context had ended, and
-- whether an error came back.
pub record Outcome : Type 0 where
  pub called : Bool
  pub canceled : Bool
  pub failed : Bool

-- A call of ydotool that failed, and not for the end of the context.
abbrev pub is_failure : Outcome → Bool
is_failure o = o.called && o.failed && not o.canceled

abbrev pub is_success : Outcome → Bool
is_success o = o.called && not o.failed

-- How often ydotool failed since it last succeeded, in outcomes with the newest first.
abbrev pub in_a_row : List Outcome → ℕ
in_a_row [] = 0
in_a_row (o ∷ os) =
    if is_success o then 0 else if is_failure o then suc (in_a_row os) else in_a_row os

-- How often a failure has made it just as many in a row as the threshold.
abbrev pub openings : ℕ → List Outcome → ℕ
openings threshold [] = 0
openings threshold (o ∷ os) =
    if is_failure o && in_a_row os + 1 == threshold
    then suc (openings threshold os)
    else openings threshold os

abbrev is_error : Option Error → Bool
is_error none = false
is_error (some err) = true

abbrev pub outcome : Env → List Text × Option Error → Outcome
outcome e (given, err) = record {
  called = not (is_empty given);
  canceled = e.canceled;
  failed = is_error err;
}

-- The typer after these calls, the newest first, and their outcomes.
unfoldable pub type_all : Config → Unicode → List (Env × Text) → Typer × List Outcome
type_all c u [] = (new, [])
type_all c u ((e, s) ∷ calls) =
    let (t, os) = type_all c u calls in
    let (out, t') = type_text c u e s t in (t', outcome e out ∷ os)

-- The breaker counts the failures in a row, is open exactly if they have reached the threshold, and
-- the desktop was told once for each time that they reached it.
pub record IsConsistent (threshold : ℕ) (os : List Outcome) (t : Typer) : Type 0 where
  pub counts : t.consecutive_failures ≡ in_a_row os
  pub opened : t.is_open ≡ leb threshold (in_a_row os)
  pub notified : t.notified ≡ t.is_open
  pub notices : t.notices ≡ openings threshold os

-- An outcome without a call of ydotool changes nothing.
idle-IsConsistent :
    (n : ℕ) (o : Outcome) (os : List Outcome) (t : Typer)
    → o.called ≡ false
    → IsConsistent n os t
    → IsConsistent n (o ∷ os) t
idle-IsConsistent n o os t h v = ground (arith, v, h)

record_result-IsConsistent :
    (c : Config) (e : Env) (given : List Text) (err : Option Error) (os : List Outcome) (t : Typer)
    → c.breaker_threshold ≢ 0
    → is_empty given ≡ false
    → IsConsistent c.breaker_threshold os t
    → IsConsistent c.breaker_threshold
        (outcome e (given, err) ∷ os)
        (record_result c e.now e.canceled err t)
unfolding record_result
record_result-IsConsistent c e given none os t h g v = ground (arith, v, g)
record_result-IsConsistent c e given (some err) os t h g v = ground (arith, v, g)

type_chunks-called :
    (e : Env) (ss : List Text) → is_empty ss ≡ false → is_empty (type_chunks e 0 ss).0 ≡ false
unfolding type_chunks
type_chunks-called e [] h = cc
type_chunks-called e (s ∷ ss) h =
    if_intro (λ (r : List Text × Option Error). is_empty r.0 ≡ false) (e.fails 0 s) (λ _. refl)
      (λ _. refl)

chunk_string-called :
    (s : Text) (size : ℕ) → is_empty s ≡ false → is_empty (chunk_string s size) ≡ false
unfolding chunk_string chunks
chunk_string-called [] size h = cc
chunk_string-called (x ∷ s) size h =
    if_intro Good (size == 0 || leb (byte_length (x ∷ s)) size) (λ _. refl)
      (λ _.
        if_intro Good (leb (length (x ∷ s)) size) (λ _. refl)
          (λ _. if_intro Good (leb (length (x ∷ s)) size) (λ _. refl) (λ _. refl)))
  where
    Good : List Text → Type 0
    Good ss = is_empty ss ≡ false

nonempty : (u : Unicode) (s : Text) → is_empty (trim_space u s) ≡ false → is_empty s ≡ false
unfolding trim_space trim_left trim_right
nonempty u [] h = cc
nonempty u (c ∷ s) h = refl

type_text-IsConsistent :
    (c : Config) (u : Unicode) (e : Env) (s : Text) (os : List Outcome) (t : Typer)
    → c.breaker_threshold ≢ 0
    → IsConsistent c.breaker_threshold os t
    → let (out, t') = type_text c u e s t in
      IsConsistent c.breaker_threshold (outcome e out ∷ os) t'
unfolding type_text
type_text-IsConsistent c u e s os t h v =
    if_intro Good (is_empty (trim_space u text)) (λ _. idle ([], none) refl)
      (λ q.
        if_intro Good (breaker_allow_attempt c e.now t)
          (λ _.
            record_result-IsConsistent c e (type_chunks e 0 ss).0 (type_chunks e 0 ss).1 os t h
              (type_chunks-called e ss (chunk_string-called text c.chunk_size (nonempty u text q)))
              v)
          (λ _. idle ([], some breaker_open) refl))
  where
    text : Text
    text = map flat s

    ss : List Text
    ss = chunk_string text c.chunk_size

    Good : (List Text × Option Error) × Typer → Type 0
    Good r = IsConsistent c.breaker_threshold (outcome e r.0 ∷ os) r.1

    idle :
        (out : List Text × Option Error)
        → (outcome e out).called ≡ false
        → IsConsistent c.breaker_threshold (outcome e out ∷ os) t
    idle out q = idle-IsConsistent c.breaker_threshold (outcome e out) os t q v

all-IsConsistent :
    (c : Config) (u : Unicode) (calls : List (Env × Text))
    → c.breaker_threshold ≢ 0
    → IsConsistent c.breaker_threshold (type_all c u calls).1 (type_all c u calls).0
unfolding type_all new
all-IsConsistent c u [] h = record {
  counts = refl;
  opened = ground arith;
  notified = refl;
  notices = refl;
}
all-IsConsistent c u ((e, s) ∷ calls) h =
    type_text-IsConsistent c u e s (type_all c u calls).1 (type_all c u calls).0 h
      (all-IsConsistent c u calls h)

-- After any calls of `Type` on a new typer, with any answers, and a threshold that is not 0: the
-- breaker is open exactly if ydotool has failed, since it last succeeded, as many times as the
-- threshold or more, and the desktop was told once for each time that the failures in a row reached
-- the threshold. Calls that ydotool does not see count for nothing, nor do those whose context ended.
pub type_all-IsConsistent :
    (c : Config) (u : Unicode) (calls : List (Env × Text))
    → c.breaker_threshold ≢ 0
    → let (t, os) = type_all c u calls in
      (t.is_open ≡ leb c.breaker_threshold (in_a_row os))
      × (t.notices ≡ openings c.breaker_threshold os)
type_all-IsConsistent c u calls h =
    let v : IsConsistent c.breaker_threshold (type_all c u calls).1 (type_all c u calls).0 =
      all-IsConsistent c u calls h in
    (v.opened, v.notices)
