-- ===== src/Asr/Check.antt =====
-- internal/asr/check.go: the end-to-end check. The embedded recording is what the answer answers.
use dicta.Base.{
  ℕ, Bool, true, false, not, ◌||◌, [], ◌∷◌, Text, Unicode, codes, text_eq, trim_space, ◌==◌,
  if◌then◌else◌,
}
use dicta.Asr.{lower}

abbrev pub check_phrase : Text
check_phrase = codes "hello world"

-- A hyphen, an en dash and an em dash.
abbrev pub is_dash : ℕ → Bool
is_dash c = c == 45 || c == 8211 || c == 8212

-- The loop of `Normalize`, with the flag `space`.
unfoldable pub collapse : Unicode → Bool → Text → Text
collapse u space [] = []
collapse u space (c ∷ s) =
    let word = collapse u false s in
    let gap = collapse u true s in
    let skip = collapse u space s in
    if u.is_letter c || u.is_digit c
    then c ∷ word
    else if u.is_space c || is_dash c
    then if not space then 32 ∷ gap else skip
    else skip

unfoldable pub normalize : Unicode → Text → Text
unfolding collapse
normalize u s = trim_space u (collapse u true (lower u s))

pub data CheckState : Type 0 where
  check_ok check_degraded check_unreachable : CheckState

pub record CheckResult : Type 0 where
  pub state : CheckState
  pub transcript : Text
  pub expected : Text
  pub latency : ℕ
  pub err : Text

-- What the backend answers, or its error.
pub data Answer : Type 0 where
  transcript error : Text → Answer

abbrev pub judge : Unicode → ℕ → Answer → CheckResult
unfolding normalize
judge u latency (error err) = record {
  state = check_unreachable;
  transcript = [];
  expected = check_phrase;
  latency = latency;
  err = err;
}
judge u latency (transcript t) =
    let heard = trim_space u t in
    record {
      state = if text_eq (normalize u heard) check_phrase then check_ok else check_degraded;
      transcript = heard;
      expected = check_phrase;
      latency = latency;
      err = [];
    }

abbrev pub default_check_timeout : ℕ
default_check_timeout = 30_000_000_000

-- `Check`; `answer` is what the backend answers, and after how long, under the timeout of
-- the call. A timeout <= 0 is 0 here.
unfoldable pub check : Unicode → (ℕ → ℕ × Answer) → ℕ → CheckResult
unfolding judge
check u answer timeout =
    let reply = answer (if timeout == 0 then default_check_timeout else timeout) in
    judge u reply.0 reply.1
