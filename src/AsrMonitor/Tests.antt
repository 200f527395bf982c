-- ===== src/AsrMonitor/Tests.antt =====
-- cmd/dictad/asrmonitor.go: runs of the filters and of a reply.
use dicta.Asr.Check.{transcript, check_ok}
use dicta.Asr.Check
use dicta.AsrMonitor.Probe.{CheckInfo, check, snapshot}
use dicta.Base.{
  [], none, inl, arith, ℕ, ◌≡◌, ◌↔◌, refl, true, false, codes, trim_space, trim_left, trim_right,
}
use dicta.Base.Samples.{ascii}
use dicta.AsrMonitor.{new, text, transcribe}
use dicta.AsrMonitor.Filter.{
  is_whisper_repetition_loop, is_whisper_hallucination, scan, is_allowed_double, normalize,
}
use dicta.AsrMonitor.Filter.Fillers.{HasLetters, IsFiller}
use dicta.AsrMonitor.Results.{transcribe-drops}
use dicta.AsrMonitor.Filter.Repetition.{HasRun, is_whisper_repetition_loop_iff}

hmmm_dropped : is_whisper_repetition_loop ascii (codes "Hmmm") ≡ true
unfolding is_whisper_repetition_loop scan is_allowed_double
hmmm_dropped = refl

hello_kept : is_whisper_repetition_loop ascii (codes "hello") ≡ false
unfolding is_whisper_repetition_loop scan is_allowed_double
hello_kept = refl

bye_dropped : is_whisper_hallucination ascii (codes " Bye. ") ≡ true
unfolding is_whisper_hallucination normalize trim_space trim_left trim_right
bye_dropped = refl

is_whisper_repetition_loop_iff_example :
    (is_whisper_repetition_loop ascii (codes "Hmmm") ≡ true) ↔ HasRun ascii (codes "Hmmm")
is_whisper_repetition_loop_iff_example = is_whisper_repetition_loop_iff ascii (codes "Hmmm")

abbrev asked : CheckInfo
asked = check ascii (λ limit. (1_500_000, transcript (codes "hello world"))) (codes "openai") 0

answers : (asked.latency_ms ≡ 1) × (asked.state ≡ check_ok)
unfolding check Check.check Check.normalize trim_space
answers = (refl, refl)

unchecked : (snapshot (codes "openai") (new {K = ℕ} 2)).health ≡ codes "unchecked"
unfolding snapshot
unchecked = refl

abbrev thanked : IsFiller ascii (codes "Thank You..")
thanked = record {
  before = [];
  said = codes "Thank You";
  marks = codes "..";
  behind = [];
  text = refl;
  blank_before = tt;
  blank_behind = tt;
  marked = (refl, (refl, tt));
  starts = refl;
  ends = refl;
  filler = refl;
}

letters : HasLetters ascii
letters c h k = ground arith

transcribe-drops_example :
    transcribe ascii (λ t. t) (text (codes " Thank You.. ")) (new {K = ℕ} 2) ≡ (new 2, none)
unfolding trim_space
transcribe-drops_example =
    transcribe-drops ascii (λ t. t) (codes " Thank You.. ") (new {K = ℕ} 2) letters (inl thanked)
