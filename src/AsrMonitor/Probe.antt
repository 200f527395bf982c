-- ===== src/AsrMonitor/Probe.antt =====
-- cmd/dictad/asrmonitor.go: the answers to `dicta check` and `dicta status`.
use dicta.Base.{ℕ, ◌/◌, Text, Unicode, codes}
use dicta.Asr.Check.{CheckState, CheckResult, Answer}
use dicta.Asr.Check
use dicta.AsrMonitor.{AsrMonitor}

pub record CheckInfo : Type 0 where
  pub state : CheckState
  pub backend : Text
  pub expected : Text
  pub transcript : Text
  pub latency_ms : ℕ
  pub error : Text

abbrev pub info_of : Text → CheckResult → CheckInfo
info_of backend r = record {
  state = r.state;
  backend = backend;
  expected = r.expected;
  transcript = r.transcript;
  latency_ms = r.latency / 1_000_000;
  error = r.err;
}

-- `Check`, under the name of the backend and the configured timeout.
unfoldable pub check : Unicode → (ℕ → ℕ × Answer) → Text → ℕ → CheckInfo
unfolding Check.check
check u answer backend timeout = info_of backend (Check.check u answer timeout)

pub record AsrStats : Type 0 where
  pub backend : Text
  pub health : Text
  pub transcripts : ℕ
  pub last_transcript : Text
  pub last_error : Text

-- `Snapshot`.
unfoldable pub snapshot : {K : Type 0} → Text → AsrMonitor K → AsrStats
snapshot backend m = record {
  backend = backend;
  health = codes "unchecked";
  transcripts = m.transcripts;
  last_transcript = m.last_transcript;
  last_error = m.last_error;
}
