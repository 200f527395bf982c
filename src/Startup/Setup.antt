-- ===== src/Startup/Setup.antt =====
-- cmd/dictad/main.go: what the daemon's start reads, and what it builds. The flags are those that
-- decide what is built; what is read from the machine is the record `World`.
use dicta.Base.{ℕ, Bool, Option, none, some, Text, Unicode}
use dicta.Startup.{Stat, MuteSource}
use dicta.Asr
use dicta.Typer
use dicta.Clipper
use dicta.Preview
use dicta.Cleanup
use dicta.Supervisor.Settings as Whisper
use dicta.Audit.Settings as Audit

-- A step of `main`: it goes on, or the process exits with a code.
pub data Try (A : Type 0) : Type 0 where
  exits : ℕ → Try A
  goes : A → Try A

abbrev pub and_then : {A B : Type 0} → Try A → (A → Try B) → Try B
and_then (exits code) f = exits code
and_then (goes a) f = f a

-- An error exits with code 1.
abbrev pub check : {E : Type 0} → Option E → Try (Unit {0})
check none = goes tt
check (some err) = exits 1

-- What no flag sets in the configurations is zero in `main`.
pub record Flags : Type 0 where
  pub socket : Text
  pub audio_monitor : Bool
  pub audio_device : Text
  pub vad_max_utterance : ℕ
  pub vad_min_speech : ℕ
  pub capture_stall_timeout : ℕ
  pub asr : Asr.Config
  pub whisper : Whisper.Settings
  pub typer : Typer.Config
  pub audio_cues : Bool
  pub clipper : Clipper.Config
  pub preview_binary : Text
  pub cleanup : Cleanup.Config
  pub audit : Audit.Settings
  pub unmute_to_dictate : Bool
  pub unmute_source : Text
  pub unmute_debounce : ℕ

pub record World : Type 0 where
  pub log_level_parses : Bool
  pub default_socket : Option Text
  pub stat : Text → Stat
  pub unicode : Unicode
  pub asr : Asr.Host
  pub whisper : Whisper.Host
  pub whisper_starts : Bool
  pub whisper_ready : Bool
  pub whisper_endpoint : Text
  pub home : Text
  pub cleanup : Cleanup.Host
  pub audit : Audit.Host
  pub audit_start : Audit.Start
  pub watch_fails : Bool
  pub capture_starts : Bool
  pub listens : Bool
  -- The bytes of a duration, a product of float64s.
  pub cap_bytes : ℕ → ℕ

-- The audio monitor as it is set up; 0 is no limit.
pub record AudioSetup : Type 0 where
  pub max_utterance_bytes : ℕ
  pub min_raw_speech_frames : ℕ
  pub stall_timeout : ℕ
  pub continuous : Bool

pub record Watcher : Type 0 where
  pub source : MuteSource
  pub takes_frames : Bool
  pub debounce : ℕ

-- What a session is given.
pub record Dispatch : Type 0 where
  pub typer : Typer.Config
  pub clip : Option (Clipper.Config × Preview.PreviewProc)
  pub cleaner : Cleanup.Cleaner
  pub audit : Audit.Writer
  pub cues : Bool
  pub watcher : Option Watcher

pub record Daemon : Type 0 where
  pub socket : Text
  pub audio : Option AudioSetup
  pub asr : Option Asr.Transcriber
  pub session : Option Dispatch
