-- ===== src/Audio/Frame.antt =====
-- internal/audio/frame.go. A time is a number of nanoseconds; a byte is a number.
use dicta.Base.{ℕ, Bool, List, [], Text, codes, text_eq, if◌then◌else◌}

pub record Frame : Type 0 where
  pub pcm : List ℕ
  pub timestamp : ℕ

-- Go's zero value `Frame{}`.
abbrev pub zero_frame : Frame
zero_frame = record { pcm = []; timestamp = 0 }

-- The format that the file's comment locks: 16 kHz, mono, two bytes a sample, 80 ms a frame. It goes
-- by the constants of package asrclient.
abbrev pub sample_rate_hz : ℕ
sample_rate_hz = 16_000

abbrev pub channels : ℕ
channels = 1

abbrev pub frame_bytes : ℕ
frame_bytes = 2_560

-- `CaptureBackend`, which the capture and the cues take.
abbrev pub backend_auto : Text
backend_auto = codes "auto"

abbrev pub backend_pipewire : Text
backend_pipewire = codes "pipewire"

abbrev pub backend_pulse : Text
backend_pulse = codes "pulse"

-- The choice for "auto": pipewire if its program is on the path.
abbrev pub pick_backend : Bool → Text → Text
pick_backend on_path pick =
    if text_eq pick backend_auto then if on_path then backend_pipewire else backend_pulse else pick
