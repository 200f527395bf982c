-- ===== src/Audio/Capture.antt =====
-- internal/audio/capture.go: the subprocess that records, and the pump that cuts what it writes into
-- frames.
pub mod Frames
mod Tests
use dicta.Base.{
  ℕ, Bool, true, false, not, ◌&&◌, List, [], ◌∷◌, ◌++◌, Option, none, some, Text, codes, is_empty,
  text_eq, length, take, drop, ltb, ◌==◌, if◌then◌else◌,
}
use dicta.Base.Ints.{ℤ, pos, negsuc, itoa}
use dicta.Audio.Frame.{
  Frame, sample_rate_hz, channels, frame_bytes, backend_auto, backend_pipewire, backend_pulse,
  pick_backend,
}

pub record CaptureConfig : Type 0 where
  pub backend : Text
  pub device : Text
  pub buffer_ms : ℤ

pub data Error : Type 0 where
  already_started stdout_pipe start_failed : Error
  unknown_backend not_on_path : Text → Error

abbrev pub pinned_target_props : Text
pinned_target_props = codes "{ node.dont-fallback = true node.linger = true node.dont-move = true }"

unfoldable pub pipewire_args : CaptureConfig → List Text
pipewire_args c =
    ((codes "--rate=" ++ itoa sample_rate_hz)
      ∷ (codes "--channels=" ++ itoa channels)
      ∷ codes "--format=s16"
      ∷ [])
    ++ (if is_empty c.device
        then []
        else (codes "--target=" ++ c.device) ∷ codes "-P" ∷ pinned_target_props ∷ [])
    ++ codes "--raw" ∷ codes "-" ∷ []

abbrev pub latency : ℤ → List Text
latency (pos n) = if n == 0 then [] else (codes "--latency-msec=" ++ itoa n) ∷ []
latency (negsuc n) = []

unfoldable pub pulse_args : CaptureConfig → List Text
pulse_args c =
    ((codes "--rate=" ++ itoa sample_rate_hz)
      ∷ (codes "--channels=" ++ itoa channels)
      ∷ codes "--format=s16le"
      ∷ codes "--raw"
      ∷ [])
    ++ (if is_empty c.device then [] else (codes "--device=" ++ c.device) ∷ [])
    ++ latency c.buffer_ms

-- The label, the program and its arguments.
pub data Command : Type 0 where
  command : Text → Text → List Text → Command
  refused : Error → Command

-- exec.LookPath again, on the program that was picked.
abbrev pub found : (Text → Bool) → Text → Text → List Text → Command
found look_path label exe args =
    if look_path exe then command label exe args else refused (not_on_path exe)

-- `resolveCommand`; `look_path` says which programs are on the path.
unfoldable pub resolve_command : (Text → Bool) → CaptureConfig → Command
unfolding pipewire_args pulse_args
resolve_command look_path c =
    let given = if is_empty c.backend then backend_auto else c.backend in
    let pick = pick_backend (look_path (codes "pw-record")) given in
    if text_eq pick backend_pipewire
    then found look_path backend_pipewire (codes "pw-record") (pipewire_args c)
    else if text_eq pick backend_pulse
    then found look_path backend_pulse (codes "parec") (pulse_args c)
    else refused (unknown_backend pick)

-- The goroutine of `pump`. `pipe` is what the subprocess wrote and nobody read; `ended` says that it
-- writes no more, and `closed` that the loop has left; `out` is the channel of 8 frames.
pub record Pump : Type 0 where
  pub pipe : List ℕ
  pub ended : Bool
  pub out : List Frame
  pub closed : Bool

abbrev pub fresh_pump : Pump
fresh_pump = record { pipe = []; ended = false; out = []; closed = false }

-- A full channel drops the new frame.
abbrev pub send : Frame → List Frame → List Frame
send f ch = if ltb (length ch) 8 then ch ++ f ∷ [] else ch

-- A round: io.ReadFull waits while the pipe holds less than a frame, and fails once it has ended.
unfoldable pub read : ℕ → Pump → Pump
read now p =
    if p.closed
    then p
    else if ltb (length p.pipe) frame_bytes
    then if p.ended then record p { pipe = []; closed = true } else p
    else record p {
      pipe = drop frame_bytes p.pipe;
      out = send (record { pcm = take frame_bytes p.pipe; timestamp = now }) p.out;
    }

-- `SubprocessCapture`; `pump` is there while `cmd` is set.
pub record SubprocessCapture : Type 0 where
  pub config : CaptureConfig
  pub backend : Text
  pub pump : Option Pump

unfoldable pub new : CaptureConfig → SubprocessCapture
new c = record { config = c; backend = []; pump = none }

-- Which of the calls of os/exec fails in a start.
pub data Spawned : Type 0 where
  spawned no_pipe no_process : Spawned

abbrev pub started : Spawned → Command → SubprocessCapture → SubprocessCapture × Option Error
started sp (refused err) c = (c, some err)
started no_pipe (command label exe args) c = (c, some stdout_pipe)
started no_process (command label exe args) c = (c, some start_failed)
started spawned (command label exe args) c =
    (record c { backend = label; pump = some fresh_pump }, none)

abbrev pub start_from :
    (Text → Bool) → Spawned → Option Pump → SubprocessCapture → SubprocessCapture × Option Error
unfolding resolve_command
start_from look_path sp (some p) c = (c, some already_started)
start_from look_path sp none c = started sp (resolve_command look_path c.config) c

-- `Start`.
unfoldable pub start :
    (Text → Bool) → Spawned → SubprocessCapture → SubprocessCapture × Option Error
unfolding start_from
start look_path sp c = start_from look_path sp c.pump c

-- `Stop`, which waits until the pump has left.
unfoldable pub stop : SubprocessCapture → SubprocessCapture
stop c = record c { pump = none }
