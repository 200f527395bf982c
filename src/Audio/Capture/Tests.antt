-- ===== src/Audio/Capture/Tests.antt =====
-- internal/audio/capture.go: commands, and a pump that cuts a frame.
use dicta.Base.{◌≡◌, refl, true, false, [], ◌∷◌, none, some, codes, text_eq}
use dicta.Base.Ints.{pos, itoa}
use dicta.Audio.Capture.{
  CaptureConfig, command, refused, unknown_backend, not_on_path, resolve_command,
  pinned_target_props, new, start, stop, spawned, already_started, start_failed, no_process,
  SubprocessCapture,
}

abbrev config : CaptureConfig
config = record { backend = []; device = codes "mic"; buffer_ms = pos 40 }

with_pipewire :
    resolve_command (λ _. true) config
    ≡ command (codes "pipewire") (codes "pw-record") (
        codes "--rate=16000"
        ∷ codes "--channels=1"
        ∷ codes "--format=s16"
        ∷ codes "--target=mic"
        ∷ codes "-P"
        ∷ pinned_target_props
        ∷ codes "--raw"
        ∷ codes "-"
        ∷ [])
unfolding resolve_command itoa
with_pipewire = refl

with_pulse :
    resolve_command (text_eq (codes "parec")) config
    ≡ command (codes "pulse") (codes "parec") (
        codes "--rate=16000"
        ∷ codes "--channels=1"
        ∷ codes "--format=s16le"
        ∷ codes "--raw"
        ∷ codes "--device=mic"
        ∷ codes "--latency-msec=40"
        ∷ [])
unfolding resolve_command itoa
with_pulse = refl

with_nothing : resolve_command (λ _. false) config ≡ refused (not_on_path (codes "parec"))
unfolding resolve_command
with_nothing = refl

with_alsa :
    resolve_command (λ _. true) (record config { backend = codes "alsa" })
    ≡ refused (unknown_backend (codes "alsa"))
unfolding resolve_command
with_alsa = refl

abbrev once : SubprocessCapture
once = (start (λ _. true) spawned (new config)).0

start-start : (start (λ _. true) spawned once).1 ≡ some already_started
unfolding start new
start-start = refl

start-stop : (start (λ _. true) spawned (stop once)).1 ≡ none
unfolding start stop resolve_command new
start-stop = refl

start-fails : (start (λ _. true) no_process (new config)).1 ≡ some start_failed
unfolding start new resolve_command
start-fails = refl
