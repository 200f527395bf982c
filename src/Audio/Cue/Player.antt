-- ===== src/Audio/Cue/Player.antt =====
-- internal/audio/cue.go: the player of a tone.
use dicta.Base.{
  ℕ, Bool, not, ◌&&◌, List, [], ◌∷◌, ◌++◌, Option, none, some, Text, codes, is_empty, text_eq,
  if◌then◌else◌,
}
use dicta.Base.Ints.{itoa}
use dicta.Audio.Frame.{sample_rate_hz, channels, backend_pipewire, backend_pulse, pick_backend}
use dicta.Audio.Cue.{Floats, Cue, Custom, player, custom_error, CueConfig, SubprocessCuer, tone_for}

pub data Error : Type 0 where
  unknown_cue custom_failed custom_empty stdin_pipe start_failed write_failed close_failed
        exit_failed :
      Error
  unknown_backend not_on_path : Text → Error

pub data Player : Type 0 where
  command : Text → List Text → Player
  refused : Error → Player

-- What the calls on the subprocess come to.
pub record Process : Type 0 where
  pub pipe_fails : Bool
  pub start_fails : Bool
  pub write_fails : Bool
  pub close_fails : Bool
  pub wait_fails : Bool
  pub deadline_passed : Bool

pub data Outcome : Type 0 where
  muted : Outcome
  played : Text → List Text → List ℕ → Outcome
  failed : Error → Outcome

abbrev pub pw_cat_args : List Text
pw_cat_args =
    codes "--playback"
    ∷ (codes "--rate=" ++ itoa sample_rate_hz)
    ∷ (codes "--channels=" ++ itoa channels)
    ∷ codes "--format=s16"
    ∷ codes "--raw"
    ∷ codes "-"
    ∷ []

abbrev pub paplay_args : List Text
paplay_args =
    (codes "--rate=" ++ itoa sample_rate_hz)
    ∷ (codes "--channels=" ++ itoa channels)
    ∷ codes "--format=s16le"
    ∷ codes "--raw"
    ∷ []

-- `resolveCustomPlayer`.
unfoldable pub resolve_custom_player : (Text → ℕ → Custom) → Text → ℕ → Player
resolve_custom_player fn backend rate = at (fn backend rate)
  where
    at : Custom → Player
    at custom_error = refused custom_failed
    at (player exe args) = if is_empty exe then refused custom_empty else command exe args

abbrev pub found : (Text → Bool) → Text → List Text → Player
found look_path exe args = if look_path exe then command exe args else refused (not_on_path exe)

abbrev pub platform_player : (Text → Bool) → Text → Player
platform_player look_path backend =
    let pick = pick_backend (look_path (codes "pw-cat")) backend in
    if text_eq pick backend_pipewire
    then found look_path (codes "pw-cat") pw_cat_args
    else if text_eq pick backend_pulse
    then found look_path (codes "paplay") paplay_args
    else refused (unknown_backend pick)

abbrev pub chosen : (Text → Bool) → Text → Option (Text → ℕ → Custom) → Player
unfolding resolve_custom_player
chosen look_path backend none = platform_player look_path backend
chosen look_path backend (some fn) = resolve_custom_player fn backend sample_rate_hz

-- `resolvePlayer`; `look_path` says which programs are on the path.
unfoldable pub resolve_player : {F : Type 0} → (Text → Bool) → CueConfig F → Player
unfolding chosen
resolve_player look_path c = chosen look_path c.backend c.player_command

-- The subprocess of `Play`.
unfoldable pub pipe : Process → Text → List Text → List ℕ → Outcome
pipe r exe args pcm =
    if r.pipe_fails
    then failed stdin_pipe
    else if r.start_fails
    then failed start_failed
    else if r.write_fails
    then failed write_failed
    else if r.close_fails
    then failed close_failed
    else if r.wait_fails && not r.deadline_passed
    then failed exit_failed
    else played exe args pcm

abbrev pub piped : Process → List ℕ → Player → Outcome
unfolding pipe
piped r pcm (refused err) = failed err
piped r pcm (command exe args) = pipe r exe args pcm

abbrev pub sounded : Process → Player → Option (List ℕ) → Outcome
unfolding piped
sounded r p none = failed unknown_cue
sounded r p (some pcm) = piped r pcm p

-- `Play`.
unfoldable pub play :
    {F : Type 0}
    → Floats F
    → (Text → Bool)
    → Process
    → Cue
    → SubprocessCuer F
    → SubprocessCuer F × Outcome
unfolding sounded resolve_player tone_for
play z look_path r cue c =
    if c.config.disabled
    then (c, muted)
    else ((tone_for z cue c).0, sounded r (resolve_player look_path c.config) (tone_for z cue c).1)
