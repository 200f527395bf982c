-- ===== src/Audio/Vad.antt =====
-- internal/audio/vad.go: the energy VAD. A float64 is an element of the type `F`, and what the
-- program computes with them are the fields of `Floats`.
pub mod Hangover
mod Tests
use dicta.Base.{
  ℕ, zero, suc, ◌+◌, ◌-◌, ◌*◌, ◌/◌, ◌%◌, Bool, true, false, not, ◌&&◌, ◌||◌, List, [], ◌∷◌, ◌++◌,
  Option, none, some, length, take, drop, is_empty, ltb, leb, ◌==◌, if◌then◌else◌,
}
use dicta.Audio.Frame.{Frame}

-- `exceeds` is `>`; `threshold` is a floor times the margin; `blend` is a floor moved towards the
-- loudest window of silence.
pub record Floats (F : Type 0) : Type 0 where
  pub zero_float : F
  pub exceeds : F → F → Bool
  pub rms : List ℕ → F
  pub median : List F → F
  pub threshold : F → F
  pub blend : F → F → F
  pub min_floor : F
  pub floor_initial : F

-- The durations in nanoseconds; `win_samples` is the number of samples of a window.
pub record Config : Type 0 where
  pub hangover : ℕ
  pub calibrate : ℕ
  pub frame_duration : ℕ
  pub win_samples : ℕ

-- `calibrate_remaining` is positive exactly while it calibrates: what lies below 0 is 0 here.
pub record EnergyVad (F : Type 0) : Type 0 where
  pub floor : F
  pub calibrate_remaining : ℕ
  pub cal_samples : List F
  pub in_utterance : Bool
  pub silence_run : ℕ
  pub last_raw_speech : Bool

-- The windows of `n` bytes, `k` of them.
module _ {F : Type 0} (z : Floats F) where
  unfoldable pub windows : ℕ → ℕ → List ℕ → List F
  windows n zero pcm = []
  windows n (suc k) pcm = z.rms (take n pcm) ∷ windows n k (drop n pcm)

  unfoldable pub window_rms : List ℕ → ℕ → List F
  unfolding windows
  window_rms pcm win_samples =
      let n = length pcm - length pcm % 2 in
      let win_bytes = win_samples * 2 in
      if win_samples == 0
      then []
      else if ltb n win_bytes
      then if n == 0 then [] else z.rms (take n pcm) ∷ []
      else windows win_bytes (n / win_bytes) pcm

  -- The loop over the windows: the loudest, and whether one exceeds the threshold.
  unfoldable pub scan : F → List F → F → Bool → F × Bool
  scan threshold [] max_r raw = (max_r, raw)
  scan threshold (r ∷ rs) max_r raw =
      scan threshold rs (if z.exceeds r max_r then r else max_r) (z.exceeds r threshold || raw)

  abbrev pub at_least : F → F
  at_least x = if z.exceeds z.min_floor x then z.min_floor else x

unfoldable pub new : {F : Type 0} → Floats F → Config → EnergyVad F
new z c = record {
  floor = z.floor_initial;
  calibrate_remaining = c.calibrate;
  cal_samples = [];
  in_utterance = false;
  silence_run = 0;
  last_raw_speech = false;
}

unfoldable pub reset : {F : Type 0} → Floats F → Config → EnergyVad F → EnergyVad F
reset z c v = record v {
  floor = z.floor_initial;
  calibrate_remaining = c.calibrate;
  cal_samples = [];
  in_utterance = false;
  silence_run = 0;
  last_raw_speech = false;
}

unfoldable pub apply_hangover : {F : Type 0} → Config → Bool → EnergyVad F → EnergyVad F × Bool
apply_hangover c true v = (record v { silence_run = 0; in_utterance = true }, true)
apply_hangover c false v =
    let run = v.silence_run + c.frame_duration in
    if v.in_utterance && ltb run c.hangover
    then (record v { silence_run = run }, true)
    else (record v { silence_run = run; in_utterance = false }, false)

module _ {F : Type 0} (z : Floats F) where
  -- A frame of the calibration.
  unfoldable pub calibrate : Config → List F → EnergyVad F → EnergyVad F
  calibrate c values v =
      let samples = v.cal_samples ++ values in
      let left = v.calibrate_remaining - c.frame_duration in
      record v {
        cal_samples = samples;
        calibrate_remaining = left;
        floor =
            if left == 0 && not (is_empty samples) then at_least z (z.median samples) else v.floor;
        last_raw_speech = false;
      }

  -- A frame after it: the floor follows the silence.
  unfoldable pub listen : List F → EnergyVad F → EnergyVad F × Bool
  unfolding scan
  listen values v =
      let (max_r, raw) = scan z (z.threshold v.floor) values z.zero_float false in
      (
        record v {
          floor = if raw then v.floor else at_least z (z.blend v.floor max_r);
          last_raw_speech = raw;
        },
        raw,
      )

  unfoldable pub is_speech : Config → Frame → EnergyVad F → EnergyVad F × Bool
  unfolding window_rms apply_hangover calibrate listen
  is_speech c f v =
      let values = window_rms z f.pcm c.win_samples in
      let heard = listen values v in
      if is_empty values
      then apply_hangover c false (record v { last_raw_speech = false })
      else if ltb 0 v.calibrate_remaining
      then apply_hangover c false (calibrate c values v)
      else apply_hangover c heard.1 heard.0
