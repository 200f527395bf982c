-- ===== src/Audio/Vad/Tests.antt =====
-- internal/audio/vad.go: a run of the VAD, with whole numbers for the floats.
use dicta.Base.{ℕ, ◌+◌, ◌≡◌, refl, true, false, List, [], ◌∷◌, ltb}
use dicta.Audio.Frame.{Frame}
use dicta.Audio.Vad.{
  Floats, Config, new, is_speech, window_rms, windows, apply_hangover, calibrate, listen, scan,
}
use dicta.Audio.Vad.Hangover.{hear, raw_verdicts, is_hanging, is_speech-is_hanging}

abbrev total : List ℕ → ℕ
total [] = 0
total (x ∷ xs) = x + total xs

abbrev floats : Floats ℕ
floats = record {
  zero_float = 0;
  exceeds = λ a b. ltb b a;
  rms = total;
  median = λ xs. 1;
  threshold = λ f. f + 3;
  blend = λ f r. f;
  min_floor = 1;
  floor_initial = 1;
}

abbrev config : Config
config = record { hangover = 40; calibrate = 20; frame_duration = 20; win_samples = 1 }

abbrev loud : Frame
loud = record { pcm = 9 ∷ 9 ∷ []; timestamp = 0 }

abbrev soft : Frame
soft = record { pcm = 0 ∷ 1 ∷ []; timestamp = 0 }

-- The first frame calibrates; the loud one is speech, and so is one soft frame behind it.
hangs_over :
    (is_speech floats config soft (hear floats config (loud ∷ soft ∷ []) (new floats config))).1
    ≡ true
unfolding hear is_speech window_rms windows apply_hangover calibrate listen scan new
hangs_over = refl

falls_silent :
    (is_speech floats config soft
      (hear floats config (soft ∷ loud ∷ soft ∷ []) (new floats config))).1
    ≡ false
unfolding hear is_speech window_rms windows apply_hangover calibrate listen scan new
falls_silent = refl

is_speech-is_hanging_example :
    (is_speech floats config soft (hear floats config (loud ∷ soft ∷ []) (new floats config))).1
    ≡ is_hanging config (raw_verdicts floats config (soft ∷ loud ∷ soft ∷ []) (new floats config))
unfolding new
is_speech-is_hanging_example =
    is_speech-is_hanging floats config soft (loud ∷ soft ∷ []) (new floats config) refl
