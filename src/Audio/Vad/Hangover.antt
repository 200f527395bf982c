-- ===== src/Audio/Vad/Hangover.antt =====
-- internal/audio/vad.go: the hangover of an utterance.
use dicta.Base.{
  ℕ, suc, ◌+◌, ◌*◌, ◌≡◌, refl, ap, ◌∙◌, Bool, true, false, ◌&&◌, ◌||◌, List, [], ◌∷◌, Option, none,
  some, is_empty, ltb, ◌==◌, if_intro, arith,
}
use dicta.Audio.Frame.{Frame}
use dicta.Audio.Vad.{
  Floats, Config, EnergyVad, apply_hangover, calibrate, listen, is_speech, window_rms,
}

abbrev one_more : Option ℕ → Option ℕ
one_more none = none
one_more (some n) = some (suc n)

-- How many frames lie behind the last one with raw speech; the newest frame comes first.
abbrev pub since_raw : List Bool → Option ℕ
since_raw [] = none
since_raw (true ∷ flags) = some 0
since_raw (false ∷ flags) = one_more (since_raw flags)

abbrev within : Config → Option ℕ → Bool
within c none = false
within c (some n) = n == 0 || ltb (n * c.frame_duration) c.hangover

-- Raw speech was heard, and the silence since is shorter than the hangover.
abbrev pub is_hanging : Config → List Bool → Bool
is_hanging c flags = within c (since_raw flags)

fades :
    (c : Config) (o : Option ℕ) (speaking : Bool) (run : ℕ)
    → speaking ≡ within c o
    → ((n : ℕ) → o ≡ some n → run ≡ n * c.frame_duration)
    → (speaking && ltb (run + c.frame_duration) c.hangover) ≡ within c (one_more o)
fades c none speaking run h e = ground arith
fades c (some n) speaking run h e =
    let r : run ≡ n * c.frame_duration = e n refl in
    let more : suc n * c.frame_duration ≡ run + c.frame_duration = omega (arith, r) in
    ground (arith, r, more)

counts :
    (c : Config) (o : Option ℕ) (run : ℕ)
    → ((n : ℕ) → o ≡ some n → run ≡ n * c.frame_duration)
    → (n : ℕ) → one_more o ≡ some n
    → run + c.frame_duration ≡ n * c.frame_duration
counts c none run e n q = cc
counts c (some m) run e n q =
    let r : run ≡ m * c.frame_duration = e m refl in
    let more : run + c.frame_duration ≡ suc m * c.frame_duration = omega (arith, r) in
    let same : suc m ≡ n = ground arith in more ∙ ap (λ k. k * c.frame_duration) same

module _ {F : Type 0} where
  record IsHanging (c : Config) (flags : List Bool) (v : EnergyVad F) : Type 0 where
    speaking : v.in_utterance ≡ is_hanging c flags
    silence : (n : ℕ) → since_raw flags ≡ some n → v.silence_run ≡ n * c.frame_duration

  -- The VAD hangs over what it had, with the raw verdict that it keeps.
  record Hangs (c : Config) (v : EnergyVad F) (r : EnergyVad F × Bool) : Type 0 where
    verdict : r.1 ≡ r.0.in_utterance
    speaking : r.0.in_utterance ≡ (apply_hangover c r.0.last_raw_speech v).0.in_utterance
    silence : r.0.silence_run ≡ (apply_hangover c r.0.last_raw_speech v).0.silence_run

  apply_hangover-Hangs :
      (c : Config) (raw : Bool) (v w : EnergyVad F)
      → w.in_utterance ≡ v.in_utterance
      → w.silence_run ≡ v.silence_run
      → w.last_raw_speech ≡ raw
      → Hangs c v (apply_hangover c raw w)
  unfolding apply_hangover
  apply_hangover-Hangs c true v w i q r = ground arith
  apply_hangover-Hangs c false v w i q r = ground arith

  apply_hangover-IsHanging :
      (c : Config) (raw : Bool) (flags : List Bool) (v : EnergyVad F)
      → IsHanging c flags v
      → IsHanging c (raw ∷ flags) (apply_hangover c raw v).0
  unfolding apply_hangover
  apply_hangover-IsHanging c true flags v h = record {
    speaking = refl;
    silence = λ n q. zero_run n q;
  }
    where
      zero_run : (n : ℕ) → some 0 ≡ some n → 0 ≡ n * c.frame_duration
      zero_run n q = ground arith
  apply_hangover-IsHanging c false flags v h = record {
    speaking =
        quiet.0 ∙ fades c (since_raw flags) v.in_utterance v.silence_run h.speaking h.silence;
    silence = λ n q. quiet.1 ∙ counts c (since_raw flags) v.silence_run h.silence n q;
  }
    where
      quiet :
          ((apply_hangover c false v).0.in_utterance
            ≡ (v.in_utterance && ltb (v.silence_run + c.frame_duration) c.hangover))
          × ((apply_hangover c false v).0.silence_run ≡ v.silence_run + c.frame_duration)
      quiet = unfold apply_hangover in ground arith

module _ {F : Type 0} (z : Floats F) (c : Config) where
  is_speech-Hangs : (f : Frame) (v : EnergyVad F) → Hangs c v (is_speech z c f v)
  unfolding is_speech
  is_speech-Hangs f v =
      if_intro (Hangs c v) (is_empty values)
        (λ _. apply_hangover-Hangs c false v (record v { last_raw_speech = false }) refl refl refl)
        (λ _.
          if_intro (Hangs c v) (ltb 0 v.calibrate_remaining)
            (λ _.
              apply_hangover-Hangs c false v (calibrate z c values v) (unfold calibrate in refl)
                (unfold calibrate in refl) (unfold calibrate in refl))
            (λ _.
              apply_hangover-Hangs c heard.1 v heard.0 (unfold listen in refl)
                (unfold listen in refl) (unfold listen in refl)))
    where
      values : List F
      values = window_rms z f.pcm c.win_samples

      heard : EnergyVad F × Bool
      heard = listen z values v

  -- The VAD after these frames, the newest first, and the raw verdicts.
  unfoldable pub hear : List Frame → EnergyVad F → EnergyVad F
  hear [] v = v
  hear (f ∷ fs) v = (is_speech z c f (hear fs v)).0

  unfoldable pub raw_verdicts : List Frame → EnergyVad F → List Bool
  raw_verdicts [] v = []
  raw_verdicts (f ∷ fs) v = (hear (f ∷ fs) v).last_raw_speech ∷ raw_verdicts fs v

  hear-IsHanging :
      (fs : List Frame) (v : EnergyVad F)
      → v.in_utterance ≡ false
      → IsHanging c (raw_verdicts fs v) (hear fs v)
  unfolding hear raw_verdicts
  hear-IsHanging [] v h = record { speaking = h; silence = λ n q. cc }
  hear-IsHanging (f ∷ fs) v h =
      let k : Hangs c (hear fs v) (is_speech z c f (hear fs v)) = is_speech-Hangs f (hear fs v) in
      let g : IsHanging c (raw_verdicts (f ∷ fs) v)
          (apply_hangover c (hear (f ∷ fs) v).last_raw_speech (hear fs v)).0 =
        apply_hangover-IsHanging c (hear (f ∷ fs) v).last_raw_speech (raw_verdicts fs v) (hear fs v)
          (hear-IsHanging fs v h) in
      record { speaking = k.speaking ∙ g.speaking; silence = λ n q. k.silence ∙ g.silence n q }

  -- The VAD calls a frame speech exactly if it heard raw speech before or then, and has heard less
  -- silence since than the hangover, counted in frames: any frames, the newest first, on a VAD
  -- between utterances.
  pub is_speech-is_hanging :
      (f : Frame) (fs : List Frame) (v : EnergyVad F)
      → v.in_utterance ≡ false
      → (is_speech z c f (hear fs v)).1 ≡ is_hanging c (raw_verdicts (f ∷ fs) v)
  unfolding hear
  is_speech-is_hanging f fs v h =
      (is_speech-Hangs f (hear fs v)).verdict ∙ (hear-IsHanging (f ∷ fs) v h).speaking
