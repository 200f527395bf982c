-- ===== src/AudioMonitor/Split.antt =====
-- cmd/dictad/audiomonitor.go: where `quietestSplit` cuts.
use native.Mathlib.Nat.{mul-le-mul_right, div-mul-le_self, div-eq_of_lt}
use dicta.Base.{
  ℕ, zero, suc, ◌+◌, ◌-◌, ◌*◌, ◌/◌, ◌≤◌, ◌<◌, ◌≡◌, ◌≢◌, refl, min, false, List, length, if_intro,
  ◌==◌, arith, take, drop,
}
use dicta.AudioMonitor.{Sizes, quietest, quietest_split}

module _ {F : Type 0} (z : Sizes F) where
  -- The cut is the first guess or lies behind one of the frames that are looked at.
  quietest-within :
      (pcm : List ℕ) (i k best : ℕ) (level : F) (lo hi : ℕ)
      → lo ≤ i
      → i + k ≤ hi
      → lo < best
      → best ≤ hi
      → (lo < quietest z pcm i k best level) × (quietest z pcm i k best level ≤ hi)
  unfolding quietest
  quietest-within pcm i zero best level lo hi a b d e = (d, e)
  quietest-within pcm i (suc k) best level lo hi a b d e =
      let l : F = z.rms (take z.frame_bytes (drop (i * z.frame_bytes) pcm)) in
      if_intro (λ n. (lo < n) × (n ≤ hi)) (z.at_most l level)
        (λ _.
          quietest-within pcm (suc i) k (i + 1) l lo hi (omega arith) (omega arith) (omega arith)
            (omega arith))
        (λ _. quietest-within pcm (suc i) k best level lo hi (omega arith) (omega arith) d e)

  -- The cut keeps at least half of the frames, and ends at a frame's end within the audio; audio of
  -- less than a frame is cut at its end.
  pub record IsCut (pcm : List ℕ) (cut : ℕ) : Type 0 where
    pub within : cut ≤ length pcm
    pub later : z.frame_bytes ≢ 0 → z.frame_bytes ≤ length pcm → z.frame_bytes ≤ cut
    pub whole : length pcm < z.frame_bytes → cut ≡ length pcm

  pub quietest_split-IsCut : (pcm : List ℕ) → IsCut pcm (quietest_split z pcm)
  unfolding quietest_split
  quietest_split-IsCut pcm =
      if_intro (IsCut pcm) (frames == 0)
        (λ _. record { within = omega arith; later = λ n h. h; whole = λ h. refl }) (λ h. cut h)
    where
      frames : ℕ
      frames = length pcm / z.frame_bytes

      window : ℕ
      window = min (z.search_bytes / z.frame_bytes) (frames / 2)

      at : ℕ
      at = quietest z pcm (frames - window) window frames z.infinity

      cut : (frames == 0) ≡ false → IsCut pcm (at * z.frame_bytes)
      cut h = record {
        within = omega (
          arith,
          mul-le-mul_right z.frame_bytes range.1,
          div-mul-le_self (length pcm) z.frame_bytes,
        );
        later = λ n l. omega (arith, mul-le-mul_right z.frame_bytes range.0);
        whole = λ l. absurd (small (div-eq_of_lt l) h);
      }
        where
          range : (0 < at) × (at ≤ frames)
          range =
              quietest-within pcm (frames - window) window frames z.infinity 0 frames (omega arith)
                (omega arith) (ground arith) (omega arith)

          small : frames ≡ 0 → (frames == 0) ≡ false → ⊥
          small e q = ground arith
