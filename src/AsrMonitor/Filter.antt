-- ===== src/AsrMonitor/Filter.antt =====
-- cmd/dictad/asrmonitor.go: the two filters that drop what Whisper models make up.
pub mod Repetition
pub mod Fillers
use dicta.Base.{
  ◌≡◌, refl, ℕ, zero, suc, ◌+◌, Bool, true, false, not, List, [], ◌∷◌, map, Text, Unicode, codes,
  elem, text_elem, trim_right, trim_space, ◌==◌, leb, if◌then◌else◌,
}

abbrev pub whisper_hallucinations : List Text
whisper_hallucinations =
    codes ""
    ∷ codes "you"
    ∷ codes "thank you"
    ∷ codes "thanks"
    ∷ codes "thanks for watching"
    ∷ codes "thank you for watching"
    ∷ codes "thank you so much"
    ∷ codes "thank you so much for watching"
    ∷ codes "bye"
    ∷ codes "goodbye"
    ∷ []

-- Lowercased, and without surrounding space or final punctuation.
unfoldable pub normalize : Unicode → Text → Text
normalize u text =
    trim_space u (trim_right (λ c. elem c (codes ".!?, ")) (map u.to_lower (trim_space u text)))

unfoldable pub is_whisper_hallucination : Unicode → Text → Bool
unfolding normalize
is_whisper_hallucination u text = text_elem (normalize u text) whisper_hallucinations

abbrev pub allowed_double_letters : Text
allowed_double_letters = codes "abcdefgiklmnoprstuz"

unfoldable pub is_allowed_double : ℕ → Bool
is_allowed_double c = elem c allowed_double_letters

-- The loop of `isWhisperRepetitionLoop` with its variables `prev` and `run`. `same` is the rest of
-- the body once the run has grown.
unfoldable pub scan : Unicode → ℕ → ℕ → Text → Bool
scan u prev run [] = false
scan u prev run (r ∷ text) =
    let lower : ℕ = u.to_lower r in
    let other = scan u 0 0 text in
    let fresh = scan u lower 1 text in
    let grown = scan u prev (run + 1) text in
    if not (u.is_letter lower)
    then other
    else if lower == prev
    then if leb 3 (run + 1)
      then true
      else if run + 1 == 2
      then if not (is_allowed_double lower) then true else grown
      else grown
    else fresh

unfoldable pub is_whisper_repetition_loop : Unicode → Text → Bool
unfolding scan is_allowed_double
is_whisper_repetition_loop u text = scan u 0 0 text

-- The empty text is on the list, so no accepted text is empty.
pub nil-hallucination : (u : Unicode) → is_whisper_hallucination u [] ≡ true
unfolding is_whisper_hallucination trim_space trim_right
nil-hallucination u = refl
