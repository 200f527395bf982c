-- ===== src/Audit/Inside.antt =====
-- internal/audit/audit.go: where `Record` puts an utterance's audio.
use dicta.Base.{
  ◌≡◌, ◌≢◌, refl, ap, ◌∙◌, true, false, List, [], ◌∷◌, ◌++◌, append-nil, Text, Unicode, codes,
  is_empty, text_eq, text_eq_refl, arith,
}
use dicta.Paths.{split, walk, unstack, visit, elements, render, clean, join}
use dicta.Paths.Elements.{HasNoSlash}
use dicta.Audit.{sanitize_id}
use dicta.Audit.Sanitize.{IsSafe, sanitize_id-IsSafe}
use dicta.Audit.Log.{audio_rel}

-- The name of an entry of a directory: no path of several elements, and not the directory itself or
-- the one above it.
pub record IsFileName (name : Text) : Type 0 where
  pub some_name : is_empty name ≡ false
  pub no_slash : HasNoSlash name
  pub not_itself : name ≢ codes "."
  pub not_above : name ≢ codes ".."

-- The whole name of the audio file.
abbrev pub wav_name : Text → Text
wav_name s = s ++ codes ".wav"

wav_name-not_itself : (s : Text) → text_eq (wav_name s) (codes ".") ≡ false
wav_name-not_itself [] = refl
wav_name-not_itself (a ∷ []) = ground arith
wav_name-not_itself (a ∷ b ∷ s) = ground arith

wav_name-not_above : (s : Text) → text_eq (wav_name s) (codes "..") ≡ false
wav_name-not_above [] = refl
wav_name-not_above (a ∷ []) = ground arith
wav_name-not_above (a ∷ b ∷ []) = ground arith
wav_name-not_above (a ∷ b ∷ c ∷ s) = ground arith

wav_name-some : (s : Text) → is_empty (wav_name s) ≡ false
wav_name-some [] = refl
wav_name-some (a ∷ s) = refl

wav_name-no_slash : (s : Text) → IsSafe s → HasNoSlash (wav_name s)
wav_name-no_slash [] h = omega arith
wav_name-no_slash (c ∷ s) h = (h.0, wav_name-no_slash s h.3)

differs : (s t : Text) → text_eq s t ≡ false → s ≢ t
differs s t h q = clash (ap (text_eq s) q ∙ h) (text_eq_refl s)
  where
    clash : text_eq s s ≡ false → text_eq s s ≡ true → ⊥
    clash a b = cc

split-name : (s : Text) → HasNoSlash s → split s ≡ s ∷ []
unfolding split
split-name [] h = refl
split-name (c ∷ s) h = ground (arith, h.0, split-name s h.1)

-- A directory and a name in it are clean.
clean-name :
    (s : Text)
    → HasNoSlash s
    → is_empty s ≡ false
    → text_eq s (codes ".") ≡ false
    → text_eq s (codes "..") ≡ false
    → clean (codes "audio/" ++ s) ≡ codes "audio/" ++ s
unfolding clean elements split walk unstack
clean-name s h n a b = ap (render false) parts ∙ ap (◌++◌ (codes "audio/")) (append-nil s)
  where
    visited : visit false s (codes "audio" ∷ []) ≡ s ∷ codes "audio" ∷ []
    visited = rw (n, a, b) refl

    parts : elements (codes "audio/" ++ s) ≡ codes "audio" ∷ s ∷ []
    parts =
        ap (λ (es : List Text). unstack (walk false (codes "audio" ∷ es) []) []) (split-name s h)
        ∙ ap (λ (stack : List Text). unstack stack []) visited

-- Whatever the utterance's id, its audio goes to a file directly in the folder `audio` of the day's
-- directory: the cleaned path is that folder, a slash and a file name, which is the sanitized id
-- and `.wav`. The sanitized id is not empty, and has no slash, no backslash and no two dots in a row.
pub audio_rel-IsInside :
    (u : Unicode) (id : Text)
    → (audio_rel u id ≡ codes "audio/" ++ wav_name (sanitize_id u id))
      × IsFileName (wav_name (sanitize_id u id))
      × IsSafe (sanitize_id u id)
      × (is_empty (sanitize_id u id) ≡ false)
unfolding join
audio_rel-IsInside u id =
    let s : Text = sanitize_id u id in
    let safe : IsSafe s × (is_empty s ≡ false) = sanitize_id-IsSafe u id in
    let flat : HasNoSlash (wav_name s) = wav_name-no_slash s safe.0 in
    (
      clean-name (wav_name s) flat (wav_name-some s) (wav_name-not_itself s) (wav_name-not_above s),
      record {
        some_name = wav_name-some s;
        no_slash = flat;
        not_itself = differs (wav_name s) (codes ".") (wav_name-not_itself s);
        not_above = differs (wav_name s) (codes "..") (wav_name-not_above s);
      },
      safe.0,
      safe.1,
    )
