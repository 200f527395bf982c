-- ===== src/Typer/Chunks.antt =====
-- internal/dispatch/typer.go: the chunks of a text.
use dicta.Base.{
  ℕ, zero, suc, ◌-◌, ◌≤◌, ◌<◌, ◌/◌, ◌≡◌, ◌≢◌, refl, ap, ◌∙◌, ◌||◌, List, [], ◌∷◌, ◌++◌, append-nil,
  Text, length, get_or, take, drop, take-append-drop, length-drop, length-take, leb, ltb, ◌==◌,
  if_intro, arith,
}
use dicta.Typer.{find_boundary, chunks, chunk_string, byte_length, is_blank}

abbrev pub concat : List Text → Text
concat [] = []
concat (s ∷ ss) = s ++ concat ss

-- Each chunk has a code point, and `n` at most.
abbrev pub AreChunks : ℕ → List Text → Type 0
AreChunks n [] = Unit {0}
AreChunks n (s ∷ ss) = (0 < length s) × (length s ≤ n) × AreChunks n ss

find_boundary-within :
    (runes : Text) (low otherwise j : ℕ)
    → 0 < otherwise
    → j ≤ otherwise
    → (0 < find_boundary runes low otherwise j) × (find_boundary runes low otherwise j ≤ otherwise)
unfolding find_boundary
find_boundary-within runes low otherwise zero h l = (h, omega arith)
find_boundary-within runes low otherwise (suc j) h l =
    if_intro (λ n. (0 < n) × (n ≤ otherwise)) (ltb low (suc j))
      (λ _.
        if_intro (λ n. (0 < n) × (n ≤ otherwise)) (is_blank (get_or runes j 0))
          (λ _. (omega arith, l)) (λ _. find_boundary-within runes low otherwise j h (omega arith)))
      (λ _. (h, omega arith))

IsSplit : ℕ → Text → List Text → Type 0
IsSplit size s ss = (concat ss ≡ s) × AreChunks size ss

chunks-IsSplit :
    (size n : ℕ) (runes : Text)
    → 0 < size
    → 0 < length runes
    → length runes ≤ n
    → IsSplit size runes (chunks size n runes)
unfolding chunks IsSplit
chunks-IsSplit size zero runes h p l = absurd (omega arith)
chunks-IsSplit size (suc n) runes h p l =
    if_intro (IsSplit size runes) (leb (length runes) size)
      (λ q. (append-nil runes, (p, ground arith, tt)))
      (λ q.
        let b : (0 < split) × (split ≤ size) =
          find_boundary-within runes (size - size / 4) size size h (omega arith) in
        let more : size < length runes = ground arith in
        let rest : IsSplit size (drop split runes) (chunks size n (drop split runes)) =
          chunks-IsSplit size n (drop split runes) h (omega (arith, length-drop split runes))
            (omega (arith, length-drop split runes)) in
        (
          ap (◌++◌ (take split runes)) rest.0 ∙ take-append-drop split runes,
          (omega (arith, length-take split runes), omega (arith, length-take split runes), rest.1),
        ))
  where
    split : ℕ
    split = find_boundary runes (size - size / 4) size size

bytes : (s : Text) → length s ≤ byte_length s
bytes [] = omega arith
bytes (c ∷ s) = ground (arith, bytes s)

-- The chunks of a text that is not empty are together that text, and each has a code point, and at
-- most `size`, which is not 0.
pub chunk_string-concat :
    (s : Text) (size : ℕ)
    → size ≢ 0
    → 0 < length s
    → (concat (chunk_string s size) ≡ s) × AreChunks size (chunk_string s size)
unfolding chunk_string IsSplit
chunk_string-concat s size h p =
    if_intro (IsSplit size s) (size == 0 || leb (byte_length s) size)
      (λ q. (append-nil s, (p, ground (arith, bytes s), tt)))
      (λ _.
        if_intro (IsSplit size s) (leb (length s) size) (λ q. (append-nil s, (p, ground arith, tt)))
          (λ _. chunks-IsSplit size (length s) s (omega arith) p (omega arith)))

pub concat-chunk_string : (s : Text) (size : ℕ) → size ≢ 0 → concat (chunk_string s size) ≡ s
unfolding chunk_string chunks
concat-chunk_string [] size h =
    if_intro (λ ss. concat ss ≡ []) (size == 0 || leb (byte_length []) size) (λ _. refl)
      (λ _. if_intro (λ ss. concat ss ≡ []) (leb (length {A = ℕ} []) size) (λ _. refl) (λ _. refl))
concat-chunk_string (x ∷ s) size h = (chunk_string-concat (x ∷ s) size h (omega arith)).0
