-- ===== src/Typer/Lines.antt =====
-- internal/dispatch/typer.go: what ydotool is given of a text.
use dicta.Base.{
  ℕ, suc, ◌≡◌, ◌≢◌, ◌⊎◌, refl, ap, Bool, true, false, ◌&&◌, List, [], ◌∷◌, ◌++◌, Option, none, some,
  Text, Unicode, map, is_empty, trim_space, trim_left, trim_right, keep_unless, ltb, if◌then◌else◌,
  if_intro, inl, inr, arith,
}
use dicta.Typer.{
  Config, Env, Error, Typer, flat, chunk_string, type_chunks, type_text, breaker_open,
  breaker_allow_attempt,
}
use dicta.Typer.Chunks.{concat, concat-chunk_string}

-- No line break, which ydotool would type as the Enter key.
abbrev pub IsFlat : Text → Type 0
IsFlat [] = Unit {0}
IsFlat (c ∷ s) = (c ≢ 10) × (c ≢ 13) × IsFlat s

abbrev pub AreFlat : List Text → Type 0
AreFlat [] = Unit {0}
AreFlat (s ∷ ss) = IsFlat s × AreFlat ss

map-flat : (s : Text) → IsFlat (map flat s)
map-flat [] = tt
map-flat (c ∷ s) = (ground arith, ground arith, map-flat s)

IsFlat-append : (s t : Text) → IsFlat (s ++ t) → IsFlat s × IsFlat t
IsFlat-append [] t h = (tt, h)
IsFlat-append (c ∷ s) t h =
    let r : IsFlat s × IsFlat t = IsFlat-append s t h.2 in ((h.0, h.1, r.0), r.1)

concat-AreFlat : (ss : List Text) → IsFlat (concat ss) → AreFlat ss
concat-AreFlat [] h = tt
concat-AreFlat (s ∷ ss) h =
    let r : IsFlat s × IsFlat (concat ss) = IsFlat-append s (concat ss) h in
    (r.0, concat-AreFlat ss r.1)

type_chunks-AreFlat :
    (e : Env) (i : ℕ) (ss : List Text) → AreFlat ss → AreFlat (type_chunks e i ss).0
unfolding type_chunks
type_chunks-AreFlat e i [] h = tt
type_chunks-AreFlat e i (s ∷ ss) h =
    if_intro Good (ltb 0 i && e.cancels i) (λ _. tt)
      (λ _.
        if_intro Good (e.fails i s) (λ _. (h.0, tt))
          (λ _. (h.0, type_chunks-AreFlat e (suc i) ss h.1)))
  where
    Good : List Text × Option Error → Type 0
    Good r = AreFlat r.0

type_chunks-all :
    (e : Env) (i : ℕ) (ss : List Text) → (type_chunks e i ss).1 ≡ none → (type_chunks e i ss).0 ≡ ss
unfolding type_chunks
type_chunks-all e i [] h = refl
type_chunks-all e i (s ∷ ss) h = ground (arith, type_chunks-all e (suc i) ss)

AreFlat-eq : (s : Text) (ss : List Text) → concat ss ≡ s → IsFlat s → AreFlat ss
AreFlat-eq s ss e f = concat-AreFlat ss (rw e f)

-- The second text is the first with a space, code point 32, for each line break.
abbrev pub IsFlattened : Text → Text → Type 0
IsFlattened [] [] = Unit {0}
IsFlattened (c ∷ s) (d ∷ t) =
    (c ≡ 10 → d ≡ 32) × (c ≡ 13 → d ≡ 32) × (c ≢ 10 → c ≢ 13 → d ≡ c) × IsFlattened s t
IsFlattened _ _ = ⊥

-- The text has nothing but spaces and line breaks.
abbrev pub IsBlank : Unicode → Text → Type 0
IsBlank u [] = Unit {0}
IsBlank u (c ∷ s) = (c ≢ 10 → c ≢ 13 → u.is_space c ≡ true) × IsBlank u s

map-IsFlattened : (s : Text) → IsFlattened s (map flat s)
map-IsFlattened [] = tt
map-IsFlattened (c ∷ s) =
    (λ q. ground arith, λ q. ground arith, λ p q. ground arith, map-IsFlattened s)

abbrev All : (ℕ → Bool) → Text → Type 0
All cut [] = Unit {0}
All cut (c ∷ s) = (cut c ≡ true) × All cut s

trim_left-All : (cut : ℕ → Bool) (s : Text) → All cut (trim_left cut s) → All cut s
unfolding trim_left
trim_left-All cut [] h = tt
trim_left-All cut (c ∷ s) h = at (trim_left-All cut s) (cut c) refl h
  where
    at :
        (All cut (trim_left cut s) → All cut s)
        → (b : Bool) → cut c ≡ b
        → All cut (if b then trim_left cut s else c ∷ s)
        → All cut (c ∷ s)
    at ih true q k = (q, ih k)
    at ih false q k = k

trim_right-All : (cut : ℕ → Bool) (s : Text) → is_empty (trim_right cut s) ≡ true → All cut s
unfolding trim_right
trim_right-All cut [] h = tt
trim_right-All cut (c ∷ s) h = at (trim_right-All cut s) (trim_right cut s) refl (cut c) refl h
  where
    at :
        (is_empty (trim_right cut s) ≡ true → All cut s)
        → (t : Text) → trim_right cut s ≡ t
        → (b : Bool) → cut c ≡ b
        → is_empty (keep_unless b c t) ≡ true
        → All cut (c ∷ s)
    at ih [] q true p k = (p, ih (ap is_empty q))
    at ih [] q false p k = cc
    at ih (d ∷ t) q b p k = cc

All-IsBlank : (u : Unicode) (s : Text) → All u.is_space (map flat s) → IsBlank u s
All-IsBlank u [] h = tt
All-IsBlank u (c ∷ s) h = (λ p q. ground (arith, h.0), All-IsBlank u s h.1)

trim_space-IsBlank :
    (u : Unicode) (s : Text) → is_empty (trim_space u (map flat s)) ≡ true → IsBlank u s
unfolding trim_space
trim_space-IsBlank u s h = All-IsBlank u s (
    trim_left-All u.is_space (map flat s)
      (trim_right-All u.is_space (trim_left u.is_space (map flat s)) h))

-- Whatever the text and the answers, ydotool is given no line break. If `Type` returns no error, it
-- was given the whole text, with a space for each line break, unless the text has nothing but
-- spaces and line breaks, in which case ydotool is not called.
pub type_text-AreFlat :
    (c : Config) (u : Unicode) (e : Env) (s : Text) (t : Typer)
    → c.chunk_size ≢ 0
    → let r = type_text c u e s t in
      AreFlat r.0.0 × (r.0.1 ≡ none → IsFlattened s (concat r.0.0) ⊎ (IsBlank u s × (r.0.0 ≡ [])))
unfolding type_text
type_text-AreFlat c u e s t h =
    if_intro Good (is_empty (trim_space u text))
      (λ q. (tt, λ n. inr (trim_space-IsBlank u s q, refl)))
      (λ _.
        if_intro Good (breaker_allow_attempt c e.now t)
          (λ _. (
            type_chunks-AreFlat e 0 ss (AreFlat-eq text ss whole (map-flat s)),
            λ n. inl (given (type_chunks-all e 0 ss n)),
          ))
          (λ _. (tt, λ n. absurd (refused n))))
  where
    text : Text
    text = map flat s

    ss : List Text
    ss = chunk_string text c.chunk_size

    whole : concat ss ≡ text
    whole = concat-chunk_string text c.chunk_size h

    Good : (List Text × Option Error) × Typer → Type 0
    Good r =
        AreFlat r.0.0 × (r.0.1 ≡ none → IsFlattened s (concat r.0.0) ⊎ (IsBlank u s × (r.0.0 ≡ [])))

    given : (type_chunks e 0 ss).0 ≡ ss → IsFlattened s (concat (type_chunks e 0 ss).0)
    given q = rw (q, whole) (map-IsFlattened s)

    refused : some breaker_open ≡ none → ⊥
    refused p = cc
