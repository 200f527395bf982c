-- ===== src/AsrMonitor/Filter/Fillers.antt =====
-- cmd/dictad/asrmonitor.go: the fillers that Whisper models make up are recognised in any spelling.
use mathlib.Core.Path.{subst}
use dicta.Base.{
  ℕ, ◌≤◌, ◌≡◌, refl, sym, ap, ◌∙◌, Bool, true, false, not, ◌&&◌, List, [], ◌∷◌, ◌++◌, append-nil,
  map, Text, Unicode, codes, elem, text_eq, text_eq_sound, text_elem, leb, keep_unless, trim_left,
  trim_right, trim_space, arith,
}
use dicta.AsrMonitor.Filter.{normalize, is_whisper_hallucination, whisper_hallucinations}

-- What is said to nobody.
abbrev pub fillers : List Text
fillers =
    codes "you"
    ∷ codes "thank you"
    ∷ codes "thanks"
    ∷ codes "thanks for watching"
    ∷ codes "thank you for watching"
    ∷ codes "thank you so much"
    ∷ codes "thank you so much for watching"
    ∷ codes "bye"
    ∷ codes "goodbye"
    ∷ []

abbrev pub All : (ℕ → Bool) → Text → Type 0
All p [] = Unit {0}
All p (c ∷ s) = (p c ≡ true) × All p s

-- The first code point is not among these, nor is the last.
abbrev pub Starts : (ℕ → Bool) → Text → Type 0
Starts p [] = ⊥
Starts p (c ∷ s) = p c ≡ false

abbrev pub Ends : (ℕ → Bool) → Text → Type 0
Ends p [] = ⊥
Ends p (c ∷ []) = p c ≡ false
Ends p (c ∷ d ∷ s) = Ends p (d ∷ s)

abbrev pub is_mark : ℕ → Bool
is_mark c = elem c (codes ".!?, ")

-- The text is a filler in any case of its letters, with full stops, marks, commas and blanks behind
-- it, and white space around it all.
pub record IsFiller (u : Unicode) (t : Text) : Type 0 where
  pub before : Text
  pub said : Text
  pub marks : Text
  pub behind : Text
  pub text : t ≡ before ++ (said ++ (marks ++ behind))
  pub blank_before : All u.is_space before
  pub blank_behind : All u.is_space behind
  pub marked : All (λ c. is_mark (u.to_lower c)) marks
  pub starts : Starts u.is_space said
  pub ends : Ends u.is_space said
  pub filler : text_elem (map u.to_lower said) fillers ≡ true

-- What package unicode says of the letters from a to z: none is white space.
abbrev pub HasLetters : Unicode → Type 0
HasLetters u = (c : ℕ) → 97 ≤ c → c ≤ 122 → u.is_space c ≡ false

trim_left-blank : (p : ℕ → Bool) (s t : Text) → All p s → Starts p t → trim_left p (s ++ t) ≡ t
unfolding trim_left
trim_left-blank p [] [] h k = absurd k
trim_left-blank p [] (c ∷ t) h k = rw k refl
trim_left-blank p (c ∷ s) t h k = rw h.0 (trim_left-blank p s t h.1 k)

trim_right-blank : (p : ℕ → Bool) (s : Text) → All p s → trim_right p s ≡ []
unfolding trim_right
trim_right-blank p [] h = refl
trim_right-blank p (c ∷ s) h = rw (trim_right-blank p s h.1, h.0) refl

-- Blanks behind are not seen.
trim_right-behind : (p : ℕ → Bool) (s t : Text) → All p t → trim_right p (s ++ t) ≡ trim_right p s
unfolding trim_right
trim_right-behind p [] t h = trim_right-blank p t h
trim_right-behind p (c ∷ s) t h = ap (keep_unless (p c) c) (trim_right-behind p s t h)

trim_right-append :
    (p : ℕ → Bool) (s t : Text) → Ends p s → trim_right p (s ++ t) ≡ s ++ trim_right p t
unfolding trim_right
trim_right-append p [] t h = absurd h
trim_right-append p (c ∷ []) t h = at (trim_right p t)
  where
    at : (r : Text) → keep_unless (p c) c r ≡ c ∷ r
    at [] = rw h refl
    at (d ∷ r) = refl
trim_right-append p (c ∷ d ∷ s) t h = ap (keep_unless (p c) c) (trim_right-append p (d ∷ s) t h)

-- What is left of a text has what all of the text has.
keep_unless-All :
    (q : ℕ → Bool) (b : Bool) (c : ℕ) (s : Text) → q c ≡ true → All q s → All q (keep_unless b c s)
keep_unless-All q true c [] h k = tt
keep_unless-All q false c [] h k = (h, tt)
keep_unless-All q b c (d ∷ s) h k = (h, k)

trim_right-All : (p q : ℕ → Bool) (s : Text) → All q s → All q (trim_right p s)
unfolding trim_right
trim_right-All p q [] h = tt
trim_right-All p q (c ∷ s) h =
    keep_unless-All q (p c) c (trim_right p s) h.0 (trim_right-All p q s h.1)

map-All : (f : ℕ → ℕ) (p : ℕ → Bool) (s : Text) → All (λ c. p (f c)) s → All p (map f s)
map-All f p [] h = tt
map-All f p (c ∷ s) h = (h.0, map-All f p s h.1)

map-append : (f : ℕ → ℕ) (s t : Text) → map f (s ++ t) ≡ map f s ++ map f t
map-append f [] t = refl
map-append f (c ∷ s) t = ap (◌∷◌ (f c)) (map-append f s t)

Starts-append : (p : ℕ → Bool) (s t : Text) → Starts p s → Starts p (s ++ t)
Starts-append p [] t h = absurd h
Starts-append p (c ∷ s) t h = h

trim_right-Ends : (p : ℕ → Bool) (s : Text) → Ends p s → trim_right p s ≡ s
unfolding trim_right
trim_right-Ends p s h =
    ap (trim_right p) (sym (append-nil s)) ∙ (trim_right-append p s [] h ∙ append-nil s)

-- A filler begins and ends with a letter.
abbrev no_letter : ℕ → Bool
no_letter c = not (leb 97 c && leb c 122)

abbrev IsWord : Text → Type 0
IsWord w = Starts no_letter w × Ends no_letter w

abbrev AreWords : List Text → Type 0
AreWords [] = Unit {0}
AreWords (w ∷ ws) = IsWord w × AreWords ws

AreWords-IsWord : (w : Text) (ws : List Text) → AreWords ws → text_elem w ws ≡ true → IsWord w
AreWords-IsWord w [] h e = cc
AreWords-IsWord w (x ∷ ws) h e = at (text_eq w x) refl (AreWords-IsWord w ws h.1)
  where
    at : (b : Bool) → text_eq w x ≡ b → (text_elem w ws ≡ true → IsWord w) → IsWord w
    at true q ih = subst IsWord (sym (text_eq_sound w x q)) h.0
    at false q ih = ih (ground (arith, e, q))

fillers-AreWords : AreWords fillers
fillers-AreWords = (
  (refl, refl),
  (
    (refl, refl),
    (
      (refl, refl),
      (
        (refl, refl),
        ((refl, refl), ((refl, refl), ((refl, refl), ((refl, refl), ((refl, refl), tt))))),
      ),
    ),
  ),
)

Starts-weaken :
    (p q : ℕ → Bool) → ((c : ℕ) → p c ≡ false → q c ≡ false) → (s : Text) → Starts p s → Starts q s
Starts-weaken p q k [] h = absurd h
Starts-weaken p q k (c ∷ s) h = k c h

Ends-weaken :
    (p q : ℕ → Bool) → ((c : ℕ) → p c ≡ false → q c ≡ false) → (s : Text) → Ends p s → Ends q s
Ends-weaken p q k [] h = absurd h
Ends-weaken p q k (c ∷ []) h = k c h
Ends-weaken p q k (c ∷ d ∷ s) h = Ends-weaken p q k (d ∷ s) h

letter-no_space :
    (u : Unicode) → HasLetters u → (c : ℕ) → no_letter c ≡ false → u.is_space c ≡ false
letter-no_space u l c h = l c (ground arith) (ground arith)

letter-no_mark : (c : ℕ) → no_letter c ≡ false → is_mark c ≡ false
letter-no_mark c h = ground arith

normalize-filler :
    (u : Unicode) (t : Text)
    → HasLetters u
    → (f : IsFiller u t) → normalize u t ≡ map u.to_lower f.said
unfolding normalize trim_space
normalize-filler u t l f =
    ap (λ (x : Text). trim_right sp (trim_left sp (trim_right is_mark (map u.to_lower x)))) outer
    ∙ (ap (λ (x : Text). trim_right sp (trim_left sp x)) inner
        ∙ (ap (trim_right sp) (
              trim_left-blank sp [] word tt
                (Starts-weaken no_letter sp (letter-no_space u l) word w.0))
            ∙ trim_right-Ends sp word (Ends-weaken no_letter sp (letter-no_space u l) word w.1)))
  where
    sp : ℕ → Bool
    sp = u.is_space

    word : Text
    word = map u.to_lower f.said

    w : IsWord word
    w = AreWords-IsWord word fillers fillers-AreWords f.filler

    left : Text
    left = trim_right sp f.marks

    outer : trim_right sp (trim_left sp t) ≡ f.said ++ left
    outer =
        ap (λ (x : Text). trim_right sp (trim_left sp x)) f.text
        ∙ (ap (trim_right sp) (
              trim_left-blank sp f.before (f.said ++ (f.marks ++ f.behind)) f.blank_before
                (Starts-append sp f.said (f.marks ++ f.behind) f.starts))
            ∙ (trim_right-append sp f.said (f.marks ++ f.behind) f.ends
                ∙ ap (◌++◌ f.said) (trim_right-behind sp f.marks f.behind f.blank_behind)))

    inner : trim_right is_mark (map u.to_lower (f.said ++ left)) ≡ word
    inner =
        ap (trim_right is_mark) (map-append u.to_lower f.said left)
        ∙ (trim_right-append is_mark word (map u.to_lower left)
              (Ends-weaken no_letter is_mark letter-no_mark word w.1)
            ∙ (ap (◌++◌ word) (
                  trim_right-blank is_mark (map u.to_lower left) (
                    map-All u.to_lower is_mark left
                      (trim_right-All sp (λ c. is_mark (u.to_lower c)) f.marks f.marked)))
                ∙ append-nil word))

-- The filter knows a filler in any spelling.
pub is_whisper_hallucination-IsFiller :
    (u : Unicode) (t : Text) → HasLetters u → IsFiller u t → is_whisper_hallucination u t ≡ true
unfolding is_whisper_hallucination
is_whisper_hallucination-IsFiller u t l f =
    ap (λ (w : Text). text_elem w whisper_hallucinations) (normalize-filler u t l f)
    ∙ listed (map u.to_lower f.said) f.filler
  where
    listed : (w : Text) → text_elem w fillers ≡ true → text_elem w whisper_hallucinations ≡ true
    listed w h = ground (arith, h)
