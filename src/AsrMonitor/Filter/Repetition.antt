-- ===== src/AsrMonitor/Filter/Repetition.antt =====
-- What the repetition filter recognises, stated of the text and not of the scan.
use dicta.Base.{
  ℕ, ◌≡◌, ◌↔◌, sym, ap, ◌∙◌, Bool, true, false, [], ◌∷◌, Text, Unicode, ◌==◌, ==_iff, if◌then◌else◌,
  Bool-cases, inl, inr,
}
use dicta.AsrMonitor.Filter.{scan, is_whisper_repetition_loop, is_allowed_double}

contradict : {b : Bool} → b ≡ true → b ≡ false → ⊥
contradict p q = cc

module _ (u : Unicode) where
  -- Case is ignored: two characters are the same letter if they have the same lower case.
  abbrev pub SameLetter : ℕ → ℕ → Type 0
  SameLetter a b = (u.is_letter (u.to_lower a) ≡ true) × (u.to_lower b ≡ u.to_lower a)

  -- Three times the same letter in a row, or twice a letter that English does not double.
  pub data HasRun : Text → Type 0 where
    triple : (a b c : ℕ) (rest : Text) → SameLetter a b → SameLetter a c → HasRun (a ∷ b ∷ c ∷ rest)
    double :
        (a b : ℕ) (rest : Text)
        → SameLetter a b
        → is_allowed_double (u.to_lower a) ≡ false
        → HasRun (a ∷ b ∷ rest)
    later : (a : ℕ) (rest : Text) → HasRun rest → HasRun (a ∷ rest)

  -- What the next character can be to a run of the letter `p`.
  data Next (p r : ℕ) : Type 0 where
    not_letter : u.is_letter (u.to_lower r) ≡ false → Next p r
    other : u.is_letter (u.to_lower r) ≡ true → (u.to_lower r == p) ≡ false → Next p r
    same : u.is_letter (u.to_lower r) ≡ true → u.to_lower r ≡ p → Next p r

  Letter-cases : (p r : ℕ) → Next p r
  Letter-cases p r = elim (Bool-cases (u.is_letter (u.to_lower r))) [
    | inr o ↦ not_letter o
    | inl l ↦ elim (Bool-cases (u.to_lower r == p)) [
      | inl e ↦ same l ((==_iff _ _).0 e)
      | inr e ↦ other l e
    ]
  ]

  scan_nil : (p n : ℕ) → ¬ (scan u p n [] ≡ true)
  unfolding scan
  scan_nil p n h = cc

  -- One step of the scan, in each of its cases.
  scan_other :
      (p n r : ℕ) (t : Text)
      → u.is_letter (u.to_lower r) ≡ false
      → scan u p n (r ∷ t) ≡ scan u 0 0 t
  unfolding scan
  scan_other p n r t h = rw h

  scan_fresh :
      (p n r : ℕ) (t : Text)
      → u.is_letter (u.to_lower r) ≡ true
      → (u.to_lower r == p) ≡ false
      → scan u p n (r ∷ t) ≡ scan u (u.to_lower r) 1 t
  unfolding scan
  scan_fresh p n r t h ne = rw (h, ne)

  scan_first :
      (r : ℕ) (t : Text)
      → u.is_letter (u.to_lower r) ≡ true
      → scan u 0 0 (r ∷ t) ≡ scan u (u.to_lower r) 1 t
  unfolding scan
  scan_first r t h = elim (Bool-cases (u.to_lower r == 0)) [
    | inl e ↦ rw (h, e) (ap (λ p. scan u p 1 t) (sym ((==_iff _ _).0 e)))
    | inr e ↦ rw (h, e)
  ]

  scan_second :
      (p r : ℕ) (t : Text)
      → u.is_letter (u.to_lower r) ≡ true
      → u.to_lower r ≡ p
      → scan u p 1 (r ∷ t) ≡ (if is_allowed_double p then scan u p 2 t else true)
  unfolding scan
  scan_second p r t h e = elim (Bool-cases (is_allowed_double p)) [
    | inl a ↦ rw (h, (==_iff _ _).1 e, e, a)
    | inr a ↦ rw (h, (==_iff _ _).1 e, e, a)
  ]

  scan_third :
      (p r : ℕ) (t : Text)
      → u.is_letter (u.to_lower r) ≡ true
      → u.to_lower r ≡ p
      → scan u p 2 (r ∷ t) ≡ true
  unfolding scan
  scan_third p r t h e = rw (h, (==_iff _ _).1 e)

  mutual
    sound_start : (t : Text) → scan u 0 0 t ≡ true → HasRun t
    sound_start [] h = absurd (scan_nil 0 0 h)
    sound_start (r ∷ t) h = elim (Bool-cases (u.is_letter (u.to_lower r))) [
      | inl l ↦ sound_one r t l (sym (scan_first r t l) ∙ h)
      | inr o ↦ later r t (sound_start t (sym (scan_other 0 0 r t o) ∙ h))
    ]

    sound_one :
        (a : ℕ) (t : Text)
        → u.is_letter (u.to_lower a) ≡ true
        → scan u (u.to_lower a) 1 t ≡ true
        → HasRun (a ∷ t)
    sound_one a [] l h = absurd (scan_nil (u.to_lower a) 1 h)
    sound_one a (r ∷ t) l h = elim (Letter-cases (u.to_lower a) r) [
      | not_letter o ↦ later a (r ∷ t) (later r t (sound_start t (sym (scan_other _ 1 r t o) ∙ h)))
      | other m ne ↦ later a (r ∷ t) (sound_one r t m (sym (scan_fresh _ 1 r t m ne) ∙ h))
      | same m e ↦ elim (Bool-cases (is_allowed_double (u.to_lower a))) [
        | inl ok ↦ sound_two a r t (l, e) (rw ok at (sym (scan_second _ r t m e) ∙ h))
        | inr bad ↦ double a r t (l, e) bad
      ]
    ]

    sound_two :
        (a b : ℕ) (t : Text)
        → SameLetter a b
        → scan u (u.to_lower a) 2 t ≡ true
        → HasRun (a ∷ b ∷ t)
    sound_two a b [] s h = absurd (scan_nil (u.to_lower a) 2 h)
    sound_two a b (r ∷ t) s h = elim (Letter-cases (u.to_lower a) r) [
      | not_letter o ↦
          later a (b ∷ r ∷ t)
            (later b (r ∷ t) (later r t (sound_start t (sym (scan_other _ 2 r t o) ∙ h))))
      | other m ne ↦
          later a (b ∷ r ∷ t)
            (later b (r ∷ t) (sound_one r t m (sym (scan_fresh _ 2 r t m ne) ∙ h)))
      | same m e ↦ triple a b r t s (s.0, e)
    ]

  -- Characters that no run can begin with or go on through are skipped.
  run-nil : ¬ HasRun []
  run-nil h = elim h [ ]

  skip_other : (r : ℕ) (t : Text) → u.is_letter (u.to_lower r) ≡ false → HasRun (r ∷ t) → HasRun t
  skip_other r t o (triple a b c rest s s') = absurd (contradict s.0 o)
  skip_other r t o (double a b rest s bad) = absurd (contradict s.0 o)
  skip_other r t o (later a rest h) = h

  skip_one : (a r : ℕ) (t : Text) → ¬ SameLetter a r → HasRun (a ∷ r ∷ t) → HasRun (r ∷ t)
  skip_one a r t no_run (triple x y c rest s s') = absurd (no_run s)
  skip_one a r t no_run (double x y rest s bad) = absurd (no_run s)
  skip_one a r t no_run (later x rest h) = h

  skip_two :
      (a b r : ℕ) (t : Text)
      → is_allowed_double (u.to_lower a) ≡ true
      → ¬ SameLetter a r
      → HasRun (a ∷ b ∷ r ∷ t)
      → HasRun (b ∷ r ∷ t)
  skip_two a b r t ok no_run (triple x y z rest s s') = absurd (no_run s')
  skip_two a b r t ok no_run (double x y rest s bad) = absurd (contradict ok bad)
  skip_two a b r t ok no_run (later x rest h) = h

  one-HasRun : (a : ℕ) → ¬ HasRun (a ∷ [])
  one-HasRun a (later x rest h) = run-nil h

  two-HasRun : (a b : ℕ) → is_allowed_double (u.to_lower a) ≡ true → ¬ HasRun (a ∷ b ∷ [])
  two-HasRun a b ok (double x y rest s bad) = contradict ok bad
  two-HasRun a b ok (later x rest h) = one-HasRun b h

  not_same_of_other : (a r : ℕ) → (u.to_lower r == u.to_lower a) ≡ false → ¬ SameLetter a r
  not_same_of_other a r ne s = contradict ((==_iff _ _).1 s.1) ne

  not_same_of_not_letter : (a r : ℕ) → u.is_letter (u.to_lower r) ≡ false → ¬ SameLetter a r
  not_same_of_not_letter a r o s = contradict (ap u.is_letter s.1 ∙ s.0) o

  -- A text with a run is recognised, however far into a run the scan stands.
  mutual
    complete_start : (t : Text) → HasRun t → scan u 0 0 t ≡ true
    complete_start [] h = absurd (run-nil h)
    complete_start (r ∷ t) h = elim (Bool-cases (u.is_letter (u.to_lower r))) [
      | inl l ↦ scan_first r t l ∙ complete_one r t l h
      | inr o ↦ scan_other 0 0 r t o ∙ complete_start t (skip_other r t o h)
    ]

    complete_one :
        (a : ℕ) (t : Text)
        → u.is_letter (u.to_lower a) ≡ true
        → HasRun (a ∷ t)
        → scan u (u.to_lower a) 1 t ≡ true
    complete_one a [] l h = absurd (one-HasRun a h)
    complete_one a (r ∷ t) l h = elim (Letter-cases (u.to_lower a) r) [
      | not_letter o ↦
          scan_other _ 1 r t o
          ∙ complete_start t (skip_other r t o (skip_one a r t (not_same_of_not_letter a r o) h))
      | other m ne ↦
          scan_fresh _ 1 r t m ne ∙ complete_one r t m (skip_one a r t (not_same_of_other a r ne) h)
      | same m e ↦ elim (Bool-cases (is_allowed_double (u.to_lower a))) [
        | inl ok ↦ scan_second _ r t m e ∙ rw ok (complete_two a r t (l, e) ok h)
        | inr bad ↦ scan_second _ r t m e ∙ rw bad
      ]
    ]

    complete_two :
        (a b : ℕ) (t : Text)
        → SameLetter a b
        → is_allowed_double (u.to_lower a) ≡ true
        → HasRun (a ∷ b ∷ t)
        → scan u (u.to_lower a) 2 t ≡ true
    complete_two a b [] s ok h = absurd (two-HasRun a b ok h)
    complete_two a b (r ∷ t) s ok h = elim (Letter-cases (u.to_lower a) r) [
      | not_letter o ↦
          scan_other _ 2 r t o
          ∙ complete_start t (
              skip_other r t o (
                skip_one b r t (not_same_of_not_letter b r o)
                  (skip_two a b r t ok (not_same_of_not_letter a r o) h)))
      | other m ne ↦
          scan_fresh _ 2 r t m ne
          ∙ complete_one r t m (
              skip_one b r t (not_same_of_other b r (ap (◌==◌ (u.to_lower r)) s.1 ∙ ne))
                (skip_two a b r t ok (not_same_of_other a r ne) h))
      | same m e ↦ scan_third _ r t m e
    ]

-- The filter drops a text exactly if it has a letter three times in a row, or twice in a row a
-- letter that English does not double; case is ignored.
pub is_whisper_repetition_loop_iff :
    (u : Unicode) (t : Text) → (is_whisper_repetition_loop u t ≡ true) ↔ HasRun u t
unfolding is_whisper_repetition_loop
is_whisper_repetition_loop_iff u t = (sound_start u t, complete_start u t)
