-- ===== src/Audit/Sanitize.antt =====
-- internal/audit/audit.go: what `sanitizeID` leaves of an id.
use dicta.Base.{
  ℕ, ◌≡◌, ◌≢◌, refl, Bool, true, false, [], ◌∷◌, Text, Unicode, codes, is_empty, trim_space,
  trim_left, trim_right, keep_unless, ◌==◌, if_intro, arith,
}
use dicta.Audit.{replace, replace_dots, sanitize_id}

-- The first code point is not a dot.
abbrev StartsSafe : Text → Type 0
StartsSafe [] = Unit {0}
StartsSafe (c ∷ s) = c ≢ 46

-- No slash, no backslash, and no two dots in a row.
abbrev pub IsSafe : Text → Type 0
IsSafe [] = Unit {0}
IsSafe (c ∷ s) = (c ≢ 47) × (c ≢ 92) × (c ≡ 46 → StartsSafe s) × IsSafe s

-- No slash and no backslash.
abbrev IsFlat : Text → Type 0
IsFlat [] = Unit {0}
IsFlat (c ∷ s) = (c ≢ 47) × (c ≢ 92) × IsFlat s

replaced : (s : Text) → IsFlat (replace 92 95 (replace 47 95 s))
replaced [] = tt
replaced (c ∷ s) = (ground arith, ground arith, replaced s)

replace_dots-IsSafe : (b : Bool) (s : Text) → IsFlat s → IsSafe (replace_dots b s)
unfolding replace_dots
replace_dots-IsSafe false [] f = tt
replace_dots-IsSafe true [] f = (ground arith, ground arith, λ q. tt, tt)
replace_dots-IsSafe false (c ∷ s) f =
    if_intro IsSafe (c == 46) (λ _. replace_dots-IsSafe true s f.2)
      (λ q. (f.0, f.1, λ e. absurd (ground arith), replace_dots-IsSafe false s f.2))
replace_dots-IsSafe true (c ∷ s) f =
    if_intro IsSafe (c == 46)
      (λ _.
        (ground arith, ground arith, λ e. absurd (ground arith), replace_dots-IsSafe false s f.2))
      (λ q. (
        ground arith,
        ground arith,
        λ e. ground arith,
        (f.0, f.1, λ e. absurd (ground arith), replace_dots-IsSafe false s f.2),
      ))

trim_left-IsSafe : (cut : ℕ → Bool) (s : Text) → IsSafe s → IsSafe (trim_left cut s)
unfolding trim_left
trim_left-IsSafe cut [] h = tt
trim_left-IsSafe cut (c ∷ s) h = if_intro IsSafe (cut c) (λ _. trim_left-IsSafe cut s h.3) (λ _. h)

trim_right-IsSafe :
    (cut : ℕ → Bool) (s : Text)
    → IsSafe s
    → IsSafe (trim_right cut s) × (StartsSafe s → StartsSafe (trim_right cut s))
unfolding trim_right
trim_right-IsSafe cut [] h = (tt, λ q. tt)
trim_right-IsSafe cut (c ∷ s) h = at (trim_right cut s) (trim_right-IsSafe cut s h.3)
  where
    at :
        (t : Text)
        → IsSafe t × (StartsSafe s → StartsSafe t)
        → IsSafe (keep_unless (cut c) c t) × (c ≢ 46 → StartsSafe (keep_unless (cut c) c t))
    at [] w =
        if_intro (λ x. IsSafe x × (c ≢ 46 → StartsSafe x)) (cut c) (λ _. (tt, λ q. tt))
          (λ _. ((h.0, h.1, λ q. tt, tt), λ q. q))
    at (d ∷ t) w = ((h.0, h.1, λ q. w.1 (h.2 q), w.0), λ q. q)

unknown-IsSafe : IsSafe (codes "unknown")
unknown-IsSafe = ground arith

pub sanitize_id-IsSafe :
    (u : Unicode) (id : Text) → IsSafe (sanitize_id u id) × (is_empty (sanitize_id u id) ≡ false)
unfolding sanitize_id trim_space
sanitize_id-IsSafe u id =
    let t : Text = trim_space u (replace_dots false (replace 92 95 (replace 47 95 id))) in
    if_intro (λ x. IsSafe x × (is_empty x ≡ false)) (is_empty t) (λ _. (unknown-IsSafe, refl))
      (λ q. (
        (trim_right-IsSafe u.is_space (trim_left u.is_space dotless)
            (trim_left-IsSafe u.is_space dotless (replace_dots-IsSafe false flat (replaced id)))).0,
        q,
      ))
  where
    flat : Text
    flat = replace 92 95 (replace 47 95 id)

    dotless : Text
    dotless = replace_dots false flat
