-- ===== src/Paths/Render.antt =====
-- What the check of one prefix says of the elements of the two paths.
use dicta.Base.{
  ◌≡◌, ◌↔◌, refl, sym, ap, ap₂, ◌∙◌, true, false, List, [], ◌∷◌, ◌++◌, append_assoc, Text,
  starts_with, arith,
}
use dicta.Paths.{slash, flat, render, is_under}
use dicta.Paths.Elements.{HasNoSlash, AreElements}

-- The elements of the prefix come first among those of the path.
abbrev pub IsUnder : List Text → List Text → Type 0
IsUnder [] es = Unit {0}
IsUnder (p ∷ ps) [] = ⊥
IsUnder (p ∷ ps) (e ∷ es) = (p ≡ e) × IsUnder ps es

-- So it is allowed, but for the root, which allows itself alone.
abbrev pub IsWithin : List Text → List Text → Type 0
IsWithin [] [] = Unit {0}
IsWithin [] (e ∷ es) = ⊥
IsWithin (p ∷ ps) es = IsUnder (p ∷ ps) es

starts_with_nil : (s t : Text) → starts_with [] (s ++ slash ∷ t) ≡ false
starts_with_nil [] t = refl
starts_with_nil (c ∷ s) t = refl

-- Both halves of the test in one.
is_under_lem : (s t : Text) → is_under s t ≡ starts_with (s ++ slash ∷ []) (t ++ slash ∷ [])
is_under_lem [] [] = refl
is_under_lem (c ∷ s) [] = refl
is_under_lem [] (d ∷ t) = ground (arith, starts_with_nil t [])
is_under_lem (c ∷ s) (d ∷ t) = ground (arith, is_under_lem s t)

-- Elements before a slash match as a whole.
element_iff :
    (e p x y : Text)
    → HasNoSlash e
    → HasNoSlash p
    → (starts_with (e ++ slash ∷ x) (p ++ slash ∷ y) ≡ true) ↔ ((p ≡ e) × (starts_with x y ≡ true))
element_iff [] [] x y n m = (λ h. (refl, h), λ h. h.1)
element_iff (c ∷ e) [] x y n m = (λ h. absurd (ground arith), λ h. absurd (cc (h.0)))
element_iff [] (d ∷ p) x y n m = (λ h. absurd (ground arith), λ h. absurd (cc (h.0)))
element_iff (c ∷ e) (d ∷ p) x y n m =
    let ih : (starts_with (e ++ slash ∷ x) (p ++ slash ∷ y) ≡ true)
        ↔ ((p ≡ e) × (starts_with x y ≡ true)) =
      element_iff e p x y n.1 m.1 in
    (
      λ h.
          let r : (p ≡ e) × (starts_with x y ≡ true) = ih.0 (ground arith) in
          (ground (arith, r.0), r.1),
      λ h. ground (arith, ih.1 (cc (h.0), h.1), h.0),
    )

-- What follows the first slash of a path with one more slash behind it.
abbrev rest : List Text → Text
rest [] = []
rest (e ∷ es) = (e ++ flat es) ++ slash ∷ []

flat_lem : (es : List Text) → flat es ++ slash ∷ [] ≡ slash ∷ rest es
flat_lem [] = refl
flat_lem (e ∷ es) = refl

rest-cons : (e : Text) (es : List Text) → rest (e ∷ es) ≡ e ++ slash ∷ rest es
rest-cons e es = append_assoc e (flat es) (slash ∷ []) ∙ ap (◌++◌ e) (flat_lem es)

rest_iff :
    (ps es : List Text)
    → AreElements ps
    → AreElements es
    → (starts_with (rest es) (rest ps) ≡ true) ↔ IsUnder ps es
rest_iff [] es a b = (λ h. tt, λ h. refl)
rest_iff ((c ∷ p) ∷ ps) [] a b = (λ h. cc, λ h. absurd h)
rest_iff ([] ∷ ps) [] a b = (λ h. absurd (cc (a.0.0)), λ h. absurd h)
rest_iff (p ∷ ps) (e ∷ es) a b =
    let el : (starts_with (e ++ slash ∷ rest es) (p ++ slash ∷ rest ps) ≡ true)
        ↔ ((p ≡ e) × (starts_with (rest es) (rest ps) ≡ true)) =
      element_iff e p (rest es) (rest ps) b.0.1 a.0.1 in
    let ih : (starts_with (rest es) (rest ps) ≡ true) ↔ IsUnder ps es = rest_iff ps es a.1 b.1 in
    let q : starts_with (rest (e ∷ es)) (rest (p ∷ ps))
        ≡ starts_with (e ++ slash ∷ rest es) (p ++ slash ∷ rest ps) =
      ap₂ starts_with (rest-cons e es) (rest-cons p ps) in
    (
      λ h.
          let r : (p ≡ e) × (starts_with (rest es) (rest ps) ≡ true) = el.0 (sym q ∙ h) in
          (r.0, ih.0 r.1),
      λ h. q ∙ el.1 (h.0, ih.1 h.1),
    )

-- The check of an absolute prefix, on elements.
pub is_under_iff :
    (ps es : List Text)
    → AreElements ps
    → AreElements es
    → (is_under (render true es) (render true ps) ≡ true) ↔ IsWithin ps es
is_under_iff [] [] a b = (λ h. tt, λ h. refl)
is_under_iff [] ([] ∷ es) a b = absurd (cc (b.0.0))
is_under_iff [] ((c ∷ e) ∷ es) a b = (λ h. absurd (ground (arith, b.0.1.0)), λ h. absurd h)
is_under_iff ([] ∷ ps) es a b = absurd (cc (a.0.0))
is_under_iff ((c ∷ p) ∷ ps) [] a b = (λ h. absurd (ground (arith, a.0.1.0)), λ h. absurd h)
is_under_iff ((c ∷ p) ∷ ps) (e ∷ es) a b =
    let q : is_under (flat (e ∷ es)) (flat ((c ∷ p) ∷ ps))
        ≡ starts_with (rest (e ∷ es)) (rest ((c ∷ p) ∷ ps)) =
      is_under_lem (flat (e ∷ es)) (flat ((c ∷ p) ∷ ps)) in
    let r : (starts_with (rest (e ∷ es)) (rest ((c ∷ p) ∷ ps)) ≡ true)
        ↔ IsUnder ((c ∷ p) ∷ ps) (e ∷ es) =
      rest_iff ((c ∷ p) ∷ ps) (e ∷ es) a b in
    (λ h. r.0 (sym q ∙ h), λ h. q ∙ r.1 h)

-- A relative prefix allows no absolute path.
pub is_under-relative :
    (ps es : List Text) → AreElements ps → is_under (render true es) (render false ps) ≡ false
is_under-relative [] [] a = refl
is_under-relative [] (e ∷ es) a = refl
is_under-relative ([] ∷ ps) es a = absurd (cc (a.0.0))
is_under-relative ((c ∷ p) ∷ ps) [] a = ground (arith, a.0.1.0)
is_under-relative ((c ∷ p) ∷ ps) (e ∷ es) a = ground (arith, a.0.1.0)
