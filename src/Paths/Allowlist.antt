-- ===== src/Paths/Allowlist.antt =====
-- Which paths the allowlist check lets through.
use dicta.Base.{
  ◌≡◌, ◌↔◌, ◌⊎◌, inl, inr, refl, sym, ap₂, ◌∙◌, Bool, true, false, ◌||◌, Bool-cases, none, List, [],
  ◌∷◌, Text, arith,
}
use dicta.Paths.{is_abs, elements, render, clean, is_under, on_some_prefix, path_on_allowlist}
use dicta.Paths.Elements.{elements-AreElements}
use dicta.Paths.Render.{IsWithin, is_under_iff, is_under-relative}

-- The prefix is absolute, and its elements come first among the path's; the root allows itself alone.
abbrev pub Admits : Text → Text → Type 0
Admits path prefix = (is_abs prefix ≡ true) × IsWithin (elements prefix) (elements path)

abbrev pub SomeAdmits : Text → List Text → Type 0
SomeAdmits path [] = ⊥
SomeAdmits path (prefix ∷ allowlist) = Admits path prefix ⊎ SomeAdmits path allowlist

false-ne-true {ℓ} : {A : Type ℓ} {b : Bool} → b ≡ false → b ≡ true → A
false-ne-true p q = cc

is_under-Admits :
    (path prefix : Text)
    → is_abs path ≡ true
    → (is_under (clean path) (clean prefix) ≡ true) ↔ Admits path prefix
unfolding clean
is_under-Admits path prefix a = at (is_abs prefix) refl
  where
    at :
        (b : Bool)
        → is_abs prefix ≡ b
        → (is_under
              (render (is_abs path) (elements path))
              (render (is_abs prefix) (elements prefix))
            ≡ true)
          ↔ Admits path prefix
    at true e =
        let r : (is_under (render true (elements path)) (render true (elements prefix)) ≡ true)
            ↔ IsWithin (elements prefix) (elements path) =
          is_under_iff (elements prefix) (elements path) (elements-AreElements prefix)
            (elements-AreElements path) in
        let q : is_under (render (is_abs path) (elements path))
              (render (is_abs prefix) (elements prefix))
            ≡ is_under (render true (elements path)) (render true (elements prefix)) =
          ap₂ (λ x y. is_under (render x (elements path)) (render y (elements prefix))) a e in
        (λ h. (e, r.0 (sym q ∙ h)), λ h. q ∙ r.1 h.1)
    at false e =
        let q : is_under (render (is_abs path) (elements path))
              (render (is_abs prefix) (elements prefix))
            ≡ false =
          ap₂ (λ x y. is_under (render x (elements path)) (render y (elements prefix))) a e
          ∙ is_under-relative (elements prefix) (elements path) (elements-AreElements prefix) in
        (λ h. false-ne-true q h, λ h. false-ne-true e h.0)

on_some_prefix_iff :
    (path : Text) (allowlist : List Text)
    → is_abs path ≡ true
    → (on_some_prefix (clean path) allowlist ≡ true) ↔ SomeAdmits path allowlist
unfolding on_some_prefix
on_some_prefix_iff path [] a = (λ h. cc, λ h. absurd h)
on_some_prefix_iff path (prefix ∷ allowlist) a =
    let p : (is_under (clean path) (clean prefix) ≡ true) ↔ Admits path prefix =
      is_under-Admits path prefix a in
    let ih : (on_some_prefix (clean path) allowlist ≡ true) ↔ SomeAdmits path allowlist =
      on_some_prefix_iff path allowlist a in
    (
      to (is_under (clean path) (clean prefix)) p ih,
      from (is_under (clean path) (clean prefix)) p ih,
    )
  where
    to :
        (b : Bool)
        → (b ≡ true) ↔ Admits path prefix
        → (on_some_prefix (clean path) allowlist ≡ true) ↔ SomeAdmits path allowlist
        → (b || on_some_prefix (clean path) allowlist) ≡ true
        → SomeAdmits path (prefix ∷ allowlist)
    to true p ih h = inl (p.0 refl)
    to false p ih h = inr (ih.0 h)

    from :
        (b : Bool)
        → (b ≡ true) ↔ Admits path prefix
        → (on_some_prefix (clean path) allowlist ≡ true) ↔ SomeAdmits path allowlist
        → SomeAdmits path (prefix ∷ allowlist)
        → (b || on_some_prefix (clean path) allowlist) ≡ true
    from true p ih h = refl
    from false p ih (inl h) = false-ne-true refl (p.1 h)
    from false p ih (inr h) = ih.1 h

-- The allowlist check passes exactly the absolute paths that lie at or below an absolute prefix of
-- the list: element by element, once `.`, `..` and repeated slashes are resolved in both. A prefix
-- that is the root allows the root alone, and a relative prefix allows nothing.
pub path_on_allowlist_iff :
    (path : Text) (allowlist : List Text)
    → (path_on_allowlist path allowlist ≡ none) ↔ ((is_abs path ≡ true) × SomeAdmits path allowlist)
unfolding path_on_allowlist
path_on_allowlist_iff [] allowlist = (λ h. cc, λ h. cc (h.0))
path_on_allowlist_iff (c ∷ path) allowlist = elim (Bool-cases (is_abs (c ∷ path))) [
  | inl a ↦
      let r : (on_some_prefix (clean (c ∷ path)) allowlist ≡ true)
          ↔ SomeAdmits (c ∷ path) allowlist =
        on_some_prefix_iff (c ∷ path) allowlist a in
      (λ h. (a, r.0 (ground arith)), λ h. ground (arith, r.1 h.1))
  | inr n ↦ (λ h. absurd (ground arith), λ h. false-ne-true n h.0)
]
