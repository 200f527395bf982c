-- ===== src/Paths/Elements.antt =====
-- The elements of a cleaned path are not empty, and hold no slash.
use Prim.Native.Nat.{ℕ}
use dicta.Base.{
  ◌≡◌, ◌≢◌, refl, Bool, false, if_intro, List, [], ◌∷◌, ◌==◌, Text, codes, is_empty, text_eq, arith,
}
use dicta.Paths.{slash, cons_first, split, up, visit, walk, unstack, elements, is_abs}

abbrev pub HasNoSlash : Text → Type 0
HasNoSlash [] = Unit {0}
HasNoSlash (c ∷ e) = (c ≢ slash) × HasNoSlash e

abbrev pub IsElement : Text → Type 0
IsElement e = (is_empty e ≡ false) × HasNoSlash e

abbrev pub AreElements : List Text → Type 0
AreElements [] = Unit {0}
AreElements (e ∷ es) = IsElement e × AreElements es

abbrev AreSlashFree : List Text → Type 0
AreSlashFree [] = Unit {0}
AreSlashFree (e ∷ es) = HasNoSlash e × AreSlashFree es

cons_first-AreSlashFree :
    (c : ℕ) (es : List Text) → c ≢ slash → AreSlashFree es → AreSlashFree (cons_first c es)
cons_first-AreSlashFree c [] n h = ((n, tt), tt)
cons_first-AreSlashFree c (e ∷ es) n h = ((n, h.0), h.1)

split-AreSlashFree : (path : Text) → AreSlashFree (split path)
unfolding split
split-AreSlashFree [] = (tt, tt)
split-AreSlashFree (c ∷ path) =
    let rest : AreSlashFree (split path) = split-AreSlashFree path in
    if_intro AreSlashFree (c == slash) (λ _. (tt, rest))
      (λ n. cons_first-AreSlashFree c (split path) (ground arith) rest)

dots : IsElement (codes "..")
dots = (refl, omega arith)

up-AreElements :
    (rooted : Bool) (stack : List Text) → AreElements stack → AreElements (up rooted stack)
up-AreElements rooted [] h = if_intro AreElements rooted (λ _. tt) (λ _. (dots, tt))
up-AreElements rooted (e ∷ stack) h =
    if_intro AreElements (text_eq e (codes "..")) (λ _. (dots, h)) (λ _. h.1)

visit-AreElements :
    (rooted : Bool) (e : Text) (stack : List Text)
    → HasNoSlash e
    → AreElements stack
    → AreElements (visit rooted e stack)
visit-AreElements rooted [] stack n h = h
visit-AreElements rooted (c ∷ e) stack n h =
    if_intro AreElements (text_eq (c ∷ e) (codes ".")) (λ _. h)
      (λ _.
        if_intro AreElements (text_eq (c ∷ e) (codes "..")) (λ _. up-AreElements rooted stack h)
          (λ _. ((refl, n), h)))

walk-AreElements :
    (rooted : Bool) (es stack : List Text)
    → AreSlashFree es
    → AreElements stack
    → AreElements (walk rooted es stack)
unfolding walk
walk-AreElements rooted [] stack n h = h
walk-AreElements rooted (e ∷ es) stack n h =
    walk-AreElements rooted es (visit rooted e stack) n.1 (visit-AreElements rooted e stack n.0 h)

unstack-AreElements :
    (stack es : List Text) → AreElements stack → AreElements es → AreElements (unstack stack es)
unfolding unstack
unstack-AreElements [] es h k = k
unstack-AreElements (e ∷ stack) es h k = unstack-AreElements stack (e ∷ es) h.1 (h.0, k)

pub elements-AreElements : (path : Text) → AreElements (elements path)
unfolding elements
elements-AreElements path =
    unstack-AreElements (walk (is_abs path) (split path) []) []
      (walk-AreElements (is_abs path) (split path) [] (split-AreSlashFree path) tt) tt
