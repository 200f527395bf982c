-- ===== src/Paths.antt =====
-- Paths of the file system: what filepath.IsAbs and filepath.Clean make of a text, and the
-- allowlist check that internal/whispersup/config.go, internal/dispatch/typer.go,
-- internal/audit/audit.go and cmd/dictad/preview.go each hold a copy of.
pub mod Elements
pub mod Render
pub mod Allowlist
mod Tests
use dicta.Base.{
  ℕ, Bool, true, false, not, ◌||◌, ◌&&◌, List, [], ◌∷◌, ◌++◌, Option, none, some, Text, codes,
  is_empty, text_eq, starts_with, ◌==◌, if◌then◌else◌,
}

abbrev pub slash : ℕ
slash = 47

-- filepath.IsAbs.
abbrev pub is_abs : Text → Bool
is_abs [] = false
is_abs (c ∷ path) = c == slash

abbrev pub cons_first : ℕ → List Text → List Text
cons_first c [] = (c ∷ []) ∷ []
cons_first c (e ∷ es) = (c ∷ e) ∷ es

-- The texts between the slashes.
unfoldable pub split : Text → List Text
split [] = [] ∷ []
split (c ∷ path) = if c == slash then [] ∷ split path else cons_first c (split path)

-- A `..` takes the element before it away; at a root it is dropped.
abbrev pub up : Bool → List Text → List Text
up rooted [] = if rooted then [] else codes ".." ∷ []
up rooted (top ∷ stack) = if text_eq top (codes "..") then codes ".." ∷ top ∷ stack else stack

abbrev pub visit : Bool → Text → List Text → List Text
visit rooted e stack =
    if is_empty e || text_eq e (codes ".")
    then stack
    else if text_eq e (codes "..")
    then up rooted stack
    else e ∷ stack

unfoldable pub walk : Bool → List Text → List Text → List Text
walk rooted [] stack = stack
walk rooted (e ∷ es) stack = walk rooted es (visit rooted e stack)

unfoldable pub unstack : List Text → List Text → List Text
unstack [] es = es
unstack (e ∷ stack) es = unstack stack (e ∷ es)

-- The elements of the cleaned path.
unfoldable pub elements : Text → List Text
unfolding split walk unstack
elements path = unstack (walk (is_abs path) (split path) []) []

abbrev pub flat : List Text → Text
flat [] = []
flat (e ∷ es) = slash ∷ (e ++ flat es)

abbrev pub render : Bool → List Text → Text
render true [] = slash ∷ []
render true (e ∷ es) = flat (e ∷ es)
render false [] = codes "."
render false (e ∷ es) = e ++ flat es

-- filepath.Clean.
unfoldable pub clean : Text → Text
unfolding elements
clean path = render (is_abs path) (elements path)

-- filepath.Join of two paths that are not empty.
unfoldable pub join : Text → Text → Text
unfolding clean
join dir name = clean (dir ++ slash ∷ name)

pub data PathError : Type 0 where
  path_is_empty not_absolute off_allowlist : PathError

-- The test of one prefix.
abbrev pub is_under : Text → Text → Bool
is_under cleaned prefix = text_eq cleaned prefix || starts_with cleaned (prefix ++ slash ∷ [])

unfoldable pub on_some_prefix : Text → List Text → Bool
on_some_prefix cleaned [] = false
on_some_prefix cleaned (prefix ∷ allowlist) =
    is_under cleaned (clean prefix) || on_some_prefix cleaned allowlist

unfoldable pub path_on_allowlist : Text → List Text → Option PathError
unfolding on_some_prefix
path_on_allowlist path allowlist =
    if is_empty path
    then some path_is_empty
    else if not (is_abs path)
    then some not_absolute
    else if on_some_prefix (clean path) allowlist
    then none
    else some off_allowlist
