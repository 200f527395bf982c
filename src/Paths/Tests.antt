-- ===== src/Paths/Tests.antt =====
-- Paths as filepath.Clean leaves them, and the check at some of them.
use dicta.Base.{◌≡◌, ◌↔◌, refl, true, none, some, List, [], ◌∷◌, Text, codes}
use dicta.Paths.{clean, path_on_allowlist, off_allowlist, is_abs}
use dicta.Paths.Allowlist.{SomeAdmits, path_on_allowlist_iff}

clean_dots : clean (codes "/usr//bin/./../lib/") ≡ codes "/usr/lib"
unfolding clean
clean_dots = refl

clean_relative : clean (codes "../a/../../b") ≡ codes "../../b"
unfolding clean
clean_relative = refl

clean_empty : clean [] ≡ codes "."
unfolding clean
clean_empty = refl

abbrev binaries : List Text
binaries = codes "/usr/bin" ∷ codes "/opt/" ∷ []

escapes : path_on_allowlist (codes "/usr/bin/../sbin/x") binaries ≡ some off_allowlist
unfolding path_on_allowlist clean
escapes = refl

sibling : path_on_allowlist (codes "/usr/binfile") binaries ≡ some off_allowlist
unfolding path_on_allowlist clean
sibling = refl

below : path_on_allowlist (codes "/opt/x/../y") binaries ≡ none
unfolding path_on_allowlist clean
below = refl

path_on_allowlist_iff_example :
    (path_on_allowlist (codes "/opt/x/../y") binaries ≡ none)
    ↔ ((is_abs (codes "/opt/x/../y") ≡ true) × SomeAdmits (codes "/opt/x/../y") binaries)
path_on_allowlist_iff_example = path_on_allowlist_iff (codes "/opt/x/../y") binaries
