-- ===== src/Audit.antt =====
-- internal/audit/audit.go: the name of an utterance's audio file; the file itself is in Wav.
pub mod Sanitize
pub mod Wav
pub mod Dates
pub mod Retention
pub mod Log
pub mod Inside
pub mod Settings
mod Tests
use dicta.Base.{
  ℕ, Bool, true, false, ◌&&◌, List, [], ◌∷◌, Text, Unicode, codes, is_empty, trim_space, trim_left,
  trim_right, ◌==◌, if◌then◌else◌,
}

-- strings.ReplaceAll of one code point.
abbrev pub replace : ℕ → ℕ → Text → Text
replace old new [] = []
replace old new (c ∷ s) = (if c == old then new else c) ∷ replace old new s

-- strings.ReplaceAll of two dots by an underscore, from the left; the Boolean says that the last
-- code point was a dot that waits for its neighbour.
unfoldable pub replace_dots : Bool → Text → Text
replace_dots false [] = []
replace_dots true [] = 46 ∷ []
replace_dots false (c ∷ s) =
    let waiting = replace_dots true s in
    let rest = replace_dots false s in if c == 46 then waiting else c ∷ rest
replace_dots true (c ∷ s) =
    let rest = replace_dots false s in if c == 46 then 95 ∷ rest else 46 ∷ c ∷ rest

unfoldable pub sanitize_id : Unicode → Text → Text
unfolding replace_dots
sanitize_id u id =
    let t = trim_space u (replace_dots false (replace 92 95 (replace 47 95 id))) in
    if is_empty t then codes "unknown" else t
