-- ===== src/Audit/Retention.antt =====
-- internal/audit/retention.go: which day directories a sweep removes.
use dicta.Base.{
  ℕ, ◌+◌, ◌<◌, ◌≡◌, refl, ap, ◌∙◌, Bool, true, false, not, ◌&&◌, ◌||◌, List, [], ◌∷◌, ◌++◌, Option,
  none, some, Text, ltb, leb, ◌==◌, if◌then◌else◌, arith,
}
use dicta.Audit.Dates.{
  Date, Moment, IsDate, day_number, format_day, parse_day_dir, parse_day_dir-format_day,
}

-- An entry of os.ReadDir.
pub record Entry : Type 0 where
  pub name : Text
  pub is_dir : Bool

-- `t.Before(cutoff)` for the midnight `t` that begins the day, where the cutoff is the time of day
-- that it is now, `retention` days ago.
abbrev pub before_cutoff : Moment → ℕ → Date → Bool
before_cutoff now retention d =
    ltb (day_number d + retention) (day_number now.date)
    || (day_number d + retention == day_number now.date && ltb 0 now.clock)

abbrev pub is_outdated : Moment → ℕ → Option Date → Bool
is_outdated now retention none = false
is_outdated now retention (some d) = before_cutoff now retention d

pub data SweepError : Type 0 where
  unreadable : SweepError
  not_removed : Text → SweepError

-- The entries that are left, and the first error.
pub record Swept : Type 0 where
  pub entries : List Entry
  pub failed : Option SweepError

abbrev pub first : Text → Option SweepError → Option SweepError
first name none = some (not_removed name)
first name (some earlier) = some earlier

-- The loop; `fails` is what os.RemoveAll answers.
unfoldable pub sweep_loop : Moment → ℕ → (Text → Bool) → Option SweepError → List Entry → Swept
sweep_loop now retention fails failed [] = record { entries = []; failed = failed }
sweep_loop now retention fails failed (e ∷ es) =
    let kept = λ (s : Swept). record s { entries = e ∷ s.entries } in
    let next = sweep_loop now retention fails failed es in
    let after = sweep_loop now retention fails (first e.name failed) es in
    if not e.is_dir
    then kept next
    else if not (is_outdated now retention (parse_day_dir e.name))
    then kept next
    else if fails e.name
    then kept after
    else next

-- `sweepRetention`; the Boolean says that os.ReadDir fails.
unfoldable pub sweep_retention : Moment → ℕ → Bool → (Text → Bool) → List Entry → Swept
unfolding sweep_loop
sweep_retention now retention read_fails fails entries =
    if retention == 0
    then record { entries = entries; failed = none }
    else if read_fails
    then record { entries = entries; failed = some unreadable }
    else sweep_loop now retention fails none entries

-- The directory of a day's records.
abbrev pub day_dir : Date → Entry
day_dir d = record { name = format_day d; is_dir = true }

-- What is left of the directory of day `d`: it goes once it is `retention` days old.
abbrev pub left_of : Moment → ℕ → (Text → Bool) → Date → List Entry
left_of now retention fails d =
    if leb (day_number d + retention) (day_number now.date) && not (fails (format_day d))
    then []
    else day_dir d ∷ []

-- The error that came first does not change what is left.
pub sweep_loop-entries :
    (now : Moment) (retention : ℕ) (fails : Text → Bool) (f g : Option SweepError) (es : List Entry)
    → (sweep_loop now retention fails f es).entries ≡ (sweep_loop now retention fails g es).entries
unfolding sweep_loop
sweep_loop-entries now n fails f g [] = refl
sweep_loop-entries now n fails f g (e ∷ es) = ground (
  arith,
  sweep_loop-entries now n fails f g es,
  sweep_loop-entries now n fails (first e.name f) (first e.name g) es,
)

-- Each entry is left or removed for itself.
sweep_loop-append :
    (now : Moment) (retention : ℕ) (fails : Text → Bool) (f : Option SweepError)
    (xs ys : List Entry)
    → (sweep_loop now retention fails f (xs ++ ys)).entries
      ≡ (sweep_loop now retention fails f xs).entries
        ++ (sweep_loop now retention fails f ys).entries
unfolding sweep_loop
sweep_loop-append now n fails f [] ys = refl
sweep_loop-append now n fails f (e ∷ xs) ys = ground (
  arith,
  sweep_loop-append now n fails f xs ys,
  sweep_loop-append now n fails (first e.name f) xs ys,
  sweep_loop-entries now n fails f (first e.name f) ys,
)

-- The day's own directory, past midnight.
sweep_loop-day_dir :
    (now : Moment) (retention : ℕ) (fails : Text → Bool) (f : Option SweepError) (d : Date)
    → 0 < now.clock
    → IsDate d
    → (sweep_loop now retention fails f (day_dir d ∷ [])).entries ≡ left_of now retention fails d
unfolding sweep_loop
sweep_loop-day_dir now n fails f d h v = rw (parse_day_dir-format_day d v) (ground arith)

-- A sweep past midnight removes the directory of a day exactly if the day lies at least
-- `retention` days back, unless the removal fails, wherever it stands in the audit directory; and
-- what it does with the other entries does not depend on it. The retention is not 0, and the audit
-- directory can be read.
pub sweep_retention-day_dir :
    (now : Moment) (retention : ℕ) (fails : Text → Bool) (xs ys : List Entry) (d : Date)
    → 0 < retention
    → 0 < now.clock
    → IsDate d
    → (sweep_retention now retention false fails (xs ++ day_dir d ∷ ys)).entries
      ≡ (sweep_retention now retention false fails xs).entries
        ++ (left_of now retention fails d ++ (sweep_retention now retention false fails ys).entries)
unfolding sweep_retention
sweep_retention-day_dir now n fails xs ys d r h v = rw (positive n r) (
    sweep_loop-append now n fails none xs (day_dir d ∷ ys)
    ∙ ap (◌++◌ (sweep_loop now n fails none xs).entries) (
        sweep_loop-append now n fails none (day_dir d ∷ []) ys
        ∙ ap (λ l. l ++ (sweep_loop now n fails none ys).entries)
            (sweep_loop-day_dir now n fails none d h v)))
  where
    positive : (k : ℕ) → 0 < k → (k == 0) ≡ false
    positive k q = ground arith
