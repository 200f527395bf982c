-- ===== src/AutoSource.antt =====
-- internal/mute/auto.go: the mute source that follows the first of several to see a transition.
pub mod Locked
mod Tests
use dicta.Base.{
  ℕ, Bool, true, false, not, List, [], ◌∷◌, ◌++◌, Option, none, some, Text, text_eq, is_empty,
  if◌then◌else◌,
}
use dicta.MuteWatcher.{Event}

-- `live` are the subsources that run, `locked` is empty until a real transition arrives, and `out`
-- is what was sent on, newest first, with the subsource that it came from.
pub record Auto : Type 0 where
  pub live : List Text
  pub locked : Text
  pub canceled : List Text
  pub out : List (Text × Event)

-- The subsources that start.
abbrev pub started : List (Text × Bool) → List Text
started [] = []
started ((name, fails) ∷ subs) = if fails then started subs else name ∷ started subs

-- `Watch`: `none` is its error.
unfoldable pub watch : List (Text × Bool) → Option Auto
watch subs =
    if is_empty (started subs)
    then none
    else some (record { live = started subs; locked = []; canceled = []; out = [] })

abbrev pub losers : Text → List Text → List Text
losers winner [] = []
losers winner (name ∷ live) =
    if not (text_eq name winner) then name ∷ losers winner live else losers winner live

unfoldable pub lock : Text → Auto → Auto
lock name a =
    if is_empty a.locked then record a { locked = name; canceled = losers name a.live } else a

-- An event of the subsource `name`.
unfoldable pub on_event : Text → Event → Auto → Auto
unfolding lock
on_event name ev a =
    let a' = lock name a in
    if ev.initial
    then record a { out = (name, ev) ∷ a.out }
    else if not (text_eq a'.locked name)
    then a'
    else record a' { out = (name, ev) ∷ a'.out }

unfoldable pub run : List (Text × Event) → Auto → Auto
unfolding on_event
run [] a = a
run ((name, ev) ∷ evs) a = run evs (on_event name ev a)
