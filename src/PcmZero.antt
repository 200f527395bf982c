-- ===== src/PcmZero.antt =====
-- internal/mute/pcmzero/source.go: the mute source that looks for frames of zeros. The channel holds
-- one event.
pub mod Latest
mod Tests
use dicta.Base.{
  ℕ, Bool, true, false, not, ◌&&◌, List, [], ◌∷◌, ◌++◌, Option, none, some, length, ltb, ◌==◌,
  if◌then◌else◌,
}
use dicta.MuteWatcher.{State, unknown, unmuted, muted, state_eq, Event}

-- `out` is `none` before `Watch` and once its context has ended.
pub record Source : Type 0 where
  pub out : Option (List Event)
  pub last_set : Bool
  pub last : State

unfoldable pub new : Source
new = record { out = none; last_set = false; last = unknown }

-- The Boolean is the error of a second `Watch`.
abbrev pub watch_from : Option (List Event) → Source → Source × Bool
watch_from none s = (record s { out = some [] }, false)
watch_from (some ch) s = (s, true)

unfoldable pub watch : Source → Source × Bool
watch s = watch_from s.out s

-- The end of the context of `Watch`.
unfoldable pub done : Source → Source
done s = record s { out = none }

unfoldable pub reseed : Source → Source
reseed s = record s { last_set = false }

abbrev pub is_all_zero : List ℕ → Bool
is_all_zero [] = true
is_all_zero (b ∷ pcm) = if not (b == 0) then false else is_all_zero pcm

abbrev pub tail : List Event → List Event
tail [] = []
tail (ev ∷ ch) = ch

-- A full channel loses its event to the new one.
unfoldable pub send : Event → List Event → List Event
send ev ch =
    if ltb (length ch) 1
    then ch ++ ev ∷ []
    else if ltb (length (tail ch)) 1
    then tail ch ++ ev ∷ []
    else tail ch

abbrev pub state_of : List ℕ → State
state_of pcm = if is_all_zero pcm then muted else unmuted

unfoldable pub observe : State → List Event → Source → Source
unfolding send
observe st ch s =
    if not s.last_set
    then record s {
      last_set = true;
      last = st;
      out = some (send (record { state = st; initial = true }) ch);
    }
    else if state_eq st s.last
    then s
    else record s { last = st; out = some (send (record { state = st; initial = false }) ch) }

abbrev pub observe_out : State → Option (List Event) → Source → Source
unfolding observe
observe_out st none s = s
observe_out st (some ch) s = observe st ch s

unfoldable pub on_frame : List ℕ → Source → Source
unfolding observe_out
on_frame pcm s = observe_out (state_of pcm) s.out s

-- The watcher takes an event.
abbrev pub receive_from : Option (List Event) → Source → Source
receive_from none s = s
receive_from (some ch) s = record s { out = some (tail ch) }

unfoldable pub receive : Source → Source
receive s = receive_from s.out s

pub data Step : Type 0 where
  watches ends reseeds receives : Step
  frames : List ℕ → Step

unfoldable pub step : Step → Source → Source
unfolding watch done reseed receive on_frame
step watches s = (watch s).0
step ends s = done s
step reseeds s = reseed s
step receives s = receive s
step (frames pcm) s = on_frame pcm s

unfoldable pub run : List Step → Source → Source
unfolding step
run [] s = s
run (k ∷ ks) s = run ks (step k s)
