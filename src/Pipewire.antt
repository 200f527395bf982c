-- ===== src/Pipewire.antt =====
-- internal/mute/pipewire/source.go: the mute source that polls wpctl. What a subprocess prints, and
-- what JSON decodes to, are parameters.
pub mod Latest
mod Tests
use dicta.Base.{
  ℕ, Bool, true, false, not, ◌&&◌, ◌||◌, List, [], ◌∷◌, ◌++◌, Option, none, some, Text, Unicode,
  codes, is_empty, text_eq, starts_with, contains, trim_left, trim_right, trim_space, length, ltb,
  ◌==◌, if◌then◌else◌,
}
use dicta.Base.Ints.{ℤ}
use dicta.MuteWatcher.{State, unknown, unmuted, muted, state_eq, Event}

-- A value of a node's properties: a text, or something else.
pub data Value : Type 0 where
  text : Text → Value
  other : Value

pub record DumpEntry : Type 0 where
  pub id : ℤ
  pub kind : Text
  pub info : Option (List (Text × Value))

-- Both errors of the map's lookup and of the assertion are the empty text, as in the source.
abbrev pub as_text : Value → Text
as_text (text t) = t
as_text other = []

abbrev pub prop : Text → List (Text × Value) → Option Value
prop key [] = none
prop key ((k, v) ∷ props) = if text_eq k key then some v else prop key props

abbrev pub is_text : Text → Option Value → Bool
is_text t none = false
is_text t (some other) = false
is_text t (some (text s)) = text_eq s t

abbrev pub name_of : Option Value → Text
name_of none = []
name_of (some v) = as_text v

-- The name of a capture node that answers to the hint.
abbrev pub match_props : Text → List (Text × Value) → Option Text
match_props hint props =
    let name = name_of (prop (codes "node.name") props) in
    if not (is_text (codes "Audio/Source") (prop (codes "media.class") props))
    then none
    else if is_empty name
    then none
    else if text_eq name hint || contains name hint
    then some name
    else none

abbrev pub match_info : Text → Option (List (Text × Value)) → Option Text
match_info hint none = none
match_info hint (some props) = match_props hint props

unfoldable pub match_entry : Text → DumpEntry → Option Text
match_entry hint e =
    if not (text_eq e.kind (codes "PipeWire:Interface:Node")) then none else match_info hint e.info

abbrev pub first_match : ℤ → Option Text → Option (ℤ × Text) → Option (ℤ × Text)
first_match id none rest = rest
first_match id (some name) rest = some (id, name)

-- The loop of `scanDumpForNode` over the decoded entries.
unfoldable pub scan_dump_for_node : Text → List DumpEntry → Option (ℤ × Text)
scan_dump_for_node hint [] = none
scan_dump_for_node hint (e ∷ es) =
    first_match e.id (match_entry hint e) (scan_dump_for_node hint es)

-- bufio.Scanner's lines, without a carriage return at their ends.
abbrev pub drop_return : Text → Text
drop_return [] = []
drop_return (c ∷ []) = if c == 13 then [] else c ∷ []
drop_return (c ∷ d ∷ s) = c ∷ drop_return (d ∷ s)

abbrev pub cons_line : ℕ → List Text → List Text
cons_line c [] = (c ∷ []) ∷ []
cons_line c (l ∷ ls) = (c ∷ l) ∷ ls

unfoldable pub lines : Text → List Text
lines [] = []
lines (c ∷ s) = if c == 10 then [] ∷ lines s else cons_line c (lines s)

-- strings.Cut at an equals sign, the part behind it.
abbrev pub behind_equals : Text → Option Text
behind_equals [] = none
behind_equals (c ∷ s) = if c == 61 then some s else behind_equals s

abbrev pub is_bullet : ℕ → Bool
is_bullet c = c == 32 || c == 9 || c == 42

abbrev pub is_quote : ℕ → Bool
is_quote c = c == 34

abbrev pub unquoted : Unicode → Option Text → Text
unquoted u none = []
unquoted u (some rhs) = trim_right is_quote (trim_left is_quote (trim_space u rhs))

-- The node's name in one line of `wpctl inspect`, empty if there is none.
unfoldable pub name_in_line : Unicode → Text → Text
unfolding trim_left trim_right
name_in_line u l =
    let line = trim_left is_bullet (drop_return l) in
    if not (starts_with line (codes "node.name")) then [] else unquoted u (behind_equals line)

unfoldable pub first_name : Unicode → List Text → Option Text
unfolding name_in_line
first_name u [] = none
first_name u (l ∷ ls) =
    let name = name_in_line u l in if not (is_empty name) then some name else first_name u ls

pub data Error : Type 0 where
  inspect_failed no_node_name pw_dump_failed decode_failed no_match : Error

pub data Resolution : Type 0 where
  node : ℤ → Text → Resolution
  failed : Error → Resolution

abbrev pub scanned : Option (ℤ × Text) → Resolution
scanned none = failed no_match
scanned (some (id, name)) = node id name

abbrev pub decoded : Text → Option (List DumpEntry) → Resolution
decoded hint none = failed decode_failed
decoded hint (some es) = scanned (scan_dump_for_node hint es)

abbrev pub dumped : (Text → Option (List DumpEntry)) → Text → Option Text → Resolution
dumped decode hint none = failed pw_dump_failed
dumped decode hint (some dump) = decoded hint (decode dump)

abbrev pub named : (Text → Option (List DumpEntry)) → Option Text → Option Text → Resolution
named decode dump none = failed no_node_name
named decode dump (some name) = dumped decode name dump

abbrev pub inspected :
    (Text → Option (List DumpEntry)) → Unicode → Option Text → Option Text → Resolution
inspected decode u dump none = failed inspect_failed
inspected decode u dump (some out) = named decode dump (first_name u (lines out))

-- `resolve`, on what `wpctl inspect` and `pw-dump` print (`none` on an error).
unfoldable pub resolve :
    (Text → Option (List DumpEntry)) → Unicode → Text → Option Text → Option Text → Resolution
unfolding scan_dump_for_node first_name lines match_entry
resolve decode u hint inspect dump =
    if is_empty hint then inspected decode u dump inspect else dumped decode hint dump

-- `parseMuted`.
unfoldable pub parse_muted : Text → Bool
parse_muted out = contains out (codes "[MUTED]")

-- The goroutine of `Watch`; `out` is its channel of one event.
pub record Watch : Type 0 where
  pub out : List Event
  pub closed : Bool
  pub last_set : Bool
  pub last : State

unfoldable pub new : Watch
new = record { out = []; closed = false; last_set = false; last = unknown }

abbrev pub tail : List Event → List Event
tail [] = []
tail (ev ∷ ch) = ch

-- A full channel loses its event to the new one.
unfoldable pub send : Event → List Event → List Event
send ev ch =
    if ltb (length ch) 1
    then ch ++ ev ∷ []
    else if ltb (length (tail ch)) 1
    then tail ch ++ ev ∷ []
    else tail ch

unfoldable pub observe : State → Watch → Watch
unfolding send
observe st w =
    if not w.last_set
    then record w {
      last_set = true;
      last = st;
      out = send (record { state = st; initial = true }) w.out;
    }
    else if not (state_eq st w.last)
    then record w { last = st; out = send (record { state = st; initial = false }) w.out }
    else w

abbrev pub state_of : Text → State
state_of out = if parse_muted out then muted else unmuted

-- A round, on what wpctl prints; an error ends the goroutine.
abbrev pub poll_from : Option Text → Watch → Watch
unfolding observe parse_muted
poll_from none w = record w { closed = true }
poll_from (some out) w = observe (state_of out) w

unfoldable pub poll : Option Text → Watch → Watch
unfolding poll_from
poll printed w = if w.closed then w else poll_from printed w

-- The end of the context, and the watcher that takes an event.
unfoldable pub cancel : Watch → Watch
cancel w = record w { closed = true }

unfoldable pub receive : Watch → Watch
receive w = record w { out = tail w.out }

pub data Step : Type 0 where
  polls : Option Text → Step
  cancels receives : Step

unfoldable pub step : Step → Watch → Watch
unfolding poll cancel receive
step (polls printed) w = poll printed w
step cancels w = cancel w
step receives w = receive w

unfoldable pub run : List Step → Watch → Watch
unfolding step
run [] w = w
run (k ∷ ks) w = run ks (step k w)
