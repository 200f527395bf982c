-- ===== src/Pipewire/Tests.antt =====
-- internal/mute/pipewire/source.go: a default source that is resolved, and a watch that is behind.
use dicta.Base.{◌≡◌, refl, List, [], ◌∷◌, none, some, Text, codes, trim_space}
use dicta.Base.Ints.{pos}
use dicta.Base.Samples.{ascii}
use dicta.MuteWatcher.{muted}
use dicta.Pipewire.{
  DumpEntry, text, node, failed, no_match, no_node_name, resolve, Step, polls, cancels, new, run,
  parse_muted,
}
use dicta.Pipewire.Latest.{Waits, newest, run-IsLatest}

abbrev microphone : Text
microphone = codes "alsa_input.usb-AC-44"

abbrev entries : List DumpEntry
entries =
    record { id = pos 7; kind = codes "PipeWire:Interface:Link"; info = none }
    ∷ record { id = pos 8; kind = codes "PipeWire:Interface:Node"; info = none }
    ∷ record {
      id = pos 9;
      kind = codes "PipeWire:Interface:Node";
      info = some (
          (codes "node.name", text microphone)
          ∷ (codes "media.class", text (codes "Audio/Sink"))
          ∷ []);
    }
    ∷ record {
      id = pos 51;
      kind = codes "PipeWire:Interface:Node";
      info = some (
          (codes "node.name", text microphone)
          ∷ (codes "media.class", text (codes "Audio/Source"))
          ∷ []);
    }
    ∷ []

finds : resolve (λ _. some entries) ascii (codes "AC-44") none (some []) ≡ node (pos 51) microphone
unfolding resolve
finds = refl

finds_default :
    resolve
      (λ _. some entries)
      ascii
      []
      (some (10 ∷ codes "  * node.name = \"alsa_input.usb-AC-44\""))
      (some [])
    ≡ node (pos 51) microphone
unfolding resolve trim_space
finds_default = refl

misses : resolve (λ _. some entries) ascii (codes "headset") none (some []) ≡ failed no_match
unfolding resolve
misses = refl

nameless :
    resolve (λ _. some entries) ascii [] (some (codes "id 51")) (some []) ≡ failed no_node_name
unfolding resolve
nameless = refl

abbrev behind : List Step
behind =
    polls (some (codes "Volume: 0.60"))
    ∷ polls (some (codes "Volume: 0.60 [MUTED]"))
    ∷ cancels
    ∷ polls (some (codes "Volume: 0.60"))
    ∷ []

newest-muted : newest behind none ≡ some muted
unfolding newest parse_muted
newest-muted = refl

run-IsLatest_example : Waits (newest behind none) (run behind new).out
run-IsLatest_example = run-IsLatest behind
