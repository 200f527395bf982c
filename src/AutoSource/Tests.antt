-- ===== src/AutoSource/Tests.antt =====
-- internal/mute/auto.go: a run over two subsources.
use dicta.Base.{◌≡◌, refl, true, false, List, [], ◌∷◌, Text, codes}
use dicta.MuteWatcher.{Event, unmuted, muted}
use dicta.AutoSource.{Auto, watch, on_event, lock, run}
use dicta.AutoSource.Locked.{IsFrom, run-IsFrom}

abbrev pipewire : Text
pipewire = codes "pipewire"

abbrev pcm : Text
pcm = codes "pcm-zero"

-- Both tell their state, then pcm-zero sees the first transition.
abbrev events : List (Text × Event)
events =
    (pipewire, record { state = unmuted; initial = true })
    ∷ (pcm, record { state = unmuted; initial = true })
    ∷ (pcm, record { state = muted; initial = false })
    ∷ (pipewire, record { state = muted; initial = false })
    ∷ []

abbrev both : Auto
both = record { live = pipewire ∷ pcm ∷ []; locked = []; canceled = []; out = [] }

locks_pcm : (run events both).locked ≡ pcm
unfolding run on_event lock
locks_pcm = refl

run-IsFrom_example : IsFrom (run events both).locked (run events both).out
unfolding watch
run-IsFrom_example =
    run-IsFrom ((pipewire, false) ∷ (pcm, false) ∷ []) events both refl
      (refl, (refl, (refl, (refl, tt))))
