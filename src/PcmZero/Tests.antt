-- ===== src/PcmZero/Tests.antt =====
-- internal/mute/pcmzero/source.go: runs of the source.
use dicta.Base.{◌≡◌, refl, false, List, [], ◌∷◌, some}
use dicta.MuteWatcher.{unmuted}
use dicta.PcmZero.{Step, watches, frames, new, run, step, watch, on_frame, observe, send, state_of}
use dicta.PcmZero.Latest.{IsLatest, on_frame-IsLatest}

abbrev steps : List Step
steps = watches ∷ frames (0 ∷ 0 ∷ []) ∷ []

-- Nobody received the first event, so the second replaces it.
unmute_replaces :
    (on_frame (0 ∷ 7 ∷ []) (run steps new)).out
    ≡ some (record { state = unmuted; initial = false } ∷ [])
unfolding on_frame observe send run step watch new
unmute_replaces = refl

on_frame-IsLatest_example :
    IsLatest (state_of (0 ∷ 7 ∷ [])) (on_frame (0 ∷ 7 ∷ []) (run steps new)).out
unfolding run step watch on_frame observe send new
on_frame-IsLatest_example = on_frame-IsLatest steps (0 ∷ 7 ∷ []) (λ q. cc)
