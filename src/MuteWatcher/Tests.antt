-- ===== src/MuteWatcher/Tests.antt =====
-- cmd/dictad/mutewatch.go: runs of the watcher.
use dicta.Base.{ℕ, ◌≡◌, ◌≢◌, ◌≤◌, refl, true, false, List, [], ◌∷◌, some, ltb, length, arith}
use dicta.MuteWatcher.{
  State, unmuted, muted, ensure_type_open, new, Step, ticks, observes, step, run, on_timer, fire_at,
  fire, on_event, stop_timer, arm_timer, act, call, record_fire_and_check_flap, after_record,
}
use dicta.MuteWatcher.Armed.{IsArmed, after, after-IsArmed}
use dicta.MuteWatcher.Debounce.{IsHeld, on_timer-IsHeld}
use dicta.MuteWatcher.Flap.{fire_all, fire_all-flaps}
use dicta.MuteWatcher.Guard.{opens, step-opens, run-suspended}

abbrev seed : Step
seed = observes 0 (record { state = muted; initial = true })

abbrev unmute : Step
unmute = observes 10 (record { state = unmuted; initial = false })

-- Newest first: an unmute 10 after the start, on a debounce of 5.
abbrev history : List Step
history = unmute ∷ seed ∷ []

unmute_opens : (on_timer 15 (after 5 history)).trace ≡ ensure_type_open ∷ []
unfolding on_timer after new step on_event stop_timer arm_timer fire_at fire act call
    record_fire_and_check_flap after_record
unmute_opens = refl

too_early : (on_timer 14 (after 5 history)).trace ≡ []
unfolding on_timer after new step on_event stop_timer arm_timer fire_at
too_early = refl

after-IsArmed_example : IsArmed (after 5 history)
after-IsArmed_example = after-IsArmed 5 history

acts : (on_timer 15 (after 5 history)).trace ≢ (after 5 history).trace
unfolding on_timer after new step on_event stop_timer arm_timer fire_at fire act call
    record_fire_and_check_flap after_record
acts h = cc

on_timer-IsHeld_example :
    (d : ℕ) × (d ≤ 15) × IsHeld (after 5 history).debounce (after 5 history).pending d history
on_timer-IsHeld_example = on_timer-IsHeld 5 15 history acts

abbrev flapping : List (ℕ × State)
flapping = (100, unmuted) ∷ (200, muted) ∷ (300, unmuted) ∷ []

fire_all-flaps_example :
    (fire_all flapping (record (new 5) { flap_threshold = 2 })).suspended ≡ ltb 2 (length flapping)
unfolding new
fire_all-flaps_example =
    fire_all-flaps flapping 100 (record (new 5) { flap_threshold = 2 }) (ground arith) refl refl
      refl (omega arith, omega arith, (omega arith, omega arith, (omega arith, omega arith, tt)))

run-suspended_example :
    ((run (unmute ∷ ticks 50 ∷ []) (record (new 5) { suspended = true })).suspended ≡ true)
    × (opens (run (unmute ∷ ticks 50 ∷ []) (record (new 5) { suspended = true })).trace ≡ 0)
unfolding new
run-suspended_example =
    run-suspended (unmute ∷ ticks 50 ∷ []) (record (new 5) { suspended = true })
      (λ h. cc, (λ h. cc, tt)) refl

step-opens_example :
    opens (step (ticks 15) (record (new 5) { pending = unmuted; timer = some 15 })).trace ≡ 1
unfolding new
step-opens_example = step-opens (ticks 15) (record (new 5) { pending = unmuted; timer = some 15 })
