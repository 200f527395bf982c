-- ===== src/MuteWatcher/Armed.antt =====
-- cmd/dictad/mutewatch.go: the debounce of `Run`.
use dicta.Base.{
  ℕ, ◌≡◌, ◌≢◌, Bool, true, false, List, [], ◌∷◌, Option, none, some, if_intro, leb, arith,
}
use dicta.MuteWatcher.{
  State, state_eq, Event, MuteWatcher, new, act, after_record, record_fire_and_check_flap, fire,
  on_timer, fire_at, on_device, take_device, on_event, suspend, resume, device_lost,
  device_restored, signal_device, stop_timer, arm_timer, call, Step, ticks, takes_device,
  loses_device, restores_device, resumes, ends, observes, suspends, step,
}

-- The timer runs exactly while a transition is pending; that transition is to another state than
-- the last; and none is pending before the first event.
pub record IsArmed (w : MuteWatcher) : Type 0 where
  pub stopped : w.has_pending ≡ false → w.timer ≡ none
  pub running : w.has_pending ≡ true → w.timer ≢ none
  pub changes : w.has_pending ≡ true → state_eq w.pending w.last_state ≡ false
  pub baseline : w.seeded ≡ false → w.has_pending ≡ false

-- What `fire` leaves of the variables of `Run`.
record IsFired (w w' : MuteWatcher) : Type 0 where
  has_pending : w'.has_pending ≡ w.has_pending
  timer : w'.timer ≡ w.timer
  seeded : w'.seeded ≡ w.seeded

fire-IsFired : (now : ℕ) (x : State) (w : MuteWatcher) → IsFired w (fire now x w)
unfolding fire act after_record record_fire_and_check_flap
fire-IsFired now x w = ground arith

on_timer-IsArmed : (now : ℕ) (w : MuteWatcher) → IsArmed w → IsArmed (on_timer now w)
unfolding on_timer stop_timer
on_timer-IsArmed now w v = at w.timer
  where
    at : (o : Option ℕ) → IsArmed (fire_at now o w)
    at none = v
    at (some d) =
        if_intro IsArmed (leb d now)
          (λ _. ground (arith, fire-IsFired now w.pending (stop_timer w))) (λ _. v)

on_event-IsArmed :
    (now : ℕ) (ev : Event) (w : MuteWatcher) → IsArmed w → IsArmed (on_event now ev w)
unfolding on_event stop_timer arm_timer
on_event-IsArmed now ev w v = ground (arith, v)

on_device-IsArmed : (w : MuteWatcher) → IsArmed w → IsArmed (on_device w)
unfolding on_device stop_timer
on_device-IsArmed w v = at w.dev_ch
  where
    at : (ls : List Bool) → IsArmed (take_device ls w)
    at [] = v
    at (lost ∷ rest) = ground (arith, v)

step-IsArmed : (k : Step) (w : MuteWatcher) → IsArmed w → IsArmed (step k w)
unfolding step suspend resume device_lost device_restored signal_device call stop_timer
step-IsArmed (ticks now) w v = on_timer-IsArmed now w v
step-IsArmed takes_device w v = on_device-IsArmed w v
step-IsArmed loses_device w v = ground (arith, v)
step-IsArmed restores_device w v = ground (arith, v)
step-IsArmed resumes w v = ground (arith, v)
step-IsArmed ends w v = ground (arith, v)
step-IsArmed (observes now ev) w v = on_event-IsArmed now ev w v
step-IsArmed (suspends reason) w v = ground (arith, v)

-- The watcher after these steps, the newest first.
unfoldable pub after : ℕ → List Step → MuteWatcher
after debounce [] = new debounce
after debounce (k ∷ h) = step k (after debounce h)

-- A watcher that has taken any steps has its timer running exactly while a transition is pending;
-- the transition is to another state than the last; and none is pending before the first event.
pub after-IsArmed : (debounce : ℕ) (h : List Step) → IsArmed (after debounce h)
unfolding after new
after-IsArmed debounce [] = ground arith
after-IsArmed debounce (k ∷ h) = step-IsArmed k (after debounce h) (after-IsArmed debounce h)
