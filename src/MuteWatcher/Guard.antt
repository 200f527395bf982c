-- ===== src/MuteWatcher/Guard.antt =====
-- cmd/dictad/mutewatch.go: what a suspended watcher does, and the flap guard.
use dicta.Base.{
  ℕ, suc, ◌≡◌, ◌≢◌, refl, ap, ◌∙◌, Bool, true, false, not, ◌&&◌, List, [], ◌∷◌, Option, none, some,
  if◌then◌else◌, if_intro, leb, arith,
}
use dicta.MuteWatcher.{
  State, unmuted, state_eq, Command, ensure_type_open, MuteWatcher, act, call, after_record,
  record_fire_and_check_flap, fire, on_timer, fire_at, on_device, take_device, on_event, suspend,
  resume, device_lost, device_restored, signal_device, stop_timer, arm_timer, Step, ticks,
  takes_device, loses_device, restores_device, resumes, ends, observes, suspends, step, run,
}

-- How often type mode was opened.
abbrev pub opens : List Command → ℕ
opens [] = 0
opens (ensure_type_open ∷ ks) = suc (opens ks)
opens (_ ∷ ks) = opens ks

abbrev pub is_due : Option ℕ → ℕ → Bool
is_due none now = false
is_due (some d) now = leb d now

-- The only step that opens type mode.
abbrev pub may_open : Step → MuteWatcher → Bool
may_open (ticks now) w =
    is_due w.timer now && state_eq w.pending unmuted && not w.suspended && not w.absent
may_open _ w = false

fire-opens :
    (now : ℕ) (x : State) (w : MuteWatcher)
    → opens (fire now x w).trace ≡ (
        if state_eq x unmuted && not w.suspended && not w.absent
        then suc (opens w.trace)
        else opens w.trace)
unfolding fire act call after_record record_fire_and_check_flap
fire-opens now x w = ground arith

-- A step opens type mode exactly if it is a tick past the deadline of a pending unmute, while the
-- watcher is not suspended and the device is there; then it opens it once.
pub step-opens :
    (k : Step) (w : MuteWatcher)
    → opens (step k w).trace ≡ (if may_open k w then suc (opens w.trace) else opens w.trace)
unfolding step on_timer on_device on_event suspend resume device_lost device_restored signal_device
    call stop_timer arm_timer
step-opens (ticks now) w = at w.timer
  where
    at :
        (o : Option ℕ)
        → opens (fire_at now o w).trace ≡ (
            if is_due o now && state_eq w.pending unmuted && not w.suspended && not w.absent
            then suc (opens w.trace)
            else opens w.trace)
    at none = refl
    at (some d) = ground (arith, fire-opens now w.pending (stop_timer w))
step-opens takes_device w = at w.dev_ch
  where
    at : (ls : List Bool) → opens (take_device ls w).trace ≡ opens w.trace
    at [] = refl
    at (lost ∷ rest) = ground arith
step-opens loses_device w = ground arith
step-opens restores_device w = ground arith
step-opens resumes w = refl
step-opens ends w = refl
step-opens (observes now ev) w = ground arith
step-opens (suspends reason) w = ground arith

-- Steps among which is no resumption.
abbrev pub NoResume : List Step → Type 0
NoResume [] = Unit {0}
NoResume (k ∷ ks) = (k ≢ resumes) × NoResume ks

may_open-suspended : (k : Step) (w : MuteWatcher) → w.suspended ≡ true → may_open k w ≡ false
may_open-suspended (ticks now) w h = ground arith
may_open-suspended takes_device w h = refl
may_open-suspended loses_device w h = refl
may_open-suspended restores_device w h = refl
may_open-suspended resumes w h = refl
may_open-suspended ends w h = refl
may_open-suspended (observes now ev) w h = refl
may_open-suspended (suspends reason) w h = refl

pub fire-suspended :
    (now : ℕ) (x : State) (w : MuteWatcher) → w.suspended ≡ true → (fire now x w).suspended ≡ true
unfolding fire
fire-suspended now x w h =
    if_intro (λ (z : MuteWatcher). z.suspended ≡ true) w.suspended (λ _. h)
      (λ q. absurd (ground arith))

step-suspended :
    (k : Step) (w : MuteWatcher) → k ≢ resumes → w.suspended ≡ true → (step k w).suspended ≡ true
unfolding step on_timer on_device on_event suspend device_lost device_restored signal_device call
    stop_timer arm_timer
step-suspended (ticks now) w n h = at w.timer
  where
    at : (o : Option ℕ) → (fire_at now o w).suspended ≡ true
    at none = h
    at (some d) = ground (arith, fire-suspended now w.pending (stop_timer w))
step-suspended takes_device w n h = at w.dev_ch
  where
    at : (ls : List Bool) → (take_device ls w).suspended ≡ true
    at [] = h
    at (lost ∷ rest) = ground arith
step-suspended loses_device w n h = ground arith
step-suspended restores_device w n h = ground arith
step-suspended resumes w n h = absurd (n refl)
step-suspended ends w n h = h
step-suspended (observes now ev) w n h = ground arith
step-suspended (suspends reason) w n h = ground arith

-- A suspended watcher stays suspended, and opens nothing, through all steps until a resumption.
pub run-suspended :
    (ks : List Step) (w : MuteWatcher)
    → NoResume ks
    → w.suspended ≡ true
    → ((run ks w).suspended ≡ true) × (opens (run ks w).trace ≡ opens w.trace)
unfolding run
run-suspended [] w n h = (h, refl)
run-suspended (k ∷ ks) w n h =
    let rest : ((run ks (step k w)).suspended ≡ true)
        × (opens (run ks (step k w)).trace ≡ opens (step k w).trace) =
      run-suspended ks (step k w) n.1 (step-suspended k w n.0 h) in
    (
      rest.0,
      rest.1
          ∙ (step-opens k w
              ∙ ap (λ b. if b then suc (opens w.trace) else opens w.trace)
                  (may_open-suspended k w h)),
    )
