-- ===== src/MuteWatcher/Debounce.antt =====
-- cmd/dictad/mutewatch.go: a transition is acted on once its state has held for the debounce.
use dicta.Base.{
  ℕ, ◌+◌, ◌≤◌, ◌≡◌, ◌≢◌, ◌⊎◌, inl, inr, refl, Bool, true, false, not, ◌&&◌, List, [], ◌∷◌, Option,
  none, some, if_intro, Bool-cases, leb, arith,
}
use dicta.MuteWatcher.{
  State, state_eq, Event, MuteWatcher, new, act, after_record, record_fire_and_check_flap, fire,
  on_timer, call, signal_device, stop_timer, arm_timer, fire_at, on_device, take_device, on_event,
  suspend, resume, device_lost, device_restored, Step, ticks, takes_device, loses_device,
  restores_device, resumes, ends, observes, suspends, step,
}
use dicta.MuteWatcher.Armed.{IsArmed, after, after-IsArmed}

-- In these steps, newest first, the state `x` was observed, so that its debounce ends at
-- `deadline`, and no other state has been observed since.
abbrev pub IsHeld : ℕ → State → ℕ → List Step → Type 0
IsHeld debounce x deadline [] = ⊥
IsHeld debounce x deadline (observes t ev ∷ h) =
    (ev.state ≡ x)
    × ((ev.initial ≡ false) × (t + debounce ≡ deadline) ⊎ IsHeld debounce x deadline h)
IsHeld debounce x deadline (_ ∷ h) = IsHeld debounce x deadline h

record Holds (h : List Step) (w : MuteWatcher) : Type 0 where
  held : (d : ℕ) → w.timer ≡ some d → IsHeld w.debounce w.pending d h

fire-timer : (now : ℕ) (x : State) (w : MuteWatcher) → (fire now x w).timer ≡ w.timer
unfolding fire act after_record record_fire_and_check_flap
fire-timer now x w = ground arith

Holds-kept :
    {h : List Step} {w w' : MuteWatcher}
    → w'.timer ≡ w.timer
    → w'.pending ≡ w.pending
    → w'.debounce ≡ w.debounce
    → Holds h w
    → Holds h w'
Holds-kept {h = h} t p b v = record { held = λ d q. rw (b, p) (v.held d (ground arith)) }

Holds-stopped : {h : List Step} {w' : MuteWatcher} → w'.timer ≡ none → Holds h w'
Holds-stopped t = record { held = λ d q. absurd (ground arith) }

on_event-Holds :
    (now : ℕ) (ev : Event) (h : List Step) (w : MuteWatcher)
    → IsArmed w
    → Holds h w
    → Holds (observes now ev ∷ h) (on_event now ev w)
unfolding on_event stop_timer arm_timer
on_event-Holds now ev h w a v =
    if_intro Good ev.initial (λ _. Holds-stopped refl)
      (λ i.
        if_intro Good (not w.seeded) (λ q. Holds-stopped (a.stopped (a.baseline (ground arith))))
          (λ _.
            if_intro Good w.suspended (λ _. Holds-stopped refl)
              (λ _.
                if_intro Good w.absent (λ _. Holds-stopped refl)
                  (λ _.
                    if_intro Good (state_eq ev.state w.last_state) (λ _. Holds-stopped refl)
                      (λ _.
                        if_intro Good (w.has_pending && state_eq w.pending ev.state)
                          (λ q. record { held = λ d t. (ground arith, inr (v.held d t)) })
                          (λ _. record { held = λ d t. (refl, inl (i, ground arith)) }))))))
  where
    Good : MuteWatcher → Type 0
    Good = Holds (observes now ev ∷ h)

step-Holds :
    (k : Step) (h : List Step) (w : MuteWatcher) → IsArmed w → Holds h w → Holds (k ∷ h) (step k w)
unfolding step on_timer on_device suspend resume device_lost device_restored signal_device call
    stop_timer
step-Holds (ticks now) h w a v = record { held = (at w.timer).held }
  where
    at : (o : Option ℕ) → Holds h (fire_at now o w)
    at none = v
    at (some d) =
        if_intro (Holds h) (leb d now)
          (λ _. Holds-stopped (fire-timer now w.pending (stop_timer w))) (λ _. v)
step-Holds takes_device h w a v = record { held = (at w.dev_ch).held }
  where
    at : (ls : List Bool) → Holds h (take_device ls w)
    at [] = v
    at (true ∷ rest) = Holds-stopped refl
    at (false ∷ rest) = Holds-kept refl refl refl v
step-Holds loses_device h w a v =
    let x : Holds h (step loses_device w) =
      Holds-kept (ground arith) (ground arith) (ground arith) v in
    record { held = x.held }
step-Holds restores_device h w a v =
    let x : Holds h (step restores_device w) =
      Holds-kept (ground arith) (ground arith) (ground arith) v in
    record { held = x.held }
step-Holds resumes h w a v =
    let x : Holds h (step resumes w) = Holds-kept (ground arith) (ground arith) (ground arith) v in
    record { held = x.held }
step-Holds ends h w a v = Holds-stopped refl
step-Holds (observes now ev) h w a v = on_event-Holds now ev h w a v
step-Holds (suspends reason) h w a v =
    let x : Holds h (step (suspends reason) w) =
      Holds-kept (ground arith) (ground arith) (ground arith) v in
    record { held = x.held }

after-Holds : (debounce : ℕ) (h : List Step) → Holds h (after debounce h)
unfolding after new
after-Holds debounce [] = Holds-stopped refl
after-Holds debounce (k ∷ h) =
    step-Holds k h (after debounce h) (after-IsArmed debounce h) (after-Holds debounce h)

fire_at-waits :
    (now : ℕ) (o : Option ℕ) (w : MuteWatcher)
    → (fire_at now o w).trace ≢ w.trace
    → (d : ℕ) × (o ≡ some d) × (d ≤ now)
unfolding fire_at
fire_at-waits now none w n = absurd (n refl)
fire_at-waits now (some d) w n = elim (Bool-cases (leb d now)) [
  | inl q ↦ (d, refl, ground arith)
  | inr q ↦ absurd (n (rw q refl))
]

-- When a tick of the debounce timer makes the watcher act, after any steps (newest first), its
-- deadline has passed: the pending state was observed a whole debounce ago or longer, not as a
-- baseline, and no other state has been observed since.
pub on_timer-IsHeld :
    (debounce now : ℕ) (h : List Step)
    → (on_timer now (after debounce h)).trace ≢ (after debounce h).trace
    → (d : ℕ) × (d ≤ now) × IsHeld (after debounce h).debounce (after debounce h).pending d h
unfolding on_timer
on_timer-IsHeld debounce now h n =
    let w : MuteWatcher = after debounce h in
    let due : (d : ℕ) × (w.timer ≡ some d) × (d ≤ now) = fire_at-waits now w.timer w n in
    (due.0, due.2, (after-Holds debounce h).held due.0 due.1)
