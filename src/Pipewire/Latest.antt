-- ===== src/Pipewire/Latest.antt =====
-- internal/mute/pipewire/source.go: what waits on the channel of a watch.
use dicta.Base.{
  ◌≡◌, refl, sym, ◌∙◌, Bool, true, false, not, List, [], ◌∷◌, Option, none, some, Text, if_intro,
  not-false, arith,
}
use mathlib.Core.Path.{subst}
use dicta.MuteWatcher.{State, state_eq, Event, unknown, unmuted, muted}
use dicta.Pipewire.{
  Watch, new, send, observe, state_of, poll, poll_from, cancel, receive, tail, Step, polls, cancels,
  receives, step, run,
}

-- The state of the last poll before the watch ends, by a poll that fails or by its context.
unfoldable pub newest : List Step → Option State → Option State
newest [] seen = seen
newest (polls (some out) ∷ ks) seen = newest ks (some (state_of out))
newest (polls none ∷ ks) seen = seen
newest (cancels ∷ ks) seen = seen
newest (receives ∷ ks) seen = newest ks seen

-- Nothing else waits than one event of the state.
abbrev pub IsOf : State → List Event → Type 0
IsOf st [] = Unit {0}
IsOf st (ev ∷ []) = ev.state ≡ st
IsOf st (ev ∷ ev' ∷ ch) = ⊥

-- What waits when a state, or none, was seen.
abbrev pub Waits : Option State → List Event → Type 0
Waits none ch = ch ≡ []
Waits (some st) ch = IsOf st ch

abbrev Recalls : Option State → Bool → State → Type 0
Recalls none set last = set ≡ false
Recalls (some st) set last = (set ≡ true) × (last ≡ st)

record Agrees (seen : Option State) (w : Watch) : Type 0 where
  recalls : Recalls seen w.last_set w.last
  waiting : Waits seen w.out

state_eq-same : (a b : State) → state_eq a b ≡ true → b ≡ a
state_eq-same unknown unknown h = refl
state_eq-same unknown unmuted h = cc
state_eq-same unknown muted h = cc
state_eq-same unmuted unknown h = cc
state_eq-same unmuted unmuted h = refl
state_eq-same unmuted muted h = cc
state_eq-same muted unknown h = cc
state_eq-same muted unmuted h = cc
state_eq-same muted muted h = refl

send-IsOf :
    (st old : State) (ev : Event) (ch : List Event)
    → ev.state ≡ st
    → IsOf old ch
    → IsOf st (send ev ch)
unfolding send
send-IsOf st old ev [] e h = e
send-IsOf st old ev (x ∷ []) e h = e
send-IsOf st old ev (x ∷ y ∷ ch) e h = absurd h

send-first :
    (st : State) (ev : Event) (ch : List Event) → ev.state ≡ st → ch ≡ [] → IsOf st (send ev ch)
unfolding send
send-first st ev ch e h = rw h e

observe-Agrees :
    (seen : Option State) (st : State) (w : Watch) → Agrees seen w → Agrees (some st) (observe st w)
unfolding observe
observe-Agrees none st w v =
    if_intro (Agrees (some st)) (not w.last_set)
      (λ _. record {
        recalls = (refl, refl);
        waiting = send-first st (record { state = st; initial = true }) w.out refl v.waiting;
      })
      (λ h. absurd cc)
observe-Agrees (some old) st w v =
    if_intro (Agrees (some st)) (not w.last_set) (λ h. absurd cc)
      (λ _.
        if_intro (Agrees (some st)) (not (state_eq st w.last))
          (λ _. record {
            recalls = (v.recalls.0, refl);
            waiting =
                send-IsOf st old (record { state = st; initial = false }) w.out refl v.waiting;
          })
          (λ q.
            let same : w.last ≡ st = state_eq-same st w.last (not-false (state_eq st w.last) q) in
            record {
              recalls = (v.recalls.0, same);
              waiting = subst (λ a. IsOf a w.out) (sym v.recalls.1 ∙ same) v.waiting;
            }))

tail-Waits : (seen : Option State) (ch : List Event) → Waits seen ch → Waits seen (tail ch)
tail-Waits none ch h = rw h refl
tail-Waits (some st) [] h = tt
tail-Waits (some st) (x ∷ []) h = tt
tail-Waits (some st) (x ∷ y ∷ ch) h = absurd h

receive-Agrees : (seen : Option State) (w : Watch) → Agrees seen w → Agrees seen (receive w)
unfolding receive
receive-Agrees seen w v = record { recalls = v.recalls; waiting = tail-Waits seen w.out v.waiting }

poll-ended : (printed : Option Text) (w : Watch) → w.closed ≡ true → poll printed w ≡ w
unfolding poll
poll-ended printed w h = rw h refl

poll-going :
    (printed : Option Text) (w : Watch) → w.closed ≡ false → poll printed w ≡ poll_from printed w
unfolding poll
poll-going printed w h = rw h refl

observe-going : (st : State) (w : Watch) → w.closed ≡ false → (observe st w).closed ≡ false
unfolding observe
observe-going st w h = ground arith

cancel-ended : (w : Watch) → (cancel w).closed ≡ true
unfolding cancel
cancel-ended w = refl

cancel-Agrees : (seen : Option State) (w : Watch) → Agrees seen w → Agrees seen (cancel w)
unfolding cancel
cancel-Agrees seen w v = record { recalls = v.recalls; waiting = v.waiting }

-- Behind the end only what waits is taken.
ended :
    (ks : List Step) (seen : Option State) (w : Watch)
    → w.closed ≡ true
    → Agrees seen w
    → Waits seen (run ks w).out
unfolding run step receive cancel
ended [] seen w h v = v.waiting
ended (polls printed ∷ ks) seen w h v =
    subst (λ x. Waits seen (run ks x).out) (sym (poll-ended printed w h)) (ended ks seen w h v)
ended (cancels ∷ ks) seen w h v = ended ks seen (cancel w) (cancel-ended w) (cancel-Agrees seen w v)
ended (receives ∷ ks) seen w h v = ended ks seen (receive w) h (receive-Agrees seen w v)

going :
    (ks : List Step) (seen : Option State) (w : Watch)
    → w.closed ≡ false
    → Agrees seen w
    → Waits (newest ks seen) (run ks w).out
unfolding run step newest receive cancel
going [] seen w h v = v.waiting
going (polls none ∷ ks) seen w h v =
    subst (λ x. Waits seen (run ks x).out) (sym (poll-going none w h))
      (ended ks seen (poll_from none w) (cancel-ended w)
        (record { recalls = v.recalls; waiting = v.waiting }))
going (polls (some out) ∷ ks) seen w h v =
    subst (λ x. Waits (newest ks (some (state_of out))) (run ks x).out)
      (sym (poll-going (some out) w h))
      (going ks (some (state_of out)) (observe (state_of out) w) (observe-going (state_of out) w h)
        (observe-Agrees seen (state_of out) w v))
going (cancels ∷ ks) seen w h v = ended ks seen (cancel w) (cancel-ended w) (cancel-Agrees seen w v)
going (receives ∷ ks) seen w h v = going ks seen (receive w) h (receive-Agrees seen w v)

-- After any steps of a new watch, at most one event waits for the watcher. It tells of the state
-- that wpctl printed at the last poll before the watch ended, whether by a failed poll or by its
-- context; nothing waits if there was no such poll.
pub run-IsLatest : (ks : List Step) → Waits (newest ks none) (run ks new).out
unfolding new
run-IsLatest ks = going ks none new refl (record { recalls = refl; waiting = refl })
