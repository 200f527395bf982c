-- ===== src/PcmZero/Latest.antt =====
-- internal/mute/pcmzero/source.go: the event that waits is the newest.
use dicta.Base.{
  ℕ, ◌≡◌, ◌≢◌, refl, sym, true, false, not, List, [], ◌∷◌, Option, none, some, if_intro, arith,
}
use dicta.MuteWatcher.{State, Event, state_eq}
use dicta.PcmZero.{
  Source, new, watch, done, reseed, send, state_of, observe, observe_out, on_frame, receive,
  watch_from, receive_from, Step, watches, ends, reseeds, receives, frames, step, run,
}

-- At most one event waits, and it is of the state that the source saw last.
abbrev pub IsLatest : State → Option (List Event) → Type 0
IsLatest last none = Unit {0}
IsLatest last (some []) = Unit {0}
IsLatest last (some (ev ∷ [])) = ev.state ≡ last
IsLatest last (some (ev ∷ ev' ∷ ch)) = ⊥

Waits : Source → Type 0
Waits s = IsLatest s.last s.out

send-one :
    (ev : Event) (last : State) (ch : List Event) → IsLatest last (some ch) → send ev ch ≡ ev ∷ []
unfolding send
send-one ev last [] h = refl
send-one ev last (x ∷ []) h = refl
send-one ev last (x ∷ y ∷ ch) h = absurd h

observe_out-Waits :
    (st : State) (o : Option (List Event)) (s : Source)
    → s.out ≡ o
    → IsLatest s.last o
    → Waits (observe_out st o s)
unfolding Waits observe
observe_out-Waits st none s q h = rw q h
observe_out-Waits st (some ch) s q h =
    if_intro Waits (not s.last_set)
      (λ _. rw (send-one (record { state = st; initial = true }) s.last ch h) refl)
      (λ _.
        if_intro Waits (state_eq st s.last) (λ _. rw q h)
          (λ _. rw (send-one (record { state = st; initial = false }) s.last ch h) refl))

on_frame-Waits : (pcm : List ℕ) (s : Source) → Waits s → Waits (on_frame pcm s)
unfolding Waits on_frame
on_frame-Waits pcm s h = observe_out-Waits (state_of pcm) s.out s refl h

step-Waits : (k : Step) (s : Source) → Waits s → Waits (step k s)
unfolding Waits step watch done reseed receive on_frame
step-Waits watches s h = at s.out refl
  where
    at : (o : Option (List Event)) → s.out ≡ o → Waits (watch_from o s).0
    at none q = tt
    at (some ch) q = h
step-Waits ends s h = tt
step-Waits reseeds s h = h
step-Waits receives s h = at s.out h
  where
    at : (o : Option (List Event)) → IsLatest s.last o → Waits (receive_from o s)
    at none w = h
    at (some []) w = tt
    at (some (ev ∷ [])) w = tt
    at (some (ev ∷ ev' ∷ ch)) w = absurd w
step-Waits (frames pcm) s h = on_frame-Waits pcm s h

run-Waits : (ks : List Step) (s : Source) → Waits s → Waits (run ks s)
unfolding run
run-Waits [] s h = h
run-Waits (k ∷ ks) s h = run-Waits ks (step k s) (step-Waits k s h)

on_frame-last : (pcm : List ℕ) (s : Source) → s.out ≢ none → (on_frame pcm s).last ≡ state_of pcm
unfolding on_frame
on_frame-last pcm s n = at s.out n
  where
    at : (o : Option (List Event)) → o ≢ none → (observe_out (state_of pcm) o s).last ≡ state_of pcm
    at none m = absurd (m refl)
    at (some ch) m = ground arith

-- After any steps of a new source, a frame on a source that is watched leaves at most one event
-- waiting, and such an event tells of that frame's state.
pub on_frame-IsLatest :
    (ks : List Step) (pcm : List ℕ)
    → (run ks new).out ≢ none
    → IsLatest (state_of pcm) (on_frame pcm (run ks new)).out
unfolding Waits new
on_frame-IsLatest ks pcm n =
    rw (sym (on_frame-last pcm (run ks new) n))
      (on_frame-Waits pcm (run ks new) (run-Waits ks new tt))
