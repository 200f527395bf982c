-- ===== src/EventBus/Detach.antt =====
-- cmd/dictad/events.go: whom an event reaches, and who is detached.
use dicta.Base.{
  ℕ, ◌≡◌, refl, sym, ◌∙◌, Bool, false, not, ◌&&◌, ◌||◌, List, [], ◌∷◌, Text, if◌then◌else◌,
  if_intro, arith,
}
use dicta.EventBus.{Subscriber, Pushed, is_wanted, push_all, alive, publish}

-- Who is to get the event, and who stays.
abbrev pub receivers : Text → List Subscriber → List ℕ
receivers event [] = []
receivers event (s ∷ ss) =
    if not s.dead && is_wanted event s then s.id ∷ receivers event ss else receivers event ss

abbrev pub staying : (ℕ → Bool) → Text → List Subscriber → List Subscriber
staying fails event [] = []
staying fails event (s ∷ ss) =
    if s.dead || (is_wanted event s && fails s.id)
    then staying fails event ss
    else s ∷ staying fails event ss

record IsPushed (fails : ℕ → Bool) (event : Text) (bus : List Subscriber) (p : Pushed)
    : Type 0 where
  pushes : p.pushes ≡ receivers event bus
  subscribers : alive p.subscribers ≡ staying fails event bus
  all_alive : p.any_dead ≡ false → alive p.subscribers ≡ p.subscribers

push_all-IsPushed :
    (fails : ℕ → Bool) (event : Text) (bus : List Subscriber)
    → IsPushed fails event bus (push_all fails event bus)
unfolding push_all alive
push_all-IsPushed fails event [] = record {
  pushes = refl;
  subscribers = refl;
  all_alive = λ q. refl;
}
push_all-IsPushed fails event (s ∷ ss) =
    let k : IsPushed fails event ss (push_all fails event ss) = push_all-IsPushed fails event ss in
    ground (arith, k)

-- A published event reaches, once and in the order of subscription, the live subscribers that want
-- it. Those stay that were alive and whose push, if they want the event, succeeded.
pub publish-receivers :
    (fails : ℕ → Bool) (event : Text) (bus : List Subscriber)
    → ((publish fails event bus).1 ≡ receivers event bus)
      × ((publish fails event bus).0 ≡ staying fails event bus)
unfolding publish
publish-receivers fails event bus =
    let p : Pushed = push_all fails event bus in
    let k : IsPushed fails event bus p = push_all-IsPushed fails event bus in
    (
      k.pushes,
      if_intro (λ l. l ≡ staying fails event bus) p.any_dead (λ _. k.subscribers)
          (λ q. sym (k.all_alive q) ∙ k.subscribers),
    )
