-- ===== src/EventBus/Tests.antt =====
-- cmd/dictad/events.go: a run of the bus.
use dicta.Base.{◌≡◌, ◌==◌, refl, List, [], ◌∷◌, codes}
use dicta.EventBus.{Subscriber, subscribe, publish, push_all, alive}
use dicta.EventBus.Detach.{receivers, staying, publish-receivers}

abbrev bus : List Subscriber
unfolding subscribe
bus =
    subscribe 3 (codes "transcript" ∷ [])
      (subscribe 2 (codes "session_state" ∷ []) (subscribe 1 (codes "transcript" ∷ []) []))

first_is_gone : (publish (λ i. i == 1) (codes "transcript") bus).1 ≡ 1 ∷ 3 ∷ []
unfolding publish push_all alive bus
first_is_gone = refl

publish-receivers_example :
    ((publish (λ i. i == 1) (codes "transcript") bus).1 ≡ receivers (codes "transcript") bus)
    × ((publish (λ i. i == 1) (codes "transcript") bus).0
        ≡ staying (λ i. i == 1) (codes "transcript") bus)
publish-receivers_example = publish-receivers (λ i. i == 1) (codes "transcript") bus
