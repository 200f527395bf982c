-- ===== src/EventBus.antt =====
-- cmd/dictad/events.go: the subscribers of daemon events. A push writes to a client's connection,
-- so whether it fails is a parameter.
pub mod Detach
mod Tests
use dicta.Base.{
  ℕ, Bool, true, false, not, ◌&&◌, List, [], ◌∷◌, ◌++◌, Text, text_elem, if◌then◌else◌,
}

pub record Subscriber : Type 0 where
  pub id : ℕ
  pub events : List Text
  pub dead : Bool

unfoldable pub subscribe : ℕ → List Text → List Subscriber → List Subscriber
subscribe id events bus = bus ++ record { id = id; events = events; dead = false } ∷ []

-- What the loop of `Publish` leaves: the subscribers, `anyDead`, and whom it pushed to.
pub record Pushed : Type 0 where
  pub subscribers : List Subscriber
  pub any_dead : Bool
  pub pushes : List ℕ

abbrev pub is_wanted : Text → Subscriber → Bool
is_wanted event s = text_elem event s.events

unfoldable pub push_all : (ℕ → Bool) → Text → List Subscriber → Pushed
push_all fails event [] = record { subscribers = []; any_dead = false; pushes = [] }
push_all fails event (s ∷ ss) =
    let rest = push_all fails event ss in
    let kept = record rest { subscribers = s ∷ rest.subscribers } in
    if s.dead
    then record kept { any_dead = true }
    else if not (is_wanted event s)
    then kept
    else if fails s.id
    then record {
      subscribers = record s { dead = true } ∷ rest.subscribers;
      any_dead = true;
      pushes = s.id ∷ rest.pushes;
    }
    else record kept { pushes = s.id ∷ rest.pushes }

unfoldable pub alive : List Subscriber → List Subscriber
alive [] = []
alive (s ∷ ss) = if s.dead then alive ss else s ∷ alive ss

unfoldable pub publish : (ℕ → Bool) → Text → List Subscriber → List Subscriber × List ℕ
unfolding push_all alive
publish fails event bus =
    let p = push_all fails event bus in
    (if p.any_dead then alive p.subscribers else p.subscribers, p.pushes)
