-- ===== src/AutoSource/Locked.antt =====
-- internal/mute/auto.go: transitions come from one subsource.
use dicta.Base.{
  ◌≡◌, sym, Bool, true, false, not, List, [], ◌∷◌, Option, none, some, Text, text_eq, text_eq_sound,
  is_empty, if_intro, arith,
}
use dicta.MuteWatcher.{Event}
use dicta.AutoSource.{Auto, watch, started, lock, on_event, run}

-- The transitions among these events all come from `name`.
abbrev pub IsFrom : Text → List (Text × Event) → Type 0
IsFrom name [] = Unit {0}
IsFrom name ((source, ev) ∷ evs) = (ev.initial ≡ false → source ≡ name) × IsFrom name evs

-- No subsource has the empty name.
abbrev pub AreNamed : List (Text × Event) → Type 0
AreNamed [] = Unit {0}
AreNamed ((source, ev) ∷ evs) = (is_empty source ≡ false) × AreNamed evs

-- The transitions come from the locked source; before the lock there are none.
record IsLocked (a : Auto) : Type 0 where
  from : IsFrom a.locked a.out
  unlocked : is_empty a.locked ≡ true → (name : Text) → IsFrom name a.out

on_event-IsLocked :
    (name : Text) (ev : Event) (a : Auto)
    → is_empty name ≡ false
    → IsLocked a
    → IsLocked (on_event name ev a)
unfolding on_event
on_event-IsLocked name ev a n v =
    if_intro IsLocked ev.initial
      (λ q. record {
        from = (λ p. absurd (clash q p), v.from);
        unlocked = λ u x. (λ p. absurd (clash q p), v.unlocked u x);
      })
      (λ q.
        if_intro IsLocked (not (text_eq a'.locked name)) (λ _. w)
          (λ t. record {
            from = (λ p. sym (text_eq_sound a'.locked name (same t)), w.from);
            unlocked = λ u x. absurd (named u (text_eq_sound a'.locked name (same t)));
          }))
  where
    a' : Auto
    a' = lock name a

    clash : {b : Bool} → b ≡ true → b ≡ false → ⊥
    clash p q = cc

    same : not (text_eq a'.locked name) ≡ false → text_eq a'.locked name ≡ true
    same t = ground arith

    named : is_empty a'.locked ≡ true → a'.locked ≡ name → ⊥
    named u e = cc

    w : IsLocked a'
    w =
        unfold lock in
        if_intro IsLocked (is_empty a.locked)
          (λ q. record { from = v.unlocked q name; unlocked = λ u x. v.unlocked q x }) (λ _. v)

run-IsLocked :
    (evs : List (Text × Event)) (a : Auto) → AreNamed evs → IsLocked a → IsLocked (run evs a)
unfolding run
run-IsLocked [] a n v = v
run-IsLocked ((name, ev) ∷ evs) a n v =
    run-IsLocked evs (on_event name ev a) n.1 (on_event-IsLocked name ev a n.0 v)

-- Once watched, the auto source sends on transitions of one subsource only, the locked one,
-- whatever events arrive in whatever order; the subsources have names that are not empty.
pub run-IsFrom :
    (subs : List (Text × Bool)) (evs : List (Text × Event)) (a : Auto)
    → watch subs ≡ some a
    → AreNamed evs
    → IsFrom (run evs a).locked (run evs a).out
unfolding watch
run-IsFrom subs evs a q n =
    (run-IsLocked evs a n (
      if_intro (λ o. o ≡ some a → IsLocked a) (is_empty (started subs)) (λ _ e. absurd (failed e))
        (λ _ e. fresh e) q)).from
  where
    first : Auto
    first = record { live = started subs; locked = []; canceled = []; out = [] }

    failed : ◌≡◌ {A = Option Auto} none (some a) → ⊥
    failed e = cc

    fresh : some first ≡ some a → IsLocked a
    fresh e =
        let same : first ≡ a = cc in rw (sym same) (record { from = tt; unlocked = λ u x. tt })
