-- ===== src/Session/Toggle.antt =====
-- cmd/dictad/session.go: the debounce of `Toggle`, and the round of two toggles.
use Prim.Native.Nat.{ℕ, ◌<◌}
use dicta.Base.{
  ◌≡◌, refl, ap, ◌∙◌, false, not, ◌&&◌, ◌||◌, ◌-◌, List, [], ◌∷◌, Option, none, some, Text, arith,
}
use dicta.Session.State.{Mode, mode_clip, mode_eq, Config, Env, Session}
use dicta.Session.Lifecycle.{toggle, toggle_parsed, toggle_debounced, parse_session_mode}

-- Toggles one after the other, each with what the clock answers then.
unfoldable pub toggle_all : Config → List (Env × Text) → Session → Session
toggle_all c [] s = s
toggle_all c ((e, mode) ∷ calls) s = toggle_all c calls (toggle c e mode s).0

-- A toggle of a mode that is known and configured.
abbrev pub IsAccepted : Config → Option Mode → Type 0
IsAccepted c none = ⊥
IsAccepted c (some m) = (mode_eq m mode_clip && (not c.has_preview || not c.has_clipper)) ≡ false

-- Each toggle comes less than the debounce after the one before; the first of these after `t`.
abbrev pub IsBurst : Config → ℕ → List (Env × Text) → Type 0
IsBurst c t [] = Unit {0}
IsBurst c t ((e, mode) ∷ calls) =
    (e.now - t < c.toggle_debounce) × IsAccepted c (parse_session_mode mode) × IsBurst c e.now calls

abbrev pub last_time : ℕ → List (Env × Text) → ℕ
last_time t [] = t
last_time t ((e, mode) ∷ calls) = last_time e.now calls

debounced :
    (c : Config) (e : Env) (t : ℕ) (o : Option Mode) (s : Session)
    → s.last_toggle ≡ some t
    → e.now - t < c.toggle_debounce
    → IsAccepted c o
    → (toggle_parsed c e o s).0 ≡ record s { last_toggle = some e.now }
unfolding toggle_debounced
debounced c e t none s h d a = absurd a
debounced c e t (some m) s h d a = rw (a) (within (s.last_toggle) h)
  where
    within :
        (o : Option ℕ)
        → o ≡ some t
        → (toggle_debounced c e m (record s { last_toggle = o })).0
          ≡ record s { last_toggle = some e.now }
    within none q = ground arith
    within (some t') q = ground arith

-- A burst of key repeats acts once, however long it lasts: after a toggle at time `t`, toggles that
-- each come less than the debounce after the one before change nothing but the time of the last.
pub toggle_all-IsBurst :
    (c : Config) (t : ℕ) (calls : List (Env × Text)) (s : Session)
    → s.last_toggle ≡ some t
    → IsBurst c t calls
    → toggle_all c calls s ≡ record s { last_toggle = some (last_time t calls) }
unfolding toggle_all toggle
toggle_all-IsBurst c t [] s h b = ap (λ o. record s { last_toggle = o }) h
toggle_all-IsBurst c t ((e, mode) ∷ calls) s h b =
    let once : (toggle c e mode s).0 ≡ record s { last_toggle = some e.now } =
      debounced c e t (parse_session_mode mode) s h b.0 b.1 in
    ap (toggle_all c calls) once
    ∙ toggle_all-IsBurst c e.now calls (record s { last_toggle = some e.now }) refl b.2
