-- ===== src/MuteWatcher/Flap.antt =====
-- cmd/dictad/mutewatch.go: the flap guard of `fire`.
use dicta.Base.{
  ℕ, suc, ◌+◌, ◌≤◌, ◌<◌, ◌≡◌, ◌≢◌, refl, sym, ap, ◌∙◌, true, false, List, [], ◌∷◌, ◌++◌, Bool-cases,
  inl, inr, length, length-append, ltb, arith,
}
use dicta.MuteWatcher.{
  State, muted, unmuted, unknown, MuteWatcher, act, call, after_record, record_fire_and_check_flap,
  recent, fire,
}
use dicta.MuteWatcher.Guard.{fire-suspended}

-- Transitions that fire one after the other, each at its time.
unfoldable pub fire_all : List (ℕ × State) → MuteWatcher → MuteWatcher
unfolding fire
fire_all [] w = w
fire_all ((now, x) ∷ calls) w = fire_all calls (fire now x w)

-- They fall within one window from `start` on.
abbrev pub IsRapid : ℕ → ℕ → List (ℕ × State) → Type 0
IsRapid window start [] = Unit {0}
IsRapid window start ((now, x) ∷ calls) =
    (now < start + window) × (start ≤ now) × IsRapid window start calls

abbrev From : ℕ → List ℕ → Type 0
From start [] = Unit {0}
From start (t ∷ ts) = (start ≤ t) × From start ts

recent-From :
    (start window now : ℕ) (ts : List ℕ)
    → now < start + window
    → From start ts
    → recent now window ts ≡ ts
recent-From start window now [] h f = refl
recent-From start window now (t ∷ ts) h f = ground (arith, recent-From start window now ts h f.1)

From-snoc :
    (start now : ℕ) (ts : List ℕ) → start ≤ now → From start ts → From start (ts ++ now ∷ [])
From-snoc start now [] h f = (h, tt)
From-snoc start now (t ∷ ts) h f = (f.0, From-snoc start now ts h f.1)

-- What one transition leaves of the guard.
record IsCounted (ts : List ℕ) (w w' : MuteWatcher) : Type 0 where
  flap_window : w'.flap_window ≡ w.flap_window
  flap_threshold : w'.flap_threshold ≡ w.flap_threshold
  absent : w'.absent ≡ w.absent
  suspended : w'.suspended ≡ ltb w.flap_threshold (length ts)
  fire_times : w'.suspended ≡ false → w'.fire_times ≡ ts

fire-IsCounted :
    (now : ℕ) (x : State) (w : MuteWatcher)
    → w.flap_threshold ≢ 0
    → w.suspended ≡ false
    → w.absent ≡ false
    → IsCounted (recent now w.flap_window w.fire_times ++ now ∷ []) w (fire now x w)
unfolding fire act call after_record record_fire_and_check_flap
fire-IsCounted now muted w n s a = ground arith
fire-IsCounted now unmuted w n s a = ground arith
fire-IsCounted now unknown w n s a = ground arith

IsCounted-same :
    {ts ts' : List ℕ} {w w' : MuteWatcher} → ts ≡ ts' → IsCounted ts w w' → IsCounted ts' w w'
IsCounted-same e k = rw (sym e) k

fire_all-suspended :
    (calls : List (ℕ × State)) (w : MuteWatcher)
    → w.suspended ≡ true
    → (fire_all calls w).suspended ≡ true
unfolding fire_all
fire_all-suspended [] w h = h
fire_all-suspended ((now, x) ∷ calls) w h =
    fire_all-suspended calls (fire now x w) (fire-suspended now x w h)

not_more : (t m : ℕ) {n : ℕ} → m ≡ n → ltb t m ≡ false → n ≤ t
not_more t m e h = ground arith

at_most : {a b c d : ℕ} → a ≡ b → c ≡ d → b ≤ d → a ≤ c
at_most e f h = omega arith

same_test : {a b c d : ℕ} (n : ℕ) → a ≡ suc b → c ≡ d → ltb c (a + n) ≡ ltb d (b + suc n)
same_test n e f = ground arith

flaps :
    (calls : List (ℕ × State)) (start : ℕ) (w : MuteWatcher)
    → w.flap_threshold ≢ 0
    → w.suspended ≡ false
    → w.absent ≡ false
    → length w.fire_times ≤ w.flap_threshold
    → From start w.fire_times
    → IsRapid w.flap_window start calls
    → (fire_all calls w).suspended ≡ ltb w.flap_threshold (length w.fire_times + length calls)
unfolding fire_all
flaps [] start w n s a l f r = ground arith
flaps ((now, x) ∷ calls) start w n s a l f r = elim (Bool-cases (fire now x w).suspended) [
  | inl q ↦
      let h : (fire_all calls (fire now x w)).suspended ≡ true =
        fire_all-suspended calls (fire now x w) q in
      ground (arith, h, k.suspended, longer)
  | inr q ↦
      let ts : (fire now x w).fire_times ≡ w.fire_times ++ now ∷ [] = k.fire_times q in
      let counts : length (fire now x w).fire_times ≡ suc (length w.fire_times) =
        ap length ts ∙ longer in
      let few : suc (length w.fire_times) ≤ w.flap_threshold =
        not_more w.flap_threshold (length (w.fire_times ++ now ∷ [])) longer
          (sym k.suspended ∙ q) in
      flaps calls start (fire now x w) (λ z. n (sym k.flap_threshold ∙ z)) q (k.absent ∙ a)
        (at_most counts k.flap_threshold few) (rw ts (From-snoc start now w.fire_times r.1 f))
        (rw k.flap_window r.2)
      ∙ same_test (length calls) counts k.flap_threshold
]
  where
    k : IsCounted (w.fire_times ++ now ∷ []) w (fire now x w)
    k =
        IsCounted-same
          (ap (λ ts. ts ++ now ∷ []) (recent-From start w.flap_window now w.fire_times r.0 f))
          (fire-IsCounted now x w n s a)

    longer : length (w.fire_times ++ now ∷ []) ≡ suc (length w.fire_times)
    longer = ground (arith, length-append w.fire_times (now ∷ []))

-- The flap guard: of transitions that all fire within one window, on a watcher that was just
-- resumed, is not suspended and has its device, it suspends the watcher exactly if there are more
-- of them than the threshold, which is not 0.
pub fire_all-flaps :
    (calls : List (ℕ × State)) (start : ℕ) (w : MuteWatcher)
    → w.flap_threshold ≢ 0
    → w.suspended ≡ false
    → w.absent ≡ false
    → w.fire_times ≡ []
    → IsRapid w.flap_window start calls
    → (fire_all calls w).suspended ≡ ltb w.flap_threshold (length calls)
fire_all-flaps calls start w n s a t r =
    flaps calls start w n s a (at_most (ap length t) refl (omega arith)) (rw t tt) r
    ∙ ap (ltb w.flap_threshold) (counted (ap length t))
  where
    counted : {n : ℕ} → n ≡ 0 → n + length calls ≡ length calls
    counted e = omega arith
