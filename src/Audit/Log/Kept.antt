-- ===== src/Audit/Log/Kept.antt =====
-- internal/audit/audit.go: what the sweep of `Close` leaves of the days, the rows and the audio.
use mathlib.Core.Path.{subst}
use dicta.Base.{
  ℕ, ◌≡◌, refl, sym, ap, ◌∙◌, Bool, true, false, not, ◌&&◌, ◌||◌, List, [], ◌∷◌, Option, none, Text,
  is_empty, text_eq, text_eq_sound, text_elem, ◌==◌, if◌then◌else◌, if_intro, arith,
}
use dicta.Audit.Dates.{Moment, parse_day_dir}
use dicta.Audit.Retention.{
  SweepError, Swept, first, is_outdated, sweep_loop, sweep_retention, sweep_loop-entries,
}
use dicta.Audit.Log.{
  Record, Error, Env, FileWriter, Disk, entries_of, names_of, rows_in, audio_in, left_in, swept,
  close_error, close,
}
use dicta.Audit.Log.Stored.{views, has_audio, AreStored, IsLog}

-- The sweep leaves this day: it is no day, or not outdated, or its removal fails.
abbrev pub survives : Env → ℕ → Text → Bool
survives e retention day =
    retention == 0
    || e.read_fails
    || not (is_outdated e.now retention (parse_day_dir day))
    || e.remove_fails day

abbrev those : (Text → Bool) → List Text → List Text
those p [] = []
those p (x ∷ xs) = if p x then x ∷ those p xs else those p xs

those-all : (p : Text → Bool) → ((x : Text) → p x ≡ true) → (xs : List Text) → those p xs ≡ xs
those-all p h [] = refl
those-all p h (x ∷ xs) = rw (h x) (ap (◌∷◌ x) (those-all p h xs))

names_of-entries_of : (days : List Text) → names_of (entries_of days) ≡ days
names_of-entries_of [] = refl
names_of-entries_of (day ∷ days) = ap (◌∷◌ day) (names_of-entries_of days)

abbrev goes_on : Moment → ℕ → (Text → Bool) → Text → Bool
goes_on now n fails day = not (is_outdated now n (parse_day_dir day)) || fails day

sweep_loop-days :
    (now : Moment) (n : ℕ) (fails : Text → Bool) (f : Option SweepError) (days : List Text)
    → names_of (sweep_loop now n fails f (entries_of days)).entries
      ≡ those (goes_on now n fails) days
unfolding sweep_loop
sweep_loop-days now n fails f [] = refl
sweep_loop-days now n fails f (day ∷ days) = ground (
  arith,
  sweep_loop-days now n fails f days,
  sweep_loop-entries now n fails f (first day f) (entries_of days),
)

those-eq :
    (p q : Text → Bool) → ((x : Text) → p x ≡ q x) → (xs : List Text) → those p xs ≡ those q xs
those-eq p q h [] = refl
those-eq p q h (x ∷ xs) = ground (arith, h x, those-eq p q h xs)

sweep-days :
    (e : Env) (w : FileWriter) (disk : Disk)
    → names_of (swept e w disk).entries ≡ those (survives e w.retention) disk.days
unfolding sweep_retention
sweep-days e w disk =
    if_intro Good (w.retention == 0) (λ q. unswept (λ x. rw q refl))
      (λ q.
        if_intro Good e.read_fails (λ r. unswept (λ x. rw (q, r) refl))
          (λ r.
            sweep_loop-days e.now w.retention e.remove_fails none disk.days
            ∙ those-eq (goes_on e.now w.retention e.remove_fails) (survives e w.retention)
                (λ x. rw (q, r) refl) disk.days))
  where
    Good : Swept → Type 0
    Good s = names_of s.entries ≡ those (survives e w.retention) disk.days

    unswept :
        ((x : Text) → survives e w.retention x ≡ true)
        → names_of (entries_of disk.days) ≡ those (survives e w.retention) disk.days
    unswept h = names_of-entries_of disk.days ∙ sym (those-all (survives e w.retention) h disk.days)

-- Whether a day is left.
text_elem-those :
    (p : Text → Bool) (day : Text) (days : List Text)
    → text_elem day (those p days) ≡ text_elem day days && p day
text_elem-those p day [] = refl
text_elem-those p day (x ∷ days) = at (text_elem-those p day days) (text_eq day x) refl
  where
    at :
        text_elem day (those p days) ≡ text_elem day days && p day
        → (b : Bool) → text_eq day x ≡ b
        → text_elem day (those p (x ∷ days)) ≡ text_elem day (x ∷ days) && p day
    at ih true q = ground (arith, ih, q, ap p (text_eq_sound day x q))
    at ih false q = ground (arith, ih, q)

-- The rows of the days that are left.
abbrev pub surviving : (Text → Bool) → List (Text × Record) → List (Text × Record)
surviving p [] = []
surviving p ((day, r) ∷ rows) = if p day then (day, r) ∷ surviving p rows else surviving p rows

module _ (p : Text → Bool) (d : Disk) where
  views-rows_in :
      (rows : List (Text × Record))
      → AreStored d rows
      → views (rows_in (those p d.days) rows) ≡ surviving p (views rows)
  views-rows_in [] h = refl
  views-rows_in ((day, r) ∷ rows) h =
      ground (arith, text_elem-those p day d.days, h.0.0, views-rows_in rows h.1)

  has_audio-in :
      (day path : Text) (audio : List (Text × Text × List ℕ))
      → text_elem day (those p d.days) ≡ true
      → has_audio day path audio ≡ true
      → has_audio day path (audio_in (those p d.days) audio) ≡ true
  has_audio-in day path [] t h = h
  has_audio-in day path ((x, y, file) ∷ audio) t h =
      at (has_audio-in day path audio t) (text_eq day x) refl
    where
      at :
          (has_audio day path audio ≡ true
            → has_audio day path (audio_in (those p d.days) audio) ≡ true)
          → (b : Bool) → text_eq day x ≡ b
          → has_audio day path (audio_in (those p d.days) ((x, y, file) ∷ audio)) ≡ true
      at ih true q =
          let s : text_elem x (those p d.days) ≡ true =
            sym (ap (λ (k : Text). text_elem k (those p d.days)) (text_eq_sound day x q)) ∙ t in
          ground (arith, ih, s, h, q)
      at ih false q = ground (arith, ih, h, q)

  left-AreStored :
      (rows : List (Text × Record))
      → AreStored d rows
      → AreStored (left_in (those p d.days) d) (rows_in (those p d.days) rows)
  left-AreStored [] h = tt
  left-AreStored ((day, r) ∷ rows) h =
      if_intro (AreStored (left_in (those p d.days) d)) (text_elem day (those p d.days))
        (λ t. ((t, named t (is_empty r.audio_path) h.0.1), left-AreStored rows h.1))
        (λ _. left-AreStored rows h.1)
    where
      named :
          text_elem day (those p d.days) ≡ true
          → (b : Bool) → (b || has_audio day r.audio_path d.audio) ≡ true
          → (b || has_audio day r.audio_path (audio_in (those p d.days) d.audio)) ≡ true
      named t true q = refl
      named t false q = has_audio-in day r.audio_path d.audio t q

-- What `Close` leaves of rows that are in place: those of the days that survive the sweep.
pub close-IsSwept :
    (e : Env) (w : FileWriter) (d : Disk)
    → IsLog w d
    → let x = close e w d in
      IsLog x.0 x.1
      × (views x.1.rows
          ≡ (if w.closed then views d.rows else surviving (survives e w.retention) (views d.rows)))
unfolding close
close-IsSwept e w d v = at w.closed
  where
    p : Text → Bool
    p = survives e w.retention

    days : names_of (swept e w d).entries ≡ those p d.days
    days = sweep-days e w d

    at :
        (b : Bool)
        → let x : FileWriter × Disk × Option Error = if b then (w, d, none) else (
          record w { closed = true; jsonl = none },
          left_in (names_of (swept e w d).entries) d,
          close_error e w.jsonl (swept e w d).failed,
        ) in
          IsLog x.0 x.1
          × (views x.1.rows ≡ (if b then views d.rows else surviving p (views d.rows)))
    at true = (v, refl)
    at false = (
      record {
        open_day = tt;
        stored =
            subst (λ (l : List Text). AreStored (left_in l d) (rows_in l d.rows)) (sym days)
              (left-AreStored p d d.rows v.stored);
      },
      ap (λ (l : List Text). views (rows_in l d.rows)) days ∙ views-rows_in p d d.rows v.stored,
    )
