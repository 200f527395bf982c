-- ===== src/Audit/Log/Stored.antt =====
-- internal/audit/audit.go: what the disk holds after any calls of the writer.
use dicta.Base.{
  ℕ, ◌≡◌, refl, Bool, true, false, ◌&&◌, ◌||◌, List, [], ◌∷◌, Option, none, some, Text, is_empty,
  text_eq, text_eq_refl, text_elem, if_intro, arith,
}
use dicta.Audit.Dates.{Moment, format_day}
use dicta.Audit.Log.{Record, Error, FileWriter, Disk, make_day, stamp, Call, writes, closes}

-- A row without its audio, which is the writer's to fill in.
abbrev pub view : Text × Record → Text × Record
view (day, r) = (day, record r { audio_path = []; pcm = [] })

abbrev pub views : List (Text × Record) → List (Text × Record)
views [] = []
views (x ∷ xs) = view x ∷ views xs

-- What a call adds: nothing if it returned an error, else its record, under its own day.
abbrev pub row_of : Call → Option Error → List (Text × Record)
row_of (closes e) err = []
row_of (writes e r) err = elim err [
  | none ↦
      let t : Moment = stamp e.now r.timestamp in
      view (format_day t.date, record r { timestamp = some t }) ∷ []
  | some _ ↦ []
]

abbrev pub has_audio : Text → Text → List (Text × Text × List ℕ) → Bool
has_audio day path [] = false
has_audio day path ((d, p, file) ∷ audio) =
    (text_eq day d && text_eq path p) || has_audio day path audio

-- The row lies in a directory that is there, and so does the audio that it names.
abbrev pub IsStored : Disk → Text × Record → Type 0
IsStored disk (day, r) =
    (text_elem day disk.days ≡ true)
    × ((is_empty r.audio_path || has_audio day r.audio_path disk.audio) ≡ true)

abbrev pub AreStored : Disk → List (Text × Record) → Type 0
AreStored disk [] = Unit {0}
AreStored disk (x ∷ xs) = IsStored disk x × AreStored disk xs

abbrev pub HasDay : Disk → Option Text → Type 0
HasDay disk none = Unit {0}
HasDay disk (some day) = text_elem day disk.days ≡ true

pub record IsLog (w : FileWriter) (disk : Disk) : Type 0 where
  pub open_day : HasDay disk w.jsonl
  pub stored : AreStored disk disk.rows

-- Directories and audio files are only added.
pub record Grows (d d' : Disk) : Type 0 where
  pub days : (day : Text) → text_elem day d.days ≡ true → text_elem day d'.days ≡ true
  pub audio :
      (day path : Text) → has_audio day path d.audio ≡ true → has_audio day path d'.audio ≡ true
  pub rows : d'.rows ≡ d.rows

Grows-AreStored :
    {d d' : Disk} → Grows d d' → (xs : List (Text × Record)) → AreStored d xs → AreStored d' xs
Grows-AreStored g [] h = tt
Grows-AreStored {d} {d'} g ((day, r) ∷ xs) h =
    ((g.days day h.0.0, named (is_empty r.audio_path) h.0.1), Grows-AreStored g xs h.1)
  where
    named :
        (b : Bool)
        → (b || has_audio day r.audio_path d.audio) ≡ true
        → (b || has_audio day r.audio_path d'.audio) ≡ true
    named true q = refl
    named false q = g.audio day r.audio_path q

pub Grows-IsLog : {w : FileWriter} {d d' : Disk} → Grows d d' → IsLog w d → IsLog w d'
Grows-IsLog {w} {d} {d'} g v = record {
  open_day = at w.jsonl v.open_day;
  stored = rw g.rows (Grows-AreStored g d.rows v.stored);
}
  where
    at : (o : Option Text) → HasDay d o → HasDay d' o
    at none h = tt
    at (some day) h = g.days day h

pub make_day-Grows : (day : Text) (d : Disk) → Grows d (make_day day d)
make_day-Grows day d =
    if_intro (Grows d) (text_elem day d.days)
      (λ _. record { days = λ x h. h; audio = λ x p h. h; rows = refl })
      (λ _. record { days = λ x h. ground (arith, h); audio = λ x p h. h; rows = refl })

pub make_day-elem : (day : Text) (d : Disk) → text_elem day (make_day day d).days ≡ true
make_day-elem day d =
    if_intro (λ (x : Disk). text_elem day x.days ≡ true) (text_elem day d.days) (λ h. h)
      (λ _. ground (arith, text_eq_refl day))
