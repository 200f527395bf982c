-- ===== src/Audit/Log.antt =====
-- internal/audit/audit.go: the writer of the records, one file for each day, and what is on disk.
pub mod Stored
pub mod Append
pub mod Kept
pub mod Runs
use dicta.Base.{
  ℕ, ◌≡◌, refl, Bool, true, false, not, ◌&&◌, ◌||◌, List, [], ◌∷◌, ◌++◌, Option, none, some, Text,
  Unicode, codes, is_empty, text_eq, text_elem, if◌then◌else◌, arith,
}
use dicta.Paths.{join}
use dicta.Audit.{sanitize_id}
use dicta.Audit.Wav.{wav_file}
use dicta.Audit.Dates.{Date, Moment, format_day}
use dicta.Audit.Retention.{Entry, SweepError, Swept, sweep_retention}

-- `Record`; the zero time is `none`. Latencies are numbers.
pub record Record : Type 0 where
  pub timestamp : Option Moment
  pub mode : Text
  pub utterance_id : Text
  pub backend : Text
  pub raw_text : Text
  pub cleaned_text : Text
  pub language : Text
  pub asr_latency : ℕ
  pub cleanup_latency : ℕ
  pub audio_path : Text
  pub pcm : List ℕ

pub data Error : Type 0 where
  writer_closed mkdir_failed open_failed encode_failed close_failed sweep_failed : Error

-- The answers of the clock and the file system during one call.
pub record Env : Type 0 where
  pub now : Moment
  pub mkdir_fails : Bool
  pub open_fails : Bool
  pub wav_fails : Bool
  pub encode_fails : Bool
  pub close_fails : Bool
  pub read_fails : Bool
  pub remove_fails : Text → Bool

-- `fileWriter`: `jsonl` is the day of the open file; a retention of 0 keeps every day.
pub record FileWriter : Type 0 where
  pub keep_audio : Bool
  pub retention : ℕ
  pub jsonl : Option Text
  pub closed : Bool

-- The day directories; the rows of all days, each with its day, in the order of their writing; and
-- the WAV files by their paths below a day, the newest first.
pub record Disk : Type 0 where
  pub days : List Text
  pub rows : List (Text × Record)
  pub audio : List (Text × Text × List ℕ)

unfoldable pub new : Bool → ℕ → FileWriter
new keep_audio retention = record {
  keep_audio = keep_audio;
  retention = retention;
  jsonl = none;
  closed = false;
}

-- os.MkdirAll.
abbrev pub make_day : Text → Disk → Disk
make_day day disk = if text_elem day disk.days then disk else record disk { days = day ∷ disk.days }

abbrev pub is_day : Text → Option Text → Bool
is_day day none = false
is_day day (some d) = text_eq d day

-- The rotation: `some` is its error.
unfoldable pub rotate : Env → Text → FileWriter → Disk → FileWriter × Disk × Option Error
rotate e day w disk =
    if is_day day w.jsonl
    then (w, disk, none)
    else if e.mkdir_fails
    then (record w { jsonl = none }, disk, some mkdir_failed)
    else if e.open_fails
    then (record w { jsonl = none }, make_day day disk, some open_failed)
    else (record w { jsonl = some day }, make_day day disk, none)

-- The path of the audio file below its day.
abbrev pub audio_rel : Unicode → Text → Text
audio_rel u id = join (codes "audio") (sanitize_id u id ++ codes ".wav")

abbrev pub save_audio : Env → Text → Text → Option (List ℕ) → Record → Disk → Record × Disk
save_audio e day rel none r disk = (r, disk)
save_audio e day rel (some file) r disk =
    if e.wav_fails
    then (r, disk)
    else (record r { audio_path = rel }, record disk { audio = (day, rel, file) ∷ disk.audio })

-- The WAV file, if one is wanted: an error is only logged.
unfoldable pub write_audio : Unicode → Env → Text → FileWriter → Record → Disk → Record × Disk
write_audio u e day w r disk =
    if w.keep_audio && not (is_empty r.pcm) && not (is_empty r.utterance_id)
    then save_audio e day (audio_rel u r.utterance_id) (wav_file r.pcm) r disk
    else (r, disk)

abbrev pub stamp : Moment → Option Moment → Moment
stamp now none = now
stamp now (some t) = t

-- What JSON keeps of a record: all but the audio.
abbrev pub row : Record → Record
row r = record r { pcm = [] }

-- The encoder writes to the file that is open.
abbrev pub put_row : Option Text → Record → Disk → Disk
put_row none r disk = disk
put_row (some day) r disk = record disk { rows = disk.rows ++ (day, row r) ∷ [] }

-- `Record` behind the rotation.
unfoldable pub append_row :
    Unicode
    → Env
    → Text
    → Record
    → FileWriter × Disk × Option Error
    → FileWriter × Disk × Option Error
unfolding write_audio
append_row u e day r (w, disk, some err) = (w, disk, some err)
append_row u e day r (w, disk, none) =
    let (r', disk') = write_audio u e day w r disk in
    if e.encode_fails then (w, disk', some encode_failed) else (w, put_row w.jsonl r' disk', none)

unfoldable pub record_row :
    Unicode → Env → Record → FileWriter → Disk → FileWriter × Disk × Option Error
unfolding rotate append_row
record_row u e r w disk =
    let t = stamp e.now r.timestamp in
    let day = format_day t.date in
    if w.closed
    then (w, disk, some writer_closed)
    else append_row u e day (record r { timestamp = some t }) (rotate e day w disk)

abbrev pub entries_of : List Text → List Entry
entries_of [] = []
entries_of (day ∷ days) = record { name = day; is_dir = true } ∷ entries_of days

abbrev pub names_of : List Entry → List Text
names_of [] = []
names_of (x ∷ xs) = x.name ∷ names_of xs

-- What is left in the directories of these days.
abbrev pub rows_in : List Text → List (Text × Record) → List (Text × Record)
rows_in days [] = []
rows_in days ((day, r) ∷ rows) =
    if text_elem day days then (day, r) ∷ rows_in days rows else rows_in days rows

abbrev pub audio_in : List Text → List (Text × Text × List ℕ) → List (Text × Text × List ℕ)
audio_in days [] = []
audio_in days ((day, path, file) ∷ audio) =
    if text_elem day days then (day, path, file) ∷ audio_in days audio else audio_in days audio

-- The directory of a day goes with its rows and its audio, whole: one whose removal fails is taken
-- to stay as it is.
abbrev pub left_in : List Text → Disk → Disk
left_in days disk = record {
  days = days;
  rows = rows_in days disk.rows;
  audio = audio_in days disk.audio;
}

abbrev pub swept : Env → FileWriter → Disk → Swept
swept e w disk =
    sweep_retention e.now w.retention e.read_fails e.remove_fails (entries_of disk.days)

abbrev pub sweep_error : Option SweepError → Option Error
sweep_error none = none
sweep_error (some err) = some sweep_failed

abbrev pub close_error : Env → Option Text → Option SweepError → Option Error
close_error e none failed = sweep_error failed
close_error e (some day) failed = if e.close_fails then some close_failed else sweep_error failed

-- `Close`, which ends with a sweep.
unfoldable pub close : Env → FileWriter → Disk → FileWriter × Disk × Option Error
unfolding sweep_retention
close e w disk =
    let s = swept e w disk in
    if w.closed then (w, disk, none) else (
      record w { closed = true; jsonl = none },
      left_in (names_of s.entries) disk,
      close_error e w.jsonl s.failed,
    )

pub data Call : Type 0 where
  writes : Env → Record → Call
  closes : Env → Call

module _ (u : Unicode) where
  unfoldable pub step : Call → FileWriter → Disk → FileWriter × Disk × Option Error
  unfolding record_row close
  step (writes e r) w disk = record_row u e r w disk
  step (closes e) w disk = close e w disk

  unfoldable pub run : List Call → FileWriter → Disk → FileWriter × Disk
  unfolding step
  run [] w disk = (w, disk)
  run (k ∷ ks) w disk = let (w', disk', err) = step k w disk in run ks w' disk'
