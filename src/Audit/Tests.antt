-- ===== src/Audit/Tests.antt =====
-- internal/audit: runs of the names and the files of utterances.
use dicta.Base.{
  ℕ, ◌≡◌, refl, Bool, true, false, List, [], ◌∷◌, ◌++◌, Option, none, some, Text, codes, is_empty,
  trim_space, trim_left, trim_right, arith,
}
use dicta.Base.Samples.{ascii}
use dicta.Audit.{sanitize_id, replace_dots}
use dicta.Audit.Sanitize.{IsSafe}
use dicta.Audit.Inside.{IsFileName, wav_name, audio_rel-IsInside}
use dicta.Paths.{join}
use dicta.Audit.Dates.{Date, Moment, format_day, parse_day_dir, day_number}
use dicta.Audit.Retention.{Entry, day_dir, left_of, sweep_retention, sweep_retention-day_dir}
use dicta.Audit.Log
use dicta.Audit.Log.{audio_rel, Record, Env, Disk, Call, writes, closes}
use dicta.Audit.Log.Stored.{IsLog, views}
use dicta.Audit.Log.Runs.{ledger, run-logged}
use dicta.Audit.Wav.{wav_file, IsWav, wav_file-IsWav}

climbs : sanitize_id ascii (codes "../../etc") ≡ codes "____etc"
unfolding sanitize_id replace_dots trim_space trim_left trim_right
climbs = refl

-- The whole name may have two dots in a row.
dotted : audio_rel ascii (codes ".") ≡ codes "audio/..wav"
unfolding sanitize_id replace_dots trim_space trim_left trim_right join
dotted = refl

audio_rel-IsInside_example :
    (audio_rel ascii (codes "../../etc")
      ≡ codes "audio/" ++ wav_name (sanitize_id ascii (codes "../../etc")))
    × IsFileName (wav_name (sanitize_id ascii (codes "../../etc")))
    × IsSafe (sanitize_id ascii (codes "../../etc"))
    × (is_empty (sanitize_id ascii (codes "../../etc")) ≡ false)
audio_rel-IsInside_example = audio_rel-IsInside ascii (codes "../../etc")

wav_file-IsWav_example :
    (file : List ℕ) × (wav_file (1 ∷ 2 ∷ 3 ∷ 4 ∷ []) ≡ some file) × IsWav file (1 ∷ 2 ∷ 3 ∷ 4 ∷ [])
wav_file-IsWav_example = wav_file-IsWav (1 ∷ 2 ∷ 3 ∷ 4 ∷ []) (omega arith) (omega arith)

abbrev noon : Moment
noon = record { date = record { year = 2026; month = 3; day = 8 }; clock = 43_200 }

abbrev disk_of : Bool → Env
disk_of fails = record {
  now = noon;
  mkdir_fails = false;
  open_fails = fails;
  wav_fails = false;
  encode_fails = false;
  close_fails = false;
  read_fails = false;
  remove_fails = λ day. false;
}

abbrev said : Option Moment → Text → Record
said at text = record {
  timestamp = at;
  mode = codes "type";
  utterance_id = codes "u1/2";
  backend = [];
  raw_text = text;
  cleaned_text = [];
  language = [];
  asr_latency = 5;
  cleanup_latency = 0;
  audio_path = [];
  pcm = 1 ∷ 2 ∷ [];
}

abbrev next_day : Moment
next_day = record { date = record { year = 2026; month = 3; day = 9 }; clock = 1 }

-- A record, one for which the next day's file cannot be opened, and one after that.
abbrev written : List Call
written =
    writes (disk_of false) (said none (codes "one"))
    ∷ writes (disk_of true) (said (some next_day) (codes "two"))
    ∷ writes (disk_of false) (said (some next_day) (codes "three"))
    ∷ []

-- On the next day the writer, which keeps a day, is closed; what comes behind that is refused.
abbrev calls : List Call
calls =
    written
    ++ (closes (record (disk_of false) { now = next_day })
        ∷ writes (disk_of false) (said none (codes "four"))
        ∷ [])

abbrev empty_disk : Disk
empty_disk = record { days = []; rows = []; audio = [] }

abbrev names : List (Text × Record) → List (Text × Text × Text)
names [] = []
names ((day, r) ∷ rows) = (day, r.raw_text, r.audio_path) ∷ names rows

rotates :
    names (Log.run ascii written (Log.new true 1) empty_disk).1.rows
    ≡ (codes "2026-03-08", codes "one", codes "audio/u1_2.wav")
      ∷ (codes "2026-03-09", codes "three", codes "audio/u1_2.wav")
      ∷ []
unfolding Log.run Log.new sanitize_id trim_space format_day wav_file join
rotates = refl

sweeps :
    names (Log.run ascii calls (Log.new true 1) empty_disk).1.rows
    ≡ (codes "2026-03-09", codes "three", codes "audio/u1_2.wav") ∷ []
unfolding Log.run Log.new sanitize_id trim_space format_day parse_day_dir day_number wav_file join
    sweep_retention
sweeps = refl

run-logged_example :
    IsLog
      (Log.run ascii calls (Log.new true 1) empty_disk).0
      (Log.run ascii calls (Log.new true 1) empty_disk).1
    × (views (Log.run ascii calls (Log.new true 1) empty_disk).1.rows
        ≡ ledger ascii calls (Log.new true 1) empty_disk [])
unfolding Log.new
run-logged_example =
    run-logged ascii calls (Log.new true 1) empty_disk (refl, (refl, (refl, (tt, (refl, tt)))))
      (record { open_day = tt; stored = tt })

abbrev week_old : Date
week_old = record { year = 2026; month = 3; day = 1 }

abbrev own : Entry
own = record { name = codes "notes"; is_dir = true }

sweep_retention-day_dir_example :
    (sweep_retention noon 7 false (λ _. false) (own ∷ day_dir week_old ∷ [])).entries
    ≡ (sweep_retention noon 7 false (λ _. false) (own ∷ [])).entries
      ++ (left_of noon 7 (λ _. false) week_old
          ++ (sweep_retention noon 7 false (λ _. false) []).entries)
sweep_retention-day_dir_example =
    sweep_retention-day_dir noon 7 (λ _. false) (own ∷ []) [] week_old (omega arith) (omega arith)
      (record { short = omega arith; valid = refl })

-- A directory just seven days old goes.
seven_days :
    (sweep_retention noon 7 false (λ _. false) (own ∷ day_dir week_old ∷ [])).entries ≡ own ∷ []
unfolding sweep_retention format_day parse_day_dir day_number
seven_days = refl
