-- ===== src/Audit/Log/Runs.antt =====
-- internal/audit/audit.go: the rows after any calls of the writer.
use dicta.Base.{
  ◌≡◌, refl, sym, ap, ◌∙◌, true, List, [], ◌∷◌, ◌++◌, Option, some, Text, Unicode, is_empty,
  if_intro, append-nil, if◌then◌else◌,
}
use dicta.Audit.Dates.{Moment, format_day}
use dicta.Audit.Log.{
  Record, Error, FileWriter, Disk, rotate, stamp, record_row, Call, writes, closes, step, run,
}
use dicta.Audit.Log.Stored.{views, row_of, IsLog}
use dicta.Audit.Log.Kept.{survives, surviving, close-IsSwept}
use dicta.Audit.Log.Append.{rotate-IsRotated, append_row-IsDone}

-- The caller leaves the audio's path to the writer.
abbrev pub LeavesAudio : Call → Type 0
LeavesAudio (writes e r) = is_empty r.audio_path ≡ true
LeavesAudio (closes e) = Unit {0}

abbrev pub AllLeaveAudio : List Call → Type 0
AllLeaveAudio [] = Unit {0}
AllLeaveAudio (k ∷ ks) = LeavesAudio k × AllLeaveAudio ks

-- What a call leaves of the rows that were there: a `Close` of an open writer sweeps the outdated days.
abbrev pub kept : Call → FileWriter → List (Text × Record) → List (Text × Record)
kept (writes e r) w rows = rows
kept (closes e) w rows = if w.closed then rows else surviving (survives e w.retention) rows

module _ (u : Unicode) where
  -- The rows after a call.
  record IsStepped (k : Call) (w : FileWriter) (d : Disk) (x : FileWriter × Disk × Option Error)
      : Type 0 where
    log : IsLog x.0 x.1
    rows : views x.1.rows ≡ kept k w (views d.rows) ++ row_of k x.2

  step-IsStepped :
      (k : Call) (w : FileWriter) (d : Disk)
      → LeavesAudio k
      → IsLog w d
      → IsStepped k w d (step u k w d)
  unfolding step record_row
  step-IsStepped (writes e r) w d h v =
      let t : Moment = stamp e.now r.timestamp in
      if_intro (IsStepped (writes e r) w d) w.closed
        (λ _. record { log = v; rows = sym (append-nil (views d.rows)) })
        (λ _.
          let done =
            append_row-IsDone u e (format_day t.date) (record r { timestamp = some t }) d
              (rotate e (format_day t.date) w d) h (rotate-IsRotated e (format_day t.date) w d v) in
          record { log = done.log; rows = done.rows })
  step-IsStepped (closes e) w d h v =
      let swept = close-IsSwept e w d v in
      record { log = swept.0; rows = swept.1 ∙ sym (append-nil (kept (closes e) w (views d.rows))) }

  -- The rows that these calls make of the rows that were there.
  unfoldable pub ledger :
      List Call → FileWriter → Disk → List (Text × Record) → List (Text × Record)
  ledger [] w d rows = rows
  ledger (k ∷ ks) w d rows =
      let (w', d', err) = step u k w d in ledger ks w' d' (kept k w rows ++ row_of k err)

  -- After any calls of the writer, with any answers of the file system, on a disk whose rows are in
  -- place: each `Record` that returned no error has added its record as the last row, under the day
  -- of its own time stamp, and no other has added one; the first `Close` has taken the rows of the
  -- days that its sweep removes, and no call any other row. Each row lies in a day directory that is
  -- there, and so does each audio file that a row names. The callers leave the path of the audio
  -- empty.
  pub run-logged :
      (ks : List Call) (w : FileWriter) (d : Disk)
      → AllLeaveAudio ks
      → IsLog w d
      → IsLog (run u ks w d).0 (run u ks w d).1
        × (views (run u ks w d).1.rows ≡ ledger ks w d (views d.rows))
  unfolding run ledger
  run-logged [] w d h v = (v, refl)
  run-logged (k ∷ ks) w d h v =
      let x : FileWriter × Disk × Option Error = step u k w d in
      let once : IsStepped k w d x = step-IsStepped k w d h.0 v in
      let rest : IsLog (run u ks x.0 x.1).0 (run u ks x.0 x.1).1
          × (views (run u ks x.0 x.1).1.rows ≡ ledger ks x.0 x.1 (views x.1.rows)) =
        run-logged ks x.0 x.1 h.1 once.log in
      (rest.0, rest.1 ∙ ap (ledger ks x.0 x.1) once.rows)
