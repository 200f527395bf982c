-- ===== src/Audit/Log/Append.antt =====
-- internal/audit/audit.go: a record written to the file of its day.
use mathlib.Core.Path.{subst}
use dicta.Base.{
  ℕ, ◌≡◌, refl, sym, ap, ap₂, ◌∙◌, true, not, ◌&&◌, ◌||◌, List, [], ◌∷◌, ◌++◌, Option, none, some,
  Text, Unicode, is_empty, text_eq_refl, text_eq_sound, if_intro, append-nil, arith,
}
use dicta.Audit.Wav.{wav_file}
use dicta.Audit.Log.{
  Record, Error, Env, FileWriter, Disk, make_day, is_day, rotate, audio_rel, save_audio,
  write_audio, row, put_row, append_row,
}
use dicta.Audit.Log.Stored.{
  view, views, has_audio, IsStored, AreStored, HasDay, IsLog, Grows, Grows-IsLog, make_day-Grows,
  make_day-elem,
}

pub record IsRotated (day : Text) (d : Disk) (x : FileWriter × Disk × Option Error) : Type 0 where
  pub log : IsLog x.0 x.1
  pub rows : x.1.rows ≡ d.rows
  pub opened : x.2 ≡ none → x.0.jsonl ≡ some day

is_day-some : (day : Text) (o : Option Text) → is_day day o ≡ true → o ≡ some day
is_day-some day none h = cc
is_day-some day (some d) h = ap some (text_eq_sound d day h)

pub rotate-IsRotated :
    (e : Env) (day : Text) (w : FileWriter) (d : Disk)
    → IsLog w d
    → IsRotated day d (rotate e day w d)
unfolding rotate
rotate-IsRotated e day w d v =
    if_intro (IsRotated day d) (is_day day w.jsonl)
      (λ h. record { log = v; rows = refl; opened = λ _. is_day-some day w.jsonl h })
      (λ _.
        if_intro (IsRotated day d) e.mkdir_fails
          (λ _. record {
            log = record { open_day = tt; stored = v.stored };
            rows = refl;
            opened = λ q. cc;
          })
          (λ _.
            if_intro (IsRotated day d) e.open_fails
              (λ _. record {
                log = record { open_day = tt; stored = made.stored };
                rows = g.rows;
                opened = λ q. cc;
              })
              (λ _. record {
                log = record { open_day = make_day-elem day d; stored = made.stored };
                rows = g.rows;
                opened = λ q. refl;
              })))
  where
    g : Grows d (make_day day d)
    g = make_day-Grows day d

    made : IsLog w (make_day day d)
    made = Grows-IsLog g v

record IsSaved (day : Text) (r : Record) (d : Disk) (x : Record × Disk) : Type 0 where
  grows : Grows d x.1
  same : view (day, x.0) ≡ view (day, r)
  named : (is_empty x.0.audio_path || has_audio day x.0.audio_path x.1.audio) ≡ true

write_audio-IsSaved :
    (u : Unicode) (e : Env) (day : Text) (w : FileWriter) (r : Record) (d : Disk)
    → is_empty r.audio_path ≡ true
    → IsSaved day r d (write_audio u e day w r d)
unfolding write_audio
write_audio-IsSaved u e day w r d h =
    if_intro (IsSaved day r d)
      (w.keep_audio && not (is_empty r.pcm) && not (is_empty r.utterance_id))
      (λ _. at (wav_file r.pcm)) (λ _. none_saved)
  where
    rel : Text
    rel = audio_rel u r.utterance_id

    none_saved : IsSaved day r d (r, d)
    none_saved = record {
      grows = record { days = λ x q. q; audio = λ x p q. q; rows = refl };
      same = refl;
      named = rw h refl;
    }

    at : (o : Option (List ℕ)) → IsSaved day r d (save_audio e day rel o r d)
    at none = none_saved
    at (some file) =
        if_intro (IsSaved day r d) e.wav_fails (λ _. none_saved)
          (λ _. record {
            grows = record { days = λ x q. q; audio = λ x p q. ground (arith, q); rows = refl };
            same = refl;
            named = ground (arith, text_eq_refl day, text_eq_refl rel);
          })

views-append : (xs ys : List (Text × Record)) → views (xs ++ ys) ≡ views xs ++ views ys
views-append [] ys = refl
views-append (x ∷ xs) ys = ap (◌∷◌ (view x)) (views-append xs ys)

AreStored-snoc :
    (d : Disk) (xs : List (Text × Record)) (x : Text × Record)
    → AreStored d xs
    → IsStored d x
    → AreStored d (xs ++ x ∷ [])
AreStored-snoc d [] x h q = (q, tt)
AreStored-snoc d (y ∷ xs) x h q = (h.0, AreStored-snoc d xs x h.1 q)

-- What a call leaves, and the rows that it adds.
pub record IsDone (d : Disk) (added : Option Error → List (Text × Record))
    (x : FileWriter × Disk × Option Error) : Type 0 where
  pub log : IsLog x.0 x.1
  pub rows : views x.1.rows ≡ views d.rows ++ added x.2

-- A row written to the open file of its day.
put_row-IsLog :
    (day : Text) (r : Record) (w : FileWriter) (d : Disk)
    → w.jsonl ≡ some day
    → (is_empty r.audio_path || has_audio day r.audio_path d.audio) ≡ true
    → IsLog w d
    → IsLog w (put_row w.jsonl r d)
      × (views (put_row w.jsonl r d).rows ≡ views d.rows ++ view (day, r) ∷ [])
put_row-IsLog day r w d o h v = subst Good (sym o) (
  record {
    open_day = same w.jsonl v.open_day;
    stored =
        AreStored-rows d.rows
          (AreStored-snoc d d.rows (day, row r) v.stored (subst (HasDay d) o v.open_day, h));
  },
  views-append d.rows ((day, row r) ∷ []),
)
  where
    added : Disk
    added = record d { rows = d.rows ++ (day, row r) ∷ [] }

    Good : Option Text → Type 0
    Good q =
        IsLog w (put_row q r d) × (views (put_row q r d).rows ≡ views d.rows ++ view (day, r) ∷ [])

    same : (q : Option Text) → HasDay d q → HasDay added q
    same none k = tt
    same (some x) k = k

    AreStored-rows :
        (xs : List (Text × Record))
        → AreStored d (xs ++ (day, row r) ∷ [])
        → AreStored added (xs ++ (day, row r) ∷ [])
    AreStored-rows [] k = k
    AreStored-rows (x ∷ xs) k = (k.0, AreStored-rows xs k.1)

-- Where a call writes and the record of its outcome.
pub append_row-IsDone :
    (u : Unicode) (e : Env) (day : Text) (r : Record) (d : Disk)
    (x : FileWriter × Disk × Option Error)
    → is_empty r.audio_path ≡ true
    → IsRotated day d x
    → IsDone d
        (λ err. elim err [ none ↦ view (day, r) ∷ [] | some _ ↦ [] ])
        (append_row u e day r x)
unfolding append_row
append_row-IsDone u e day r d (w, d1, some err) h k = record {
  log = k.log;
  rows = ap views k.rows ∙ sym (append-nil (views d.rows));
}
append_row-IsDone u e day r d (w, d1, none) h k =
    if_intro (IsDone d (λ err. elim err [ none ↦ view (day, r) ∷ [] | some _ ↦ [] ])) e.encode_fails
      (λ _. record {
        log = log;
        rows = ap views (sv.grows.rows ∙ k.rows) ∙ sym (append-nil (views d.rows));
      })
      (λ _. record {
        log = put.0;
        rows = put.1 ∙ ap₂ (λ xs y. xs ++ y ∷ []) (ap views (sv.grows.rows ∙ k.rows)) sv.same;
      })
  where
    sv : IsSaved day r d1 (write_audio u e day w r d1)
    sv = write_audio-IsSaved u e day w r d1 h

    log : IsLog w (write_audio u e day w r d1).1
    log = Grows-IsLog sv.grows k.log

    put :
        IsLog w (put_row w.jsonl (write_audio u e day w r d1).0 (write_audio u e day w r d1).1)
        × (views
              (put_row w.jsonl (write_audio u e day w r d1).0 (write_audio u e day w r d1).1).rows
            ≡ views (write_audio u e day w r d1).1.rows
              ++ view (day, (write_audio u e day w r d1).0) ∷ [])
    put =
        put_row-IsLog day (write_audio u e day w r d1).0 w (write_audio u e day w r d1).1
          (k.opened refl) sv.named log
