-- ===== src/AudioMonitor/Bytes.antt =====
-- cmd/dictad/audiomonitor.go: the bytes that the loop hears and hands on.
use dicta.Base.{
  ℕ, suc, ◌≡◌, refl, sym, ap, ap₂, ◌∙◌, Bool, true, false, not, ◌&&◌, List, [], ◌∷◌, ◌++◌,
  append-nil, append_assoc, Option, none, some, take, drop, take-append-drop, leb, length, ◌==◌,
  if◌then◌else◌, if_intro, arith,
}
use dicta.Audio.RingBuffer
use dicta.AudioMonitor.{
  Sizes, Config, Hook, utterance, frame, AudioMonitor, emit, split, begin, on_speech, on_silence,
  revive, on_frame, quietest_split, flush, on_stall, stalled_at, Round, hears, flushes, waits,
  round, loop, start, count,
}

-- The audio of the utterances that were handed on, oldest first.
abbrev pub delivered : List Hook → List ℕ
delivered [] = []
delivered (utterance pcm ∷ hs) = delivered hs ++ pcm
delivered (_ ∷ hs) = delivered hs

-- The audio of the frames that the VAD calls speech.
abbrev pub speech : Round → List ℕ
speech (hears now f v) = if v.speech then f.pcm else []
speech flushes = []
speech (waits now) = []

abbrev pub spoken : List Round → List ℕ
spoken [] = []
spoken (r ∷ rs) = speech r ++ spoken rs

abbrev pub held : AudioMonitor → List ℕ
held m = delivered m.hooks ++ m.accumulator

-- The utterances are handed on, none is dropped as too short, and between utterances nothing is
-- held.
record IsKeeping (c : Config) (m : AudioMonitor) : Type 0 where
  hands_on : c.has_on_utterance ≡ true
  drops_none : c.min_raw_speech_frames ≡ 0
  empty : m.in_utterance ≡ false → m.accumulator ≡ []

emit-held : (c : Config) (m : AudioMonitor) → IsKeeping c m → held (emit c m) ≡ held m
unfolding emit
emit-held c m k = at m.accumulator refl
  where
    at : (a : List ℕ) → m.accumulator ≡ a → held (emit c m) ≡ held m
    at [] q = ground (arith, k, append-nil (delivered m.hooks))
    at (x ∷ a) q = ground (arith, k, append-nil (delivered m.hooks ++ m.accumulator))

split-held :
    {F : Type 0} (z : Sizes F) (c : Config) (m : AudioMonitor) → held (split z c m) ≡ held m
unfolding split
split-held z c m =
    let cut : ℕ = quietest_split z m.accumulator in
    if_intro (λ (x : AudioMonitor). held x ≡ held m)
      (not (c.max_utterance_bytes == 0) && leb c.max_utterance_bytes (length m.accumulator))
      (λ _.
        append_assoc (delivered m.hooks) (take cut m.accumulator) (drop cut m.accumulator)
        ∙ ap (◌++◌ (delivered m.hooks)) (take-append-drop cut m.accumulator))
      (λ _. refl)

-- A round hears `pcm`.
record IsHeard (c : Config) (pcm : List ℕ) (m m' : AudioMonitor) : Type 0 where
  held : held m' ≡ held m ++ pcm
  keeping : IsKeeping c m'

emit-IsHeard : (c : Config) (m : AudioMonitor) → IsKeeping c m → IsHeard c [] m (emit c m)
emit-IsHeard c m k = record {
  held = emit-held c m k ∙ sym (append-nil (held m));
  keeping = emptied;
}
  where
    emptied : IsKeeping c (emit c m)
    emptied = unfold emit in ground (arith, k)

begin-held :
    (c : Config) (m : AudioMonitor)
    → IsKeeping c m
    → (held (begin m) ≡ held m) × ((begin m).in_utterance ≡ true)
unfolding begin
begin-held c m k = ground (arith, k)

module _ {F : Type 0} (z : Sizes F) where
  split-in_utterance : (c : Config) (m : AudioMonitor) → (split z c m).in_utterance ≡ m.in_utterance
  unfolding split
  split-in_utterance c m = ground arith

  on_speech-IsHeard :
      (c : Config) (pcm : List ℕ) (raw : Bool) (m : AudioMonitor)
      → IsKeeping c m
      → IsHeard c pcm m (on_speech z c pcm raw m)
  unfolding on_speech
  on_speech-IsHeard c pcm raw m k =
      if_intro (IsHeard c pcm m) c.has_on_utterance
        (λ _. record {
          held =
              split-held z c full
              ∙ (sym (append_assoc (delivered b.hooks) b.accumulator pcm)
                  ∙ ap (λ l. l ++ pcm) begun.0);
          keeping = record {
            hands_on = k.hands_on;
            drops_none = k.drops_none;
            empty = λ q. absurd (clash (split-in_utterance c full) begun.1 q);
          };
        })
        (λ q. absurd (clash refl k.hands_on q))
    where
      b : AudioMonitor
      b = begin (record m { speech_frames = count m.speech_frames })

      begun : (held b ≡ held m) × (b.in_utterance ≡ true)
      begun = begin-held c (record m { speech_frames = count m.speech_frames }) (ground (arith, k))

      full : AudioMonitor
      full = record b {
        raw_speech_count = if raw then suc b.raw_speech_count else b.raw_speech_count;
        accumulator = b.accumulator ++ pcm;
      }

      clash : {x y : Bool} → x ≡ y → y ≡ true → x ≡ false → ⊥
      clash p q r = cc

  on_silence-IsHeard :
      (c : Config) (m : AudioMonitor) → IsKeeping c m → IsHeard c [] m (on_silence c m)
  unfolding on_silence
  on_silence-IsHeard c m k =
      if_intro (IsHeard c [] m) m.in_utterance
        (λ _.
          let h : IsHeard c [] quiet (emit c quiet) = emit-IsHeard c quiet (ground (arith, k)) in
          record { held = h.held; keeping = h.keeping })
        (λ _. record { held = sym (append-nil (held m)); keeping = ground (arith, k) })
    where
      quiet : AudioMonitor
      quiet = record m { silence_frames = count m.silence_frames }

  round-IsHeard :
      (c : Config) (r : Round) (m : AudioMonitor)
      → IsKeeping c m
      → IsHeard c (speech r) m (round z c r m)
  unfolding round on_frame revive flush on_stall
  round-IsHeard c (hears now f v) m k =
      if_intro (IsHeard c (speech (hears now f v)) m) v.speech
        (λ q.
          let h : IsHeard c f.pcm told (on_speech z c f.pcm v.raw told) =
            on_speech-IsHeard c f.pcm v.raw told lives.1 in
          record { held = h.held ∙ same q; keeping = h.keeping })
        (λ q.
          let h : IsHeard c [] told (on_silence c told) = on_silence-IsHeard c told lives.1 in
          record { held = h.held ∙ same q; keeping = h.keeping })
    where
      told : AudioMonitor
      told =
          let m' : AudioMonitor = revive c now m in
          record m' {
            rb = RingBuffer.push m'.rb f;
            frames = count m'.frames;
            hooks = frame f.pcm ∷ m'.hooks;
            last_speech = v.speech;
          }

      lives : (held told ≡ held m) × IsKeeping c told
      lives = ground (arith, k)

      same :
          {b : Bool}
          → v.speech ≡ b
          → held told ++ (if b then f.pcm else []) ≡ held m ++ speech (hears now f v)
      same q = ap₂ (λ x y. x ++ y) lives.0 (sym (ap (λ b. if b then f.pcm else []) q))
  round-IsHeard c flushes m k =
      if_intro (IsHeard c [] m) m.running (λ _. emit-IsHeard c m k)
        (λ _. record { held = sym (append-nil (held m)); keeping = k })
  round-IsHeard c (waits now) m k = at m.stall
    where
      at : (o : Option ℕ) → IsHeard c [] m (stalled_at o now m)
      at none = record { held = sym (append-nil (held m)); keeping = k }
      at (some d) =
          if_intro (IsHeard c [] m) (leb d now)
            (λ _. record { held = sym (append-nil (held m)); keeping = ground (arith, k) })
            (λ _. record { held = sym (append-nil (held m)); keeping = k })

  loop-held :
      (c : Config) (rs : List Round) (m : AudioMonitor)
      → IsKeeping c m
      → held (loop z c rs m) ≡ held m ++ spoken rs
  unfolding loop
  loop-held c [] m k = sym (append-nil (held m))
  loop-held c (r ∷ rs) m k =
      let h : IsHeard c (speech r) m (round z c r m) = round-IsHeard c r m k in
      loop-held c rs (round z c r m) h.keeping
      ∙ (ap (λ l. l ++ spoken rs) h.held ∙ append_assoc (held m) (speech r) (spoken rs))

  -- No speech is lost, repeated or reordered: after the start of a stopped monitor and any rounds of
  -- its loop, flushes included, the utterances handed on since and what the loop holds are together
  -- the audio of the speech frames, in their order, and what was handed on before is untouched. The
  -- capture started; the monitor hands utterances on, and drops none as too short (a minimum of 0
  -- raw speech frames).
  pub loop-start :
      (c : Config) (rs : List Round) (now : ℕ) (m : AudioMonitor)
      → m.running ≡ false
      → c.has_on_utterance ≡ true
      → c.min_raw_speech_frames ≡ 0
      → held (loop z c rs (start c now false m).0) ≡ delivered m.hooks ++ spoken rs
  unfolding start
  loop-start c rs now m q h d =
      let started : AudioMonitor = (start c now false m).0 in
      let fresh : (held started ≡ delivered m.hooks) × (started.accumulator ≡ []) =
        rw q (append-nil (delivered m.hooks), refl) in
      loop-held c rs started (record { hands_on = h; drops_none = d; empty = λ e. fresh.1 })
      ∙ ap (λ l. l ++ spoken rs) fresh.0
