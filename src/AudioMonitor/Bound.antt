-- ===== src/AudioMonitor/Bound.antt =====
-- cmd/dictad/audiomonitor.go: the cap on an utterance's length.
use dicta.Base.{
  ℕ, suc, ◌+◌, ◌≤◌, ◌<◌, ◌≡◌, ◌≢◌, Bool, true, false, not, ◌&&◌, List, [], ◌∷◌, ◌++◌, Option, none,
  some, leb, ◌==◌, if◌then◌else◌, if_intro, arith, length, length-append, length-drop, length-take,
  take, drop,
}
use dicta.Audio.RingBuffer
use dicta.AudioMonitor.{
  Sizes, Config, Hook, utterance, frame, count, AudioMonitor, emit, split, begin, on_speech,
  on_silence, revive, on_frame, flush, on_stall, stalled_at, Round, hears, flushes, waits, round,
  loop, new, start, quietest_split,
}
use dicta.AudioMonitor.Split.{IsCut, quietest_split-IsCut}

-- Each utterance that was handed on is shorter than `n` bytes.
abbrev pub Shorter : ℕ → List Hook → Type 0
Shorter n [] = Unit {0}
Shorter n (utterance pcm ∷ hs) = (length pcm < n) × Shorter n hs
Shorter n (_ ∷ hs) = Shorter n hs

-- No frame is longer than `n` bytes.
abbrev pub Within : ℕ → List Round → Type 0
Within n [] = Unit {0}
Within n (hears now f v ∷ rs) = (length f.pcm ≤ n) × Within n rs
Within n (_ ∷ rs) = Within n rs

drop_short :
    (n b cap : ℕ) (l : List ℕ) → cap ≢ 0 → b ≤ n → length l < cap + b → length (drop n l) < cap
drop_short n b cap l o h k = omega (arith, length-drop n l)

take_short : (n m : ℕ) (l : List ℕ) → length l < m → length (take n l) < m
take_short n m l h = omega (arith, length-take n l)

reached : (cap n : ℕ) → (not (cap == 0) && leb cap n) ≡ true → cap ≤ n
reached cap n h = ground arith

unreached : (cap n : ℕ) → cap ≢ 0 → (not (cap == 0) && leb cap n) ≡ false → n < cap
unreached cap n o h = ground arith

grown : (cap b : ℕ) (l pcm : List ℕ) → length l < cap → length pcm ≤ b → length (l ++ pcm) < cap + b
grown cap b l pcm h k = omega (arith, length-append l pcm)

module _ {F : Type 0} (z : Sizes F) (c : Config) (capped : c.max_utterance_bytes ≢ 0)
    (sized : z.frame_bytes ≢ 0) (fits : z.frame_bytes ≤ c.max_utterance_bytes) where
  record IsBounded (m : AudioMonitor) : Type 0 where
    held : length m.accumulator < c.max_utterance_bytes
    sent : Shorter (c.max_utterance_bytes + z.frame_bytes) m.hooks

  emit-IsBounded : (m : AudioMonitor) → IsBounded m → IsBounded (emit c m)
  unfolding emit
  emit-IsBounded m b = ground (arith, b)

  split-IsBounded :
      (m : AudioMonitor)
      → length m.accumulator < c.max_utterance_bytes + z.frame_bytes
      → Shorter (c.max_utterance_bytes + z.frame_bytes) m.hooks
      → IsBounded (split z c m)
  unfolding split
  split-IsBounded m l s =
      if_intro IsBounded
        (not (c.max_utterance_bytes == 0) && leb c.max_utterance_bytes (length m.accumulator))
        (λ q. record {
          held =
              drop_short cut z.frame_bytes c.max_utterance_bytes m.accumulator capped
                (k.later sized
                  (le_trans fits (reached c.max_utterance_bytes (length m.accumulator) q)))
                l;
          sent = (take_short cut (c.max_utterance_bytes + z.frame_bytes) m.accumulator l, s);
        })
        (λ q. record {
          held = unreached c.max_utterance_bytes (length m.accumulator) capped q;
          sent = s;
        })
    where
      cut : ℕ
      cut = quietest_split z m.accumulator

      k : IsCut z m.accumulator cut
      k = quietest_split-IsCut z m.accumulator

      le_trans : {a b d : ℕ} → a ≤ b → b ≤ d → a ≤ d
      le_trans p q = omega arith

  begin-IsBounded : (m : AudioMonitor) → IsBounded m → IsBounded (begin m)
  unfolding begin
  begin-IsBounded m b =
      if_intro IsBounded m.in_utterance (λ _. b)
        (λ _. record { held = omega (arith, capped); sent = b.sent })

  on_speech-IsBounded :
      (pcm : List ℕ) (raw : Bool) (m : AudioMonitor)
      → length pcm ≤ z.frame_bytes
      → IsBounded m
      → IsBounded (on_speech z c pcm raw m)
  unfolding on_speech
  on_speech-IsBounded pcm raw m l b =
      if_intro IsBounded c.has_on_utterance
        (λ _.
          split-IsBounded (record b' { raw_speech_count = n; accumulator = b'.accumulator ++ pcm })
            (grown c.max_utterance_bytes z.frame_bytes b'.accumulator pcm v.held l) v.sent)
        (λ _. record { held = v.held; sent = v.sent })
    where
      b' : AudioMonitor
      b' = begin (record m { speech_frames = count m.speech_frames })

      n : ℕ
      n = if raw then suc b'.raw_speech_count else b'.raw_speech_count

      v : IsBounded b'
      v =
          begin-IsBounded (record m { speech_frames = count m.speech_frames })
            (record { held = b.held; sent = b.sent })

  on_silence-IsBounded : (m : AudioMonitor) → IsBounded m → IsBounded (on_silence c m)
  unfolding on_silence
  on_silence-IsBounded m b =
      if_intro IsBounded m.in_utterance (λ _. emit-IsBounded quiet w) (λ _. w)
    where
      quiet : AudioMonitor
      quiet = record m { silence_frames = count m.silence_frames }

      w : IsBounded quiet
      w = record { held = b.held; sent = b.sent }

  revive-IsBounded : (now : ℕ) (m : AudioMonitor) → IsBounded m → IsBounded (revive c now m)
  unfolding revive
  revive-IsBounded now m b =
      if_intro IsBounded m.stalled (λ _. record { held = b.held; sent = b.sent })
        (λ _. record { held = b.held; sent = b.sent })

  round-IsBounded :
      (r : Round) (m : AudioMonitor)
      → Within z.frame_bytes (r ∷ [])
      → IsBounded m
      → IsBounded (round z c r m)
  unfolding round on_frame flush on_stall
  round-IsBounded (hears now f v) m l b =
      if_intro IsBounded v.speech (λ _. on_speech-IsBounded f.pcm v.raw told l.0 w)
        (λ _. on_silence-IsBounded told w)
    where
      m' : AudioMonitor
      m' = revive c now m

      told : AudioMonitor
      told = record m' {
        rb = RingBuffer.push m'.rb f;
        frames = count m'.frames;
        hooks = frame f.pcm ∷ m'.hooks;
        last_speech = v.speech;
      }

      w : IsBounded told
      w = let r : IsBounded m' = revive-IsBounded now m b in record { held = r.held; sent = r.sent }
  round-IsBounded flushes m l b = if_intro IsBounded m.running (λ _. emit-IsBounded m b) (λ _. b)
  round-IsBounded (waits now) m l b = at m.stall
    where
      at : (o : Option ℕ) → IsBounded (stalled_at o now m)
      at none = b
      at (some d) =
          if_intro IsBounded (leb d now) (λ _. record { held = b.held; sent = b.sent }) (λ _. b)

  Within-cons :
      (n : ℕ) (r : Round) (rs : List Round) → Within n (r ∷ rs) → Within n (r ∷ []) × Within n rs
  Within-cons n (hears now f v) rs w = ((w.0, tt), w.1)
  Within-cons n flushes rs w = (tt, w)
  Within-cons n (waits now) rs w = (tt, w)

  loop-IsBounded :
      (rs : List Round) (m : AudioMonitor)
      → Within z.frame_bytes rs
      → IsBounded m
      → IsBounded (loop z c rs m)
  unfolding loop
  loop-IsBounded [] m w b = b
  loop-IsBounded (r ∷ rs) m w b =
      let l : Within z.frame_bytes (r ∷ []) × Within z.frame_bytes rs =
        Within-cons z.frame_bytes r rs w in
      loop-IsBounded rs (round z c r m) l.1 (round-IsBounded r m l.0 b)

-- The monitor was started, and its capture started. With a cap that is at least a frame, and frames
-- no longer than a frame's size, the loop never holds as much as the cap after a round, its flushes
-- included, and hands no utterance on that is longer than the cap by a whole frame.
pub loop-Shorter :
    {F : Type 0} (z : Sizes F) (c : Config) (rs : List Round) (now capacity : ℕ)
    → c.max_utterance_bytes ≢ 0
    → z.frame_bytes ≢ 0
    → z.frame_bytes ≤ c.max_utterance_bytes
    → Within z.frame_bytes rs
    → let m = loop z c rs (start c now false (new capacity)).0 in
      (length m.accumulator < c.max_utterance_bytes)
      × Shorter (c.max_utterance_bytes + z.frame_bytes) m.hooks
unfolding new start
loop-Shorter z c rs now capacity o n l w =
    let started : AudioMonitor = (start c now false (new capacity)).0 in
    let b : IsBounded z c o n l (loop z c rs started) =
      loop-IsBounded z c o n l rs started w (record { held = omega (arith, o); sent = tt }) in
    (b.held, b.sent)
