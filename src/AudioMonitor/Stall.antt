-- ===== src/AudioMonitor/Stall.antt =====
-- cmd/dictad/audiomonitor.go: the stall of the capture and its end, as the hooks are told of them.
use dicta.Base.{
  ℕ, ◌≡◌, refl, Bool, true, false, not, List, [], ◌∷◌, Option, none, some, if_intro, arith,
}
use dicta.Audio.RingBuffer
use dicta.AudioMonitor.{
  Sizes, Config, Hook, frame, count, capture_lost, capture_restored, AudioMonitor, emit, split,
  begin, on_speech, on_silence, revive, on_frame, flush, on_stall, stalled_at, Round, hears,
  flushes, waits, round, loop, new, start,
}

-- The calls of the two hooks, newest first: `true` is a loss.
abbrev pub losses : List Hook → List Bool
losses [] = []
losses (capture_lost ∷ hs) = true ∷ losses hs
losses (capture_restored ∷ hs) = false ∷ losses hs
losses (_ ∷ hs) = losses hs

-- They alternate, from a loss on; the argument is the newest.
abbrev pub Alternates : Bool → List Bool → Type 0
Alternates b [] = b ≡ false
Alternates b (x ∷ xs) = (x ≡ b) × Alternates (not b) xs

-- The loop knows of a stall exactly if the newest call was a loss, and waits for the next only
-- without one.
record IsTold (m : AudioMonitor) : Type 0 where
  alternates : Alternates m.stalled (losses m.hooks)
  waiting : m.stalled ≡ true → m.stall ≡ none

-- What the rest of a round leaves alone.
record IsQuiet (m m' : AudioMonitor) : Type 0 where
  stalled : m'.stalled ≡ m.stalled
  stall : m'.stall ≡ m.stall
  losses : losses m'.hooks ≡ losses m.hooks

emit-IsQuiet : (c : Config) (m : AudioMonitor) → IsQuiet m (emit c m)
unfolding emit
emit-IsQuiet c m = ground arith

IsQuiet-IsTold : {m m' : AudioMonitor} → IsQuiet m m' → IsTold m → IsTold m'
IsQuiet-IsTold q t = record {
  alternates = rw (q.stalled, q.losses) t.alternates;
  waiting = rw (q.stalled, q.stall) t.waiting;
}

IsQuiet-trans : {a b c : AudioMonitor} → IsQuiet a b → IsQuiet b c → IsQuiet a c
IsQuiet-trans p q = ground arith

on_silence-IsQuiet : (c : Config) (m : AudioMonitor) → IsQuiet m (on_silence c m)
unfolding on_silence emit
on_silence-IsQuiet c m = ground arith

revive-IsTold : (c : Config) (now : ℕ) (m : AudioMonitor) → IsTold m → IsTold (revive c now m)
unfolding revive
revive-IsTold c now m t = ground (arith, t)

module _ {F : Type 0} (z : Sizes F) where
  on_speech-IsQuiet :
      (c : Config) (pcm : List ℕ) (raw : Bool) (m : AudioMonitor)
      → IsQuiet m (on_speech z c pcm raw m)
  unfolding on_speech begin split
  on_speech-IsQuiet c pcm raw m = ground arith

  round-IsTold : (c : Config) (r : Round) (m : AudioMonitor) → IsTold m → IsTold (round z c r m)
  unfolding round on_frame flush on_stall
  round-IsTold c (hears now f v) m t =
      if_intro IsTold v.speech
        (λ _. IsQuiet-IsTold (IsQuiet-trans framed (on_speech-IsQuiet c f.pcm v.raw told)) w)
        (λ _. IsQuiet-IsTold (IsQuiet-trans framed (on_silence-IsQuiet c told)) w)
    where
      m' : AudioMonitor
      m' = revive c now m

      w : IsTold m'
      w = revive-IsTold c now m t

      told : AudioMonitor
      told = record m' {
        rb = RingBuffer.push m'.rb f;
        frames = count m'.frames;
        hooks = frame f.pcm ∷ m'.hooks;
        last_speech = v.speech;
      }

      framed : IsQuiet m' told
      framed = record { stalled = refl; stall = refl; losses = refl }
  round-IsTold c flushes m t =
      if_intro IsTold m.running (λ _. IsQuiet-IsTold (emit-IsQuiet c m) t) (λ _. t)
  round-IsTold c (waits now) m t = at m.stall refl
    where
      at : (o : Option ℕ) → m.stall ≡ o → IsTold (stalled_at o now m)
      at none q = t
      at (some d) q = ground (arith, t)

  loop-IsTold :
      (c : Config) (rs : List Round) (m : AudioMonitor) → IsTold m → IsTold (loop z c rs m)
  unfolding loop
  loop-IsTold c [] m t = t
  loop-IsTold c (r ∷ rs) m t = loop-IsTold c rs (round z c r m) (round-IsTold c r m t)

  -- After the start of a new monitor, whose capture started, and any rounds of its loop, the calls
  -- of `onCaptureLost` and `onCaptureRestored` alternate, from a loss on, and the newest is a loss
  -- exactly while the monitor is stalled.
  pub loop-Alternates :
      (c : Config) (rs : List Round) (now capacity : ℕ)
      → let m = loop z c rs (start c now false (new capacity)).0 in
        Alternates m.stalled (losses m.hooks)
  unfolding new start
  loop-Alternates c rs now capacity =
      (loop-IsTold c rs (start c now false (new capacity)).0
        (record { alternates = refl; waiting = λ q. cc })).alternates
