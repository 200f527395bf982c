-- ===== src/AudioMonitor/Tests.antt =====
-- cmd/dictad/audiomonitor.go: runs of the loop, with the sum of the samples for the RMS.
use dicta.Base.{ℕ, ◌+◌, ◌≡◌, ◌<◌, refl, true, false, List, [], ◌∷◌, ◌++◌, leb, length, arith}
use dicta.AudioMonitor.{
  Sizes, Config, Round, hears, waits, loop, new, start, stop, AudioMonitor, flushes, frame,
  utterance, speech_start, capture_lost, capture_restored, round, on_frame, on_speech, on_silence,
  revive, emit, split, begin, quietest_split, quietest, flush, on_stall,
}
use dicta.AudioMonitor.Bytes.{held, spoken, delivered, loop-start}
use dicta.AudioMonitor.Stall.{Alternates, losses, loop-Alternates}
use dicta.AudioMonitor.Bound.{Shorter, loop-Shorter}

abbrev total : List ℕ → ℕ
total [] = 0
total (x ∷ xs) = x + total xs

abbrev sizes : Sizes ℕ
sizes = record { frame_bytes = 2; search_bytes = 4; rms = total; at_most = leb; infinity = 1000000 }

abbrev config : Config
config = record {
  max_utterance_bytes = 8;
  min_raw_speech_frames = 0;
  has_on_utterance = true;
  stall_timeout = 100;
}

abbrev hear : ℕ → ℕ → Round
hear now n =
    hears now (record { pcm = n ∷ n ∷ []; timestamp = now }) (record { speech = true; raw = true })

abbrev silence : ℕ → Round
silence now =
    hears now (record { pcm = 0 ∷ 0 ∷ []; timestamp = now })
      (record { speech = false; raw = false })

-- Four frames reach the cap; the third is the quietest of the last two.
abbrev rounds : List Round
rounds = hear 1 5 ∷ hear 2 6 ∷ hear 3 1 ∷ hear 4 9 ∷ waits 500 ∷ silence 600 ∷ []

split_at_third : (loop sizes config rounds (new 4)).accumulator ≡ []
unfolding loop round on_frame on_speech on_silence revive emit split begin quietest_split quietest
    flush on_stall new
split_at_third = refl

after_four :
    (loop sizes config (hear 1 5 ∷ hear 2 6 ∷ hear 3 1 ∷ hear 4 9 ∷ []) (new 4)).accumulator
    ≡ 9 ∷ 9 ∷ []
unfolding loop round on_frame on_speech on_silence revive emit split begin quietest_split quietest
    flush on_stall new
after_four = refl

abbrev begun : AudioMonitor
unfolding start new
begun = (start config 0 false (new 4)).0

-- A flush hands the held speech on, and a stall is told before the first frame.
abbrev flushed : List Round
flushed = waits 100 ∷ hear 101 5 ∷ hear 102 6 ∷ flushes ∷ hear 103 7 ∷ []

flush_hands_on :
    (loop sizes config flushed begun).hooks
    ≡ speech_start
      ∷ frame (7 ∷ 7 ∷ [])
      ∷ utterance (5 ∷ 5 ∷ 6 ∷ 6 ∷ [])
      ∷ frame (6 ∷ 6 ∷ [])
      ∷ speech_start
      ∷ frame (5 ∷ 5 ∷ [])
      ∷ capture_restored
      ∷ capture_lost
      ∷ []
unfolding loop round on_frame on_speech on_silence revive emit split begin quietest_split quietest
    flush on_stall begun
flush_hands_on = refl

-- A monitor that is stopped in a stall and started once more does not tell that the stall is over.
untold :
    losses
      (loop sizes config
        (hear 300 5 ∷ [])
        (start config 200 false (stop (loop sizes config (waits 100 ∷ []) begun))).0).hooks
    ≡ true ∷ []
unfolding loop round on_frame on_speech on_silence revive emit split begin quietest_split quietest
    flush on_stall start stop begun
untold = refl

stopped : (new 4).running ≡ false
unfolding new
stopped = refl

loop-start_example :
    held (loop sizes config flushed (start config 0 false (new 4)).0)
    ≡ delivered (new 4).hooks ++ spoken flushed
loop-start_example = loop-start sizes config flushed 0 (new 4) stopped refl refl

loop-Alternates_example :
    let m = loop sizes config flushed (start config 0 false (new 4)).0 in
    Alternates m.stalled (losses m.hooks)
loop-Alternates_example = loop-Alternates sizes config flushed 0 4

loop-Shorter_example :
    let m = loop sizes config rounds (start config 0 false (new 4)).0 in
    (length m.accumulator < 8) × Shorter (8 + 2) m.hooks
loop-Shorter_example =
    loop-Shorter sizes config rounds 0 4 (λ e. omega arith) (λ e. omega arith) (omega arith)
      (omega arith, (omega arith, (omega arith, (omega arith, (omega arith, tt)))))
