-- ===== src/AudioMonitor.antt =====
-- cmd/dictad/audiomonitor.go: the loop that groups captured frames into utterances. The RMS of a
-- sample block is a float64: its type, its order and `math.Inf(1)` are parameters, and so are the
-- sizes of a frame and of the split's window, which asrclient defines.
pub mod Split
pub mod Bytes
pub mod Stall
pub mod Bound
mod Tests
use dicta.Base.{
  ℕ, zero, suc, ◌+◌, ◌-◌, ◌*◌, ◌/◌, ◌%◌, ◌^◌, min, Bool, true, false, not, ◌&&◌, ◌||◌, List, [],
  ◌∷◌, ◌++◌, Option, none, some, length, take, drop, is_empty, ltb, leb, ◌==◌, if◌then◌else◌,
}
use dicta.Audio.Frame.{Frame}
use dicta.Audio.RingBuffer.{RingBuffer}
use dicta.Audio.RingBuffer

pub record Sizes (F : Type 0) : Type 0 where
  pub frame_bytes : ℕ
  pub search_bytes : ℕ
  pub rms : List ℕ → F
  pub at_most : F → F → Bool
  pub infinity : F

-- `cap` and the hooks that are set.
pub record Config : Type 0 where
  pub max_utterance_bytes : ℕ
  pub min_raw_speech_frames : ℕ
  pub has_on_utterance : Bool
  pub stall_timeout : ℕ

-- The calls of the hooks.
pub data Hook : Type 0 where
  utterance frame : List ℕ → Hook
  speech_start capture_lost capture_restored : Hook

-- What the VAD says of a frame: speech, and speech before the hangover.
pub record Verdict : Type 0 where
  pub speech : Bool
  pub raw : Bool

pub record AudioMonitor : Type 0 where
  pub rb : RingBuffer
  pub frames : ℕ  -- uint64, as the next two
  pub speech_frames : ℕ
  pub silence_frames : ℕ
  pub running : Bool
  pub last_speech : Bool
  pub stalled : Bool
  -- The variables of `loop`; `stall` is the deadline of `stallC`.
  pub in_utterance : Bool
  pub accumulator : List ℕ
  pub raw_speech_count : ℕ
  pub stall : Option ℕ
  -- The calls of the hooks, newest first.
  pub hooks : List Hook

unfoldable pub new : ℕ → AudioMonitor
new capacity = record {
  rb = RingBuffer.new capacity;
  frames = 0;
  speech_frames = 0;
  silence_frames = 0;
  running = false;
  last_speech = false;
  stalled = false;
  in_utterance = false;
  accumulator = [];
  raw_speech_count = 0;
  stall = none;
  hooks = [];
}

abbrev pub count : ℕ → ℕ
count n = (n + 1) % 2 ^ 64

-- `Start` and the start of `loop`; the Boolean is the answer of the capture.
unfoldable pub start : Config → ℕ → Bool → AudioMonitor → AudioMonitor × Bool
start c now fails m = if m.running || fails then (m, true) else (
  record m {
    running = true;
    in_utterance = false;
    accumulator = [];
    raw_speech_count = 0;
    stall = if c.stall_timeout == 0 then none else some (now + c.stall_timeout);
  },
  false,
)

unfoldable pub start_if_stopped : Config → ℕ → Bool → AudioMonitor → AudioMonitor × Bool
unfolding start
start_if_stopped c now fails m = if m.running then (m, false) else start c now fails m

unfoldable pub stop : AudioMonitor → AudioMonitor
stop m = if m.running then record m { running = false; stalled = false; stall = none } else m

unfoldable pub emit : Config → AudioMonitor → AudioMonitor
emit c m =
    let m' = record m { accumulator = []; raw_speech_count = 0; in_utterance = false } in
    if c.has_on_utterance && not (is_empty m.accumulator)
    then if not (c.min_raw_speech_frames == 0) && ltb m.raw_speech_count c.min_raw_speech_frames
      then m'
      else record m' { hooks = utterance m.accumulator ∷ m.hooks }
    else m'

unfoldable pub begin : AudioMonitor → AudioMonitor
begin m = if m.in_utterance then m else record m {
  in_utterance = true;
  accumulator = [];
  raw_speech_count = 0;
  hooks = speech_start ∷ m.hooks;
}

unfoldable pub on_silence : Config → AudioMonitor → AudioMonitor
unfolding emit
on_silence c m =
    let m' = record m { silence_frames = count m.silence_frames } in
    if m.in_utterance then emit c m' else m'

-- The stall timer is reset, and the end of a stall is told.
unfoldable pub revive : Config → ℕ → AudioMonitor → AudioMonitor
revive c now m =
    let m' = record m {
      stall = if c.stall_timeout == 0 then none else some (now + c.stall_timeout);
    } in
    if m.stalled then record m' { stalled = false; hooks = capture_restored ∷ m.hooks } else m'

module _ {F : Type 0} (z : Sizes F) where
  -- The loop of `quietestSplit` from index `i` on, with `k` rounds left.
  unfoldable pub quietest : List ℕ → ℕ → ℕ → ℕ → F → ℕ
  quietest pcm i zero best best_rms = best
  quietest pcm i (suc k) best best_rms =
      let level = z.rms (take z.frame_bytes (drop (i * z.frame_bytes) pcm)) in
      let louder = quietest pcm (suc i) k best best_rms in
      let quieter = quietest pcm (suc i) k (i + 1) level in
      if z.at_most level best_rms then quieter else louder

  unfoldable pub quietest_split : List ℕ → ℕ
  unfolding quietest
  quietest_split pcm =
      let frames = length pcm / z.frame_bytes in
      let window = min (z.search_bytes / z.frame_bytes) (frames / 2) in
      if frames == 0
      then length pcm
      else quietest pcm (frames - window) window frames z.infinity * z.frame_bytes

  -- The forced split of an utterance that has reached its cap.
  unfoldable pub split : Config → AudioMonitor → AudioMonitor
  unfolding quietest_split
  split c m =
      let cut = quietest_split m.accumulator in
      if not (c.max_utterance_bytes == 0) && leb c.max_utterance_bytes (length m.accumulator)
      then record m {
        hooks = utterance (take cut m.accumulator) ∷ m.hooks;
        accumulator = drop cut m.accumulator;
      }
      else m

  unfoldable pub on_speech : Config → List ℕ → Bool → AudioMonitor → AudioMonitor
  unfolding begin split
  on_speech c pcm raw m =
      let b = begin (record m { speech_frames = count m.speech_frames }) in
      let r = record b {
        raw_speech_count = if raw then suc b.raw_speech_count else b.raw_speech_count;
      } in
      if c.has_on_utterance then split c (record r { accumulator = r.accumulator ++ pcm }) else r

  -- The case of a frame.
  unfoldable pub on_frame : Config → ℕ → Frame → Verdict → AudioMonitor → AudioMonitor
  unfolding on_speech on_silence revive
  on_frame c now f v m =
      let m' = revive c now m in
      let m'' = record m' {
        rb = RingBuffer.push m'.rb f;
        frames = count m'.frames;
        hooks = frame f.pcm ∷ m'.hooks;
        last_speech = v.speech;
      } in
      if v.speech then on_speech c f.pcm v.raw m'' else on_silence c m''

-- The case of `flushReq`; `Flush` returns at once when nothing runs.
unfoldable pub flush : Config → AudioMonitor → AudioMonitor
unfolding emit
flush c m = if m.running then emit c m else m

-- The case of `stallC`, past its deadline.
abbrev stalled_at : Option ℕ → ℕ → AudioMonitor → AudioMonitor
stalled_at none now m = m
stalled_at (some deadline) now m =
    if leb deadline now
    then record m { stall = none; stalled = true; hooks = capture_lost ∷ m.hooks }
    else m

unfoldable pub on_stall : ℕ → AudioMonitor → AudioMonitor
on_stall now m = stalled_at m.stall now m

-- The rounds of `loop`, each at its time.
pub data Round : Type 0 where
  hears : ℕ → Frame → Verdict → Round
  flushes : Round
  waits : ℕ → Round

module _ {F : Type 0} (z : Sizes F) where
  unfoldable pub round : Config → Round → AudioMonitor → AudioMonitor
  unfolding on_frame flush on_stall
  round c (hears now f v) m = on_frame z c now f v m
  round c flushes m = flush c m
  round c (waits now) m = on_stall now m

  unfoldable pub loop : Config → List Round → AudioMonitor → AudioMonitor
  unfolding round
  loop c [] m = m
  loop c (r ∷ rs) m = loop c rs (round c r m)
