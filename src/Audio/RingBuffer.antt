-- ===== src/Audio/RingBuffer.antt =====
-- internal/audio/ringbuffer.go: the buffer of the most recent frames. A method that mutates the
-- receiver returns the new buffer. The lock makes each method one step and is left out.
pub mod Inv
pub mod Write
pub mod Refine
mod Tests
use dicta.Base.{
  ℕ, zero, suc, ◌+◌, ◌-◌, ◌*◌, ◌/◌, ◌%◌, List, [], ◌∷◌, replicate, set, get_or, ltb, leb, ◌==◌,
  if◌then◌else◌,
}
use dicta.Audio.Frame.{Frame, zero_frame}

pub record RingBuffer : Type 0 where
  pub frames : List Frame
  pub head : ℕ
  pub count : ℕ
  pub capacity : ℕ

-- A Go `int` argument that is negative is treated as 0 is, so the argument is a number.
pub new : ℕ → RingBuffer
new n =
    let c = if n == 0 then 1 else n in
    record { frames = replicate c zero_frame; head = 0; count = 0; capacity = c }

-- A write out of range would panic; `IsValid` rules it out.
pub push : RingBuffer → Frame → RingBuffer
push r f = record r {
  frames = set frames head f;
  head = (head + 1) % capacity;
  count = if ltb count capacity then count + 1 else count;
}
  where
    open r use {frames, head, count, capacity}

-- The loop of `Snapshot` from index `i` on, with `k` rounds left.
pub collect : List Frame → ℕ → ℕ → ℕ → ℕ → List Frame
collect frames capacity start i zero = []
collect frames capacity start i (suc k) =
    get_or frames ((start + i) % capacity) zero_frame ∷ collect frames capacity start (suc i) k

-- `head - count + capacity` is an `int` that is not negative, since `count ≤ capacity`.
pub start_index : RingBuffer → ℕ
start_index r = (r.head + r.capacity - r.count) % r.capacity

pub snapshot : RingBuffer → List Frame
unfolding collect start_index
snapshot r = if r.count == 0 then [] else collect r.frames r.capacity (start_index r) 0 r.count

-- The loop of `Since` over the snapshot: the suffix from the first frame not before `t`.
pub from_time : ℕ → List Frame → List Frame
from_time t [] = []
from_time t (f ∷ fs) = if ltb f.timestamp t then from_time t fs else f ∷ fs

pub since : RingBuffer → ℕ → List Frame
since r t = from_time t (snapshot r)

-- `len(r.frames)` zero frames: the loop writes each slot.
pub clear : List Frame → List Frame
clear [] = []
clear (f ∷ fs) = zero_frame ∷ clear fs

pub reset : RingBuffer → RingBuffer
unfolding clear
reset r = record r { head = 0; count = 0; frames = clear r.frames }

-- `frame_ms` is asrclient.FrameMS, a constant of a package outside the repository.
pub capacity_for_seconds : ℕ → ℕ → ℕ
capacity_for_seconds frame_ms seconds = if seconds == 0 then 1 else seconds * 1000 / frame_ms
