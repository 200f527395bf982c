-- ===== src/Audio/RingBuffer/Inv.antt =====
-- The representation invariant of the ring of frames.
use dicta.Base.{
  ℕ, ◌≤◌, ◌<◌, ◌≡◌, arith, length, length-set, length-replicate, List, [], ◌∷◌, refl, ap, suc, zero,
}
use dicta.Audio.Frame.{Frame, zero_frame}
use dicta.Audio.RingBuffer.{RingBuffer, new, push, reset, clear}

pub record IsValid (r : RingBuffer) : Type 0 where
  pub storage : length r.frames ≡ r.capacity
  pub head_in : r.head < r.capacity
  pub count_in : r.count ≤ r.capacity

pub new-IsValid : (n : ℕ) → IsValid (new n)
unfolding new
new-IsValid zero = omega arith
new-IsValid (suc n) = ground (arith, length-replicate (suc n) zero_frame)

pub push-IsValid : {r : RingBuffer} (f : Frame) → IsValid r → IsValid (push r f)
unfolding push
push-IsValid {r} f v = ground (arith, length-set r.frames r.head f)

length-clear : (fs : List Frame) → length (clear fs) ≡ length fs
unfolding clear
length-clear [] = refl
length-clear (f ∷ fs) = ap suc (length-clear fs)

pub reset-IsValid : {r : RingBuffer} → IsValid r → IsValid (reset r)
unfolding reset
reset-IsValid {r} v = ground (arith, length-clear r.frames)
