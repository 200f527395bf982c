-- ===== src/Audio/RingBuffer/Refine.antt =====
-- The ring is the list of the most recent frames, oldest first.
use dicta.Base.{
  drop-append, drop-drop, Bool-cases, ℕ, ◌+◌, ◌-◌, ◌≤◌, ◌<◌, ◌≡◌, refl, sym, ap, ap₂, ◌∙◌, inl, inr,
  arith, List, [], ◌∷◌, ◌++◌, length, drop, dec_lt, ltb, length-append, append_assoc, append-nil,
  length-drop,
}
use dicta.Audio.Frame.{Frame}
use dicta.Audio.RingBuffer.{RingBuffer, new, push, snapshot, from_time, since, reset}
use dicta.Audio.RingBuffer.Inv.{IsValid, push-IsValid, reset-IsValid}
use dicta.Audio.RingBuffer.Write.{keep_last, length-snapshot, push_room, push_full}

-- A push appends the frame, and drops the oldest if the ring was full.
pub snapshot-push :
    {r : RingBuffer} (f : Frame)
    → IsValid r
    → snapshot (push r f) ≡ keep_last r.capacity (snapshot r ++ f ∷ [])
snapshot-push {r} f v = elim (dec_lt r.count r.capacity) [
  | yes p ↦ push_room f v p ∙ ap (λ k. drop k (snapshot r ++ f ∷ [])) {x = 0} (spare p)
  | no p ↦ push_full f v (omega arith) ∙ ap (λ k. drop k (snapshot r ++ f ∷ [])) {x = 1} (over p)
]
  where
    long : length (snapshot r ++ f ∷ []) ≡ r.count + 1
    long = omega (arith, length-append (snapshot r) (f ∷ []), length-snapshot r)

    spare : r.count < r.capacity → 0 ≡ length (snapshot r ++ f ∷ []) - r.capacity
    spare p = omega (arith, long)

    over : ¬ (r.count < r.capacity) → 1 ≡ length (snapshot r ++ f ∷ []) - r.capacity
    over p = omega (arith, long, v.count_in)

-- Any number of pushes, in order.
abbrev pub push_all : RingBuffer → List Frame → RingBuffer
push_all r [] = r
push_all r (f ∷ fs) = push_all (push r f) fs

-- What was dropped early would be dropped later anyway.
keep_last-keep_last :
    (n : ℕ) (xs ys : List Frame) → keep_last n (keep_last n xs ++ ys) ≡ keep_last n (xs ++ ys)
keep_last-keep_last n xs ys =
    ap (drop (length (drop m xs ++ ys) - n)) (sym (drop-append m xs ys (omega arith)))
    ∙ drop-drop (length (drop m xs ++ ys) - n) m (xs ++ ys)
    ∙ ap (λ k. drop k (xs ++ ys)) {x = m + (length (drop m xs ++ ys) - n)}
        (omega (arith, length-append (drop m xs) ys, length-append xs ys, length-drop m xs))
  where
    m : ℕ
    m = length xs - n

capacity-push : (r : RingBuffer) (f : Frame) → (push r f).capacity ≡ r.capacity
unfolding push
capacity-push r f = refl

-- After any pushes the snapshot is the last `capacity` of the frames held and pushed.
pub snapshot-push_all :
    (fs : List Frame) {r : RingBuffer}
    → IsValid r
    → snapshot (push_all r fs) ≡ keep_last r.capacity (snapshot r ++ fs)
snapshot-push_all [] {r} v =
    ap (λ k. drop k (snapshot r)) {x = 0} (omega (arith, length-snapshot r))
    ∙ ap (keep_last r.capacity) (sym (append-nil (snapshot r)))
snapshot-push_all (f ∷ fs) {r} v =
    snapshot-push_all fs (push-IsValid f v)
    ∙ ap₂ (λ c l. keep_last c (l ++ fs)) (capacity-push r f) (snapshot-push f v)
    ∙ keep_last-keep_last r.capacity (snapshot r ++ f ∷ []) fs
    ∙ ap (keep_last r.capacity) (append_assoc (snapshot r) (f ∷ []) fs)

abbrev pub AllBefore : ℕ → List Frame → Type 0
AllBefore t [] = Unit {0}
AllBefore t (f ∷ fs) = (f.timestamp < t) × AllBefore t fs

abbrev pub StartsAt : ℕ → List Frame → Type 0
StartsAt t [] = Unit {0}
StartsAt t (f ∷ fs) = t ≤ f.timestamp

snapshot-new : (n : ℕ) → snapshot (new n) ≡ []
unfolding snapshot new
snapshot-new n = refl

from_time-split :
    (t : ℕ) (fs : List Frame)
    → (old : List Frame) × (old ++ from_time t fs ≡ fs)
      × AllBefore t old
      × StartsAt t (from_time t fs)
unfolding from_time
from_time-split t [] = ([], refl, tt, tt)
from_time-split t (f ∷ fs) = elim (Bool-cases (ltb f.timestamp t)) [
  | inl e ↦
      let (old, whole, before, at) = from_time-split t fs in
      (f ∷ old, ground arith, (ground arith, before), ground arith)
  | inr e ↦ ([], ground arith, tt, ground arith)
]

-- `since` gives the snapshot from the first frame at or after `t` on: what it leaves out lies before
-- `t`, and what it gives is empty or starts at or after `t`.
pub since-split :
    (r : RingBuffer) (t : ℕ)
    → (old : List Frame) × (old ++ since r t ≡ snapshot r)
      × AllBefore t old
      × StartsAt t (since r t)
unfolding since
since-split r t = from_time-split t (snapshot r)

-- After a reset the ring holds the last `capacity` frames pushed since, and none from before.
pub snapshot-push_all-reset :
    (fs : List Frame) {r : RingBuffer}
    → IsValid r
    → snapshot (push_all (reset r) fs) ≡ keep_last r.capacity fs
snapshot-push_all-reset fs {r} v = snapshot-push_all fs (reset-IsValid v) ∙ emptied
  where
    emptied : keep_last (reset r).capacity (snapshot (reset r) ++ fs) ≡ keep_last r.capacity fs
    emptied = unfold reset in unfold snapshot in refl
