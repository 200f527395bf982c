-- ===== src/Audio/RingBuffer/Write.antt =====
-- A push on a ring with room and on a full ring, as a change of the snapshot.
use native.Mathlib.Nat.{mod-eq_of_lt, mod-eq-sub-mod, mod-add-mod}
use dicta.Base.{
  ℕ, zero, suc, ◌+◌, ◌-◌, ◌%◌, ◌≤◌, ◌<◌, ◌≡◌, ◌≢◌, refl, sym, ap, ap₂, ◌∙◌, ◌⊎◌, inl, inr, arith,
  List, [], ◌∷◌, ◌++◌, length, drop, set, get_or, get_or-set_self, get_or-set_ne, dec_lt,
  if◌then◌else◌, ◌==◌,
}
use dicta.Audio.Frame.{Frame, zero_frame}
use dicta.Audio.RingBuffer.{RingBuffer, push, collect, start_index, snapshot}
use dicta.Audio.RingBuffer.Inv.{IsValid}

-- The index modulo the capacity, for an index less than twice the capacity.
mod_once : (a c : ℕ) → a < c + c → ((a < c) × (a % c ≡ a)) ⊎ ((c ≤ a) × (a % c ≡ a - c))
mod_once a c h = elim (dec_lt a c) [
  | yes p ↦ inl (p, mod-eq_of_lt p)
  | no p ↦
      inr (omega arith, mod-eq-sub-mod {n = a} {m = c} (omega arith) ∙ mod-eq_of_lt (omega arith))
]

-- Two offsets less than the capacity apart are different slots.
slot_ne : (s j m c : ℕ) → s < c → j < m → m < c → (s + m) % c ≢ (s + j) % c
slot_ne s j m c hs hj hm e =
    omega (arith, mod_once (s + m) c (omega arith), mod_once (s + j) c (omega arith))

length-collect : (fs : List Frame) (c s i k : ℕ) → length (collect fs c s i k) ≡ k
unfolding collect
length-collect fs c s i zero = refl
length-collect fs c s i (suc k) = ap suc (length-collect fs c s (suc i) k)

-- A write at offset `m` is not seen by a read of the `k` slots before it.
collect-set :
    (fs : List Frame) (c s i k m : ℕ) (x : Frame)
    → s < c
    → i + k ≤ m
    → m < c
    → collect (set fs ((s + m) % c) x) c s i k ≡ collect fs c s i k
unfolding collect
collect-set fs c s i zero m x hs h hm = refl
collect-set fs c s i (suc k) m x hs h hm =
    ap₂ ◌∷◌ (get_or-set_ne fs x zero_frame (slot_ne s i m c hs (omega arith) hm))
      (collect-set fs c s (suc i) k m x hs (omega arith) hm)

collect-suc :
    (fs : List Frame) (c s i k : ℕ)
    → collect fs c s i (suc k) ≡ collect fs c s i k ++ get_or fs ((s + (i + k)) % c) zero_frame ∷ []
unfolding collect
collect-suc fs c s i zero = ap (λ t. get_or fs ((s + t) % c) zero_frame ∷ []) (omega arith)
collect-suc fs c s i (suc k) = ap (◌∷◌ (get_or fs ((s + i) % c) zero_frame)) (
    collect-suc fs c s (suc i) k
    ∙ ap (λ t. collect fs c s (suc i) k ++ get_or fs ((s + t) % c) zero_frame ∷ []) (omega arith))

-- A write just past the slots that are read is the new last frame.
collect-write :
    (fs : List Frame) (c s k : ℕ) (x : Frame)
    → s < c
    → k < c
    → length fs ≡ c
    → collect (set fs ((s + k) % c) x) c s 0 (suc k) ≡ collect fs c s 0 k ++ x ∷ []
collect-write fs c s k x hs hk hl =
    collect-suc (set fs ((s + k) % c) x) c s 0 k
    ∙ ap₂ (λ l f. l ++ f ∷ []) (collect-set fs c s 0 k k x hs (omega arith) hk)
        (ap (λ t. get_or (set fs ((s + k) % c) x) ((s + t) % c) zero_frame) {x = 0 + k}
            (omega arith)
          ∙ get_or-set_self fs ((s + k) % c) x zero_frame
              (omega (arith, mod_once (s + k) c (omega arith))))

-- The specification: a list of at most `n` frames, from which the oldest is dropped.
abbrev pub keep_last : ℕ → List Frame → List Frame
keep_last n fs = drop (length fs - n) fs

snapshot-collect :
    (r : RingBuffer) → snapshot r ≡ collect r.frames r.capacity (start_index r) 0 r.count
unfolding snapshot collect
snapshot-collect r = go r.count
  where
    go :
        (n : ℕ)
        → (if n == 0 then [] else collect r.frames r.capacity (start_index r) 0 n)
          ≡ collect r.frames r.capacity (start_index r) 0 n
    go zero = refl
    go (suc n) = ground arith

pub length-snapshot : (r : RingBuffer) → length (snapshot r) ≡ r.count
length-snapshot r =
    ap length (snapshot-collect r) ∙ length-collect r.frames r.capacity (start_index r) 0 r.count

-- With `start` and the number of frames after the push known, it is a write past `k` slots.
snapshot-write :
    (r : RingBuffer) (f : Frame) (s k : ℕ)
    → IsValid r
    → s < r.capacity
    → k < r.capacity
    → (s + k) % r.capacity ≡ r.head
    → (push r f).count ≡ suc k
    → start_index (push r f) ≡ s
    → snapshot (push r f) ≡ collect r.frames r.capacity s 0 k ++ f ∷ []
unfolding push
snapshot-write r f s k v hs hk at_head more start =
    cc (snapshot-collect (push r f), collect-write r.frames r.capacity s k f hs hk v.storage)

start_index-lt : {r : RingBuffer} → IsValid r → start_index r < r.capacity
unfolding start_index
start_index-lt v = omega arith

start_index-add-count :
    {r : RingBuffer} → IsValid r → (start_index r + r.count) % r.capacity ≡ r.head
unfolding start_index
start_index-add-count {r} v =
    let c : ℕ = r.capacity in
    omega (
      arith,
      mod_once (r.head + c - r.count) c (omega arith),
      mod_once ((r.head + c - r.count) % c + r.count) c (omega arith),
    )

-- A push into a ring that has room.
pub push_room :
    {r : RingBuffer} (f : Frame)
    → IsValid r
    → r.count < r.capacity
    → snapshot (push r f) ≡ snapshot r ++ f ∷ []
unfolding push
push_room {r} f v h =
    snapshot-write r f (start_index r) r.count v (start_index-lt v) h (start_index-add-count v)
      (ground arith) start
    ∙ ap (λ l. l ++ f ∷ []) (sym (snapshot-collect r))
  where
    c : ℕ
    c = r.capacity

    more : (push r f).count ≡ r.count + 1
    more = ground arith

    start : start_index (push r f) ≡ start_index r
    start =
        unfold start_index in
        rw more (
          omega (
            arith,
            mod_once (r.head + 1) c (omega arith),
            mod_once (r.head + c - r.count) c (omega arith),
            mod_once ((r.head + 1) % c + c - (r.count + 1)) c (omega arith),
          ))

-- Reading from the next slot on is reading from offset 1 on.
collect-shift :
    (fs : List Frame) (c s i k : ℕ) → collect fs c ((s + 1) % c) i k ≡ collect fs c s (suc i) k
unfolding collect
collect-shift fs c s i zero = refl
collect-shift fs c s i (suc k) =
    ap₂ (λ j l. get_or fs j zero_frame ∷ l) (rw mod-add-mod (ap (λ j. j % c) (omega arith)))
      (collect-shift fs c s (suc i) k)

full_snapshot :
    {r : RingBuffer}
    → IsValid r
    → r.count ≡ r.capacity
    → (f : Frame) × (snapshot r ≡ f ∷ collect r.frames r.capacity r.head 1 (r.capacity - 1))
unfolding collect
full_snapshot {r} v h = (
  get_or r.frames ((r.head + 0) % r.capacity) zero_frame,
  snapshot-collect r ∙ ap₂ (λ s k. collect r.frames r.capacity s 0 k) start some,
)
  where
    start : start_index r ≡ r.head
    start =
        unfold start_index in
        omega (arith, mod_once (r.head + r.capacity - r.count) r.capacity (omega arith))

    some : r.count ≡ suc (r.capacity - 1)
    some = omega arith

-- A push into a full ring.
pub push_full :
    {r : RingBuffer} (f : Frame)
    → IsValid r
    → r.count ≡ r.capacity
    → snapshot (push r f) ≡ drop 1 (snapshot r ++ f ∷ [])
unfolding push collect
push_full {r} f v h =
    snapshot-write r f ((r.head + 1) % c) (c - 1) v (omega arith) (omega arith) at_head
      (ground arith) start
    ∙ ap (λ l. l ++ f ∷ []) (collect-shift r.frames c r.head 0 (c - 1))
    ∙ ap (λ l. drop 1 (l ++ f ∷ [])) (sym (full_snapshot v h).1)
  where
    c : ℕ
    c = r.capacity

    at_head : ((r.head + 1) % c + (c - 1)) % c ≡ r.head
    at_head = omega (
      arith,
      mod_once (r.head + 1) c (omega arith),
      mod_once ((r.head + 1) % c + (c - 1)) c (omega arith),
    )

    more : (push r f).count ≡ c
    more = ground arith

    start : start_index (push r f) ≡ (r.head + 1) % c
    start =
        unfold start_index in
        rw more (omega (arith, mod_once ((r.head + 1) % c + c - c) c (omega arith)))
