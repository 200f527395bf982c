-- ===== src/Audio/RingBuffer/Tests.antt =====
-- internal/audio/ringbuffer.go: runs of the ring of frames.
use dicta.Base.{ℕ, ◌≡◌, ◌++◌, refl, List, [], ◌∷◌}
use dicta.Audio.Frame.{Frame}
use dicta.Audio.RingBuffer.{
  new, push, snapshot, since, collect, start_index, from_time, capacity_for_seconds,
}
use dicta.Audio.RingBuffer.Inv.{new-IsValid, push-IsValid}
use dicta.Audio.RingBuffer.Write.{keep_last}
use dicta.Audio.RingBuffer.Refine.{push_all, snapshot-push_all, since-split, AllBefore, StartsAt}

abbrev frame : ℕ → Frame
frame t = record { pcm = t ∷ []; timestamp = t }

abbrev four : List Frame
four = frame 1 ∷ frame 2 ∷ frame 3 ∷ frame 4 ∷ []

last_three : snapshot (push_all (new 3) four) ≡ frame 2 ∷ frame 3 ∷ frame 4 ∷ []
unfolding snapshot collect start_index push new
last_three = refl

since_three : since (push_all (new 3) four) 3 ≡ frame 3 ∷ frame 4 ∷ []
unfolding since from_time snapshot collect start_index push new
since_three = refl

half_minute : capacity_for_seconds 20 30 ≡ 1500
unfolding capacity_for_seconds
half_minute = refl

snapshot-push_all_example :
    snapshot (push_all (push (new 3) (frame 0)) four)
    ≡ keep_last 3 (snapshot (push (new 3) (frame 0)) ++ four)
unfolding push new
snapshot-push_all_example = snapshot-push_all four (push-IsValid (frame 0) (new-IsValid 3))

since-split_example :
    (old : List Frame) × (old ++ since (push_all (new 3) four) 3 ≡ snapshot (push_all (new 3) four))
    × AllBefore 3 old
    × StartsAt 3 (since (push_all (new 3) four) 3)
since-split_example = since-split (push_all (new 3) four) 3
