-- ===== src/Audio/Capture/Frames.antt =====
-- internal/audio/capture.go: the frames of a pump.
use dicta.Base.{
  ℕ, ◌≤◌, ◌+◌, ◌≡◌, true, false, List, [], ◌∷◌, ◌++◌, length, length-take, take, ltb, if◌then◌else◌,
  if_intro, arith,
}
use dicta.Audio.Frame.{Frame, frame_bytes}
use dicta.Audio.Capture.{Pump, send, read}

-- What happens to a pump: the subprocess writes or ends, the loop makes a round, the monitor takes a
-- frame.
pub data Step : Type 0 where
  writes : List ℕ → Step
  ends receives : Step
  reads : ℕ → Step

abbrev pub tail : List Frame → List Frame
tail [] = []
tail (f ∷ fs) = fs

unfoldable pub step : Step → Pump → Pump
unfolding read
step (writes bytes) p = if p.ended then p else record p { pipe = p.pipe ++ bytes }
step ends p = record p { ended = true }
step (reads now) p = read now p
step receives p = record p { out = tail p.out }

unfoldable pub run : List Step → Pump → Pump
unfolding step
run [] p = p
run (k ∷ ks) p = run ks (step k p)

abbrev pub AreWhole : List Frame → Type 0
AreWhole [] = Unit {0}
AreWhole (f ∷ fs) = (length f.pcm ≡ frame_bytes) × AreWhole fs

pub record IsFramed (p : Pump) : Type 0 where
  pub whole : AreWhole p.out
  pub few : length p.out ≤ 8

AreWhole-++ :
    (fs : List Frame) (f : Frame)
    → length f.pcm ≡ frame_bytes
    → AreWhole fs
    → AreWhole (fs ++ f ∷ [])
AreWhole-++ [] f h v = (h, tt)
AreWhole-++ (g ∷ fs) f h v = (v.0, AreWhole-++ fs f h v.1)

length-snoc : (fs : List Frame) (f : Frame) → length (fs ++ f ∷ []) ≡ length fs + 1
length-snoc [] f = omega arith
length-snoc (g ∷ fs) f = omega (arith, length-snoc fs f)

Fits : List Frame → Type 0
Fits fs = AreWhole fs × (length fs ≤ 8)

send-Fits : (f : Frame) (fs : List Frame) → length f.pcm ≡ frame_bytes → Fits fs → Fits (send f fs)
unfolding Fits
send-Fits f fs h v =
    if_intro Fits (ltb (length fs) 8)
      (λ q. (AreWhole-++ fs f h v.0, ground (arith, length-snoc fs f))) (λ _. v)

tail-Fits : (fs : List Frame) → Fits fs → Fits (tail fs)
unfolding Fits
tail-Fits [] v = v
tail-Fits (f ∷ fs) v = (v.0.1, omega (arith, v.1))

take-whole : (n : ℕ) (bytes : List ℕ) → ltb (length bytes) n ≡ false → length (take n bytes) ≡ n
take-whole n bytes h = ground (arith, length-take n bytes)

read-IsFramed : (now : ℕ) (p : Pump) → IsFramed p → IsFramed (read now p)
unfolding read Fits
read-IsFramed now p v =
    if_intro IsFramed p.closed (λ _. v)
      (λ _.
        if_intro IsFramed (ltb (length p.pipe) frame_bytes)
          (λ _. if_intro IsFramed p.ended (λ _. record { whole = v.whole; few = v.few }) (λ _. v))
          (λ q.
            let fits : Fits
                (send (record { pcm = take frame_bytes p.pipe; timestamp = now }) p.out) =
              send-Fits (record { pcm = take frame_bytes p.pipe; timestamp = now }) p.out
                (take-whole frame_bytes p.pipe q) (v.whole, v.few) in
            record { whole = fits.0; few = fits.1 }))

step-IsFramed : (k : Step) (p : Pump) → IsFramed p → IsFramed (step k p)
unfolding step Fits
step-IsFramed (writes bytes) p v =
    if_intro IsFramed p.ended (λ _. v) (λ _. record { whole = v.whole; few = v.few })
step-IsFramed ends p v = record { whole = v.whole; few = v.few }
step-IsFramed (reads now) p v = read-IsFramed now p v
step-IsFramed receives p v =
    let fits : Fits (tail p.out) = tail-Fits p.out (v.whole, v.few) in
    record { whole = fits.0; few = fits.1 }

-- Every frame that a pump emits is whole, however the subprocess writes its bytes, and at most 8
-- wait.
pub run-IsFramed : (ks : List Step) (p : Pump) → IsFramed p → IsFramed (run ks p)
unfolding run
run-IsFramed [] p v = v
run-IsFramed (k ∷ ks) p v = run-IsFramed ks (step k p) (step-IsFramed k p v)
