-- ===== src/Audit/Wav.antt =====
-- internal/audit/wav.go: the WAV file of an utterance.
use dicta.Base.{
  ℕ, ◌+◌, ◌*◌, ◌/◌, ◌%◌, ◌^◌, ◌<◌, ◌≡◌, refl, ap, ◌∙◌, not, List, [], ◌∷◌, ◌++◌, Option, none, some,
  codes, length, take, drop, get_or, ◌==◌, if◌then◌else◌, arith,
}

-- binary.LittleEndian of 16 and of 32 bits.
abbrev pub put_u16 : ℕ → List ℕ
put_u16 n = n % 256 ∷ n / 256 % 256 ∷ []

abbrev pub put_u32 : ℕ → List ℕ
put_u32 n = n % 256 ∷ n / 256 % 256 ∷ n / 65536 % 256 ∷ n / 16777216 % 256 ∷ []

abbrev pub wav_sample_rate : ℕ
wav_sample_rate = 16000

abbrev pub wav_num_channels : ℕ
wav_num_channels = 1

abbrev pub wav_bits_per_sample : ℕ
wav_bits_per_sample = 16

unfoldable pub wav_header : ℕ → List ℕ
wav_header data_size =
    codes "RIFF"
    ++ put_u32 ((36 + data_size) % 2 ^ 32)
    ++ codes "WAVE"
    ++ codes "fmt "
    ++ put_u32 16
    ++ put_u16 1
    ++ put_u16 wav_num_channels
    ++ put_u32 wav_sample_rate
    ++ put_u32 (wav_sample_rate * wav_num_channels * wav_bits_per_sample / 8)
    ++ put_u16 (wav_num_channels * wav_bits_per_sample / 8)
    ++ put_u16 wav_bits_per_sample
    ++ codes "data"
    ++ put_u32 (data_size % 2 ^ 32)

-- The contents of the file, `none` for samples that are not whole.
unfoldable pub wav_file : List ℕ → Option (List ℕ)
unfolding wav_header
wav_file pcm = if not (length pcm % 2 == 0) then none else some (wav_header (length pcm) ++ pcm)

-- The 32 bits at an offset.
abbrev pub get_u32 : ℕ → List ℕ → ℕ
get_u32 i bytes =
    get_or bytes i 0
    + 256 * get_or bytes (i + 1) 0
    + 65536 * get_or bytes (i + 2) 0
    + 16777216 * get_or bytes (i + 3) 0

-- What a reader finds: the RIFF size, the data's size and the data.
abbrev pub IsWav : List ℕ → List ℕ → Type 0
IsWav file pcm =
    (get_u32 4 file + 8 ≡ length file)
    × (get_u32 40 file ≡ length pcm)
    × (take (get_u32 40 file) (drop 44 file) ≡ pcm)
    × (get_u32 24 file ≡ 16000)

bytes :
    (n : ℕ)
    → n < 2 ^ 32
    → n % 256 + 256 * (n / 256 % 256) + 65536 * (n / 65536 % 256) + 16777216 * (n / 16777216 % 256)
      ≡ n
bytes n h = omega arith

take_all {ℓ} : {A : Type ℓ} (xs : List A) → take (length xs) xs ≡ xs
take_all [] = refl
take_all (x ∷ xs) = ap (◌∷◌ x) (take_all xs)

small : (n : ℕ) → n < 2 ^ 32 → n % 2 ^ 32 ≡ n
small n h = omega arith

header-IsWav :
    (pcm : List ℕ) → length pcm + 36 < 2 ^ 32 → IsWav (wav_header (length pcm) ++ pcm) pcm
unfolding wav_header
header-IsWav pcm h = (
  ap (λ n. n + 8) (bytes ((36 + length pcm) % 2 ^ 32) (omega arith)) ∙ riff,
  size,
  ap (λ n. take n pcm) size ∙ take_all pcm,
  refl,
)
  where
    size : get_u32 40 (wav_header (length pcm) ++ pcm) ≡ length pcm
    size = bytes (length pcm % 2 ^ 32) (omega arith) ∙ small (length pcm) (omega arith)

    riff : (36 + length pcm) % 2 ^ 32 + 8 ≡ length (wav_header (length pcm) ++ pcm)
    riff = omega (arith, small (36 + length pcm) (omega arith))

-- The file of whole samples that fit a WAV file is written, and gives them back: a reader finds the
-- file's size but for 8 bytes, the size of the samples, the samples themselves, and their rate.
pub wav_file-IsWav :
    (pcm : List ℕ)
    → length pcm % 2 ≡ 0
    → length pcm + 36 < 2 ^ 32
    → (file : List ℕ) × (wav_file pcm ≡ some file) × IsWav file pcm
unfolding wav_file
wav_file-IsWav pcm e h = (wav_header (length pcm) ++ pcm, rw e refl, header-IsWav pcm h)
