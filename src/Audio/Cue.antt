-- ===== src/Audio/Cue.antt =====
-- internal/audio/cue.go: the tones that tell of an open and of a closed microphone. A float64 is an
-- element of the type `F`, and what the program computes with them are the fields of `Floats`.
pub mod Cached
pub mod Player
mod Tests
use dicta.Base.{
  ℕ, zero, suc, ◌+◌, ◌-◌, ◌*◌, ◌/◌, ◌%◌, Bool, true, false, not, ◌&&◌, ◌||◌, List, [], ◌∷◌, ◌++◌,
  Option, none, some, Text, codes, is_empty, text_eq, ltb, leb, ◌==◌, if◌then◌else◌,
}
use dicta.Base.Ints.{ℤ, pos, negsuc, int_eq, or_default, itoa}
use dicta.Audio.Frame.{
  sample_rate_hz, channels, backend_auto, backend_pipewire, backend_pulse, pick_backend,
}

-- `==` with 0, `<= 0`, `> 1`, and the numbers 880, 660, 0.25 and 1 of the source.
pub record Floats (F : Type 0) : Type 0 where
  pub zero_float : F
  pub float_eq : F → F → Bool
  pub not_positive : F → Bool
  pub above_one : F → Bool
  pub eight_eighty : F
  pub six_sixty : F
  pub quarter : F
  pub one : F
  -- The quotient of two sample counts.
  pub ratio : ℕ → ℕ → F
  -- The sample at an amplitude, a ramp factor, a frequency and an index, as the two's complement of
  -- its int16.
  pub sample : F → F → F → ℕ → ℕ

-- `other` are the numbers that are no cue.
pub data Cue : Type 0 where
  cue_open cue_close : Cue
  other : ℤ → Cue

-- What `playerCommand` answers.
pub data Custom : Type 0 where
  player : Text → List Text → Custom
  custom_error : Custom

pub record CueConfig (F : Type 0) : Type 0 where
  pub backend : Text
  pub open_freq_hz : F
  pub close_freq_hz : F
  pub duration_ms : ℤ
  pub ramp_ms : ℤ
  pub amplitude : F
  pub play_deadline : ℤ
  pub disabled : Bool
  pub player_command : Option (Text → ℕ → Custom)

-- `cueCacheKey`.
pub record Key (F : Type 0) : Type 0 where
  pub open_hz : F
  pub close_hz : F
  pub amp : F
  pub duration_ms : ℤ
  pub ramp_ms : ℤ
  pub rate : ℕ

-- A tone of no bytes is nil: those of a positive length have some.
pub record SubprocessCuer (F : Type 0) : Type 0 where
  pub config : CueConfig F
  pub open_pcm : List ℕ
  pub close_pcm : List ℕ
  pub cached_key : Key F

abbrev pub natural : ℤ → ℕ
natural (pos n) = n
natural (negsuc n) = 0

module _ {F : Type 0} (z : Floats F) where
  abbrev pub or_float : F → F → F
  or_float d x = if z.float_eq x z.zero_float then d else x

  unfoldable pub with_defaults : CueConfig F → CueConfig F
  with_defaults c = record {
    backend = if is_empty c.backend then backend_auto else c.backend;
    open_freq_hz = or_float z.eight_eighty c.open_freq_hz;
    close_freq_hz = or_float z.six_sixty c.close_freq_hz;
    duration_ms = or_default 80 c.duration_ms;
    ramp_ms = or_default 8 c.ramp_ms;
    amplitude = or_float z.quarter c.amplitude;
    play_deadline = or_default 1_000_000_000 c.play_deadline;
    disabled = c.disabled;
    player_command = c.player_command;
  }

  -- `NewSubprocessCuer`.
  unfoldable pub new : CueConfig F → SubprocessCuer F
  unfolding with_defaults
  new c = record {
    config = with_defaults c;
    open_pcm = [];
    close_pcm = [];
    cached_key = record {
      open_hz = z.zero_float;
      close_hz = z.zero_float;
      amp = z.zero_float;
      duration_ms = pos 0;
      ramp_ms = pos 0;
      rate = 0;
    };
  }

  -- The ramp factor of sample `i`.
  unfoldable pub ramp_at : ℕ → ℕ → ℕ → F
  ramp_at total ramp i =
      if ltb i ramp && ltb 0 ramp
      then z.ratio i ramp
      else if leb (total - ramp) i && ltb 0 ramp
      then z.ratio (total - 1 - i) ramp
      else z.one

  -- The samples from index `i` on, `n` of them, in little endian.
  unfoldable pub samples : F → F → ℕ → ℕ → ℕ → ℕ → List ℕ
  unfolding ramp_at
  samples amplitude freq total ramp zero i = []
  samples amplitude freq total ramp (suc n) i =
      let s = z.sample amplitude (ramp_at total ramp i) freq i in
      (s % 256) ∷ (s / 256 % 256) ∷ samples amplitude freq total ramp n (suc i)

  abbrev pub clamp : F → F
  clamp amplitude =
      let amplitude = if z.not_positive amplitude then z.quarter else amplitude in
      if z.above_one amplitude then z.one else amplitude

  -- `SynthesizeTone`.
  unfoldable pub synthesize_tone : F → ℤ → ℤ → F → List ℕ
  unfolding samples
  synthesize_tone freq duration ramp_ms amplitude =
      let total = sample_rate_hz * natural duration / 1000 in
      let ramp = sample_rate_hz * natural ramp_ms / 1000 in
      let ramp = if ltb total (2 * ramp) then total / 2 else ramp in
      samples (clamp amplitude) freq total ramp total 0

  abbrev pub key_of : CueConfig F → Key F
  key_of c = record {
    open_hz = c.open_freq_hz;
    close_hz = c.close_freq_hz;
    amp = c.amplitude;
    duration_ms = c.duration_ms;
    ramp_ms = c.ramp_ms;
    rate = sample_rate_hz;
  }

  unfoldable pub key_eq : Key F → Key F → Bool
  key_eq a b =
      a.rate == b.rate
      && z.float_eq a.open_hz b.open_hz
      && z.float_eq a.close_hz b.close_hz
      && z.float_eq a.amp b.amp
      && int_eq a.duration_ms b.duration_ms
      && int_eq a.ramp_ms b.ramp_ms

  abbrev pub tone_at : F → CueConfig F → List ℕ
  unfolding synthesize_tone
  tone_at freq c = synthesize_tone freq c.duration_ms c.ramp_ms c.amplitude

  abbrev pub pick_tone : Cue → SubprocessCuer F → Option (List ℕ)
  pick_tone cue_open c = some c.open_pcm
  pick_tone cue_close c = some c.close_pcm
  pick_tone (other n) c = none

  -- The cached tone, if there is one.
  abbrev pub kept : Bool → Option (List ℕ) → List ℕ
  kept false pcm = []
  kept true none = []
  kept true (some pcm) = pcm

  unfoldable pub cached : Cue → SubprocessCuer F → List ℕ
  unfolding key_eq
  cached cue c = kept (key_eq c.cached_key (key_of c.config)) (pick_tone cue c)

  unfoldable pub refill : SubprocessCuer F → SubprocessCuer F
  unfolding key_eq tone_at
  refill c =
      if not (key_eq c.cached_key (key_of c.config))
      then record c {
        open_pcm = tone_at c.config.open_freq_hz c.config;
        close_pcm = tone_at c.config.close_freq_hz c.config;
        cached_key = key_of c.config;
      }
      else c

  -- `toneFor`; `none` is its error.
  unfoldable pub tone_for : Cue → SubprocessCuer F → SubprocessCuer F × Option (List ℕ)
  unfolding cached refill
  tone_for cue c =
      if not (is_empty (cached cue c))
      then (c, some (cached cue c))
      else (refill c, pick_tone cue (refill c))
