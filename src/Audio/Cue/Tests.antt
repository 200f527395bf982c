-- ===== src/Audio/Cue/Tests.antt =====
-- internal/audio/cue.go: the ramp of a tone and the outcomes of a cue, with numbers for floats.
use dicta.Base.{ℕ, ◌≡◌, refl, true, false, List, [], ◌∷◌, none, some, codes, ◌==◌}
use dicta.Base.Ints.{pos, negsuc, itoa}
use dicta.Audio.Cue.{
  Floats, cue_open, cue_close, CueConfig, with_defaults, tone_for, new, player, ramp_at,
  synthesize_tone, cached, refill,
}
use dicta.Audio.Cue.Cached.{tone, warm, tone_for-new}
use dicta.Audio.Cue.Player.{
  play, Process, pw_cat_args, played, muted, failed, exit_failed, not_on_path, custom_empty,
  resolve_player,
}

abbrev floats : Floats ℕ
floats = record {
  zero_float = 0;
  float_eq = λ a b. a == b;
  not_positive = λ a. a == 0;
  above_one = λ a. false;
  eight_eighty = 880;
  six_sixty = 660;
  quarter = 25;
  one = 1000;
  ratio = λ a b. a;
  sample = λ amplitude ramp freq i. ramp;
}

abbrev config : CueConfig ℕ
config = record {
  backend = [];
  open_freq_hz = 0;
  close_freq_hz = 0;
  duration_ms = pos 1;
  ramp_ms = pos 20;
  amplitude = 0;
  play_deadline = pos 0;
  disabled = false;
  player_command = none;
}

abbrev process : Process
process = record {
  pipe_fails = false;
  start_fails = false;
  write_fails = false;
  close_fails = false;
  wait_fails = true;
  deadline_passed = false;
}

-- A ramp that is too long is cut to half of the 16 samples.
abbrev ramp : List ℕ
ramp =
    0 ∷ 0 ∷ 1 ∷ 0 ∷ 2 ∷ 0 ∷ 3 ∷ 0 ∷ 4 ∷ 0 ∷ 5 ∷ 0 ∷ 6 ∷ 0 ∷ 7 ∷ 0 ∷ 7 ∷ 0 ∷ 6 ∷ 0 ∷ 5 ∷ 0 ∷ 4 ∷ 0
    ∷ 3 ∷ 0 ∷ 2 ∷ 0 ∷ 1 ∷ 0 ∷ 0 ∷ 0 ∷ []

synthesize_tone-ramp : synthesize_tone floats 880 (pos 1) (pos 20) 25 ≡ ramp
unfolding synthesize_tone
synthesize_tone-ramp = refl

no_tone : synthesize_tone floats 880 (negsuc 0) (pos 20) 25 ≡ []
unfolding synthesize_tone
no_tone = refl

no_ramp : ramp_at floats 16 0 3 ≡ 1000
unfolding ramp_at
no_ramp = refl

timed_out :
    (play floats
      (λ _. true)
      (record process { deadline_passed = true })
      cue_open
      (new floats config)).1
    ≡ played (codes "pw-cat") pw_cat_args ramp
unfolding play new cached refill synthesize_tone resolve_player itoa
timed_out = refl

exits : (play floats (λ _. true) process cue_open (new floats config)).1 ≡ failed exit_failed
unfolding play new cached refill resolve_player
exits = refl

no_player :
    (play floats (λ _. false) process cue_open (new floats config)).1
    ≡ failed (not_on_path (codes "paplay"))
unfolding play new cached refill resolve_player
no_player = refl

nameless :
    (play floats
      (λ _. true)
      process
      cue_open
      (new floats (record config { player_command = some (λ _ _. player [] []) }))).1
    ≡ failed custom_empty
unfolding play new cached refill resolve_player
nameless = refl

silent :
    (play floats (λ _. true) process cue_open (new floats (record config { disabled = true }))).1
    ≡ muted
unfolding play new
silent = refl

tone_for-new_example :
    (tone_for floats cue_open (warm floats (cue_open ∷ cue_close ∷ []) (new floats config))).1
    ≡ tone floats (with_defaults floats config) cue_open
tone_for-new_example = tone_for-new floats config (cue_open ∷ cue_close ∷ []) cue_open
