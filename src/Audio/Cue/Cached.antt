-- ===== src/Audio/Cue/Cached.antt =====
-- internal/audio/cue.go: the tones that are kept are those that would be made.
use dicta.Base.{
  ℕ, ◌≡◌, refl, ap, ◌∙◌, Bool, true, false, not, List, [], ◌∷◌, Option, none, some, is_empty,
  if_intro, not-false,
}
use dicta.Audio.Cue.{
  Floats, Cue, cue_open, cue_close, other, CueConfig, SubprocessCuer, with_defaults, new, key_eq,
  key_of, tone_at, pick_tone, cached, kept, refill, tone_for,
}

module _ {F : Type 0} (z : Floats F) where
  -- The tone that a configuration asks for.
  abbrev pub tone : CueConfig F → Cue → Option (List ℕ)
  unfolding tone_at
  tone c cue_open = some (tone_at z c.open_freq_hz c)
  tone c cue_close = some (tone_at z c.close_freq_hz c)
  tone c (other n) = none

  pub record IsCached (c : SubprocessCuer F) : Type 0 where
    pub opens :
        key_eq z c.cached_key (key_of z c.config) ≡ true
        → c.open_pcm ≡ tone_at z c.config.open_freq_hz c.config
    pub closes :
        key_eq z c.cached_key (key_of z c.config) ≡ true
        → c.close_pcm ≡ tone_at z c.config.close_freq_hz c.config

  new-IsCached : (c : CueConfig F) → IsCached (new z c)
  unfolding new key_eq
  new-IsCached c = record { opens = λ h. cc; closes = λ h. cc }

  refill-opens :
      (c : SubprocessCuer F)
      → IsCached c
      → (refill z c).open_pcm ≡ tone_at z c.config.open_freq_hz c.config
  unfolding refill
  refill-opens c v =
      let b = key_eq z c.cached_key (key_of z c.config) in
      if_intro (λ (x : SubprocessCuer F). x.open_pcm ≡ tone_at z c.config.open_freq_hz c.config)
        (not b) (λ _. refl) (λ h. v.opens (not-false b h))

  refill-closes :
      (c : SubprocessCuer F)
      → IsCached c
      → (refill z c).close_pcm ≡ tone_at z c.config.close_freq_hz c.config
  unfolding refill
  refill-closes c v =
      let b = key_eq z c.cached_key (key_of z c.config) in
      if_intro (λ (x : SubprocessCuer F). x.close_pcm ≡ tone_at z c.config.close_freq_hz c.config)
        (not b) (λ _. refl) (λ h. v.closes (not-false b h))

  refill-config : (c : SubprocessCuer F) → (refill z c).config ≡ c.config
  unfolding refill
  refill-config c =
      if_intro (λ (x : SubprocessCuer F). x.config ≡ c.config)
        (not (key_eq z c.cached_key (key_of z c.config))) (λ _. refl) (λ _. refl)

  refill-pick :
      (cue : Cue) (c : SubprocessCuer F)
      → IsCached c
      → pick_tone z cue (refill z c) ≡ tone c.config cue
  unfolding tone
  refill-pick cue_open c v = ap some (refill-opens c v)
  refill-pick cue_close c v = ap some (refill-closes c v)
  refill-pick (other n) c v = refl

  refill-IsCached : (c : SubprocessCuer F) → IsCached c → IsCached (refill z c)
  unfolding refill
  refill-IsCached c v =
      if_intro IsCached (not (key_eq z c.cached_key (key_of z c.config)))
        (λ _. record { opens = λ _. refl; closes = λ _. refl }) (λ _. v)

  kept-is :
      (b : Bool) (o wanted : Option (List ℕ))
      → (b ≡ true → o ≡ wanted)
      → is_empty (kept z b o) ≡ false
      → some (kept z b o) ≡ wanted
  kept-is false o wanted k h = cc
  kept-is true none wanted k h = cc
  kept-is true (some pcm) wanted k h = k refl

  pick-tone :
      (cue : Cue) (c : SubprocessCuer F)
      → IsCached c
      → key_eq z c.cached_key (key_of z c.config) ≡ true
      → pick_tone z cue c ≡ tone c.config cue
  unfolding tone
  pick-tone cue_open c v h = ap some (v.opens h)
  pick-tone cue_close c v h = ap some (v.closes h)
  pick-tone (other n) c v h = refl

  record IsToned (c : SubprocessCuer F) (cue : Cue) (r : SubprocessCuer F × Option (List ℕ))
      : Type 0 where
    tones : r.1 ≡ tone c.config cue
    caches : IsCached r.0
    keeps : r.0.config ≡ c.config

  tone_for-IsToned :
      (cue : Cue) (c : SubprocessCuer F) → IsCached c → IsToned c cue (tone_for z cue c)
  unfolding tone_for cached
  tone_for-IsToned cue c v =
      if_intro (IsToned c cue) (not (is_empty (cached z cue c)))
        (λ h. record {
          tones =
              kept-is (key_eq z c.cached_key (key_of z c.config)) (pick_tone z cue c)
                (tone c.config cue) (pick-tone cue c v) (not-true (is_empty (cached z cue c)) h);
          caches = v;
          keeps = refl;
        })
        (λ _. record {
          tones = refill-pick cue c v;
          caches = refill-IsCached c v;
          keeps = refill-config c;
        })
    where
      not-true : (b : Bool) → not b ≡ true → b ≡ false
      not-true true e = cc
      not-true false e = refl

  -- The cues that were played before.
  unfoldable pub warm : List Cue → SubprocessCuer F → SubprocessCuer F
  unfolding tone_for
  warm [] c = c
  warm (cue ∷ cues) c = warm cues (tone_for z cue c).0

  warm-IsToned :
      (cues : List Cue) (cue : Cue) (c : SubprocessCuer F)
      → IsCached c
      → IsToned c cue (tone_for z cue (warm cues c))
  unfolding warm
  warm-IsToned [] cue c v = tone_for-IsToned cue c v
  warm-IsToned (k ∷ cues) cue c v =
      let once : IsToned c k (tone_for z k c) = tone_for-IsToned k c v in
      let rest : IsToned (tone_for z k c).0 cue (tone_for z cue (warm cues (tone_for z k c).0)) =
        warm-IsToned cues cue (tone_for z k c).0 once.caches in
      record {
        tones = rest.tones ∙ ap (λ x. tone x cue) once.keeps;
        caches = rest.caches;
        keeps = rest.keeps ∙ once.keeps;
      }

  -- Whichever cues a new cuer has played, the next tone is the one that would be made afresh.
  pub tone_for-new :
      (c : CueConfig F) (cues : List Cue) (cue : Cue)
      → (tone_for z cue (warm cues (new z c))).1 ≡ tone (with_defaults z c) cue
  unfolding new
  tone_for-new c cues cue = (warm-IsToned cues cue (new z c) (new-IsCached c)).tones
