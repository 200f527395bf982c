-- ===== src/Asr/Selects.antt =====
-- internal/asr/selector.go: what every selected backend is guarded by.
use mathlib.Core.Path.{subst}
use dicta.Base.{
  ◌≤◌, ◌<◌, ◌≡◌, refl, sym, ap, ◌∙◌, Bool, true, false, not, ◌&&◌, List, [], ◌∷◌, ◌++◌, Option,
  none, some, Text, Unicode, codes, is_empty, text_eq, text_eq_sound, if◌then◌else◌, if_intro,
  arith,
}
use dicta.Base.Ints.{ℤ}
use dicta.Retry
use dicta.Asr.{
  WyomingConfig, WhisperCppConfig, OpenAiConfig, Config, Host, OpenAiOption, with_endpoint,
  with_model, with_timeout, with_tls_insecure_skip_verify, Client, wyoming, whisper_cpp, open_ai,
  Warning, cleartext_key, tls_disabled, Transcriber, Selection, selected, failed, Addr, addr,
  refused, lower, retry_backend, dialled, api_key, endpoint, client, backed, cleartext, schemed,
  is_loopback_host, is_positive, parse_wyoming_addr, wyoming_defaults, whisper_cpp_defaults,
  open_ai_defaults, select_wyoming, select_whisper_cpp, select_open_ai, select,
}

-- The endpoint that a client of the options asks, and whether it skips the verification.
abbrev pub endpoint_of : List OpenAiOption → Text
endpoint_of [] = []
endpoint_of (with_endpoint e ∷ opts) = e
endpoint_of (with_model t ∷ opts) = endpoint_of opts
endpoint_of (with_timeout d ∷ opts) = endpoint_of opts
endpoint_of (with_tls_insecure_skip_verify ∷ opts) = endpoint_of opts

abbrev pub skips_tls : List OpenAiOption → Bool
skips_tls [] = false
skips_tls (with_endpoint e ∷ opts) = skips_tls opts
skips_tls (with_model t ∷ opts) = skips_tls opts
skips_tls (with_timeout d ∷ opts) = skips_tls opts
skips_tls (with_tls_insecure_skip_verify ∷ opts) = true

abbrev pub warns_cleartext : List Warning → Bool
warns_cleartext [] = false
warns_cleartext (cleartext_key ∷ ws) = true
warns_cleartext (tls_disabled ∷ ws) = warns_cleartext ws

abbrev pub warns_tls : List Warning → Bool
warns_tls [] = false
warns_tls (cleartext_key ∷ ws) = warns_tls ws
warns_tls (tls_disabled ∷ ws) = true

-- A key goes to an endpoint over TLS, to a loopback one, or with a warning.
pub data IsProtected (m : Host) (ws : List Warning) : Option (Text × Text) → Type 0 where
  encrypted : (host : Text) → IsProtected m ws (some (codes "https", host))
  local :
      (host : Text) → is_loopback_host m host ≡ true → IsProtected m ws (some (codes "http", host))
  warned : (host : Text) → warns_cleartext ws ≡ true → IsProtected m ws (some (codes "http", host))

abbrev pub Keeps : Host → List Warning → Client → Type 0
Keeps m ws (wyoming a d) = Unit {0}
Keeps m ws (whisper_cpp e) = Unit {0}
Keeps m ws (open_ai key opts) =
    (is_empty key ≡ false → IsProtected m ws (m.parse_url (endpoint_of opts)))
    × (skips_tls opts ≡ true → warns_tls ws ≡ true)

pub record IsGuarded (m : Host) (t : Transcriber) : Type 0 where
  pub keeps : Keeps m t.warnings t.inner
  pub waits : 0 < t.retry.initial
  pub grows : t.retry.initial ≤ t.retry.max

abbrev Holds : Host → Selection → Type 0
Holds m (selected t) = IsGuarded m t
Holds m (failed err) = Unit {0}

record IsPaced (c : Retry.Config) : Type 0 where
  waits : 0 < c.initial
  grows : c.initial ≤ c.max

retry_backend-IsPaced : (a b n : ℤ) → IsPaced (retry_backend a b n)
unfolding Retry.new_config
retry_backend-IsPaced a b n = record { waits = ground arith; grows = ground arith }

skips_tls-client :
    (a b d : Bool) (e model : Text) (limit : ℤ)
    → skips_tls (
        (with_endpoint e ∷ (if a then [] else with_model model ∷ []))
        ++ (if b then with_timeout limit ∷ [] else [])
        ++ (if d then with_tls_insecure_skip_verify ∷ [] else []))
      ≡ d
skips_tls-client true true true e model limit = refl
skips_tls-client true true false e model limit = refl
skips_tls-client true false true e model limit = refl
skips_tls-client true false false e model limit = refl
skips_tls-client false true true e model limit = refl
skips_tls-client false true false e model limit = refl
skips_tls-client false false true e model limit = refl
skips_tls-client false false false e model limit = refl

warns_tls-end :
    (ws : List Warning) (b : Bool)
    → b ≡ true
    → warns_tls (ws ++ (if b then tls_disabled ∷ [] else [])) ≡ true
warns_tls-end [] b h = rw h refl
warns_tls-end (cleartext_key ∷ ws) b h = warns_tls-end ws b h
warns_tls-end (tls_disabled ∷ ws) b h = refl

dialled-Holds : (m : Host) (c : WyomingConfig) (a : Addr) → Holds m (dialled c a)
dialled-Holds m c (refused err) = tt
dialled-Holds m c (addr a) =
    let paced : IsPaced
        (retry_backend c.reconnect_backoff_initial c.reconnect_backoff_max c.max_attempts) =
      retry_backend-IsPaced c.reconnect_backoff_initial c.reconnect_backoff_max c.max_attempts in
    record { keeps = tt; waits = paced.waits; grows = paced.grows }

backed-Holds :
    (m : Host) (c : OpenAiConfig) (ws : List Warning)
    → (is_empty (api_key m c) ≡ false
        → IsProtected m
            (ws ++ (if c.insecure_skip_tls_verify then tls_disabled ∷ [] else []))
            (m.parse_url (endpoint m c)))
    → Holds m (backed m c ws)
unfolding client
backed-Holds m c ws h =
    let paced : IsPaced
        (retry_backend c.reconnect_backoff_initial c.reconnect_backoff_max c.max_attempts) =
      retry_backend-IsPaced c.reconnect_backoff_initial c.reconnect_backoff_max c.max_attempts in
    record {
      keeps = (
        h,
        λ q. warns_tls-end ws c.insecure_skip_tls_verify (
            sym (
              skips_tls-client (is_empty c.model) (is_positive c.timeout) c.insecure_skip_tls_verify
                (endpoint m c) c.model c.timeout)
            ∙ q),
      );
      waits = paced.waits;
      grows = paced.grows;
    }

warns_cleartext-end :
    (b : Bool) (ws : List Warning)
    → b ≡ true
    → warns_cleartext ((if b then cleartext_key ∷ [] else []) ++ ws) ≡ true
warns_cleartext-end b ws h = rw h refl

exposed : (a b : Bool) → a ≡ false → b ≡ false → not a && not b ≡ true
exposed a b h k = rw (h, k) refl

-- A key on http.
http-IsProtected :
    (m : Host) (c : OpenAiConfig) (host : Text) (ws : List Warning)
    → is_empty (api_key m c) ≡ false
    → IsProtected m (cleartext m c host ++ ws) (some (codes "http", host))
http-IsProtected m c host ws h = at (is_loopback_host m host) refl
  where
    at :
        (b : Bool)
        → is_loopback_host m host ≡ b
        → IsProtected m (cleartext m c host ++ ws) (some (codes "http", host))
    at true q = local host q
    at false q = warned host (
        warns_cleartext-end (not (is_loopback_host m host) && not (is_empty (api_key m c))) ws
          (exposed (is_loopback_host m host) (is_empty (api_key m c)) q h))

schemed-Holds :
    (m : Host) (c : OpenAiConfig) (u : Option (Text × Text))
    → m.parse_url (endpoint m c) ≡ u
    → Holds m (schemed m c u)
unfolding schemed
schemed-Holds m c none e = tt
schemed-Holds m c (some (scheme, host)) e =
    if_intro (Holds m) (text_eq scheme (codes "https"))
      (λ q. backed-Holds m c [] (λ _.
        subst (IsProtected m tls)
          (sym (e ∙ ap (λ s. some (s, host)) (text_eq_sound scheme (codes "https") q)))
          (encrypted host)))
      (λ _.
        if_intro (Holds m) (text_eq scheme (codes "http"))
          (λ q. backed-Holds m c (cleartext m c host) (λ h.
            subst (IsProtected m (cleartext m c host ++ tls))
              (sym (e ∙ ap (λ s. some (s, host)) (text_eq_sound scheme (codes "http") q)))
              (http-IsProtected m c host tls h)))
          (λ _. tt))
  where
    tls : List Warning
    tls = if c.insecure_skip_tls_verify then tls_disabled ∷ [] else []

select_whisper_cpp-Holds : (m : Host) (c : WhisperCppConfig) → Holds m (select_whisper_cpp c)
unfolding select_whisper_cpp
select_whisper_cpp-Holds m c =
    let d = whisper_cpp_defaults c in
    let paced : IsPaced
        (retry_backend d.reconnect_backoff_initial d.reconnect_backoff_max d.max_attempts) =
      retry_backend-IsPaced d.reconnect_backoff_initial d.reconnect_backoff_max d.max_attempts in
    if_intro (Holds m) (is_empty d.endpoint) (λ _. tt)
      (λ _. record { keeps = tt; waits = paced.waits; grows = paced.grows })

select-Holds : (u : Unicode) (m : Host) (c : Config) → Holds m (select u m c)
unfolding select select_wyoming select_open_ai
select-Holds u m c =
    let w = wyoming_defaults c.wyoming in
    let o = open_ai_defaults c.open_ai in
    let b = lower u c.backend in
    if_intro (Holds m) (text_eq b (codes "wyoming"))
      (λ _. dialled-Holds m w (parse_wyoming_addr w.addr))
      (λ _.
        if_intro (Holds m) (text_eq b (codes "whispercpp"))
          (λ _. select_whisper_cpp-Holds m c.whisper_cpp)
          (λ _.
            if_intro (Holds m) (text_eq b (codes "openai"))
              (λ _. schemed-Holds m o (m.parse_url (endpoint m o)) refl)
              (λ _. if_intro (Holds m) (is_empty b) (λ _. tt) (λ _. tt))))

-- Every backend that is selected waits between its attempts, for at most the ceiling at first. An API
-- key is sent only over https, to a loopback host, or after the warning on cleartext; and the
-- verification of certificates is off only after its warning.
pub select-IsGuarded :
    (u : Unicode) (m : Host) (c : Config) (t : Transcriber)
    → select u m c ≡ selected t
    → IsGuarded m t
select-IsGuarded u m c t e = subst (Holds m) e (select-Holds u m c)
