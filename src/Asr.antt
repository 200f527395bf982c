-- ===== src/Asr.antt =====
-- internal/asr/config.go and internal/asr/selector.go: the backend that a configuration selects. The
-- clients are those of package asrclient: what one is made of is recorded as a `Client`.
pub mod Check
pub mod Selects
mod Tests
use dicta.Base.{
  ℕ, Bool, true, false, not, ◌&&◌, List, [], ◌∷◌, ◌++◌, Option, none, some, Text, Unicode, codes,
  is_empty, text_eq, starts_with, contains, if◌then◌else◌,
}
use dicta.Base.Ints.{ℤ, pos, negsuc, is_zero, is_negative, or_default}
use dicta.Retry

pub record WyomingConfig : Type 0 where
  pub addr : Text
  pub dial_timeout : ℤ
  pub reconnect_backoff_initial : ℤ
  pub reconnect_backoff_max : ℤ
  pub max_attempts : ℤ

pub record WhisperCppConfig : Type 0 where
  pub endpoint : Text
  pub reconnect_backoff_initial : ℤ
  pub reconnect_backoff_max : ℤ
  pub max_attempts : ℤ

pub record OpenAiConfig : Type 0 where
  pub api_key : Text
  pub api_key_env : Text
  pub endpoint : Text
  pub model : Text
  pub timeout : ℤ
  pub insecure_skip_tls_verify : Bool
  pub reconnect_backoff_initial : ℤ
  pub reconnect_backoff_max : ℤ
  pub max_attempts : ℤ

pub record Config : Type 0 where
  pub backend : Text
  pub wyoming : WyomingConfig
  pub whisper_cpp : WhisperCppConfig
  pub open_ai : OpenAiConfig

-- The three `withDefaults`.
unfoldable pub wyoming_defaults : WyomingConfig → WyomingConfig
wyoming_defaults w = record w {
  reconnect_backoff_initial = or_default 1_000_000_000 w.reconnect_backoff_initial;
  reconnect_backoff_max = or_default 30_000_000_000 w.reconnect_backoff_max;
}

unfoldable pub whisper_cpp_defaults : WhisperCppConfig → WhisperCppConfig
whisper_cpp_defaults w = record w {
  reconnect_backoff_initial = or_default 1_000_000_000 w.reconnect_backoff_initial;
  reconnect_backoff_max = or_default 30_000_000_000 w.reconnect_backoff_max;
}

unfoldable pub open_ai_defaults : OpenAiConfig → OpenAiConfig
open_ai_defaults o = record o {
  reconnect_backoff_initial = or_default 1_000_000_000 o.reconnect_backoff_initial;
  reconnect_backoff_max = or_default 30_000_000_000 o.reconnect_backoff_max;
}

-- What the selector asks of the machine and of packages net, net/url and asrclient/openai.
pub record Host : Type 0 where
  pub getenv : Text → Text
  pub default_endpoint : Text
  -- strings.EqualFold.
  pub equal_fold : Text → Text → Bool
  -- The scheme and the host of a URL that parses.
  pub parse_url : Text → Option (Text × Text)
  -- Whether an address is a loopback one, `none` for what is no address.
  pub parse_ip : Text → Option Bool

pub data OpenAiOption : Type 0 where
  with_endpoint with_model : Text → OpenAiOption
  with_timeout : ℤ → OpenAiOption
  with_tls_insecure_skip_verify : OpenAiOption

pub data Client : Type 0 where
  wyoming : Text → Option ℤ → Client
  whisper_cpp : Text → Client
  open_ai : Text → List OpenAiOption → Client

pub data Warning : Type 0 where
  cleartext_key tls_disabled : Warning

-- `retryBackend`, and what was logged.
pub record Transcriber : Type 0 where
  pub inner : Client
  pub retry : Retry.Config
  pub warnings : List Warning

pub data Error : Type 0 where
  empty_backend : Error
  unknown_backend unsupported_scheme : Text → Error
  parse_endpoint endpoint_empty addr_empty addr_scheme : Error

pub data Selection : Type 0 where
  selected : Transcriber → Selection
  failed : Error → Selection

abbrev pub is_loopback : Option Bool → Bool
is_loopback none = false
is_loopback (some b) = b

-- `isLoopbackHost`.
unfoldable pub is_loopback_host : Host → Text → Bool
is_loopback_host m host =
    if is_empty host
    then false
    else if m.equal_fold host (codes "localhost")
    then true
    else is_loopback (m.parse_ip host)

-- strings.TrimPrefix of a text that starts with the prefix.
abbrev pub drop_prefix : Text → Text → Text
drop_prefix [] s = s
drop_prefix (c ∷ p) [] = []
drop_prefix (c ∷ p) (d ∷ s) = drop_prefix p s

pub data Addr : Type 0 where
  addr : Text → Addr
  refused : Error → Addr

-- `parseWyomingAddr`.
unfoldable pub parse_wyoming_addr : Text → Addr
parse_wyoming_addr a =
    if is_empty a
    then refused addr_empty
    else if starts_with a (codes "tcp://")
    then addr (drop_prefix (codes "tcp://") a)
    else if contains a (codes "://")
    then refused addr_scheme
    else addr a

abbrev pub is_positive : ℤ → Bool
is_positive d = not (is_zero d) && not (is_negative d)

-- A count or a duration below 0 is treated as 0.
abbrev pub at_least_zero : ℤ → ℕ
at_least_zero (pos n) = n
at_least_zero (negsuc n) = 0

-- `newRetryBackend` on the three settings.
abbrev pub retry_backend : ℤ → ℤ → ℤ → Retry.Config
retry_backend initial max max_attempts = Retry.new_config (record {
  initial = at_least_zero initial;
  max = at_least_zero max;
  max_attempts = at_least_zero max_attempts;
})

abbrev pub dialled : WyomingConfig → Addr → Selection
dialled c (refused err) = failed err
dialled c (addr a) = selected (record {
  inner = wyoming a (if is_positive c.dial_timeout then some c.dial_timeout else none);
  retry = retry_backend c.reconnect_backoff_initial c.reconnect_backoff_max c.max_attempts;
  warnings = [];
})

unfoldable pub select_wyoming : WyomingConfig → Selection
unfolding wyoming_defaults parse_wyoming_addr
select_wyoming c = let c = wyoming_defaults c in dialled c (parse_wyoming_addr c.addr)

unfoldable pub select_whisper_cpp : WhisperCppConfig → Selection
unfolding whisper_cpp_defaults
select_whisper_cpp c =
    let c = whisper_cpp_defaults c in
    if is_empty c.endpoint
    then failed endpoint_empty
    else selected (record {
      inner = whisper_cpp c.endpoint;
      retry = retry_backend c.reconnect_backoff_initial c.reconnect_backoff_max c.max_attempts;
      warnings = [];
    })

abbrev pub api_key : Host → OpenAiConfig → Text
api_key m c =
    if is_empty c.api_key && not (is_empty c.api_key_env) then m.getenv c.api_key_env else c.api_key

abbrev pub endpoint : Host → OpenAiConfig → Text
endpoint m c = if is_empty c.endpoint then m.default_endpoint else c.endpoint

unfoldable pub client : Host → OpenAiConfig → Client
client m c = open_ai (api_key m c) (
    (with_endpoint (endpoint m c) ∷ (if is_empty c.model then [] else with_model c.model ∷ []))
    ++ (if is_positive c.timeout then with_timeout c.timeout ∷ [] else [])
    ++ (if c.insecure_skip_tls_verify then with_tls_insecure_skip_verify ∷ [] else []))

abbrev pub backed : Host → OpenAiConfig → List Warning → Selection
unfolding client
backed m c warnings = selected (record {
  inner = client m c;
  retry = retry_backend c.reconnect_backoff_initial c.reconnect_backoff_max c.max_attempts;
  warnings = warnings ++ (if c.insecure_skip_tls_verify then tls_disabled ∷ [] else []);
})

abbrev pub cleartext : Host → OpenAiConfig → Text → List Warning
cleartext m c host =
    if not (is_loopback_host m host) && not (is_empty (api_key m c)) then cleartext_key ∷ [] else []

abbrev pub schemed : Host → OpenAiConfig → Option (Text × Text) → Selection
unfolding is_loopback_host
schemed m c none = failed parse_endpoint
schemed m c (some (scheme, host)) =
    if text_eq scheme (codes "https")
    then backed m c []
    else if text_eq scheme (codes "http")
    then backed m c (cleartext m c host)
    else failed (unsupported_scheme scheme)

unfoldable pub select_open_ai : Host → OpenAiConfig → Selection
unfolding open_ai_defaults schemed
select_open_ai m c = let c = open_ai_defaults c in schemed m c (m.parse_url (endpoint m c))

-- strings.ToLower.
abbrev pub lower : Unicode → Text → Text
lower u [] = []
lower u (c ∷ s) = u.to_lower c ∷ lower u s

unfoldable pub select : Unicode → Host → Config → Selection
unfolding select_wyoming select_whisper_cpp select_open_ai
select u m c =
    let backend = lower u c.backend in
    if text_eq backend (codes "wyoming")
    then select_wyoming c.wyoming
    else if text_eq backend (codes "whispercpp")
    then select_whisper_cpp c.whisper_cpp
    else if text_eq backend (codes "openai")
    then select_open_ai m c.open_ai
    else if is_empty backend
    then failed empty_backend
    else failed (unknown_backend c.backend)
