-- ===== src/Asr/Tests.antt =====
-- internal/asr/selector.go and check.go: a key over http, and some answers to the check.
use dicta.Base.{
  ◌≡◌, refl, false, [], ◌∷◌, none, some, Text, codes, text_eq, if◌then◌else◌, trim_space,
}
use dicta.Base.Ints.{pos}
use dicta.Base.Samples.{ascii}
use dicta.Retry
use dicta.Asr.{
  Config, Host, open_ai, with_endpoint, with_model, Transcriber, selected, failed, addr_scheme,
  unknown_backend, addr, refused, parse_wyoming_addr, cleartext_key, select, is_loopback_host,
  select_open_ai, backed,
}
use dicta.Asr.Check.{normalize, check, check_ok, check_degraded, transcript, error}

abbrev lan : Text
lan = codes "http://halo/v1"

abbrev host : Host
host = record {
  getenv = λ _. codes "key";
  default_endpoint = codes "https://api.openai.com/v1/audio/transcriptions";
  equal_fold = text_eq;
  parse_url = λ t. if text_eq t lan then some (codes "http", codes "halo") else none;
  parse_ip = λ _. none;
}

abbrev config : Config
config = record {
  backend = codes "OpenAI";
  wyoming = record {
    addr = codes "tcp://halo:10300";
    dial_timeout = pos 0;
    reconnect_backoff_initial = pos 0;
    reconnect_backoff_max = pos 0;
    max_attempts = pos 0;
  };
  whisper_cpp = record {
    endpoint = [];
    reconnect_backoff_initial = pos 0;
    reconnect_backoff_max = pos 0;
    max_attempts = pos 0;
  };
  open_ai = record {
    api_key = [];
    api_key_env = codes "KEY";
    endpoint = lan;
    model = codes "turbo";
    timeout = pos 0;
    insecure_skip_tls_verify = false;
    reconnect_backoff_initial = pos 0;
    reconnect_backoff_max = pos 0;
    max_attempts = pos 3;
  };
}

abbrev backend : Transcriber
backend = record {
  inner = open_ai (codes "key") (with_endpoint lan ∷ with_model (codes "turbo") ∷ []);
  retry = record { initial = 1_000_000_000; max = 30_000_000_000; max_attempts = 3 };
  warnings = cleartext_key ∷ [];
}

select-http : select ascii host config ≡ selected backend
unfolding select select_open_ai is_loopback_host Retry.new_config backed
select-http = refl

wyoming_tcp : parse_wyoming_addr (codes "tcp://halo:10300") ≡ addr (codes "halo:10300")
unfolding parse_wyoming_addr
wyoming_tcp = refl

wyoming_http : parse_wyoming_addr (codes "http://halo:10300") ≡ refused addr_scheme
unfolding parse_wyoming_addr
wyoming_http = refl

unknown :
    select ascii host (record config { backend = codes "vosk" })
    ≡ failed (unknown_backend (codes "vosk"))
unfolding select
unknown = refl

decorated : normalize ascii (codes " Hello-world. ") ≡ codes "hello world"
unfolding normalize trim_space
decorated = refl

hears : (check ascii (λ _. (12, transcript (codes " Hello, world."))) 0).state ≡ check_ok
unfolding check normalize trim_space
hears = refl

mishears : (check ascii (λ _. (12, transcript (codes "yellow word"))) 0).state ≡ check_degraded
unfolding check normalize trim_space
mishears = refl

times_out : (check ascii (λ limit. (limit, error (codes "deadline"))) 0).latency ≡ 30_000_000_000
unfolding check
times_out = refl
