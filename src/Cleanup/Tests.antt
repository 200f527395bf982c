-- ===== src/Cleanup/Tests.antt =====
-- internal/cleanup: a cleaner on http and its answers.
use dicta.Base.{◌≡◌, refl, true, [], ◌∷◌, none, some, codes, trim_space, trim_right}
use dicta.Base.Ints.{pos}
use dicta.Base.Samples.{ascii}
use dicta.Cleanup.{
  Config, Host, HttpCleaner, http, cleaner, refused, cleartext, tls_disabled, model_required,
  endpoint_required, unsupported_scheme, new, mechanical, Json, response, text, failed, status,
  empty_content, Request, clean, mechanical_system_prompt,
}

abbrev host : Host
host = record { getenv = λ _. []; scheme_of = λ _. some (codes "http") }

abbrev config : Config
config = record {
  enabled = true;
  endpoint = codes "http://halo:8080/v1/";
  api_key = [];
  api_key_env = codes "KEY";
  model = codes "qwen";
  timeout = pos 0;
  max_tokens = pos 0;
  insecure_skip_tls_verify = true;
}

abbrev halo : HttpCleaner
halo = record {
  config = record config { timeout = pos 10_000_000_000; max_tokens = pos 2_048 };
  api_key = [];
  url = codes "http://halo:8080/v1/chat/completions";
  warnings = cleartext ∷ tls_disabled ∷ [];
}

makes : new host config ≡ cleaner (http halo)
unfolding new trim_right
makes = refl

modelless : new host (record config { model = [] }) ≡ refused model_required
unfolding new
modelless = refl

nowhere : new host (record config { endpoint = [] }) ≡ refused endpoint_required
unfolding new
nowhere = refl

on_ftp :
    new (record host { scheme_of = λ _. some (codes "ftp") }) config
    ≡ refused (unsupported_scheme (codes "ftp"))
unfolding new
on_ftp = refl

abbrev json : Json
json = record { choices = λ body. some (body ∷ []); error_message = λ _. codes "busy" }

abbrev asked : Request
asked = record {
  url = halo.url;
  model = codes "qwen";
  system = mechanical_system_prompt;
  user = codes "um hi";
  max_tokens = pos 2_048;
  authorization = none;
  timeout = pos 10_000_000_000;
}

cleans :
    clean ascii json (λ _. response 200 (codes " Hi. ")) (http halo) (codes "um hi") mechanical
    ≡ (text (codes "Hi."), asked ∷ [])
unfolding clean trim_space
cleans = refl

empties :
    (clean ascii json (λ _. response 200 (codes " ")) (http halo) (codes "um hi") mechanical).0
    ≡ failed empty_content
unfolding clean trim_space
empties = refl

busy :
    (clean ascii json (λ _. response 503 []) (http halo) (codes "um hi") mechanical).0
    ≡ failed (status 503 (codes "busy"))
unfolding clean trim_space
busy = refl
