-- ===== src/Cleanup.antt =====
-- internal/cleanup: the cleaner that asks a chat-completions endpoint. Package net/http, the JSON
-- codec and the URL parser are parameters. A text is a list of code points, a body one of bytes.
pub mod Requests
mod Tests
use dicta.Base.{
  ℕ, ◌+◌, ◌*◌, ◌/◌, Bool, true, false, not, ◌&&◌, List, [], ◌∷◌, ◌++◌, Option, none, some, Text,
  Unicode, codes, is_empty, text_eq, trim_right, trim_space, length, take, leb, ◌==◌, if◌then◌else◌,
}
use dicta.Base.Ints.{ℤ, or_default}

pub record Config : Type 0 where
  pub enabled : Bool
  pub endpoint : Text
  pub api_key : Text
  pub api_key_env : Text
  pub model : Text
  pub timeout : ℤ
  pub max_tokens : ℤ
  pub insecure_skip_tls_verify : Bool

unfoldable pub with_defaults : Config → Config
with_defaults c = record c {
  timeout = or_default 10_000_000_000 c.timeout;
  max_tokens = or_default 2_048 c.max_tokens;
}

-- The lines of a raw string literal.
abbrev pub unlines : List Text → Text
unlines [] = []
unlines (l ∷ []) = l
unlines (l ∷ m ∷ ls) = l ++ 10 ∷ unlines (m ∷ ls)

unfoldable pub mechanical_system_prompt : Text
mechanical_system_prompt = unlines (
    codes "You are a mechanical text cleaner for speech-to-text transcripts."
    ∷ []
    ∷ codes "Fix only these:"
    ∷ codes "- Punctuation (commas, periods, question marks, apostrophes)."
    ∷ codes "- Capitalization (sentence starts, proper nouns)."
    ∷ codes "- Obvious homophone errors (there/their/they're, your/you're, its/it's)."
    ∷ codes "- Disfluencies (\"um\", \"uh\", filler restarts, repeated false starts)."
    ∷ []
    ∷ codes "Do NOT:"
    ∷ codes "- Change word choice or rephrase sentences."
    ∷ codes "- Add new content."
    ∷ codes "- Remove content other than the disfluencies listed above."
    ∷ codes "- Translate, summarize, or interpret."
    ∷ codes "- Add quotes, preamble, commentary, or explanation."
    ∷ []
    ∷ codes "Output ONLY the cleaned transcript text. No preamble, no quoting, no markdown."
    ∷ [])

pub data Profile : Type 0 where
  mechanical passthrough : Profile
  other : Text → Profile

-- `scheme_of` is the scheme of a URL, `none` if it does not parse.
pub record Host : Type 0 where
  pub getenv : Text → Text
  pub scheme_of : Text → Option Text

pub data Warning : Type 0 where
  cleartext tls_disabled : Warning

pub record HttpCleaner : Type 0 where
  pub config : Config
  pub api_key : Text
  pub url : Text
  pub warnings : List Warning

pub data Cleaner : Type 0 where
  passes : Cleaner
  http : HttpCleaner → Cleaner

pub data ConfigError : Type 0 where
  endpoint_required model_required parse_endpoint : ConfigError
  unsupported_scheme : Text → ConfigError

pub data Made : Type 0 where
  cleaner : Cleaner → Made
  refused : ConfigError → Made

abbrev pub is_slash : ℕ → Bool
is_slash c = c == 47

unfoldable pub join_chat_completions : Text → Text
join_chat_completions endpoint = trim_right is_slash endpoint ++ codes "/chat/completions"

abbrev pub api_key_of : Host → Config → Text
api_key_of m c =
    if is_empty c.api_key && not (is_empty c.api_key_env) then m.getenv c.api_key_env else c.api_key

abbrev pub http_cleaner : Host → Config → List Warning → Made
unfolding join_chat_completions
http_cleaner m c warnings = cleaner (
    http (record {
      config = c;
      api_key = api_key_of m c;
      url = join_chat_completions c.endpoint;
      warnings = warnings ++ (if c.insecure_skip_tls_verify then tls_disabled ∷ [] else []);
    }))

abbrev pub schemed : Host → Config → Option Text → Made
unfolding http_cleaner
schemed m c none = refused parse_endpoint
schemed m c (some scheme) =
    if text_eq scheme (codes "https")
    then http_cleaner m c []
    else if text_eq scheme (codes "http")
    then http_cleaner m c (cleartext ∷ [])
    else refused (unsupported_scheme scheme)

-- `newHTTPCleaner`.
unfoldable pub new_http_cleaner : Host → Config → Made
unfolding with_defaults schemed
new_http_cleaner m c =
    let c = with_defaults c in
    if is_empty c.model then refused model_required else schemed m c (m.scheme_of c.endpoint)

unfoldable pub new : Host → Config → Made
unfolding new_http_cleaner
new m c =
    if not c.enabled
    then cleaner passes
    else if is_empty c.endpoint
    then refused endpoint_required
    else new_http_cleaner m c

-- The request of `Clean`. Its temperature is 0, and the messages are those of the roles "system" and
-- "user".
pub record Request : Type 0 where
  pub url : Text
  pub model : Text
  pub system : Text
  pub user : Text
  pub max_tokens : ℤ
  pub authorization : Option Text
  pub timeout : ℤ

pub data Reply : Type 0 where
  not_built not_posted not_read : Reply
  response : ℕ → List ℕ → Reply

-- What the JSON of a body decodes to: the contents of the choices, and the message of the error
-- that it holds, empty if there is none. The latter is read whether or not the body decodes.
pub record Json : Type 0 where
  pub choices : List ℕ → Option (List Text)
  pub error_message : List ℕ → List ℕ

pub data Error : Type 0 where
  unknown_profile : Text → Error
  build_request post read_response parse_response empty_content : Error
  status : ℕ → List ℕ → Error
  zero_choices : List ℕ → Error

pub data Cleaned : Type 0 where
  text : Text → Cleaned
  failed : Error → Cleaned

-- The ellipsis is three bytes long.
unfoldable pub truncate : List ℕ → ℕ → List ℕ
truncate s n = if leb (length s) n then s else take n s ++ 226 ∷ 128 ∷ 166 ∷ []

abbrev pub first_choice : Unicode → List ℕ → Option (List Text) → Cleaned
unfolding truncate
first_choice u body none = failed parse_response
first_choice u body (some []) = failed (zero_choices (truncate body 200))
first_choice u body (some (content ∷ choices)) =
    let cleaned = trim_space u content in
    if is_empty cleaned then failed empty_content else text cleaned

-- From the answer on; at most 1 MiB of the body is read.
unfoldable pub answered : Unicode → Json → Reply → Cleaned
unfolding first_choice truncate
answered u j not_built = failed build_request
answered u j not_posted = failed post
answered u j not_read = failed read_response
answered u j (response code body) =
    let read = take 1_048_576 body in
    let message = j.error_message read in
    if not (code / 100 == 2)
    then failed (status code (if is_empty message then truncate read 200 else message))
    else first_choice u read (j.choices read)

unfoldable pub request : HttpCleaner → Text → Request
request h raw = record {
  url = h.url;
  model = h.config.model;
  system = mechanical_system_prompt;
  user = raw;
  max_tokens = h.config.max_tokens;
  authorization = if is_empty h.api_key then none else some (codes "Bearer " ++ h.api_key);
  timeout = h.config.timeout;
}

module _ (u : Unicode) (j : Json) (serve : Request → Reply) where
  -- `Clean` of the HTTP cleaner, with the requests that it makes.
  unfoldable pub clean_http : HttpCleaner → Text → Profile → Cleaned × List Request
  unfolding answered request
  clean_http h raw passthrough = (text raw, [])
  clean_http h raw (other p) = (failed (unknown_profile p), [])
  clean_http h raw mechanical =
      if is_empty (trim_space u raw)
      then (text raw, [])
      else (answered u j (serve (request h raw)), request h raw ∷ [])

  unfoldable pub clean : Cleaner → Text → Profile → Cleaned × List Request
  unfolding clean_http
  clean passes raw p = (text raw, [])
  clean (http h) raw p = clean_http h raw p
