-- ===== src/Typer/Invoke.antt =====
-- internal/dispatch/typer.go: the configuration's checks, and the call of ydotool for one chunk.
use dicta.Base.{
  ℕ, ◌+◌, ◌*◌, ◌/◌, ◌≡◌, refl, sym, ap, ◌∙◌, Bool, false, not, ◌&&◌, List, [], ◌∷◌, ◌++◌, Option,
  none, some, Text, codes, is_empty, length, starts_with, ◌==◌, ltb, if◌then◌else◌, if_intro,
}
use dicta.Base.Ints.{itoa}
use dicta.Paths.{PathError, path_on_allowlist, is_abs}
use dicta.Typer.{Config, with_defaults}

pub data ConfigError : Type 0 where
  binary : PathError → ConfigError
  socket_not_absolute chunk_size : ConfigError

abbrev validate_rest : Config → Option PathError → Option ConfigError
validate_rest d (some err) = some (binary err)
validate_rest d none =
    if not (is_empty d.socket) && not (is_abs d.socket)
    then some socket_not_absolute
    else if d.chunk_size == 0
    then some chunk_size
    else none

unfoldable pub validate : Config → Option ConfigError
unfolding with_defaults
validate c =
    let d = with_defaults c in validate_rest d (path_on_allowlist d.binary d.binary_allowlist)

pub data Made : Type 0 where
  typer : Config → Made
  refused : ConfigError → Made

abbrev pub made : Option ConfigError → Config → Made
made none c = typer c
made (some err) c = refused err

-- `NewSubprocessTyper`.
unfoldable pub new : Config → Made
unfolding validate
new c = made (validate c) (with_defaults c)

-- The arguments of ydotool; a delay is printed in milliseconds.
unfoldable pub invoke_args : Config → Text → List Text
invoke_args c text =
    codes "type"
    ∷ ((if ltb 0 c.key_delay then codes "--key-delay" ∷ itoa (c.key_delay / 1_000_000) ∷ [] else [])
        ++ (codes "--" ∷ text ∷ []))

unfoldable pub filter_env : List Text → Text → List Text
filter_env [] name = []
filter_env (e ∷ env) name =
    let rest = filter_env env name in if starts_with e (name ++ codes "=") then rest else e ∷ rest

abbrev pub socket_name : Text
socket_name = codes "YDOTOOL_SOCKET"

-- The environment of ydotool, from the daemon's.
unfoldable pub invoke_env : Config → List Text → List Text
unfolding filter_env
invoke_env c env =
    if is_empty c.socket
    then env
    else filter_env env socket_name ++ (socket_name ++ codes "=" ++ c.socket) ∷ []

-- `invokeTimeout`; the product with 1.5 is exact for less than 2^53 nanoseconds.
unfoldable pub invoke_timeout : Config → Text → ℕ
invoke_timeout c text =
    let base = if c.invoke_timeout == 0 then 5_000_000_000 else c.invoke_timeout in
    if c.key_delay == 0 then base else base + length text * c.key_delay * 3 / 2

abbrev released : List Text → List Text
released [] = []
released (code ∷ rest) = (code ++ codes ":0") ∷ released rest

-- The keys that a killed call may have left down, in the order of the source.
abbrev pub key_codes : List Text
key_codes =
    codes "30"
    ∷ codes "48"
    ∷ codes "46"
    ∷ codes "32"
    ∷ codes "18"
    ∷ codes "33"
    ∷ codes "34"
    ∷ codes "35"
    ∷ codes "23"
    ∷ codes "36"
    ∷ codes "37"
    ∷ codes "38"
    ∷ codes "50"
    ∷ codes "49"
    ∷ codes "24"
    ∷ codes "25"
    ∷ codes "16"
    ∷ codes "19"
    ∷ codes "31"
    ∷ codes "20"
    ∷ codes "22"
    ∷ codes "47"
    ∷ codes "17"
    ∷ codes "45"
    ∷ codes "21"
    ∷ codes "44"
    ∷ codes "2"
    ∷ codes "3"
    ∷ codes "4"
    ∷ codes "5"
    ∷ codes "6"
    ∷ codes "7"
    ∷ codes "8"
    ∷ codes "9"
    ∷ codes "10"
    ∷ codes "11"
    ∷ codes "12"
    ∷ codes "13"
    ∷ codes "26"
    ∷ codes "27"
    ∷ codes "39"
    ∷ codes "40"
    ∷ codes "41"
    ∷ codes "43"
    ∷ codes "51"
    ∷ codes "52"
    ∷ codes "53"
    ∷ codes "57"
    ∷ codes "42"
    ∷ codes "54"
    ∷ codes "29"
    ∷ codes "56"
    ∷ codes "100"
    ∷ []

-- `releaseAllKeys`: the arguments of its call.
unfoldable pub release_args : List Text
release_args = codes "key" ∷ released key_codes

-- How a subprocess ends: well, by a signal, with the binary not executable, or with another error.
pub data Exit : Type 0 where
  succeeded signaled not_executable exited : Exit

pub data Error : Type 0 where
  context_done ydotool_not_executable ydotool : Error

-- The calls of ydotool: their arguments and their environment, oldest first.
pub record Invoked : Type 0 where
  pub calls : List (List Text × List Text)
  pub err : Option Error

abbrev sweep : Config → List Text → Exit → List (List Text × List Text)
unfolding release_args invoke_env
sweep c env signaled = (release_args, invoke_env c env) ∷ []
sweep c env _ = []

abbrev outcome : Bool → Exit → Option Error
outcome canceled succeeded = none
outcome canceled not_executable = some (if canceled then context_done else ydotool_not_executable)
outcome canceled signaled = some (if canceled then context_done else ydotool)
outcome canceled exited = some (if canceled then context_done else ydotool)

-- `invoke`; the Boolean says that the context has ended.
unfoldable pub invoke : Config → List Text → Bool → Exit → Text → Invoked
unfolding invoke_args invoke_env sweep
invoke c env canceled exit text = record {
  calls = (invoke_args c text, invoke_env c env) ∷ sweep c env exit;
  err = outcome canceled exit;
}

-- One entry of the environment names the socket: the last.
abbrev pub NoneNamed : Text → List Text → Type 0
NoneNamed name [] = Unit {0}
NoneNamed name (e ∷ env) = (starts_with e (name ++ codes "=") ≡ false) × NoneNamed name env

filter_env-NoneNamed : (env : List Text) (name : Text) → NoneNamed name (filter_env env name)
unfolding filter_env
filter_env-NoneNamed [] name = tt
filter_env-NoneNamed (e ∷ env) name =
    if_intro (NoneNamed name) (starts_with e (name ++ codes "="))
      (λ _. filter_env-NoneNamed env name) (λ h. (h, filter_env-NoneNamed env name))

made-typer : (o : Option ConfigError) (x d : Config) → made o x ≡ typer d → (o ≡ none) × (x ≡ d)
made-typer none x d h = (refl, cc)
made-typer (some err) x d h = cc

validate_rest-none : (x : Config) (o : Option PathError) → validate_rest x o ≡ none → o ≡ none
validate_rest-none x none h = refl
validate_rest-none x (some err) h = cc

-- The binary of a typer is allowed.
pub new-accepts :
    (c d : Config) → new c ≡ typer d → path_on_allowlist d.binary d.binary_allowlist ≡ none
unfolding new validate
new-accepts c d h =
    let m : (validate c ≡ none) × (with_defaults c ≡ d) =
      made-typer (validate c) (with_defaults c) d h in
    sym (ap (λ (x : Config). path_on_allowlist x.binary x.binary_allowlist) m.1)
    ∙ validate_rest-none (with_defaults c)
        (path_on_allowlist (with_defaults c).binary (with_defaults c).binary_allowlist) m.0
