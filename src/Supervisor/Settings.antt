-- ===== src/Supervisor/Settings.antt =====
-- internal/whispersup/config.go: the configuration of whisper-server, and the arguments of its start.
use dicta.Base.{
  ◌≡◌, refl, ℕ, ◌+◌, ◌/◌, Bool, true, false, not, List, [], ◌∷◌, ◌++◌, Option, none, some, Text,
  codes, is_empty, contains, min, max, ltb, if◌then◌else◌,
}
use dicta.Base.Ints.{ℤ, pos, negsuc, is_negative, or_default, itoa}
use dicta.Paths.{PathError, path_on_allowlist, join}

-- `Config`; durations in nanoseconds.
pub record Settings : Type 0 where
  pub binary : Text
  pub model_path : Text
  pub host : Text
  pub port : ℤ
  pub threads : ℤ
  pub extra_args : List Text
  pub env : List Text
  pub startup_timeout : ℤ
  pub restart_backoff_initial : ℤ
  pub restart_backoff_max : ℤ
  pub binary_allowlist : List Text
  pub model_path_allowlist : List Text

-- What the process finds around it: the number of CPUs, $XDG_DATA_HOME (empty if it is not set) and
-- the home directory.
pub record Host : Type 0 where
  pub num_cpu : ℕ
  pub xdg_data_home : Text
  pub home : Option Text

abbrev pub home_share : Option Text → Text
home_share none = []
home_share (some home) = join (join home (codes ".local")) (codes "share")

unfoldable pub xdg_data_home : Host → Text
xdg_data_home h = if is_empty h.xdg_data_home then home_share h.home else h.xdg_data_home

abbrev pub default_binary_allowlist : List Text
default_binary_allowlist = codes "/usr/bin" ∷ codes "/usr/local/bin" ∷ codes "/opt" ∷ []

unfoldable pub default_model_path_allowlist : Host → List Text
unfolding xdg_data_home
default_model_path_allowlist h =
    codes "/var/lib/dicta"
    ∷ codes "/usr/share/dicta"
    ∷ (if is_empty (xdg_data_home h) then [] else join (xdg_data_home h) (codes "dicta") ∷ [])

unfoldable pub auto_threads : Host → ℕ
auto_threads h = min (max (h.num_cpu / 2) 1) 8

unfoldable pub with_defaults : Host → Settings → Settings
unfolding auto_threads default_model_path_allowlist
with_defaults h c = record {
  binary = c.binary;
  model_path = c.model_path;
  host = if is_empty c.host then codes "127.0.0.1" else c.host;
  port = c.port;
  threads = or_default (auto_threads h) c.threads;
  extra_args = c.extra_args;
  env = c.env;
  startup_timeout = or_default 30_000_000_000 c.startup_timeout;
  restart_backoff_initial = or_default 500_000_000 c.restart_backoff_initial;
  restart_backoff_max = or_default 30_000_000_000 c.restart_backoff_max;
  binary_allowlist =
      if is_empty c.binary_allowlist then default_binary_allowlist else c.binary_allowlist;
  model_path_allowlist =
      if is_empty c.model_path_allowlist
      then default_model_path_allowlist h
      else c.model_path_allowlist;
}

pub data SettingsError : Type 0 where
  binary_required model_path_required port_out_of_range negative_threads : SettingsError
  binary model_path : PathError → SettingsError
  not_var_val : Text → SettingsError

abbrev pub out_of_range : ℤ → Bool
out_of_range (pos n) = ltb 65535 n
out_of_range (negsuc n) = true

unfoldable pub check_env : List Text → Option SettingsError
check_env [] = none
check_env (e ∷ env) = if not (contains e (codes "=")) then some (not_var_val e) else check_env env

abbrev pub check_model : Settings → Option PathError → Option SettingsError
check_model d (some err) = some (model_path err)
check_model d none =
    if out_of_range d.port
    then some port_out_of_range
    else if is_negative d.threads
    then some negative_threads
    else check_env d.env

abbrev pub check_binary : Settings → Option PathError → Option SettingsError
check_binary d (some err) = some (binary err)
check_binary d none = check_model d (path_on_allowlist d.model_path d.model_path_allowlist)

unfoldable pub validate : Host → Settings → Option SettingsError
unfolding with_defaults check_env
validate h c =
    let d = with_defaults h c in
    if is_empty d.binary
    then some binary_required
    else if is_empty d.model_path
    then some model_path_required
    else check_binary d (path_on_allowlist d.binary d.binary_allowlist)

abbrev pub number : ℤ → Text
number (pos n) = itoa n
number (negsuc n) = codes "-" ++ itoa (1 + n)

-- `buildCmd`: the arguments of whisper-server.
unfoldable pub command_args : Settings → ℕ → List Text
command_args c port =
    (codes "-m"
      ∷ c.model_path
      ∷ codes "--host"
      ∷ c.host
      ∷ codes "--port"
      ∷ itoa port
      ∷ codes "-t"
      ∷ number c.threads
      ∷ codes "--inference-path"
      ∷ codes "/v1/audio/transcriptions"
      ∷ [])
    ++ c.extra_args

check_binary-none :
    (d : Settings) (o : Option PathError)
    → check_binary d o ≡ none
    → (o ≡ none) × (path_on_allowlist d.model_path d.model_path_allowlist ≡ none)
check_binary-none d (some err) h = cc
check_binary-none d none h = (refl, model (path_on_allowlist d.model_path d.model_path_allowlist) h)
  where
    model : (o : Option PathError) → check_model d o ≡ none → o ≡ none
    model none h = refl
    model (some err) h = cc

-- The binary and the model of settings that pass are allowed.
pub validate-accepts :
    (h : Host) (c : Settings)
    → validate h c ≡ none
    → (path_on_allowlist (with_defaults h c).binary (with_defaults h c).binary_allowlist ≡ none)
      × (path_on_allowlist (with_defaults h c).model_path (with_defaults h c).model_path_allowlist
          ≡ none)
unfolding validate
validate-accepts h c v =
    check_binary-none d (path_on_allowlist d.binary d.binary_allowlist)
      (behind (is_empty d.binary) (is_empty d.model_path) v)
  where
    d : Settings
    d = with_defaults h c

    rest : Option SettingsError
    rest = check_binary d (path_on_allowlist d.binary d.binary_allowlist)

    behind :
        (a b : Bool)
        → (if a then some binary_required else if b then some model_path_required else rest) ≡ none
        → rest ≡ none
    behind true b q = cc
    behind false true q = cc
    behind false false q = q
