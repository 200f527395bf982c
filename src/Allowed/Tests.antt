-- ===== src/Allowed/Tests.antt =====
-- The constructors at some configurations.
use dicta.Base.{◌≡◌, refl, [], ◌∷◌, none, some, codes}
use dicta.Base.Ints.{pos, negsuc, itoa}
use dicta.Paths.{off_allowlist, path_on_allowlist, clean, join}
use dicta.Typer
use dicta.Typer.Invoke as Ydotool
use dicta.Supervisor.Settings as Whisper

abbrev unset : Typer.Config
unset = record {
  binary = [];
  socket = codes "/run/ydotool";
  chunk_size = 0;
  chunk_delay = 0;
  key_delay = 12_000_000;
  invoke_timeout = 0;
  binary_allowlist = [];
  breaker_threshold = 0;
  breaker_cooldown = 0;
}

accepted : Ydotool.new unset ≡ Ydotool.typer (Typer.with_defaults unset)
unfolding Ydotool.new Typer.with_defaults path_on_allowlist clean
accepted = refl

moved_out :
    Ydotool.new (record unset { binary = codes "/usr/bin/../../home/me/x" })
    ≡ Ydotool.refused (Ydotool.binary off_allowlist)
unfolding Ydotool.new Typer.with_defaults path_on_allowlist clean
moved_out = refl

arguments :
    Ydotool.invoke_args unset (codes "-v")
    ≡ codes "type" ∷ codes "--key-delay" ∷ codes "12" ∷ codes "--" ∷ codes "-v" ∷ []
unfolding Ydotool.invoke_args itoa
arguments = refl

abbrev whisper : Whisper.Settings
whisper = record {
  binary = codes "/usr/bin/whisper-server";
  model_path = codes "/home/me/.local/share/dicta/ggml.bin";
  host = [];
  port = negsuc 0;
  threads = pos 0;
  extra_args = [];
  env = [];
  startup_timeout = pos 0;
  restart_backoff_initial = pos 0;
  restart_backoff_max = pos 0;
  binary_allowlist = [];
  model_path_allowlist = [];
}

abbrev machine : Whisper.Host
machine = record { num_cpu = 12; xdg_data_home = []; home = some (codes "/home/me") }

bad_port : Whisper.validate machine whisper ≡ some Whisper.port_out_of_range
unfolding Whisper.validate path_on_allowlist clean join
bad_port = refl

good_port : Whisper.validate machine (record whisper { port = pos 8080 }) ≡ none
unfolding Whisper.validate path_on_allowlist clean join
good_port = refl
