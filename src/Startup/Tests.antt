-- ===== src/Startup/Tests.antt =====
-- cmd/dictad/main.go: starts that come up and starts that exit.
use dicta.Base.{◌≡◌, refl, true, false, [], none, some, Text, codes, text_eq, if◌then◌else◌}
use dicta.Base.Ints.{pos}
use dicta.Base.Samples.{ascii}
use dicta.Paths.{path_on_allowlist, clean, join}
use dicta.Asr
use dicta.Typer
use dicta.Typer.Invoke as Ydotool
use dicta.Cleanup
use dicta.Retry
use dicta.Audit.Settings as Audit
use dicta.Supervisor.Settings as Whisper
use dicta.Startup.{
  Stat, file, not_exist, ensure_executable, not_executable, not_found, build_mute_source, auto,
  refused, requires_audio_monitor, pipewire, source, sd_notify_to, sent, skipped, failed,
  bad_address,
}
use dicta.Startup.Setup.{Flags, World, Daemon, goes, exits}
use dicta.Startup.Wiring.{start, supervise}
use dicta.Startup.Sound.{IsSound, start-IsSound}

abbrev plain : Text → Stat
plain path = if text_eq path (codes "/usr/bin/ydotool") then file true true else not_exist

abbrev flags : Flags
flags = record {
  socket = codes "/run/dicta.sock";
  audio_monitor = false;
  audio_device = codes "mxl";
  vad_max_utterance = 10_000_000_000;
  vad_min_speech = 400_000_000;
  capture_stall_timeout = 1_000_000_000;
  asr = record {
    backend = codes "wyoming";
    wyoming = record {
      addr = codes "tcp://halo:10300";
      dial_timeout = pos 0;
      reconnect_backoff_initial = pos 0;
      reconnect_backoff_max = pos 0;
      max_attempts = pos 0;
    };
    whisper_cpp = record {
      endpoint = [];
      reconnect_backoff_initial = pos 0;
      reconnect_backoff_max = pos 0;
      max_attempts = pos 0;
    };
    open_ai = record {
      api_key = [];
      api_key_env = [];
      endpoint = [];
      model = [];
      timeout = pos 0;
      insecure_skip_tls_verify = false;
      reconnect_backoff_initial = pos 0;
      reconnect_backoff_max = pos 0;
      max_attempts = pos 0;
    };
  };
  whisper = record {
    binary = codes "/usr/local/bin/whisper-server";
    model_path = codes "/var/lib/dicta/base.bin";
    host = [];
    port = pos 0;
    threads = pos 0;
    extra_args = [];
    env = [];
    startup_timeout = pos 0;
    restart_backoff_initial = pos 0;
    restart_backoff_max = pos 0;
    binary_allowlist = [];
    model_path_allowlist = [];
  };
  typer = record {
    binary = codes "/usr/bin/ydotool";
    socket = [];
    chunk_size = 200;
    chunk_delay = 20_000_000;
    key_delay = 60_000_000;
    invoke_timeout = 0;
    binary_allowlist = [];
    breaker_threshold = 0;
    breaker_cooldown = 0;
  };
  audio_cues = true;
  clipper = record {
    binary = codes "/usr/bin/wl-copy";
    extra_args = [];
    invoke_timeout = pos 0;
    binary_allowlist = [];
  };
  preview_binary = [];
  cleanup = record {
    enabled = false;
    endpoint = [];
    api_key = [];
    api_key_env = [];
    model = [];
    timeout = pos 0;
    max_tokens = pos 0;
    insecure_skip_tls_verify = false;
  };
  audit = record {
    enabled = false;
    directory = [];
    keep_audio = false;
    retention_days = 0;
    path_allowlist = [];
  };
  unmute_to_dictate = true;
  unmute_source = codes "pipewire";
  unmute_debounce = 0;
}

abbrev world : World
world = record {
  log_level_parses = true;
  default_socket = none;
  stat = plain;
  unicode = ascii;
  asr = record {
    getenv = λ _. [];
    default_endpoint = [];
    equal_fold = text_eq;
    parse_url = λ _. none;
    parse_ip = λ _. none;
  };
  whisper = record { num_cpu = 8; xdg_data_home = []; home = none };
  whisper_starts = true;
  whisper_ready = true;
  whisper_endpoint = codes "http://127.0.0.1:9000/v1/audio/transcriptions";
  home = codes "/home/u";
  cleanup = record { getenv = λ _. []; scheme_of = λ _. none };
  audit = record { xdg_data_home = []; home = none };
  audit_start = record {
    now = record { date = record { year = 2026; month = 1; day = 2 }; clock = 0 };
    mkdir_fails = false;
    read_fails = false;
    remove_fails = λ _. false;
    entries = [];
  };
  watch_fails = false;
  capture_starts = true;
  listens = true;
  cap_bytes = λ d. 320_000;
}

abbrev daemon : Daemon
daemon = record {
  socket = codes "/run/dicta.sock";
  audio = some (record {
    max_utterance_bytes = 320_000;
    min_raw_speech_frames = 5;
    stall_timeout = 1_000_000_000;
    continuous = false;
  });
  asr = some (record {
    inner = Asr.wyoming (codes "halo:10300") none;
    retry = record { initial = 1_000_000_000; max = 30_000_000_000; max_attempts = 0 };
    warnings = [];
  });
  session = some (record {
    typer = Typer.with_defaults flags.typer;
    clip = none;
    cleaner = Cleanup.passes;
    audit = Audit.passthrough;
    cues = true;
    watcher =
        some
          (record { source = pipewire (codes "mxl"); takes_frames = false; debounce = 1_000_000 });
  });
}

starts : start world flags ≡ goes daemon
unfolding start Asr.select Asr.select_wyoming Retry.new_config Ydotool.new Typer.with_defaults
    path_on_allowlist clean Cleanup.new Audit.new
starts = refl

start-IsSound_example : IsSound world flags daemon
start-IsSound_example = start-IsSound world flags daemon starts

-- The supervisor is started for the name in small letters only, and the selector takes any case.
whisper_capital :
    start world (record flags { asr = record flags.asr { backend = codes "WhisperCpp" } }) ≡ exits 1
unfolding start Asr.select
whisper_capital = refl

whisper_small :
    supervise world (record flags { asr = record flags.asr { backend = codes "whispercpp" } })
    ≡ goes (record flags.asr {
      backend = codes "whispercpp";
      whisper_cpp = record flags.asr.whisper_cpp { endpoint = world.whisper_endpoint };
    })
unfolding supervise Whisper.validate path_on_allowlist clean join
whisper_small = refl

no_monitor : build_mute_source (codes "auto") false (codes "mxl") ≡ refused requires_audio_monitor
unfolding build_mute_source
no_monitor = refl

monitored :
    build_mute_source (codes "auto") true (codes "mxl") ≡ source (auto (codes "mxl")) true true
unfolding build_mute_source
monitored = refl

missing : ensure_executable plain (codes "/usr/bin/wl-copy") ≡ some not_found
unfolding ensure_executable
missing = refl

plain_file :
    ensure_executable (λ _. file true false) (codes "/usr/bin/wl-copy") ≡ some not_executable
unfolding ensure_executable
plain_file = refl

notifies :
    sd_notify_to false false (codes "@systemd") (codes "READY=1")
    ≡ sent (codes "@systemd") (codes "READY=1")
unfolding sd_notify_to
notifies = refl

no_systemd : sd_notify_to true true [] (codes "READY=1") ≡ skipped
unfolding sd_notify_to
no_systemd = refl

relative : sd_notify_to false false (codes "run/notify") (codes "READY=1") ≡ failed bad_address
unfolding sd_notify_to
relative = refl
