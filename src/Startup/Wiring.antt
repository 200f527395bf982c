-- ===== src/Startup/Wiring.antt =====
-- cmd/dictad/main.go: the parts that the daemon is made of, from its flags to the control socket.
use dicta.Base.{
  ◌/◌, max, Bool, true, not, ◌||◌, [], Option, none, some, Text, codes, is_empty, text_eq, ltb,
  if◌then◌else◌,
}
use dicta.Base.Ints.{pos}
use dicta.Startup.{ensure_executable, Built, source, refused, build_mute_source}
use dicta.Asr
use dicta.Typer
use dicta.Typer.Invoke as Ydotool
use dicta.Clipper
use dicta.Preview
use dicta.Cleanup
use dicta.Supervisor.Settings as Whisper
use dicta.Audit.Settings as Audit
use dicta.Startup.Setup.{
  Try, exits, goes, and_then, check, Flags, World, AudioSetup, Watcher, Dispatch, Daemon,
}

abbrev pub has_backend : Flags → Bool
has_backend f = not (is_empty f.asr.backend)

unfoldable pub set_up_audio : World → Flags → Option AudioSetup
set_up_audio w f =
    if f.audio_monitor || has_backend f
    then some (record {
      max_utterance_bytes =
          if ltb 0 f.vad_max_utterance then w.cap_bytes f.vad_max_utterance else 0;
      min_raw_speech_frames =
          if ltb 0 f.vad_min_speech then max (f.vad_min_speech / 80_000_000) 1 else 0;
      stall_timeout = f.capture_stall_timeout;
      continuous = f.audio_monitor;
    })
    else none

abbrev pub ended : Bool → Try (Unit {0})
ended fine = if fine then goes tt else exits 1

-- The supervisor of whisper-server, whose endpoint the backend gets.
unfoldable pub supervise : World → Flags → Try Asr.Config
supervise w f =
    if text_eq f.asr.backend (codes "whispercpp")
    then and_then (check (Whisper.validate w.whisper f.whisper)) (λ _.
      and_then (ended w.whisper_starts)
        (λ _. and_then (ended w.whisper_ready) (λ _. goes (with_endpoint f.asr))))
    else goes f.asr
  where
    with_endpoint : Asr.Config → Asr.Config
    with_endpoint c = record c {
      whisper_cpp = record c.whisper_cpp { endpoint = w.whisper_endpoint };
    }

abbrev pub of_selection : Asr.Selection → Try (Option Asr.Transcriber)
of_selection (Asr.selected t) = goes (some t)
of_selection (Asr.failed err) = exits 1

unfoldable pub select_backend : World → Flags → Try (Option Asr.Transcriber)
unfolding supervise
select_backend w f =
    if has_backend f
    then and_then (supervise w f) (λ c. of_selection (Asr.select w.unicode w.asr c))
    else goes none

abbrev pub of_typer : Ydotool.Made → Try Typer.Config
of_typer (Ydotool.typer c) = goes c
of_typer (Ydotool.refused err) = exits 1

abbrev pub of_clipper : Clipper.Made → Try Clipper.Config
of_clipper (Clipper.clipper c) = goes c
of_clipper (Clipper.refused err) = exits 1

abbrev pub of_preview : Preview.Made → Try Preview.PreviewProc
of_preview (Preview.proc p) = goes p
of_preview (Preview.refused err) = exits 1

abbrev pub of_cleaner : Cleanup.Made → Try Cleanup.Cleaner
of_cleaner (Cleanup.cleaner c) = goes c
of_cleaner (Cleanup.refused err) = exits 1

abbrev pub of_writer : Audit.Writer → Try Audit.Writer
of_writer Audit.passthrough = goes Audit.passthrough
of_writer (Audit.file dir fw) = goes (Audit.file dir fw)
of_writer (Audit.refused err) = exits 1

unfoldable pub new_typer : World → Flags → Try Typer.Config
unfolding ensure_executable
new_typer w f =
    and_then (check (ensure_executable w.stat f.typer.binary)) (λ _. of_typer (Ydotool.new f.typer))

-- The preview panel gets the daemon's own socket.
abbrev pub panel_config : Flags → Text → Preview.Config
panel_config f socket = record {
  binary = f.preview_binary;
  socket = socket;
  extra_args = [];
  binary_allowlist = [];
  kill_grace = pos 0;
  has_logger = true;
}

abbrev pub new_panel :
    World → Flags → Text → Clipper.Config → Try (Option (Clipper.Config × Preview.PreviewProc))
new_panel w f socket c =
    and_then (of_preview (Preview.new w.home (panel_config f socket))) (λ p. goes (some (c, p)))

abbrev pub new_clipper : World → Flags → Text → Try (Option (Clipper.Config × Preview.PreviewProc))
new_clipper w f socket = and_then (of_clipper (Clipper.new f.clipper)) (new_panel w f socket)

-- Clip-mode needs a preview binary.
unfoldable pub new_clip : World → Flags → Text → Try (Option (Clipper.Config × Preview.PreviewProc))
unfolding ensure_executable
new_clip w f socket =
    if is_empty f.preview_binary
    then goes none
    else and_then (check (ensure_executable w.stat f.clipper.binary)) (λ _.
      and_then (check (ensure_executable w.stat f.preview_binary)) (λ _. new_clipper w f socket))

abbrev pub watched : World → Flags → Built → Try (Option Watcher)
watched w f (refused err) = exits 1
watched w f (source s takes_frames reseeds) =
    if w.watch_fails
    then exits 1
    else goes (
        some (record {
          source = s;
          takes_frames = takes_frames;
          debounce = max f.unmute_debounce 1_000_000;
        }))

-- The pump is given to the source only if the capture is continuous.
unfoldable pub new_watcher : World → Flags → Try (Option Watcher)
unfolding build_mute_source
new_watcher w f =
    if f.unmute_to_dictate
    then watched w f (build_mute_source f.unmute_source f.audio_monitor f.audio_device)
    else goes none

unfoldable pub new_dispatch : World → Flags → Text → Try Dispatch
unfolding new_typer new_clip new_watcher
new_dispatch w f socket = and_then (new_typer w f) (λ typer. and_then (new_clip w f socket) (λ clip.
    and_then (of_cleaner (Cleanup.new w.cleanup f.cleanup)) (λ cleaner.
      and_then (of_writer (Audit.new w.audit w.audit_start f.audit).0) (λ writer.
        and_then (new_watcher w f) (λ watcher. goes (record {
          typer = typer;
          clip = clip;
          cleaner = cleaner;
          audit = writer;
          cues = f.audio_cues;
          watcher = watcher;
        }))))))

-- A session needs the capture and a backend.
unfoldable pub new_session :
    World → Flags → Text → Option AudioSetup → Option Asr.Transcriber → Try (Option Dispatch)
unfolding new_dispatch
new_session w f socket none asr = goes none
new_session w f socket (some a) none = goes none
new_session w f socket (some a) (some t) = and_then (new_dispatch w f socket) (λ d. goes (some d))

abbrev pub socket_path : World → Flags → Try Text
socket_path w f = if is_empty f.socket then found w.default_socket else goes f.socket
  where
    found : Option Text → Try Text
    found none = exits 1
    found (some path) = goes path

-- The capture starts at once only if it is continuous.
abbrev pub start_audio : World → Flags → Option AudioSetup → Try (Unit {0})
start_audio w f none = goes tt
start_audio w f (some a) = if f.audio_monitor then ended w.capture_starts else goes tt

-- `main` up to the served socket.
unfoldable pub start : World → Flags → Try Daemon
unfolding set_up_audio select_backend new_session
start w f =
    if not w.log_level_parses
    then exits 2
    else and_then (socket_path w f) (λ socket. and_then (select_backend w f) (λ asr.
      and_then (new_session w f socket (set_up_audio w f) asr) (λ session.
        and_then (start_audio w f (set_up_audio w f)) (λ _. and_then (ended w.listens) (λ _.
          goes (record {
            socket = socket;
            audio = set_up_audio w f;
            asr = asr;
            session = session;
          }))))))
