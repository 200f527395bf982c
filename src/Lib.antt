-- ===== src/Lib.antt =====
-- dicta: a verification library for the dictation daemon `dictad`, the packages under `internal`
-- and the programs `dicta` and `dicta-preview`.
--
-- The daemon's start builds its parts from the flags. A frame that the capture cuts goes through
-- the audio monitor, which asks the voice activity detector and groups speech into utterances. The
-- session hands each utterance to the ASR monitor, and types or clips the transcript that comes
-- back, with ydotool or wl-copy. The mute watcher and the control server open and close sessions.
-- The audit log keeps what was said, and the preview panel shows it in clip-mode.
--
--   Startup          cmd/dictad/exec.go, mutebuild.go and notify.go; Startup.Wiring is main.go up to
--                    the served socket, on the records of Startup.Setup: `start` is main,
--                    `select_backend`, `new_dispatch` and `new_watcher` its parts.
--   Paths            pathOnAllowlist, in internal/whispersup/config.go and its copies in
--                    internal/dispatch/typer.go, internal/audit/audit.go and cmd/dictad/preview.go,
--                    on path/filepath. Allowed has the constructors that call it side by side.
--   Audio.Frame, Audio.RingBuffer   internal/audio/frame.go and ringbuffer.go: the last frames.
--   Audio.Capture    internal/audio/capture.go: `resolve_command`, Start, Stop; `read` is a round of
--                    pump.
--   Audio.Cue        internal/audio/cue.go: `tone_for`, `synthesize_tone`; Audio.Cue.Player has
--                    Play.
--   Audio.Vad        internal/audio/vad.go: `is_speech` is IsSpeech, `apply_hangover` applyHangover.
--   AudioMonitor     cmd/dictad/audiomonitor.go: `round` is a round of loop, `on_frame`, `flush` and
--                    `on_stall` the cases of its select, `quietest_split` quietestSplit.
--   Asr              internal/asr/config.go and selector.go: `select` is Select; Asr.Check is check.go.
--   AsrMonitor       cmd/dictad/asrmonitor.go: `on_utterance` is OnUtterance, `transcribe` and
--                    `release` the goroutine transcribe from the backend's answer on; AsrMonitor.Filter
--                    has isWhisperHallucination and isWhisperRepetitionLoop, AsrMonitor.Probe Check and
--                    Snapshot.
--   Session          cmd/dictad/session.go: Session.State has the fields, Session.Lifecycle open_,
--                    close, Toggle and the hooks, Session.Utterance OnUtterance and its callbacks,
--                    Session.Worker typeWorker; Session.Run has all calls as steps, Session.Invariant
--                    the rule by which a predicate is kept by them, and Session.Progress the end of
--                    the work.
--   MuteWatcher      cmd/dictad/mutewatch.go: `on_event`, `on_timer` and `on_device` are the cases of
--                    Run, `fire` its closure.
--   PcmZero, Pipewire, AutoSource   internal/mute/pcmzero/source.go, pipewire/source.go and
--                    auto.go: mute sources; Pipewire's `poll` is a round of Watch.
--   Typer            internal/dispatch/typer.go: `type_text` is Type, `chunk_string` chunkString;
--                    Typer.Invoke has Validate, invoke and releaseAllKeys.
--   Clipper          internal/dispatch/clipper.go: `clip` is Clip.
--   Cleanup          internal/cleanup: `new` is New, `clean` and `clean_http` are Clean.
--   Preview          cmd/dictad/preview.go: the subprocess of the panel.
--   Panel            cmd/dicta-preview/main.go: the panel itself; `on_line` is a round of runSubscribe,
--                    `on_frame` and `on_destroy` are the cases of runUI.
--   Client           cmd/dicta/main.go and proto/client.go: `run` is run, `send` is Send;
--                    Client.Served puts the client in front of the server's dispatch.
--   Retry            internal/asr/retry.go: `transcribe` is Transcribe of the retrying backend.
--   Supervisor       internal/whispersup/supervisor.go: `try` and `end` are a round of run, before and
--                    behind its select; Supervisor.Settings is config.go and the arguments of buildCmd.
--   EventBus         cmd/dictad/events.go: `publish` is Publish.
--   Control          internal/control/server.go: `handle_conn` is handleConn, `dispatch` dispatch;
--                    Control.Listener has Listen, Serve and Close: `change` is an Accept, the end of
--                    a goroutine or of the context, `wake` the wait behind them;
--                    Control.Daemon is cmd/dictad/handler.go on the session, the watcher and the bus.
--   Audit            internal/audit: sanitizeID of audit.go, and the contents of a WAV file. Audit.Log
--                    has Record and Close of its file writer, Audit.Settings config.go and New,
--                    Audit.Retention and Audit.Dates retention.go.
--   Base             tests, lists, integers and texts that the others share.
--
-- State and steps. A method with a pointer receiver is a function from the state, and the answers
-- of its collaborators, to the new state and its error. A mutex makes such a call one step, but for
-- the session's calls, which release it between their parts and are serial here all the same: a
-- schedule is a list of calls, and each is taken to its end before the next. What a part does to
-- others is a trace in its state, newest first. Times are numbers of nanoseconds; an int or a
-- duration that the program treats as 0 when it is negative is a number. The session's epoch wraps
-- at 2^64.
--
-- Fuel. `Typer.chunks` runs on the number of runes that are left, and each round takes one or more.
-- `Retry.loop` runs on the cap on the attempts. `Base.Ints.itoa` runs on the number and one more,
-- and a number has no more digits than that. The other loops are structural.
--
-- Parameters. The tables of package unicode, float64 arithmetic, the regular expression of
-- disfluencies, what JSON decodes to, the parsers of URLs, IP addresses and flags, the window and
-- the editor of package gioui, the clock, and the answers of subprocesses, networks and files are
-- arguments of the definitions that use them. The dates of the audit log are those of a time zone
-- without daylight saving, with years of four digits. A line that wpctl prints fits the scanner's
-- buffer. The constants of package asrclient are parameters of AudioMonitor; Audio.Frame has the
-- values that internal/audio/frame.go locks.
--
-- Not modelled: the expressions of the disfluency filter, the report of `dicta probe-mute`, the
-- probe of the whisper server, SweepLoop of the audit log, which nothing calls, the daemon's
-- shutdown behind Serve, and logging. A day's directory whose removal fails is taken to stay whole.
-- Stop of capture and the kill of the panel are taken not to fail, since cmd/dictad/audiomonitor.go
-- and preview.go return nil there.
pub mod Allowed
pub mod Asr
pub mod AsrMonitor
pub mod Audio
pub mod AudioMonitor
pub mod Audit
pub mod AutoSource
pub mod Base
pub mod Cleanup
pub mod Client
pub mod Clipper
pub mod Control
pub mod EventBus
pub mod MuteWatcher
pub mod Panel
pub mod Paths
pub mod PcmZero
pub mod Pipewire
pub mod Preview
pub mod Retry
pub mod Session
pub mod Startup
pub mod Supervisor
pub mod Typer
