-- ===== src/Startup.antt =====
-- cmd/dictad: the checks of the daemon's start (exec.go, mutebuild.go, notify.go), and main.go below.
pub mod Setup
pub mod Wiring
pub mod Sound
mod Tests
use dicta.Base.{
  ℕ, Bool, true, false, not, ◌&&◌, List, [], ◌∷◌, Option, none, some, Text, codes, is_empty,
  text_eq, starts_with, if◌then◌else◌,
}

-- What os.Stat answers: whether it is a regular file, and whether an execute bit is set.
pub data Stat : Type 0 where
  file : Bool → Bool → Stat
  not_exist stat_error : Stat

pub data ExecError : Type 0 where
  path_empty not_found stat_failed not_regular not_executable : ExecError

abbrev pub judge_stat : Stat → Option ExecError
judge_stat not_exist = some not_found
judge_stat stat_error = some stat_failed
judge_stat (file regular executable) =
    if not regular then some not_regular else if not executable then some not_executable else none

unfoldable pub ensure_executable : (Text → Stat) → Text → Option ExecError
ensure_executable stat path = if is_empty path then some path_empty else judge_stat (stat path)

-- The sources, with the device that a pipewire one is given.
pub data MuteSource : Type 0 where
  pcm_zero : MuteSource
  pipewire auto : Text → MuteSource

pub data MuteError : Type 0 where
  requires_audio_monitor unknown_source : MuteError

-- A source, whether it takes the pump's frames, and whether its reseed does something.
pub data Built : Type 0 where
  source : MuteSource → Bool → Bool → Built
  refused : MuteError → Built

-- `buildMuteSource`; the Boolean says that there is a pump.
unfoldable pub build_mute_source : Text → Bool → Text → Built
build_mute_source name has_pump device =
    if text_eq name (codes "pcm-zero")
    then if not has_pump then refused requires_audio_monitor else source pcm_zero true true
    else if text_eq name (codes "pipewire")
    then source (pipewire device) false false
    else if text_eq name (codes "auto")
    then if not has_pump then refused requires_audio_monitor else source (auto device) true true
    else refused unknown_source

pub data NotifyError : Type 0 where
  state_empty bad_address dial write : NotifyError

-- What happens at the socket: the errors of the dial and of the write.
pub data Sent : Type 0 where
  skipped : Sent
  sent : Text → Text → Sent
  failed : NotifyError → Sent

unfoldable pub sd_notify_to : Bool → Bool → Text → Text → Sent
sd_notify_to dial_fails write_fails addr state =
    if is_empty addr
    then skipped
    else if is_empty state
    then failed state_empty
    else if not (starts_with addr (codes "/")) && not (starts_with addr (codes "@"))
    then failed bad_address
    else if dial_fails
    then failed dial
    else if write_fails
    then failed write
    else sent addr state

-- `notifyReady`, on $NOTIFY_SOCKET.
unfoldable pub notify_ready : Bool → Bool → Text → Sent
unfolding sd_notify_to
notify_ready dial_fails write_fails addr =
    sd_notify_to dial_fails write_fails addr (codes "READY=1")
