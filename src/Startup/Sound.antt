-- ===== src/Startup/Sound.antt =====
-- cmd/dictad/main.go: what a daemon that came up is made of.
use mathlib.Core.Path.{subst}
use dicta.Base.{
  not-false, ◌≡◌, refl, true, not, List, Option, none, some, Text, is_empty, codes, text_eq,
  if◌then◌else◌, if_intro,
}
use dicta.Asr
use dicta.Asr.Selects.{IsGuarded, select-IsGuarded}
use dicta.Allowed.{ydotool, wl_copy, panel, audit_log, Uses-SomeAdmits}
use dicta.Paths.Allowlist.{SomeAdmits}
use dicta.Paths.{is_abs}
use dicta.Typer
use dicta.Typer.Invoke as Ydotool
use dicta.Clipper
use dicta.Preview
use dicta.Cleanup
use dicta.Audit.Settings as Audit
use dicta.Startup.{
  Built, source, refused, ensure_executable, build_mute_source, MuteSource, pcm_zero, auto,
  requires_audio_monitor,
}
use dicta.Startup.Setup.{
  Try, exits, goes, and_then, check, Flags, World, AudioSetup, Watcher, Dispatch, Daemon,
}
use dicta.Startup.Wiring.{
  has_backend, set_up_audio, ended, supervise, of_selection, select_backend, of_typer, of_clipper,
  of_preview, of_cleaner, of_writer, new_typer, panel_config, new_panel, new_clipper, new_clip,
  watched, new_watcher, new_dispatch, new_session, socket_path, start_audio, start,
}

-- A path on an allowlist.
abbrev pub IsAllowed : Text → List Text → Type 0
IsAllowed path allowlist = (is_abs path ≡ true) × SomeAdmits path allowlist

abbrev pub IsAllowedClip : Option (Clipper.Config × Preview.PreviewProc) → Type 0
IsAllowedClip none = Unit {0}
IsAllowedClip (some (c, p)) =
    IsAllowed c.binary c.binary_allowlist × IsAllowed p.config.binary p.allowlist

abbrev pub IsAllowedLog : World → Flags → Audit.Writer → Type 0
IsAllowedLog w f Audit.passthrough = Unit {0}
IsAllowedLog w f (Audit.file dir fw) =
    IsAllowed dir (Audit.with_defaults w.audit f.audit).path_allowlist
IsAllowedLog w f (Audit.refused err) = ⊥

-- A source that takes frames has a capture that always runs.
abbrev pub IsFed : Flags → Option Watcher → Type 0
IsFed f none = Unit {0}
IsFed f (some x) = x.takes_frames ≡ true → f.audio_monitor ≡ true

pub record IsSafe (w : World) (f : Flags) (d : Dispatch) : Type 0 where
  pub types : IsAllowed d.typer.binary d.typer.binary_allowlist
  pub clips : IsAllowedClip d.clip
  pub logs : IsAllowedLog w f d.audit
  pub fed : IsFed f d.watcher

abbrev pub IsGuardedBackend : World → Option Asr.Transcriber → Type 0
IsGuardedBackend w none = Unit {0}
IsGuardedBackend w (some t) = IsGuarded w.asr t

abbrev pub IsSafeSession : World → Flags → Option Dispatch → Type 0
IsSafeSession w f none = Unit {0}
IsSafeSession w f (some d) = IsSafe w f d

pub record IsSound (w : World) (f : Flags) (d : Daemon) : Type 0 where
  pub backend : IsGuardedBackend w d.asr
  pub session : IsSafeSession w f d.session

abbrev Holds : {A : Type 0} → (A → Type 0) → Try A → Type 0
Holds P (exits code) = Unit {0}
Holds P (goes a) = P a

and_then-Holds :
    {A B : Type 0} (P : A → Type 0) (Q : B → Type 0) (t : Try A) (k : A → Try B)
    → Holds P t
    → ((a : A) → P a → Holds Q (k a))
    → Holds Q (and_then t k)
and_then-Holds P Q (exits code) k h step = tt
and_then-Holds P Q (goes a) k h step = step a h

after-Holds :
    {A B : Type 0} (Q : B → Type 0) (t : Try A) (k : A → Try B)
    → ((a : A) → Holds Q (k a))
    → Holds Q (and_then t k)
after-Holds Q (exits code) k step = tt
after-Holds Q (goes a) k step = step a

of_typer-Holds :
    (c : Typer.Config) (m : Ydotool.Made)
    → Ydotool.new c ≡ m
    → Holds (λ (d : Typer.Config). IsAllowed d.binary d.binary_allowlist) (of_typer m)
of_typer-Holds c (Ydotool.typer d) e = Uses-SomeAdmits (ydotool c d e)
of_typer-Holds c (Ydotool.refused err) e = tt

of_clipper-Holds :
    (c : Clipper.Config) (m : Clipper.Made)
    → Clipper.new c ≡ m
    → Holds (λ (d : Clipper.Config). IsAllowed d.binary d.binary_allowlist) (of_clipper m)
of_clipper-Holds c (Clipper.clipper d) e = Uses-SomeAdmits (wl_copy c d e)
of_clipper-Holds c (Clipper.refused err) e = tt

of_preview-Holds :
    (home : Text) (c : Preview.Config) (m : Preview.Made)
    → Preview.new home c ≡ m
    → Holds (λ (p : Preview.PreviewProc). IsAllowed p.config.binary p.allowlist) (of_preview m)
of_preview-Holds home c (Preview.proc p) e = Uses-SomeAdmits (panel home c p e)
of_preview-Holds home c (Preview.refused err) e = tt

of_writer-Holds :
    (w : World) (f : Flags) (x : Audit.Writer)
    → (Audit.new w.audit w.audit_start f.audit).0 ≡ x
    → Holds (IsAllowedLog w f) (of_writer x)
of_writer-Holds w f Audit.passthrough e = tt
of_writer-Holds w f (Audit.file dir fw) e =
    Uses-SomeAdmits (audit_log w.audit w.audit_start f.audit dir fw e)
of_writer-Holds w f (Audit.refused err) e = tt

new_typer-Holds :
    (w : World) (f : Flags)
    → Holds (λ (d : Typer.Config). IsAllowed d.binary d.binary_allowlist) (new_typer w f)
unfolding new_typer
new_typer-Holds w f =
    after-Holds (λ (d : Typer.Config). IsAllowed d.binary d.binary_allowlist)
      (check (ensure_executable w.stat f.typer.binary)) (λ _. of_typer (Ydotool.new f.typer))
      (λ _. of_typer-Holds f.typer (Ydotool.new f.typer) refl)

new_panel-Holds :
    (w : World) (f : Flags) (socket : Text) (c : Clipper.Config)
    → IsAllowed c.binary c.binary_allowlist
    → Holds IsAllowedClip (new_panel w f socket c)
new_panel-Holds w f socket c allowed =
    and_then-Holds (λ (p : Preview.PreviewProc). IsAllowed p.config.binary p.allowlist)
      IsAllowedClip (of_preview (Preview.new w.home (panel_config f socket)))
      (λ p. goes (some (c, p)))
      (of_preview-Holds w.home (panel_config f socket) (Preview.new w.home (panel_config f socket))
        refl)
      (λ p h. (allowed, h))

new_clipper-Holds :
    (w : World) (f : Flags) (socket : Text) → Holds IsAllowedClip (new_clipper w f socket)
new_clipper-Holds w f socket =
    and_then-Holds (λ (c : Clipper.Config). IsAllowed c.binary c.binary_allowlist) IsAllowedClip
      (of_clipper (Clipper.new f.clipper)) (new_panel w f socket)
      (of_clipper-Holds f.clipper (Clipper.new f.clipper) refl) (new_panel-Holds w f socket)

new_clip-Holds : (w : World) (f : Flags) (socket : Text) → Holds IsAllowedClip (new_clip w f socket)
unfolding new_clip
new_clip-Holds w f socket =
    let a = check (ensure_executable w.stat f.clipper.binary) in
    let b = check (ensure_executable w.stat f.preview_binary) in
    if_intro (Holds IsAllowedClip) (is_empty f.preview_binary) (λ _. tt)
      (λ _.
        after-Holds IsAllowedClip a (λ _. and_then b (λ _. new_clipper w f socket))
          (λ _.
            after-Holds IsAllowedClip b (λ _. new_clipper w f socket)
              (λ _. new_clipper-Holds w f socket)))

Fed : Flags → Built → Type 0
Fed f (source s takes reseeds) = takes ≡ true → f.audio_monitor ≡ true
Fed f (refused err) = Unit {0}

with_pump :
    (f : Flags) (s : MuteSource)
    → Fed f (if not f.audio_monitor then refused requires_audio_monitor else source s true true)
unfolding Fed
with_pump f s =
    if_intro (Fed f) (not f.audio_monitor) (λ _. tt) (λ h _. not-false f.audio_monitor h)

build_mute_source-Fed :
    (f : Flags) (name device : Text) → Fed f (build_mute_source name f.audio_monitor device)
unfolding Fed build_mute_source
build_mute_source-Fed f name device =
    if_intro (Fed f) (text_eq name (codes "pcm-zero")) (λ _. with_pump f pcm_zero)
      (λ _.
        if_intro (Fed f) (text_eq name (codes "pipewire")) (λ _ h. cc)
          (λ _.
            if_intro (Fed f) (text_eq name (codes "auto")) (λ _. with_pump f (auto device))
              (λ _. tt)))

watched-Holds : (w : World) (f : Flags) (b : Built) → Fed f b → Holds (IsFed f) (watched w f b)
unfolding Fed
watched-Holds w f (refused err) h = tt
watched-Holds w f (source s takes reseeds) h =
    if_intro (Holds (IsFed f)) w.watch_fails (λ _. tt) (λ _. h)

new_watcher-Holds : (w : World) (f : Flags) → Holds (IsFed f) (new_watcher w f)
unfolding new_watcher
new_watcher-Holds w f =
    if_intro (Holds (IsFed f)) f.unmute_to_dictate
      (λ _.
        watched-Holds w f (build_mute_source f.unmute_source f.audio_monitor f.audio_device)
          (build_mute_source-Fed f f.unmute_source f.audio_device))
      (λ _. tt)

new_dispatch-Holds :
    (w : World) (f : Flags) (socket : Text) → Holds (IsSafe w f) (new_dispatch w f socket)
unfolding new_dispatch
new_dispatch-Holds w f socket =
    and_then-Holds (λ (d : Typer.Config). IsAllowed d.binary d.binary_allowlist) (IsSafe w f) _ _
      (new_typer-Holds w f)
      (λ typer types.
        and_then-Holds IsAllowedClip (IsSafe w f) _ _ (new_clip-Holds w f socket) (λ clip clips.
          after-Holds (IsSafe w f) (of_cleaner (Cleanup.new w.cleanup f.cleanup)) _ (λ cleaner.
            and_then-Holds (IsAllowedLog w f) (IsSafe w f) _ _
              (of_writer-Holds w f (Audit.new w.audit w.audit_start f.audit).0 refl)
              (λ writer logs.
                and_then-Holds (IsFed f) (IsSafe w f) _ _ (new_watcher-Holds w f) (λ watcher fed.
                  record { types = types; clips = clips; logs = logs; fed = fed })))))

new_session-Holds :
    (w : World) (f : Flags) (socket : Text) (a : Option AudioSetup) (t : Option Asr.Transcriber)
    → Holds (IsSafeSession w f) (new_session w f socket a t)
unfolding new_session
new_session-Holds w f socket none t = tt
new_session-Holds w f socket (some a) none = tt
new_session-Holds w f socket (some a) (some t) =
    and_then-Holds (IsSafe w f) (IsSafeSession w f) _ _ (new_dispatch-Holds w f socket) (λ d h. h)

of_selection-Holds :
    (w : World) (c : Asr.Config) (s : Asr.Selection)
    → Asr.select w.unicode w.asr c ≡ s
    → Holds (IsGuardedBackend w) (of_selection s)
of_selection-Holds w c (Asr.selected t) e = select-IsGuarded w.unicode w.asr c t e
of_selection-Holds w c (Asr.failed err) e = tt

select_backend-Holds : (w : World) (f : Flags) → Holds (IsGuardedBackend w) (select_backend w f)
unfolding select_backend
select_backend-Holds w f =
    if_intro (Holds (IsGuardedBackend w)) (has_backend f)
      (λ _.
        after-Holds (IsGuardedBackend w) (supervise w f) _
          (λ c. of_selection-Holds w c (Asr.select w.unicode w.asr c) refl))
      (λ _. tt)

start-Holds : (w : World) (f : Flags) → Holds (IsSound w f) (start w f)
unfolding start
start-Holds w f =
    if_intro (Holds (IsSound w f)) (not w.log_level_parses) (λ _. tt)
      (λ _. after-Holds (IsSound w f) (socket_path w f) _ (λ socket.
        and_then-Holds (IsGuardedBackend w) (IsSound w f) _ _ (select_backend-Holds w f)
          (λ asr guarded.
            and_then-Holds (IsSafeSession w f) (IsSound w f) _ _
              (new_session-Holds w f socket (set_up_audio w f) asr)
              (λ session safe.
                after-Holds (IsSound w f) (start_audio w f (set_up_audio w f)) _ (λ _.
                  after-Holds (IsSound w f) (ended w.listens) _
                    (λ _. record { backend = guarded; session = safe }))))))

-- A daemon that comes up is sound. Its backend sends an API key only over https, to a loopback host
-- or after a warning, skips the verification of certificates only after its warning, and waits
-- between its attempts. With a session, ydotool, and in clip-mode wl-copy and the panel, are on
-- their allowlists, as is the directory of an open audit log; and a mute source that takes frames
-- has a capture that runs without a session.
pub start-IsSound : (w : World) (f : Flags) (d : Daemon) → start w f ≡ goes d → IsSound w f d
start-IsSound w f d e = subst (Holds (IsSound w f)) e (start-Holds w f)
