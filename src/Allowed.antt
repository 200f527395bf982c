-- ===== src/Allowed.antt =====
-- The paths of the programs that the daemon runs and of the files that it reads or writes, as the
-- constructors of internal/dispatch, internal/whispersup, internal/audit and cmd/dictad/preview.go
-- accept them.
mod Tests
use dicta.Base.{◌≡◌, refl, ap₂, ◌∙◌, sym, true, List, none, Text}
use dicta.Paths.{path_on_allowlist, is_abs}
use dicta.Paths.Allowlist.{SomeAdmits, path_on_allowlist_iff}
use dicta.Typer
use dicta.Typer.Invoke as Ydotool
use dicta.Clipper
use dicta.Supervisor.Settings as Whisper
use dicta.Preview
use dicta.Audit.Settings as AuditLog
use dicta.Audit.Log.{FileWriter}

-- A path in use, with the allowlist that it was held against.
pub data Uses : Text → List Text → Type 0 where
  ydotool :
      (c d : Typer.Config) → Ydotool.new c ≡ Ydotool.typer d → Uses d.binary d.binary_allowlist
  wl_copy :
      (c d : Clipper.Config) → Clipper.new c ≡ Clipper.clipper d → Uses d.binary d.binary_allowlist
  whisper_server :
      (h : Whisper.Host) (c : Whisper.Settings)
      → Whisper.validate h c ≡ none
      → Uses (Whisper.with_defaults h c).binary (Whisper.with_defaults h c).binary_allowlist
  whisper_model :
      (h : Whisper.Host) (c : Whisper.Settings)
      → Whisper.validate h c ≡ none
      → Uses (Whisper.with_defaults h c).model_path (Whisper.with_defaults h c).model_path_allowlist
  panel :
      (home : Text) (c : Preview.Config) (p : Preview.PreviewProc)
      → Preview.new home c ≡ Preview.proc p
      → Uses p.config.binary p.allowlist
  audit_log :
      (h : AuditLog.Host) (b : AuditLog.Start) (c : AuditLog.Settings) (dir : Text) (w : FileWriter)
      → (AuditLog.new h b c).0 ≡ AuditLog.file dir w
      → Uses dir (AuditLog.with_defaults h c).path_allowlist

Uses-checked :
    {path : Text} {allowlist : List Text}
    → Uses path allowlist
    → path_on_allowlist path allowlist ≡ none
Uses-checked (ydotool c d h) = Ydotool.new-accepts c d h
Uses-checked (wl_copy c d h) = Clipper.new-accepts c d h
Uses-checked (whisper_server h c v) = (Whisper.validate-accepts h c v).0
Uses-checked (whisper_model h c v) = (Whisper.validate-accepts h c v).1
Uses-checked (panel home c p h) = Preview.new-accepts home c p h
Uses-checked (audit_log h b c dir w e) = AuditLog.new-accepts h b c dir w e

-- The daemon uses no file outside the allowlists: the binary of an accepted ydotool, wl-copy,
-- whisper-server or preview panel, the model of whisper-server, and the directory of an open audit
-- log are absolute paths at or below an absolute prefix of their allowlist, element by element, with
-- `.`, `..` and repeated slashes resolved.
pub Uses-SomeAdmits :
    {path : Text} {allowlist : List Text}
    → Uses path allowlist
    → (is_abs path ≡ true) × SomeAdmits path allowlist
Uses-SomeAdmits {path} {allowlist} a = (path_on_allowlist_iff path allowlist).0 (Uses-checked a)
