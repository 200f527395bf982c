-- ===== src/Audit/Settings.antt =====
-- internal/audit/config.go and `New` of audit.go: where the audit log may stand.
use dicta.Base.{
  ◌≡◌, refl, sym, ap, ◌∙◌, ℕ, Bool, true, false, not, List, [], ◌∷◌, Option, none, some, Text,
  codes, is_empty, if◌then◌else◌,
}
use dicta.Paths.{PathError, path_on_allowlist, is_abs, clean, join}
use dicta.Audit.Log.{FileWriter}
use dicta.Audit.Log
use dicta.Audit.Dates.{Moment}
use dicta.Audit.Retention.{Entry, sweep_retention}

-- `Config`; `retention_days` is 0 where it is not above 0.
pub record Settings : Type 0 where
  pub enabled : Bool
  pub directory : Text
  pub keep_audio : Bool
  pub retention_days : ℕ
  pub path_allowlist : List Text

-- $XDG_DATA_HOME, empty if it is not set, and the home directory.
pub record Host : Type 0 where
  pub xdg_data_home : Text
  pub home : Option Text

abbrev pub home_share : Option Text → Text
home_share none = []
home_share (some home) = join (join home (codes ".local")) (codes "share")

unfoldable pub xdg_data_home : Host → Text
xdg_data_home h = if is_empty h.xdg_data_home then home_share h.home else h.xdg_data_home

unfoldable pub default_path_allowlist : Host → List Text
unfolding xdg_data_home
default_path_allowlist h =
    codes "/var/lib/dicta"
    ∷ (if is_empty (xdg_data_home h) then [] else join (xdg_data_home h) (codes "dicta") ∷ [])

unfoldable pub with_defaults : Host → Settings → Settings
unfolding default_path_allowlist
with_defaults h c = record c {
  path_allowlist = if is_empty c.path_allowlist then default_path_allowlist h else c.path_allowlist;
}

pub data SettingsError : Type 0 where
  not_absolute directory_required mkdir_failed : SettingsError
  directory : PathError → SettingsError

pub data Resolved : Type 0 where
  resolved : Text → Resolved
  unresolved : SettingsError → Resolved

unfoldable pub resolve_directory : Host → Settings → Resolved
unfolding xdg_data_home
resolve_directory h c =
    if not (is_empty c.directory)
    then (if not (is_abs c.directory)
        then unresolved not_absolute
        else resolved (clean c.directory))
    else if is_empty (xdg_data_home h)
    then unresolved directory_required
    else resolved (join (xdg_data_home h) (codes "dicta"))

-- `Writer`: the one that drops every record, or one below a directory.
pub data Writer : Type 0 where
  passthrough : Writer
  file : Text → FileWriter → Writer
  refused : SettingsError → Writer

-- What the file system answers at the start.
pub record Start : Type 0 where
  pub now : Moment
  pub mkdir_fails : Bool
  pub read_fails : Bool
  pub remove_fails : Text → Bool
  pub entries : List Entry

abbrev pub open_below : Start → Settings → Text → Option PathError → Writer × List Entry
open_below b c dir (some err) = (refused (directory err), b.entries)
open_below b c dir none = if b.mkdir_fails then (refused mkdir_failed, b.entries) else (
  file dir (Log.new c.keep_audio c.retention_days),
  (sweep_retention b.now c.retention_days b.read_fails b.remove_fails b.entries).entries,
)

abbrev pub open_resolved : Start → Settings → Resolved → Writer × List Entry
open_resolved b c (unresolved err) = (refused err, b.entries)
open_resolved b c (resolved dir) = open_below b c dir (path_on_allowlist dir c.path_allowlist)

-- `New`, with what it leaves in the audit directory.
unfoldable pub new : Host → Start → Settings → Writer × List Entry
unfolding with_defaults resolve_directory
new h b c =
    let d = with_defaults h c in
    if not c.enabled then (passthrough, b.entries) else open_resolved b d (resolve_directory h d)

open_below-accepts :
    (b : Start) (c : Settings) (dir dir' : Text) (w : FileWriter) (o : Option PathError)
    → (open_below b c dir o).0 ≡ file dir' w
    → (o ≡ none) × (dir ≡ dir')
open_below-accepts b c dir dir' w (some err) h = cc
open_below-accepts b c dir dir' w none h = at b.mkdir_fails h
  where
    at :
        (m : Bool)
        → (if◌then◌else◌ {A = Writer × List Entry} m
            (refused mkdir_failed, b.entries)
            (
              file dir (Log.new c.keep_audio c.retention_days),
              (sweep_retention b.now c.retention_days b.read_fails b.remove_fails
                  b.entries).entries,
            )).0
          ≡ file dir' w
        → (◌≡◌ {A = Option PathError} none none) × (dir ≡ dir')
    at true q = cc
    at false q = (refl, cc)

-- The directory of an audit log is allowed.
pub new-accepts :
    (h : Host) (b : Start) (c : Settings) (dir : Text) (w : FileWriter)
    → (new h b c).0 ≡ file dir w
    → path_on_allowlist dir (with_defaults h c).path_allowlist ≡ none
unfolding new
new-accepts h b c dir w q = go c.enabled q
  where
    d : Settings
    d = with_defaults h c

    at :
        (r : Resolved)
        → (open_resolved b d r).0 ≡ file dir w
        → path_on_allowlist dir d.path_allowlist ≡ none
    at (unresolved err) q = cc
    at (resolved x) q =
        let m : (path_on_allowlist x d.path_allowlist ≡ none) × (x ≡ dir) =
          open_below-accepts b d x dir w (path_on_allowlist x d.path_allowlist) q in
        sym (ap (λ y. path_on_allowlist y d.path_allowlist) m.1) ∙ m.0

    go :
        (e : Bool)
        → (if not e then (passthrough, b.entries) else open_resolved b d (resolve_directory h d)).0
          ≡ file dir w
        → path_on_allowlist dir d.path_allowlist ≡ none
    go false q = cc
    go true q = at (resolve_directory h d) q
