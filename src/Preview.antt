-- ===== src/Preview.antt =====
-- cmd/dictad/preview.go: the panel's subprocess, its exit watcher and its exit hook.
pub mod Process
mod Tests
use dicta.Base.{
  ◌≡◌, refl, ap₂, ◌∙◌, ℕ, suc, Bool, true, false, not, List, [], ◌∷◌, ◌++◌, Option, none, some,
  Text, codes, is_empty, ◌==◌, if◌then◌else◌,
}
use dicta.Base.Ints.{ℤ, or_default}
use dicta.Paths.{PathError, path_on_allowlist, join}

pub record Config : Type 0 where
  pub binary : Text
  pub socket : Text
  pub extra_args : List Text
  pub binary_allowlist : List Text
  pub kill_grace : ℤ
  pub has_logger : Bool

-- `home` is the home directory, empty if it is not known.
unfoldable pub default_preview_allowlist : Text → List Text
default_preview_allowlist home =
    codes "/usr/bin"
    ∷ codes "/usr/local/bin"
    ∷ codes "/opt"
    ∷ (if is_empty home then [] else join (join home (codes ".local")) (codes "bin") ∷ [])

pub data ConfigError : Type 0 where
  binary_required logger_required : ConfigError
  binary : PathError → ConfigError

-- `previewProc`. `running` is the number of the subprocess that `cmd` holds. A subprocess has
-- exited once it is in `exits`, where its watcher will find it; `hooked` counts the calls of
-- `onExit`; and `spawned` are the arguments of each start, the newest first.
pub record PreviewProc : Type 0 where
  pub config : Config
  pub allowlist : List Text
  pub running : Option ℕ
  pub next : ℕ
  pub has_on_exit : Bool
  pub stopped : Bool
  pub hooked : ℕ
  pub spawned : List (Text × List Text)
  pub terminated : List ℕ

pub data Made : Type 0 where
  proc : PreviewProc → Made
  refused : ConfigError → Made

abbrev pub checked : Config → List Text → Option PathError → Made
checked c allowlist (some err) = refused (binary err)
checked c allowlist none =
    if not c.has_logger
    then refused logger_required
    else proc (record {
      config = record c { kill_grace = or_default 2_000_000_000 c.kill_grace };
      allowlist = allowlist;
      running = none;
      next = 0;
      has_on_exit = false;
      stopped = false;
      hooked = 0;
      spawned = [];
      terminated = [];
    })

-- `newPreviewProc`.
unfoldable pub new : Text → Config → Made
unfolding default_preview_allowlist
new home c =
    let allowlist =
      if is_empty c.binary_allowlist then default_preview_allowlist home else c.binary_allowlist in
    if is_empty c.binary
    then refused binary_required
    else checked c allowlist (path_on_allowlist c.binary allowlist)

pub data Error : Type 0 where
  already_spawned start_failed : Error

abbrev pub spawn_from : Bool → Option ℕ → PreviewProc → PreviewProc × Option Error
spawn_from fails (some n) p = (p, some already_spawned)
spawn_from fails none p = if fails then (record p { stopped = false }, some start_failed) else (
  record p {
    stopped = false;
    running = some p.next;
    next = suc p.next;
    spawned =
        (p.config.binary, codes "--socket" ∷ p.config.socket ∷ p.config.extra_args) ∷ p.spawned;
  },
  none,
)

-- `Spawn`; the Boolean says that the start fails.
unfoldable pub spawn : Bool → PreviewProc → PreviewProc × Option Error
spawn fails p = spawn_from fails p.running p

-- The exit watcher of the subprocess that `cmd` holds, once it has ended.
abbrev pub watch_from : Option ℕ → PreviewProc → PreviewProc
watch_from none p = p
watch_from (some n) p = record p {
  running = none;
  hooked = if not p.stopped then if p.has_on_exit then suc p.hooked else p.hooked else p.hooked;
}

unfoldable pub exit : PreviewProc → PreviewProc
exit p = watch_from p.running p

-- `Kill` up to its wait: the group is told to end.
abbrev pub kill_from : Option ℕ → PreviewProc → PreviewProc
kill_from none p = p
kill_from (some n) p = record p { terminated = n ∷ p.terminated }

unfoldable pub kill : PreviewProc → PreviewProc
kill p = kill_from p.running (record p { stopped = true })

unfoldable pub on_exit : PreviewProc → PreviewProc
on_exit p = record p { has_on_exit = true }

checked-proc :
    (c : Config) (l : List Text) (o : Option PathError) (p : PreviewProc)
    → checked c l o ≡ proc p
    → (o ≡ none) × (p.config.binary ≡ c.binary) × (p.allowlist ≡ l)
checked-proc c l (some err) p h = cc
checked-proc c l none p h = at c.has_logger h
  where
    at :
        (b : Bool)
        → (if not b
            then refused logger_required
            else proc (record {
              config = record c { kill_grace = or_default 2_000_000_000 c.kill_grace };
              allowlist = l;
              running = none;
              next = 0;
              has_on_exit = false;
              stopped = false;
              hooked = 0;
              spawned = [];
              terminated = [];
            }))
          ≡ proc p
        → (◌≡◌ {A = Option PathError} none none) × (p.config.binary ≡ c.binary) × (p.allowlist ≡ l)
    at false q = cc
    at true q = (refl, cc, cc)

-- The binary of a panel is allowed.
pub new-accepts :
    (home : Text) (c : Config) (p : PreviewProc)
    → new home c ≡ proc p
    → path_on_allowlist p.config.binary p.allowlist ≡ none
unfolding new
new-accepts home c p h = go (is_empty c.binary) h
  where
    l : List Text
    l = if is_empty c.binary_allowlist then default_preview_allowlist home else c.binary_allowlist

    go :
        (b : Bool)
        → (if b then refused binary_required else checked c l (path_on_allowlist c.binary l))
          ≡ proc p
        → path_on_allowlist p.config.binary p.allowlist ≡ none
    go true q = cc
    go false q =
        let m : (path_on_allowlist c.binary l ≡ none)
            × (p.config.binary ≡ c.binary)
            × (p.allowlist ≡ l) =
          checked-proc c l (path_on_allowlist c.binary l) p q in
        ap₂ path_on_allowlist m.1 m.2 ∙ m.0
