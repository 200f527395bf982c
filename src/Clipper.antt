-- ===== src/Clipper.antt =====
-- internal/dispatch/clipper.go: the text on its way to wl-copy.
use dicta.Base.{
  ◌≡◌, refl, sym, ap, ◌∙◌, Bool, true, false, not, List, [], ◌∷◌, Option, none, some, Text, codes,
  is_empty, contains, if◌then◌else◌,
}
use dicta.Base.Ints.{ℤ, or_default}
use dicta.Paths.{PathError, path_on_allowlist}

abbrev pub default_binary_allowlist : List Text
default_binary_allowlist = codes "/usr/bin" ∷ codes "/usr/local/bin" ∷ codes "/opt" ∷ []

pub record Config : Type 0 where
  pub binary : Text
  pub extra_args : List Text
  pub invoke_timeout : ℤ
  pub binary_allowlist : List Text

unfoldable pub with_defaults : Config → Config
with_defaults c = record {
  binary = if is_empty c.binary then codes "/usr/bin/wl-copy" else c.binary;
  extra_args = c.extra_args;
  invoke_timeout = or_default 5_000_000_000 c.invoke_timeout;
  binary_allowlist =
      if is_empty c.binary_allowlist then default_binary_allowlist else c.binary_allowlist;
}

unfoldable pub validate : Config → Option PathError
unfolding with_defaults
validate c = let d = with_defaults c in path_on_allowlist d.binary d.binary_allowlist

pub data Made : Type 0 where
  clipper : Config → Made
  refused : PathError → Made

abbrev pub made : Option PathError → Config → Made
made none c = clipper c
made (some err) c = refused err

-- `NewSubprocessClipper`.
unfoldable pub new : Config → Made
unfolding validate
new c = made (validate c) (with_defaults c)

-- What the operating system answers during one call: the errors of the pipe, of the start (whether
-- the binary cannot be executed), of the write and the close of the pipe (its message), of the
-- process, and whether the context has ended.
pub record Env : Type 0 where
  pub pipe_fails : Bool
  pub start_fails : Bool
  pub not_executable : Bool
  pub write_fails : Bool
  pub close_error : Option Text
  pub wait_fails : Bool
  pub canceled : Bool

pub data Error : Type 0 where
  stdin_pipe wl_copy_not_executable wl_copy_start context_done stdin wl_copy : Error

abbrev pub close_counts : Option Text → Bool
close_counts none = false
close_counts (some message) = not (contains message (codes "file already closed"))

-- `writeAllAndClose`: whether it returns an error.
unfoldable pub write_all_and_close : Env → Bool
write_all_and_close e = if e.write_fails then true else close_counts e.close_error

-- `Clip`: what wl-copy is given, `none` if it does not start, and the error.
unfoldable pub clip : Env → Text → Option Text × Option Error
unfolding write_all_and_close
clip e text =
    if e.pipe_fails
    then (none, some stdin_pipe)
    else if e.start_fails
    then (none, some (if e.not_executable then wl_copy_not_executable else wl_copy_start))
    else if e.canceled
    then (some text, some context_done)
    else if write_all_and_close e
    then (some text, some stdin)
    else if e.wait_fails
    then (some text, some wl_copy)
    else (some text, none)

made-clipper : (o : Option PathError) (x d : Config) → made o x ≡ clipper d → (o ≡ none) × (x ≡ d)
made-clipper none x d h = (refl, cc)
made-clipper (some err) x d h = cc

-- The binary of a clipper is allowed.
pub new-accepts :
    (c d : Config) → new c ≡ clipper d → path_on_allowlist d.binary d.binary_allowlist ≡ none
unfolding new validate
new-accepts c d h =
    let m : (validate c ≡ none) × (with_defaults c ≡ d) =
      made-clipper (validate c) (with_defaults c) d h in
    sym (ap (λ (x : Config). path_on_allowlist x.binary x.binary_allowlist) m.1) ∙ m.0
