-- ===== src/Preview/Tests.antt =====
-- cmd/dictad/preview.go: a panel that is killed, and one that is not.
use dicta.Base.{◌≡◌, refl, true, false, [], ◌∷◌, none, some, codes}
use dicta.Base.Ints.{pos}
use dicta.Paths.{path_on_allowlist, clean, join}
use dicta.Preview.{
  PreviewProc, Config, proc, new, default_preview_allowlist, already_spawned, start_failed, spawn,
}

abbrev config : Config
config = record {
  binary = codes "/home/u/.local/bin/dicta-preview";
  socket = codes "/run/dicta.sock";
  extra_args = codes "--top" ∷ [];
  binary_allowlist = [];
  kill_grace = pos 0;
  has_logger = true;
}

abbrev panel : PreviewProc
panel = record {
  config = record config { kill_grace = pos 2_000_000_000 };
  allowlist = default_preview_allowlist (codes "/home/u");
  running = none;
  next = 0;
  has_on_exit = true;
  stopped = false;
  hooked = 0;
  spawned = [];
  terminated = [];
}

makes : new (codes "/home/u") config ≡ proc (record panel { has_on_exit = false })
unfolding new default_preview_allowlist path_on_allowlist clean join
makes = refl

spawn-arguments :
    (spawn false panel).0.spawned
    ≡ (config.binary, codes "--socket" ∷ config.socket ∷ codes "--top" ∷ []) ∷ []
unfolding spawn
spawn-arguments = refl

spawn-twice : (spawn false (spawn false panel).0).1 ≡ some already_spawned
unfolding spawn
spawn-twice = refl

spawn-fails : (spawn true panel).1 ≡ some start_failed
unfolding spawn
spawn-fails = refl
