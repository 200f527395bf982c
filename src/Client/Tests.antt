-- ===== src/Client/Tests.antt =====
-- cmd/dicta/main.go: some command lines.
use dicta.Base.{ℕ, ◌≡◌, refl, true, false, [], ◌∷◌, Option, none, some, codes}
use dicta.Base.Ints.{pos}
use dicta.Control.{refuse, Failure, Handler}
use dicta.Client.{Env, line, plain, quits, run, check_client_timeout}
use dicta.Client.Served.{AreUnderstood, run-AreUnderstood}

abbrev env : Env
env = record {
  parse = λ args.
      some (record { socket = []; timeout = pos 2_000_000_000; timeout_set = false; rest = args });
  parse_mode = λ args. some (codes "both");
  parse_text = λ args. some (codes "hi");
  default_socket = some (codes "/run/dicta.sock");
  call = λ socket cmd timeout. record {
    dial_fails = false;
    write_fails = false;
    read = line (some (record { ok = true; code = [] }));
  };
  prints = true;
  probe_mute = λ args. 0;
}

checks : run env (codes "check" ∷ []) ≡ record {
  code = 0;
  calls = (codes "/run/dicta.sock", plain (codes "check"), check_client_timeout) ∷ [];
}
unfolding run
checks = refl

no_mode : run env (codes "toggle_talk" ∷ []) ≡ quits 2
unfolding run
no_mode = refl

refused :
    (run
      (record env {
        call = λ socket cmd timeout. record {
          dial_fails = false;
          write_fails = false;
          read = line (some (refuse (codes "not_implemented")));
        };
      })
      (codes "shutdown" ∷ [])).code
    ≡ 1
unfolding run
refused = refl

nothing : run env [] ≡ quits 2
unfolding run
nothing = refl

unknown : run env (codes "dance" ∷ []) ≡ quits 2
unfolding run
unknown = refl

abbrev does : ℕ → ℕ × Option Failure
does d = (d, none)

-- A daemon that does what it is told, and counts nothing.
abbrev obedient : Handler ℕ
obedient = record {
  status = does;
  check = does;
  toggle_talk = λ mode. does;
  commit = λ text. does;
  cancel = does;
  mic_list = does;
  mic_select = λ name is_reset. does;
  suspend = does;
  resume = does;
  subscribe = λ events. does;
  shutdown = does;
}

run-AreUnderstood_example : AreUnderstood obedient (run env (codes "commit" ∷ [])).calls
run-AreUnderstood_example = run-AreUnderstood obedient env (codes "commit" ∷ [])
