-- ===== src/Typer/Tests.antt =====
-- internal/dispatch/typer.go: runs of the typer.
use dicta.Base.{ℕ, ◌≡◌, ◌⊎◌, refl, Bool, true, false, List, [], ◌∷◌, none, Text, codes, leb, arith}
use dicta.Base.Samples.{ascii}
use dicta.Typer.{Config, Env, new, chunk_string, chunks, find_boundary, type_text}
use dicta.Typer.Chunks.{concat, AreChunks, chunk_string-concat}
use dicta.Typer.Lines.{AreFlat, IsFlattened, IsBlank, type_text-AreFlat}
use dicta.Typer.Breaker.{in_a_row, openings, type_all, type_all-IsConsistent}

abbrev config : Config
config = record {
  binary = codes "/usr/bin/ydotool";
  socket = codes "/run/user/1000/.ydotool_socket";
  chunk_size = 8;
  chunk_delay = 20_000_000;
  key_delay = 2_000_000;
  invoke_timeout = 5_000_000_000;
  binary_allowlist = codes "/usr/bin" ∷ [];
  breaker_threshold = 2;
  breaker_cooldown = 30;
}

-- ydotool fails on each chunk, or on none.
abbrev env : ℕ → Bool → Env
env now down = record { now = now; cancels = λ i. false; fails = λ i s. down; canceled = false }

-- The blank behind the seventh code point is a boundary.
split_at_blank : chunk_string (codes "abcdef ghi jk") 8 ≡ codes "abcdef " ∷ codes "ghi jk" ∷ []
unfolding chunk_string chunks find_boundary
split_at_blank = refl

chunk_string-concat_example :
    (concat (chunk_string (codes "abcdef ghi jk") 8) ≡ codes "abcdef ghi jk")
    × AreChunks 8 (chunk_string (codes "abcdef ghi jk") 8)
chunk_string-concat_example =
    chunk_string-concat (codes "abcdef ghi jk") 8 (λ e. omega arith) (omega arith)

type_text-AreFlat_example :
    let r = type_text config ascii (env 1 false) (97 ∷ 10 ∷ 98 ∷ []) new in
    AreFlat r.0.0
    × (r.0.1 ≡ none
        → IsFlattened (97 ∷ 10 ∷ 98 ∷ []) (concat r.0.0)
          ⊎ (IsBlank ascii (97 ∷ 10 ∷ 98 ∷ []) × (r.0.0 ≡ [])))
type_text-AreFlat_example =
    type_text-AreFlat config ascii (env 1 false) (97 ∷ 10 ∷ 98 ∷ []) new (λ e. omega arith)

-- Two failures open the breaker, a blank text counts for nothing, and a success behind the cooldown
-- closes it; the newest call comes first.
abbrev calls : List (Env × Text)
calls =
    (env 50 false, codes "d")
    ∷ (env 3 true, codes " ")
    ∷ (env 2 true, codes "b")
    ∷ (env 1 true, codes "a")
    ∷ []

type_all-IsConsistent_example :
    let (t, os) = type_all config ascii calls in
    (t.is_open ≡ leb 2 (in_a_row os)) × (t.notices ≡ openings 2 os)
type_all-IsConsistent_example = type_all-IsConsistent config ascii calls (λ e. omega arith)
