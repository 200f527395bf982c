-- ===== src/Typer.antt =====
-- internal/dispatch/typer.go: the text that ydotool is given, in chunks, and the circuit breaker.
-- A text is its list of code points, so it holds valid UTF-8.
pub mod Chunks
pub mod Breaker
pub mod Lines
pub mod Invoke
mod Tests
use dicta.Base.{
  ℕ, zero, suc, ◌+◌, ◌-◌, ◌/◌, Bool, true, false, not, ◌&&◌, ◌||◌, List, [], ◌∷◌, Option, none,
  some, Text, Unicode, codes, length, get_or, take, drop, map, is_empty, trim_space, trim_left,
  trim_right, ltb, leb, ◌==◌, if◌then◌else◌,
}

-- `len(s)` of the UTF-8 text.
abbrev pub byte_length : Text → ℕ
byte_length [] = 0
byte_length (c ∷ s) =
    (if ltb c 128 then 1 else if ltb c 2048 then 2 else if ltb c 65536 then 3 else 4)
    + byte_length s

abbrev pub is_blank : ℕ → Bool
is_blank c = c == 32 || c == 9

-- The loop that looks for a blank from index `j` down to `low`, in what is left of the text.
unfoldable pub find_boundary : Text → ℕ → ℕ → ℕ → ℕ
find_boundary runes low otherwise zero = otherwise
find_boundary runes low otherwise (suc j) =
    let earlier = find_boundary runes low otherwise j in
    if ltb low (suc j) then if is_blank (get_or runes j 0) then suc j else earlier else otherwise

-- The loop over the runes that are left, with fuel.
unfoldable pub chunks : ℕ → ℕ → Text → List Text
unfolding find_boundary
chunks size zero runes = []
chunks size (suc n) runes =
    let split = find_boundary runes (size - size / 4) size size in
    let rest = chunks size n (drop split runes) in
    if leb (length runes) size then runes ∷ [] else take split runes ∷ rest

-- A chunk takes a rune or more, so as much fuel as there are runes is enough.
unfoldable pub chunk_string : Text → ℕ → List Text
unfolding chunks
chunk_string s size =
    if size == 0 || leb (byte_length s) size
    then s ∷ []
    else if leb (length s) size
    then s ∷ []
    else chunks size (length s) s

-- Durations in nanoseconds; one that is not above 0 is 0 here, and so are such numbers.
pub record Config : Type 0 where
  pub binary : Text
  pub socket : Text
  pub chunk_size : ℕ
  pub chunk_delay : ℕ
  pub key_delay : ℕ
  pub invoke_timeout : ℕ
  pub binary_allowlist : List Text
  pub breaker_threshold : ℕ
  pub breaker_cooldown : ℕ

abbrev pub default_binary_allowlist : List Text
default_binary_allowlist = codes "/usr/bin" ∷ codes "/usr/local/bin" ∷ codes "/opt" ∷ []

unfoldable pub with_defaults : Config → Config
with_defaults c = record {
  binary = if is_empty c.binary then codes "/usr/bin/ydotool" else c.binary;
  socket = c.socket;
  chunk_size = if c.chunk_size == 0 then 200 else c.chunk_size;
  chunk_delay = if c.chunk_delay == 0 then 20_000_000 else c.chunk_delay;
  key_delay = c.key_delay;
  invoke_timeout = if c.invoke_timeout == 0 then 5_000_000_000 else c.invoke_timeout;
  binary_allowlist =
      if is_empty c.binary_allowlist then default_binary_allowlist else c.binary_allowlist;
  breaker_threshold = if c.breaker_threshold == 0 then 3 else c.breaker_threshold;
  breaker_cooldown = if c.breaker_cooldown == 0 then 30_000_000_000 else c.breaker_cooldown;
}

-- What the clock, the context and ydotool answer during one call: whether the context ends in the
-- delay before chunk `i`, whether ydotool fails on chunk `i`, whether the context has ended then.
pub record Env : Type 0 where
  pub now : ℕ
  pub cancels : ℕ → Bool
  pub fails : ℕ → Text → Bool
  pub canceled : Bool

pub data Error : Type 0 where
  breaker_open context_done ydotool : Error

pub record Typer : Type 0 where
  pub consecutive_failures : ℕ
  pub is_open : Bool
  pub opened_at : ℕ
  pub notified : Bool
  pub notices : ℕ  -- the calls of `Notify`

unfoldable pub new : Typer
new = record {
  consecutive_failures = 0;
  is_open = false;
  opened_at = 0;
  notified = false;
  notices = 0;
}

unfoldable pub breaker_allow_attempt : Config → ℕ → Typer → Bool
breaker_allow_attempt c now t =
    if not t.is_open then true else leb c.breaker_cooldown (now - t.opened_at)

unfoldable pub record_result : Config → ℕ → Bool → Option Error → Typer → Typer
record_result c now canceled none t = record t {
  consecutive_failures = 0;
  is_open = false;
  notified = false;
}
record_result c now canceled (some err) t =
    let n = suc t.consecutive_failures in
    if canceled
    then t
    else if t.is_open
    then record t { consecutive_failures = n; opened_at = now }
    else if leb c.breaker_threshold n
    then record t {
      consecutive_failures = n;
      is_open = true;
      opened_at = now;
      notified = true;
      notices = if t.notified then t.notices else suc t.notices;
    }
    else record t { consecutive_failures = n }

-- The chunks that ydotool is called with, the last of them perhaps in vain, and the error.
unfoldable pub type_chunks : Env → ℕ → List Text → List Text × Option Error
type_chunks e i [] = ([], none)
type_chunks e i (s ∷ ss) =
    let rest = type_chunks e (suc i) ss in
    if ltb 0 i && e.cancels i
    then ([], some context_done)
    else if e.fails i s
    then (s ∷ [], some (if e.canceled then context_done else ydotool))
    else (s ∷ rest.0, rest.1)

abbrev pub flat : ℕ → ℕ
flat c = if c == 10 || c == 13 then 32 else c

-- `Type`: the chunks, the error, and the typer.
unfoldable pub type_text :
    Config → Unicode → Env → Text → Typer → (List Text × Option Error) × Typer
unfolding breaker_allow_attempt record_result type_chunks chunk_string
type_text c u e s t =
    let text = map flat s in
    let out = type_chunks e 0 (chunk_string text c.chunk_size) in
    if is_empty (trim_space u text)
    then (([], none), t)
    else if breaker_allow_attempt c e.now t
    then (out, record_result c e.now e.canceled out.1 t)
    else (([], some breaker_open), t)
