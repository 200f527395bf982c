-- ===== src/Base/Samples.antt =====
-- The ASCII part of package unicode, for runs at concrete texts.
use Prim.Native.Nat.{◌+◌}
use mathlib.Core.Bool.{◌&&◌}
use dicta.Base.Tests.{leb, ◌==◌, if◌then◌else◌}
use dicta.Base.Strings.{Unicode}

abbrev pub ascii : Unicode
ascii = record {
  to_lower = λ c. if leb 65 c && leb c 90 then c + 32 else c;
  is_letter = λ c. leb 97 c && leb c 122;
  is_digit = λ c. leb 48 c && leb c 57;
  is_space = λ c. c == 32;
}
