-- ===== src/Common/Utf8.antt =====
-- The bytes of a text, `String::into_bytes`.
use Prim.Native.Nat.{ℕ, ◌+◌, ◌/◌, ◌%◌}
use Prim.Native.Char.{code}
use Prim.Native.String.{String}
use mathlib.Core.List.{List, [], ◌∷◌, ◌++◌}
use ferrum_proxy.Common.Tests.{if◌then◌else◌, ltb}

-- A byte that goes on with the character begun, from its six bits.
follower : ℕ → ℕ
follower n = 0x80 + n % 0x40

-- UTF-8 of one code point.
utf8 : ℕ → List ℕ
unfolding follower
utf8 n =
    if ltb n 0x80
    then n ∷ []
    else if ltb n 0x800
    then (0xc0 + n / 0x40) ∷ follower n ∷ []
    else if ltb n 0x1_0000
    then (0xe0 + n / 0x1000) ∷ follower (n / 0x40) ∷ follower n ∷ []
    else (0xf0 + n / 0x4_0000) ∷ follower (n / 0x1000) ∷ follower (n / 0x40) ∷ follower n ∷ []

unfoldable pub to_bytes : String → List ℕ
unfolding utf8
to_bytes String.[] = []
to_bytes (String.◌∷◌ c s) = utf8 (code c) ++ to_bytes s
