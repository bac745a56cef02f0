-- ===== src/Prelude/Text.antt =====
-- JavaScript strings as sequences of UTF-16 code units, with the operations that the source uses.
-- `toUpperCase` and `toLowerCase` are modelled on ASCII letters, other units stay as they are.
use Prim.Native.Nat.{ℕ, zero, suc, ◌+◌, ◌-◌, ◌*◌, ◌/◌, ◌%◌, ◌≤◌}
use Prim.Native.Char.{code}
use Prim.Native.String.{String}
use mathlib.Core.Path.{◌≡◌, refl}
use mathlib.Core.Logic.{◌↔◌}
use mathlib.Core.Bool.{Bool, true, false, ◌&&◌, ◌||◌}
use mathlib.Core.Option.{Option, none, some}
use mathlib.Core.List.{List, [], ◌∷◌, map, reverse}
use native.Mathlib.Omega.{arith}
use bevoac_dev.Prelude.Tests.{ltb, leb, ◌==◌, if◌then◌else◌}
use bevoac_dev.Prelude.Lists.{length}

abbrev pub Text : Type 0
Text = List ℕ

-- A string literal of the source.
abbrev pub text : String → Text
text String.[] = []
text (String.◌∷◌ c s) = code c ∷ text s

unfoldable pub text_eq : Text → Text → Bool
text_eq [] [] = true
text_eq [] (d ∷ t) = false
text_eq (c ∷ s) [] = false
text_eq (c ∷ s) (d ∷ t) = (c == d) && text_eq s t

pub text_eq_iff : (s t : Text) → (text_eq s t ≡ true) ↔ (s ≡ t)
unfolding text_eq
text_eq_iff [] [] = (λ h. refl, λ h. refl)
text_eq_iff [] (d ∷ t) = (λ h. cc, λ h. cc)
text_eq_iff (c ∷ s) [] = (λ h. cc, λ h. cc)
text_eq_iff (c ∷ s) (d ∷ t) =
    (λ h. ground (arith, text_eq_iff s t), λ h. ground (arith, text_eq_iff s t))

pub text_eq_refl : (s : Text) → text_eq s s ≡ true
text_eq_refl s = (text_eq_iff s s).1 refl

-- `a || b` on nullable strings: null and the empty string fall through.
abbrev pub truthy : Option Text → Bool
truthy none = false
truthy (some []) = false
truthy (some (c ∷ s)) = true

abbrev pub or_text : Option Text → Text → Text
or_text none d = d
or_text (some []) d = d
or_text (some (c ∷ s)) d = c ∷ s

-- `a || null`
abbrev pub or_null : Option Text → Option Text
or_null none = none
or_null (some []) = none
or_null (some (c ∷ s)) = some (c ∷ s)

unfoldable pub upper_unit : ℕ → ℕ
upper_unit c = if leb b'a' c && leb c b'z' then c - 32 else c

unfoldable pub lower_unit : ℕ → ℕ
lower_unit c = if leb b'A' c && leb c b'Z' then c + 32 else c

unfoldable pub to_upper : Text → Text
unfolding upper_unit
to_upper = map upper_unit

unfoldable pub to_lower : Text → Text
unfolding lower_unit
to_lower = map lower_unit

unfoldable pub starts_with : Text → Text → Bool
starts_with s [] = true
starts_with [] (d ∷ t) = false
starts_with (c ∷ s) (d ∷ t) = (c == d) && starts_with s t

-- `s.includes(needle)`
unfoldable pub includes : Text → Text → Bool
unfolding starts_with
includes [] needle = starts_with [] needle
includes (c ∷ s) needle = starts_with (c ∷ s) needle || includes s needle

-- `Set.has`, `Array.includes` on strings
unfoldable pub mem_text : Text → List Text → Bool
unfolding text_eq
mem_text s [] = false
mem_text s (t ∷ ts) = text_eq s t || mem_text s ts

-- White space that `trim` removes, in ASCII.
abbrev pub is_space : ℕ → Bool
is_space c = (c == 32) || (leb 9 c && leb c 13)

unfoldable pub trim_start : Text → Text
trim_start [] = []
trim_start (c ∷ s) = if is_space c then trim_start s else c ∷ s

unfoldable pub trim : Text → Text
unfolding trim_start
trim s = reverse (trim_start (reverse (trim_start s)))

-- `Buffer.byteLength(s, 'utf8')`. The flag says that the unit before was a high surrogate, which has
-- counted 3; a low surrogate that completes it adds 1. A lone surrogate is replaced by U+FFFD, 3 bytes.
utf8_from : Bool → Text → ℕ
utf8_from high [] = 0
utf8_from high (c ∷ s) =
    let low = leb 0xdc00 c && leb c 0xdfff in
    let cost : ℕ =
      if ltb c 0x80 then 1 else if ltb c 0x800 then 2 else if high && low then 1 else 3 in
    cost + utf8_from (leb 0xd800 c && leb c 0xdbff) s

unfoldable pub utf8_length : Text → ℕ
unfolding utf8_from
utf8_length = utf8_from false

utf8_from-bounds :
    (high : Bool) (s : Text) → (length s ≤ utf8_from high s) × (utf8_from high s ≤ 3 * length s)
unfolding utf8_from
utf8_from-bounds high [] = omega arith
utf8_from-bounds high (c ∷ s) = ground (arith, utf8_from-bounds (leb 0xd800 c && leb c 0xdbff) s)

-- A string of n code units takes between n and 3 n bytes of UTF-8.
pub utf8_length_bounds : (s : Text) → (length s ≤ utf8_length s) × (utf8_length s ≤ 3 * length s)
unfolding utf8_length
utf8_length_bounds s = utf8_from-bounds false s

-- A number in a template string. A number has fewer digits than its value, so the fuel is enough.
unfoldable pub decimal_from : ℕ → ℕ → Text → Text
decimal_from zero n acc = acc
decimal_from (suc fuel) n acc =
    let rest = decimal_from fuel (n / 10) ((48 + n % 10) ∷ acc) in
    if ltb n 10 then (48 + n) ∷ acc else rest

unfoldable pub decimal : ℕ → Text
unfolding decimal_from
decimal n = decimal_from (suc n) n []
