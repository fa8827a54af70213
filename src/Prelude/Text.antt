-- ===== src/Prelude/Text.antt =====
-- The parts of Rust's standard library that settings are read with: `str::trim`, `str::split_once`,
-- `str::starts_with`, `str::trim_start_matches` and `u64::from_str`.
use Prim.Native.String.{String, [], ◌∷◌}
use Prim.Native.Char.{code}
use Prim.Native.Nat.{ℕ, ◌+◌, ◌-◌, ◌*◌, ◌^◌}
use mathlib.Core.Path.{◌≡◌, refl, ap, ◌∙◌}
use mathlib.Core.Bool.{Bool, true, false, ◌&&◌, ◌||◌}
use mathlib.Core.Option.{Option, none, some}
use native.Mathlib.Omega.{arith}
use rkb.Prelude.Tests.{◌==◌, ltb, leb, if◌then◌else◌}

abbrev pub is_empty : String → Bool
is_empty [] = true
is_empty (c ∷ s) = false

-- Unicode's White_Space
abbrev is_whitespace : ℕ → Bool
is_whitespace c =
    leb 9 c && leb c 13
    || c == 32
    || c == 133
    || c == 160
    || c == 5760
    || leb 8192 c && leb c 8202
    || c == 8232
    || c == 8233
    || c == 8239
    || c == 8287
    || c == 12288

abbrev trim_start : String → String
trim_start [] = []
trim_start (c ∷ s) = let rest = trim_start s in if is_whitespace (code c) then rest else c ∷ s

abbrev trim_end : String → String
trim_end [] = []
trim_end (c ∷ s) =
    let rest = trim_end s in if is_whitespace (code c) && is_empty rest then [] else c ∷ rest

abbrev pub trim : String → String
trim s = trim_end (trim_start s)

-- The separator is given by its code.
abbrev pub split_once : ℕ → String → Option (String × String)
split_once separator [] = none
split_once separator (c ∷ s) =
    let rest : Option (String × String) = elim (split_once separator s) [
      | none ↦ none
      | some (a, b) ↦ some (c ∷ a, b)
    ] in
    if code c == separator then some ([], s) else rest

-- `none` is a character that is no digit, or an overflow.
abbrev parse_digits : ℕ → String → Option ℕ
parse_digits n [] = some n
parse_digits n (c ∷ s) =
    let m = n * 10 + (code c - 48) in
    let rest = parse_digits m s in
    if leb 48 (code c) && leb (code c) 57 && ltb m (2 ^ 64) then rest else none

abbrev parse_nonempty : String → Option ℕ
parse_nonempty [] = none
parse_nonempty (c ∷ s) = parse_digits 0 (c ∷ s)

-- A leading plus sign is allowed.
abbrev pub parse_u64 : String → Option ℕ
parse_u64 [] = none
parse_u64 (c ∷ s) = if code c == 43 then parse_nonempty s else parse_digits 0 (c ∷ s)

abbrev pub starts_with : String → String → Bool
starts_with [] s = true
starts_with (p ∷ prefix) [] = false
starts_with (p ∷ prefix) (c ∷ s) = code p == code c && starts_with prefix s

-- Lower-case hexadecimal digits alone.
abbrev pub IsHex : String → Type 0
IsHex [] = Unit
IsHex (c ∷ s) =
    ((leb 48 (code c) && leb (code c) 57 || leb 97 (code c) && leb (code c) 102) ≡ true) × IsHex s

trim_end_hex : (s : String) → IsHex s → trim_end s ≡ s
trim_end_hex [] h = refl
trim_end_hex (c ∷ s) h = ground (arith, trim_end_hex s)

trim_start_hex : (s : String) → IsHex s → trim_start s ≡ s
trim_start_hex [] h = refl
trim_start_hex (c ∷ s) h = ground arith

pub trim_hex : (s : String) → IsHex s → trim s ≡ s
trim_hex s h = ap trim_end (trim_start_hex s h) ∙ trim_end_hex s h
