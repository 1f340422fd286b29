-- ===== src/Go/Strings.antt =====
-- What the driver uses of Go's `strings` package and of `+` and `len` on strings. Positions and
-- lengths count bytes, as in Go.
pub mod Base
use mathlib.Core.Option
use Prim.Native.Char.{code}
use Prim.Native.String.{len, slice, find, ◌++◌ as concat}
use text.Mathlib.Text.{starts_with}
use text.Mathlib.TextPositions.{starts_with-append, len-append, slice-append_right}
use osc_bsu_csi_driver.Prelude.{
  ℕ, ◌+◌, ◌-◌, ◌*◌, ◌^◌, String, Bool, ◌&&◌, ◌||◌, Option, none, some, List, [], ◌∷◌, ◌≡◌, leb,
  nat_eq, ◌==◌, if◌then◌else◌,
}
use osc_bsu_csi_driver.Go.Int.{ℤ, pos, sub_ℕ}

-- strings.HasPrefix(s, prefix)
abbrev pub has_prefix : String → String → Bool
has_prefix s prefix = starts_with s prefix

-- strings.TrimPrefix(s, prefix)
unfoldable pub trim_prefix : String → String → String
trim_prefix s prefix = if starts_with s prefix then slice s (len prefix) (len s) else s

pub trim_prefix-concat : (p s : String) → trim_prefix (concat p s) p ≡ s
unfolding trim_prefix
trim_prefix-concat p s = rw (starts_with-append p s, len-append p s) (slice-append_right p s)

atoi_digits : ℕ → String → Option ℕ
atoi_digits acc String.[] = some acc
atoi_digits acc (String.◌∷◌ c s) =
    let next = atoi_digits (acc * 10 + (code c - 48)) s in
    if leb 48 (code c) && leb (code c) 57 then next else none

-- The digits of a number whose absolute value is at most `limit`.
atoi_unsigned : ℕ → String → Option ℕ
atoi_unsigned limit String.[] = none
atoi_unsigned limit (String.◌∷◌ c s) = elim (atoi_digits 0 (String.◌∷◌ c s)) [
  | none ↦ none
  | some n ↦ if leb n limit then some n else none
]

-- strconv.Atoi(s), `none` being its error: an optional sign, then decimal digits, within 64 bits
unfoldable pub atoi : String → Option ℤ
unfolding atoi_digits atoi_unsigned
atoi String.[] = none
atoi (String.◌∷◌ c s) =
    if nat_eq (code c) b'-'
    then Option.map (λ n. sub_ℕ 0 n) (atoi_unsigned (2 ^ 63) s)
    else if nat_eq (code c) b'+'
    then Option.map pos (atoi_unsigned (2 ^ 63 - 1) s)
    else Option.map pos (atoi_unsigned (2 ^ 63 - 1) (String.◌∷◌ c s))

-- strings.Contains(s, part)
unfoldable pub contains : String → String → Bool
contains s part = leb (find s part) (len s)

-- strings.Split(s, "\n")
unfoldable pub lines : String → List String
lines String.[] = "" ∷ []
lines (String.◌∷◌ c s) =
    let rest = lines s in
    if nat_eq (code c) 10
    then "" ∷ rest
    else elim rest [ [] ↦ [] | line ∷ more ↦ String.◌∷◌ c line ∷ more ]

-- unicode.IsSpace
is_space : ℕ → Bool
is_space c =
    (leb 9 c && leb c 13)
    || nat_eq c 0x20
    || nat_eq c 0x85
    || nat_eq c 0xa0
    || nat_eq c 0x1680
    || (leb 0x2000 c && leb c 0x200a)
    || nat_eq c 0x2028
    || nat_eq c 0x2029
    || nat_eq c 0x202f
    || nat_eq c 0x205f
    || nat_eq c 0x3000

trim_left : String → String
trim_left String.[] = ""
trim_left (String.◌∷◌ c s) =
    let rest = trim_left s in if is_space (code c) then rest else String.◌∷◌ c s

-- Without the characters at the end that pass a test.
unfoldable pub trim_right : (ℕ → Bool) → String → String
trim_right drops String.[] = ""
trim_right drops (String.◌∷◌ c s) =
    let rest = trim_right drops s in if rest == "" && drops (code c) then "" else String.◌∷◌ c rest

-- strings.TrimSpace(s)
unfoldable pub trim_space : String → String
unfolding trim_left trim_right is_space
trim_space s = trim_right is_space (trim_left s)

unfoldable pub is_slash : ℕ → Bool
is_slash c = nat_eq c b'/'

-- What follows the last slash.
unfoldable pub after_slash : String → String → String
after_slash part String.[] = part
after_slash part (String.◌∷◌ c s) =
    after_slash (if is_slash (code c) then "" else concat part (String.◌∷◌ c "")) s

-- filepath.Base(path)
unfoldable pub base : String → String
unfolding trim_right after_slash is_slash
base path =
    if path == ""
    then "."
    else if after_slash "" (trim_right is_slash path) == ""
    then "/"
    else after_slash "" (trim_right is_slash path)
