-- ===== src/Text.antt =====
-- The strings of the program, as lists of UTF-16 code units, with the string functions that
-- the source calls: `trim`, `toUpperCase`, `slice`, `includes`, `replace(/\s+/g, "_")`, `===`.
pub mod Laws
pub mod Codes
pub mod Edges
use Prim.Native.Char.{code}
use workshop_service.Base.{
  ℕ, suc, ◌-◌, ◌+◌, String, Bool, true, false, ◌&&◌, ◌||◌, List, [], ◌∷◌, ◌++◌, ltb, leb, ◌==◌,
  if◌then◌else◌,
}

abbrev pub Text : Type 0
Text = List ℕ

-- A literal of the source. All of them are ASCII.
unfoldable pub text : String → Text
text String.[] = []
text (String.◌∷◌ c s) = code c ∷ text s

-- `a === b`
infix 50 ◌===◌
unfoldable pub ◌===◌ : Text → Text → Bool
[] === [] = true
[] === (d ∷ t) = false
(c ∷ s) === [] = false
(c ∷ s) === (d ∷ t) = c == d && s === t

-- `!s`
abbrev pub is_empty : Text → Bool
is_empty [] = true
is_empty (c ∷ s) = false

-- What `trim` removes and `\s` matches: white space and line terminators.
unfoldable pub is_space : ℕ → Bool
is_space c =
    (leb 9 c && leb c 13)
    || (c == 32)
    || (c == 160)
    || (c == 0x1680)
    || (leb 0x2000 c && leb c 0x200a)
    || (c == 0x2028)
    || (c == 0x2029)
    || (c == 0x202f)
    || (c == 0x205f)
    || (c == 0x3000)
    || (c == 0xfeff)

unfoldable pub trim_start : Text → Text
trim_start [] = []
trim_start (c ∷ s) = if is_space c then trim_start s else c ∷ s

-- A unit is kept unless it is a space and nothing is kept behind it.
abbrev pub keep_before : ℕ → Text → Text
keep_before c [] = if is_space c then [] else c ∷ []
keep_before c (d ∷ t) = c ∷ d ∷ t

unfoldable pub trim_end : Text → Text
trim_end [] = []
trim_end (c ∷ s) = keep_before c (trim_end s)

-- `s.trim()`
unfoldable pub trim : Text → Text
unfolding trim_start trim_end
trim s = trim_end (trim_start s)

-- `toUpperCase` of one code unit, over Basic Latin and Latin-1: `ß` becomes `SS`, and `ÿ` and
-- the micro sign leave Latin-1. Other units are left alone.
unfoldable pub upper_unit : ℕ → Text
upper_unit c =
    if leb b'a' c && leb c b'z'
    then (c - 32) ∷ []
    else if c == 0xdf
    then b'S' ∷ b'S' ∷ []
    else if leb 0xe0 c && leb c 0xfe && ltb c 0xf7 || leb 0xf8 c && leb c 0xfe
    then (c - 32) ∷ []
    else if c == 0xff
    then 0x178 ∷ []
    else if c == 0xb5
    then 0x39c ∷ []
    else c ∷ []

-- `s.toUpperCase()`
unfoldable pub to_upper_case : Text → Text
to_upper_case [] = []
to_upper_case (c ∷ s) = upper_unit c ++ to_upper_case s

-- `s.replace(/\s+/g, "_")`: each maximal run of spaces becomes one underscore. The flag says
-- that the unit before was a space.
unfoldable pub squeeze : Bool → Text → Text
squeeze b [] = []
squeeze b (c ∷ s) =
    let rest = squeeze (is_space c) s in
    if is_space c then (if b then rest else b'_' ∷ rest) else c ∷ rest

unfoldable pub replace_spaces : Text → Text
unfolding squeeze
replace_spaces s = squeeze false s

unfoldable pub is_prefix : Text → Text → Bool
is_prefix [] t = true
is_prefix (c ∷ s) [] = false
is_prefix (c ∷ s) (d ∷ t) = c == d && is_prefix s t

-- `t.includes(s)`
unfoldable pub includes : Text → Text → Bool
unfolding is_prefix
includes s [] = is_empty s
includes s (d ∷ t) = is_prefix s (d ∷ t) || includes s t
