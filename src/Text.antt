-- ===== src/Text.antt =====
-- The operations of Rust's `str` that the firmware uses. A text is the list of its characters, each
-- a Unicode scalar value; a byte slice is a list of numbers below 256. Positions count characters:
-- the source only cuts a text at positions that `find` returned, where characters and UTF-8 bytes
-- give the same parts.
pub mod Laws
pub mod Number
pub mod Results
pub mod Lines
pub mod Cut
pub mod Utf8
use Prim.Native.Char.{code}
use Prim.Native.String.{String}
use esp_wave_rider.Base.{
  ℕ, zero, suc, ◌+◌, ◌-◌, Bool, true, false, ◌&&◌, ◌||◌, Option, none, some, List, [], ◌∷◌, ◌++◌,
  ltb, leb, ◌==◌, if◌then◌else◌, drop, length, take,
}

abbrev pub Text : Type 0
Text = List ℕ

-- The characters of a literal.
abbrev pub codes : String → Text
codes String.[] = []
codes (String.◌∷◌ c s) = code c ∷ codes s

-- `==` on two strings.
unfoldable pub text_eq : Text → Text → Bool
text_eq [] [] = true
text_eq [] (d ∷ t) = false
text_eq (c ∷ s) [] = false
text_eq (c ∷ s) (d ∷ t) = c == d && text_eq s t

abbrev pub is_empty {ℓ} : {A : Type ℓ} → List A → Bool
is_empty [] = true
is_empty (x ∷ xs) = false

-- `text.strip_prefix(prefix)`
unfoldable pub strip_prefix : Text → Text → Option Text
strip_prefix s [] = some s
strip_prefix [] (p ∷ ps) = none
strip_prefix (c ∷ s) (p ∷ ps) = let rest = strip_prefix s ps in if c == p then rest else none

abbrev pub is_some {ℓ} : {A : Type ℓ} → Option A → Bool
is_some none = false
is_some (some x) = true

unfoldable pub starts_with : Text → Text → Bool
unfolding strip_prefix
starts_with s p = is_some (strip_prefix s p)

-- `text.find(pattern)`: the first position at which the pattern stands.
unfoldable pub find? : Text → Text → Option ℕ
unfolding starts_with
find? [] p = if starts_with [] p then some 0 else none
find? (c ∷ s) p =
    let later = find? s p in
    if starts_with (c ∷ s) p then some 0 else elim later [ none ↦ none | some i ↦ some (suc i) ]

unfoldable pub contains : Text → Text → Bool
unfolding find?
contains s p = is_some (find? s p)

-- `char::is_whitespace`: the Unicode property White_Space.
unfoldable pub is_whitespace : ℕ → Bool
is_whitespace c =
    (leb 9 c && leb c 13)
    || c == 32
    || c == 0x85
    || c == 0xa0
    || c == 0x1680
    || (leb 0x2000 c && leb c 0x200a)
    || c == 0x2028
    || c == 0x2029
    || c == 0x202f
    || c == 0x205f
    || c == 0x3000

unfoldable pub trim_start : Text → Text
unfolding is_whitespace
trim_start [] = []
trim_start (c ∷ s) = if is_whitespace c then trim_start s else c ∷ s

-- A character that only white space follows goes.
unfoldable pub trim_end : Text → Text
unfolding is_whitespace
trim_end [] = []
trim_end (c ∷ s) = if is_empty (trim_end s) && is_whitespace c then [] else c ∷ trim_end s

unfoldable pub trim : Text → Text
unfolding trim_start trim_end
trim s = trim_end (trim_start s)

-- Puts a character in front of the first part.
abbrev pub cons_head : ℕ → List Text → List Text
cons_head c [] = (c ∷ []) ∷ []
cons_head c (p ∷ ps) = (c ∷ p) ∷ ps

-- `text.split(separator)` for a character: one part more than there are separators.
unfoldable pub split : Text → ℕ → List Text
split [] sep = [] ∷ []
split (c ∷ s) sep = if c == sep then [] ∷ split s sep else cons_head c (split s sep)

unfoldable pub is_ascii_digit : ℕ → Bool
is_ascii_digit c = leb b'0' c && leb c b'9'

unfoldable pub is_ascii_uppercase : ℕ → Bool
is_ascii_uppercase c = leb b'A' c && leb c b'Z'

unfoldable pub is_ascii_lowercase : ℕ → Bool
is_ascii_lowercase c = leb b'a' c && leb c b'z'

unfoldable pub to_ascii_lowercase : ℕ → ℕ
unfolding is_ascii_uppercase
to_ascii_lowercase c = if is_ascii_uppercase c then c + 32 else c

unfoldable pub eq_ignore_ascii_case : Text → Text → Bool
unfolding to_ascii_lowercase
eq_ignore_ascii_case [] [] = true
eq_ignore_ascii_case [] (d ∷ t) = false
eq_ignore_ascii_case (c ∷ s) [] = false
eq_ignore_ascii_case (c ∷ s) (d ∷ t) =
    to_ascii_lowercase c == to_ascii_lowercase d && eq_ignore_ascii_case s t

-- The text before a position, and the text behind the `n` characters there.
abbrev pub cut_at : Text → ℕ → Option ℕ → Option (Text × Text)
cut_at s n none = none
cut_at s n (some i) = some (take i s, drop (i + n) s)

-- `text.split_once(pattern)`
unfoldable pub split_once : Text → Text → Option (Text × Text)
unfolding find?
split_once s p = cut_at s (length p) (find? s p)

-- The cut of `c ∷ s`, from the cut of `s`.
abbrev pub cut_before : ℕ → Text → ℕ → Option (Text × Text) → Option (Text × Text)
cut_before c s sep (some parts) = some (c ∷ parts.0, parts.1)
cut_before c s sep none = if c == sep then some ([], s) else none

-- `text.rsplit_once(separator)` for a character: cut at its last occurrence.
unfoldable pub rsplit_once : Text → ℕ → Option (Text × Text)
rsplit_once [] sep = none
rsplit_once (c ∷ s) sep = cut_before c s sep (rsplit_once s sep)
