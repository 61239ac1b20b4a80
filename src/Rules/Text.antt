-- ===== src/Rules/Text.antt =====
-- The string methods of the standard library that the rule engine calls, on the UTF-8 bytes of a
-- string. What is searched for or trimmed is ASCII throughout, so bytes and characters agree.
pub mod Laws
use Prim.Native.Char.{code}
use Prim.Native.String.{String}
use mathlib.Core.List.{reverse}
use rsproxy.Base.{
  ℕ, ◌+◌, Bool, true, false, ◌&&◌, ◌||◌, Option, none, some, List, [], ◌∷◌, ◌++◌, map, leb, ltb,
  ◌==◌, if◌then◌else◌, is_some,
}

-- `str` and `String`.
abbrev pub Str : Type 0
Str = List ℕ

-- The bytes of an ASCII literal.
abbrev pub codes : String → Str
codes String.[] = []
codes (String.◌∷◌ c s) = code c ∷ codes s

-- `==` on strings.
unfoldable pub str_eq : Str → Str → Bool
str_eq [] [] = true
str_eq [] (b ∷ t) = false
str_eq (a ∷ s) [] = false
str_eq (a ∷ s) (b ∷ t) = a == b && str_eq s t

-- `<` on strings, by their bytes.
unfoldable pub str_lt : Str → Str → Bool
str_lt s [] = false
str_lt [] (b ∷ t) = true
str_lt (a ∷ s) (b ∷ t) = ltb a b || (a == b && str_lt s t)

-- `is_empty`.
abbrev pub is_empty {ℓ} : {A : Type ℓ} → List A → Bool
is_empty [] = true
is_empty (a ∷ s) = false

-- `Iterator::any` and `Iterator::all`.
unfoldable pub any {ℓ} : {A : Type ℓ} → (A → Bool) → List A → Bool
any p [] = false
any p (a ∷ s) = p a || any p s

unfoldable pub all {ℓ} : {A : Type ℓ} → (A → Bool) → List A → Bool
all p [] = true
all p (a ∷ s) = p a && all p s

-- `contains` of one byte.
abbrev pub has_byte : ℕ → Str → Bool
has_byte b s = any (λ a. a == b) s

-- `to_ascii_lowercase`.
unfoldable pub lower_byte : ℕ → ℕ
lower_byte b = if leb b'A' b && leb b b'Z' then b + 32 else b

abbrev pub to_ascii_lowercase : Str → Str
to_ascii_lowercase s = map lower_byte s

-- `eq_ignore_ascii_case`.
abbrev pub eq_ignore_ascii_case : Str → Str → Bool
eq_ignore_ascii_case s t = str_eq (to_ascii_lowercase s) (to_ascii_lowercase t)

-- `is_ascii_alphabetic` and `is_ascii_alphanumeric`.
abbrev pub is_ascii_digit : ℕ → Bool
is_ascii_digit b = leb b'0' b && leb b b'9'

abbrev pub is_ascii_alphabetic : ℕ → Bool
is_ascii_alphabetic b = (leb b'a' b && leb b b'z') || (leb b'A' b && leb b b'Z')

abbrev pub is_ascii_alphanumeric : ℕ → Bool
is_ascii_alphanumeric b = is_ascii_alphabetic b || is_ascii_digit b

-- `trim_start_matches` and `trim_matches`.
unfoldable pub trim_start : (ℕ → Bool) → Str → Str
trim_start p [] = []
trim_start p (b ∷ s) = if p b then trim_start p s else b ∷ s

unfoldable pub trim_matches : (ℕ → Bool) → Str → Str
unfolding trim_start
trim_matches p s = reverse (trim_start p (reverse (trim_start p s)))

-- `['[', ']']` as a pattern.
abbrev pub is_bracket : ℕ → Bool
is_bracket b = b == b'[' || b == b']'

-- `strip_prefix` and `strip_suffix`: the affix comes first.
unfoldable pub strip_prefix : Str → Str → Option Str
strip_prefix [] s = some s
strip_prefix (a ∷ p) [] = none
strip_prefix (a ∷ p) (b ∷ s) = let rest = strip_prefix p s in if a == b then rest else none

abbrev pub reversed : Option Str → Option Str
reversed none = none
reversed (some s) = some (reverse s)

unfoldable pub strip_suffix : Str → Str → Option Str
unfolding strip_prefix
strip_suffix p s = reversed (strip_prefix (reverse p) (reverse s))

-- `starts_with`.
abbrev pub starts_with : Str → Str → Bool
starts_with p s = is_some (strip_prefix p s)

abbrev pub keep_byte : ℕ → Option (Str × Str) → Option (Str × Str)
keep_byte b none = none
keep_byte b (some (before, after)) = some (b ∷ before, after)

-- `find` of a byte: what is before it, and the rest from it on.
unfoldable pub find_byte : (ℕ → Bool) → Str → Option (Str × Str)
find_byte p [] = none
find_byte p (b ∷ s) =
    let later = keep_byte b (find_byte p s) in if p b then some ([], b ∷ s) else later

-- `split_once` at a separator.
unfoldable pub split_once : Str → Str → Option (Str × Str)
unfolding strip_prefix
split_once sep [] = elim (strip_prefix sep []) [ none ↦ none | some rest ↦ some ([], rest) ]
split_once sep (b ∷ s) =
    let later = keep_byte b (split_once sep s) in
    elim (strip_prefix sep (b ∷ s)) [ none ↦ later | some rest ↦ some ([], rest) ]

-- Whether a text occurs in another: `contains`.
unfoldable pub occurs : Str → Str → Bool
unfolding strip_prefix
occurs needle [] = is_empty needle
occurs needle (b ∷ s) = starts_with needle (b ∷ s) || occurs needle s
