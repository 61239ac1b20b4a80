-- ===== src/Rules/Url.antt =====
-- crates/rsproxy-rules/src/matcher/url.rs: `UrlParts`, the parts of an absolute URL. Of an error
-- the kind is kept, not its context and its message. Whether a text is an IPv6 address is asked of
-- the standard library, which is a parameter here.
use rsproxy.Base.{
  ℕ, ◌+◌, ◌-◌, ◌*◌, Bool, true, false, not, ◌&&◌, ◌||◌, Option, none, some, [], ◌∷◌, ◌++◌, leb,
  ◌==◌, if◌then◌else◌,
}
use rsproxy.Rules.Text.{
  Str, codes, str_eq, is_empty, any, all, has_byte, to_ascii_lowercase, is_ascii_alphabetic,
  is_ascii_alphanumeric, is_ascii_digit, trim_matches, is_bracket, strip_prefix, find_byte,
  split_once,
}

pub record UrlParts : Type 0 where
  pub scheme : Str
  pub host : Str
  pub port : Option ℕ
  pub path : Str
  pub query : Option Str

-- `RuleModelError`, by its kind.
pub data UrlError : Type 0 where
  syntax invalid empty integer constraint : UrlError

-- `Result` and its `?`.
pub data Parsed {ℓ} (A : Type ℓ) : Type ℓ where
  ok : A → Parsed A
  err : UrlError → Parsed A

infixl 5 ◌>>=◌ ◌>>◌
abbrev pub ◌>>=◌ {ℓ κ} : {A : Type ℓ} {B : Type κ} → Parsed A → (A → Parsed B) → Parsed B
ok a >>= f = f a
err e >>= f = err e

abbrev pub ◌>>◌ {ℓ} : {B : Type ℓ} → Parsed (Unit {0}) → Parsed B → Parsed B
m >> k = m >>= λ _. k

-- A guard with its early return.
abbrev pub reject : Bool → UrlError → Parsed (Unit {0})
reject true e = err e
reject false e = ok tt

-- `ok_or_else`.
abbrev pub ok_or {ℓ} : {A : Type ℓ} → Option A → UrlError → Parsed A
ok_or none e = err e
ok_or (some a) e = ok a

abbrev pub is_scheme_byte : ℕ → Bool
is_scheme_byte b = is_ascii_alphanumeric b || b == b'+' || b == b'-' || b == b'.'

unfoldable pub valid_absolute_scheme : Str → Bool
valid_absolute_scheme [] = false
valid_absolute_scheme (b ∷ s) = is_ascii_alphabetic b && all is_scheme_byte s

-- `char::is_control` or `char::is_whitespace` of the character that starts here, by its UTF-8 bytes:
-- U+0000 to U+0020 and U+007F, U+0080 to U+00A0, U+1680,
-- U+2000 to U+200A, U+2028, U+2029, U+202F, U+205F and U+3000.
unfoldable pub starts_blank : Str → Bool
starts_blank [] = false
starts_blank (a ∷ []) = leb a 32 || a == 127
starts_blank (a ∷ b ∷ []) = leb a 32 || a == 127 || (a == 0xc2 && leb 0x80 b && leb b 0xa0)
starts_blank (a ∷ b ∷ c ∷ s) =
    leb a 32
    || a == 127
    || (a == 0xc2 && leb 0x80 b && leb b 0xa0)
    || (a == 0xe1 && b == 0x9a && c == 0x80)
    || (a == 0xe2 && b == 0x80 && leb 0x80 c && leb c 0x8a)
    || (a == 0xe2 && b == 0x80 && (c == 0xa8 || c == 0xa9 || c == 0xaf))
    || (a == 0xe2 && b == 0x81 && c == 0x9f)
    || (a == 0xe3 && b == 0x80 && c == 0x80)

unfoldable pub has_blank : Str → Bool
unfolding starts_blank
has_blank [] = false
has_blank (b ∷ s) = starts_blank (b ∷ s) || has_blank s

-- `str::parse::<u16>`: an optional `+`, then digits; the largest number is 65535.
unfoldable pub read_digits : ℕ → Str → Option ℕ
read_digits n [] = some n
read_digits n (b ∷ s) =
    let value = n * 10 + (b - b'0') in
    let rest = read_digits value s in if is_ascii_digit b && leb value 65535 then rest else none

unfoldable pub parse_u16 : Str → Option ℕ
unfolding read_digits
parse_u16 [] = none
parse_u16 (b ∷ []) = read_digits 0 (b ∷ [])
parse_u16 (b ∷ c ∷ s) = if b == b'+' then read_digits 0 (c ∷ s) else read_digits 0 (b ∷ c ∷ s)

unfoldable pub parse_absolute_port : Str → Parsed ℕ
unfolding parse_u16
parse_absolute_port input = do
  reject (is_empty input) empty
  port ← ok_or (parse_u16 input) integer
  reject (port == 0) constraint
  ok port

-- `rsplit_once(':')`.
unfoldable pub rsplit_colon : Str → Option (Str × Str)
rsplit_colon [] = none
rsplit_colon (b ∷ s) = elim (rsplit_colon s) [
  | some (before, after) ↦ some (b ∷ before, after)
  | none ↦ if b == b':' then some ([], s) else none
]

abbrev pub parse_plain_authority : Str → Parsed (Str × Option ℕ)
parse_plain_authority authority = elim (rsplit_colon authority) [
  | none ↦ ok (authority, none)
  | some (host, raw_port) ↦ if has_byte b':' host then err syntax else (do
    reject (is_empty host) empty
    port ← parse_absolute_port raw_port
    ok (host, some port))
]

abbrev pub parse_bracket_tail : Str → Parsed (Option ℕ)
parse_bracket_tail [] = ok none
parse_bracket_tail (b ∷ tail) = do
  raw ← ok_or (strip_prefix (b':' ∷ []) (b ∷ tail)) invalid
  port ← parse_absolute_port raw
  ok (some port)

module _ (valid_ipv6 : Str → Bool) where
  -- The host with its brackets, and the port. What follows the opening bracket is `inner`.
  abbrev pub parse_bracket_authority : Str → Parsed (Str × Option ℕ)
  parse_bracket_authority inner = elim (find_byte (λ b. b == b']') inner) [
    | none ↦ err syntax
    | some (host, []) ↦ err syntax
    | some (host, close ∷ tail) ↦ (do
      reject (not (valid_ipv6 host)) invalid
      port ← parse_bracket_tail tail
      ok (b'[' ∷ host ++ close ∷ [], port))
  ]

  unfoldable pub parse_absolute_authority : Str → Parsed (Str × Option ℕ)
  unfolding find_byte strip_prefix parse_absolute_port rsplit_colon
  parse_absolute_authority authority = elim (strip_prefix (b'[' ∷ []) authority) [
    | some inner ↦ parse_bracket_authority inner
    | none ↦ if any is_bracket authority then err invalid else parse_plain_authority authority
  ]

-- The authority, and what follows it from its first `/` or `?` on.
unfoldable pub split_authority : Str → Str × Str
unfolding find_byte
split_authority rest = elim (find_byte (λ b. b == b'/' || b == b'?') rest) [
  | none ↦ (rest, b'/' ∷ [])
  | some (authority, tail) ↦ (authority, tail)
]

abbrev pub path_or_root : Str → Str
path_or_root [] = b'/' ∷ []
path_or_root (b ∷ s) = b ∷ s

unfoldable pub split_query : Str → Str × Option Str
unfolding split_once strip_prefix
split_query path_and_query = elim (split_once (b'?' ∷ []) path_and_query) [
  | some (path, query) ↦ (path_or_root path, some query)
  | none ↦ elim (strip_prefix (b'?' ∷ []) path_and_query) [
    | some query ↦ (b'/' ∷ [], some query)
    | none ↦ (path_and_query, none)
  ]
]

abbrev pub build_parts : Str → Str → Option ℕ → Str × Option Str → UrlParts
build_parts scheme host port (path, query) = record {
  scheme = scheme;
  host = host;
  port = port;
  path = path;
  query = query;
}

abbrev pub parse_parts : (Str → Bool) → Str → Str × Str → Parsed UrlParts
parse_parts valid_ipv6 scheme (authority, path_and_query) = do
  reject (is_empty authority) empty
  reject (has_byte b'@' authority) invalid
  (raw_host, port) ← parse_absolute_authority valid_ipv6 authority
  let host = to_ascii_lowercase (trim_matches is_bracket raw_host)
  reject (is_empty host) empty
  reject (has_blank host) invalid
  ok (build_parts scheme host port (split_query path_and_query))

unfoldable pub parse : (Str → Bool) → Str → Parsed UrlParts
unfolding valid_absolute_scheme has_blank parse_absolute_authority split_authority split_query
    split_once trim_matches
parse valid_ipv6 input = do
  (scheme, rest) ← ok_or (split_once (b':' ∷ b'/' ∷ b'/' ∷ []) input) syntax
  reject (not (valid_absolute_scheme scheme)) invalid
  reject (has_byte b'#' input) invalid
  parse_parts valid_ipv6 (to_ascii_lowercase scheme) (split_authority rest)

-- The standard port of a scheme.
unfoldable pub default_port : Str → Option ℕ
unfolding str_eq any
default_port scheme =
    if any (str_eq scheme) (codes "http" ∷ codes "ws" ∷ [])
    then some 80
    else if any (str_eq scheme) (codes "https" ∷ codes "wss" ∷ [])
    then some 443
    else none

unfoldable pub effective_port : UrlParts → Option ℕ
unfolding default_port
effective_port url = elim url.port [ some port ↦ some port | none ↦ default_port url.scheme ]

-- The target of an HTTP request: an empty query is left out.
unfoldable pub origin_form : UrlParts → Str
origin_form url = elim url.query [
  | none ↦ url.path
  | some [] ↦ url.path
  | some (b ∷ query) ↦ url.path ++ b'?' ∷ b ∷ query
]
