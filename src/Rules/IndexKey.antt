-- ===== src/Rules/IndexKey.antt =====
-- crates/rsproxy-rules/src/index.rs: the key that a matcher has in the index, and the maps from
-- keys to rule numbers, as lists of entries in ascending order.
use rsproxy.Base.{
  ℕ, Bool, false, not, ◌&&◌, ◌||◌, Option, none, some, List, [], ◌∷◌, ◌++◌, ◌==◌, if◌then◌else◌,
}
use rsproxy.Rules.Text.{
  Str, codes, str_eq, str_lt, is_empty, any, all, has_byte, is_ascii_alphanumeric, strip_prefix,
}
use rsproxy.Rules.Url.{UrlParts, Parsed, ok, err}
use rsproxy.Rules.Glob.{normal_host}

pub data MatcherIndexKey : Type 0 where
  exact suffix : Str → MatcherIndexKey
  global : MatcherIndexKey

abbrev pub is_domain_byte : ℕ → Bool
is_domain_byte b = is_ascii_alphanumeric b || b == b'-' || b == b'.' || b == b':' || b == b'_'

unfoldable pub is_plain_domain : Str → Bool
unfolding all
is_plain_domain host = not (is_empty host) && all is_domain_byte host

-- `strip_prefix` of one of three, the first that fits.
abbrev pub or_else {ℓ} : {A : Type ℓ} → Option A → Option A → Option A
or_else none other = other
or_else (some a) other = some a

unfoldable pub wildcard_base : Str → Option Str
unfolding strip_prefix
wildcard_base host =
    or_else (strip_prefix (codes "**.") host)
      (or_else (strip_prefix (codes "*.") host) (strip_prefix (b'.' ∷ []) host))

-- The key of a host pattern that is trimmed and in lower case.
unfoldable pub host_index_key : Str → MatcherIndexKey
unfolding wildcard_base is_plain_domain any str_eq
host_index_key host =
    if is_empty host || str_eq host (b'*' ∷ []) || has_byte b'?' host
    then MatcherIndexKey.global
    else elim (wildcard_base host) [
      | some base ↦
          if is_plain_domain base then MatcherIndexKey.suffix base else MatcherIndexKey.global
      | none ↦
          if has_byte b'*' host
          then MatcherIndexKey.global
          else if is_plain_domain host
          then MatcherIndexKey.exact host
          else MatcherIndexKey.global
    ]

abbrev pub parsed_key : Parsed UrlParts → MatcherIndexKey
parsed_key (ok url) = MatcherIndexKey.exact (normal_host url.host)
parsed_key (err e) = MatcherIndexKey.global

-- `BTreeMap::entry(key).or_default().push(i)`: a new key stands before the first that is greater.
unfoldable pub has_key {ℓ} : {V : Type ℓ} → Str → List (Str × V) → Bool
unfolding str_eq
has_key key [] = false
has_key key ((k, v) ∷ m) = str_eq k key || has_key key m

unfoldable pub insert_key : Str → ℕ → List (Str × List ℕ) → List (Str × List ℕ)
unfolding str_lt
insert_key key i [] = (key, i ∷ []) ∷ []
insert_key key i ((k, v) ∷ m) =
    if str_lt key k then (key, i ∷ []) ∷ (k, v) ∷ m else (k, v) ∷ insert_key key i m

unfoldable pub push_at : Str → ℕ → List (Str × List ℕ) → List (Str × List ℕ)
unfolding str_eq
push_at key i [] = []
push_at key i ((k, v) ∷ m) = if str_eq k key then (k, v ++ i ∷ []) ∷ m else (k, v) ∷ push_at key i m

unfoldable pub push_entry : Str → ℕ → List (Str × List ℕ) → List (Str × List ℕ)
unfolding has_key insert_key push_at
push_entry key i m = if has_key key m then push_at key i m else insert_key key i m

unfoldable pub bucket : Str → List (Str × List ℕ) → List ℕ
unfolding str_eq
bucket key [] = []
bucket key ((k, v) ∷ m) = if str_eq k key then v else bucket key m
