-- ===== src/Rules/Glob.antt =====
-- crates/rsproxy-rules/src/matching.rs: the glob programs of a snapshot, `CompiledGlobSet`, and the
-- syntax of hosts, addresses and paths. A program is the text of its regex; a separator is a byte.
-- `none` from `register` is the panic of its `expect`.
use mathlib.Core.Option
use rsproxy.Base.{
  ℕ, ◌+◌, Bool, true, false, not, ◌&&◌, ◌||◌, Option, none, some, List, [], ◌∷◌, ◌++◌, ltb, ◌==◌,
  if◌then◌else◌, is_some, length,
}
use rsproxy.Rules.Text.{
  Str, codes, str_eq, any, has_byte, to_ascii_lowercase, trim_matches, is_bracket, strip_prefix,
  strip_suffix, starts_with,
}
use rsproxy.Rules.Model.{GlobMatcher, Matcher, Condition, Conditions, UrlCondition, Rule, Captures}
use rsproxy.Rules.Engine.{Engines}

pub record CompiledGlobSet : Type 0 where
  pub ids : List ((ℕ × Str) × ℕ)
  pub programs : List Str

abbrev pub no_globs : CompiledGlobSet
no_globs = record { ids = []; programs = [] }

abbrev pub glob_syntax_is_active : Str → Bool
glob_syntax_is_active pattern = has_byte b'*' pattern || has_byte b'\\' pattern

-- Brackets off.
abbrev pub trimmed : Str → Str
trimmed s = trim_matches is_bracket s

abbrev pub uses_regex : Str → Bool
uses_regex pattern =
    glob_syntax_is_active pattern
    && not (str_eq pattern (codes "*"))
    && not (str_eq pattern (codes "**"))
    && not (starts_with (codes "*.") pattern)
    && not (starts_with (codes "**.") pattern)

unfoldable pub host_pattern_uses_regex : Str → Bool
unfolding trim_matches any str_eq strip_prefix
host_pattern_uses_regex pattern = uses_regex (trimmed pattern)

-- `id`.
unfoldable pub find_id : List ((ℕ × Str) × ℕ) → Str → ℕ → Option ℕ
unfolding str_eq
find_id [] pattern separator = none
find_id (((sep, text), id) ∷ ids) pattern separator =
    if sep == separator && str_eq text pattern then some id else find_id ids pattern separator

abbrev pub glob_id : CompiledGlobSet → Str → ℕ → Option ℕ
glob_id globs pattern separator = find_id globs.ids pattern separator

unfoldable pub dotted_suffix_prefix : Str → Str → Option Str
unfolding strip_suffix
dotted_suffix_prefix host base = elim (strip_suffix base host) [
  | none ↦ none
  | some front ↦ strip_suffix (b'.' ∷ []) front
]

abbrev pub ends_with : Str → Str → Bool
ends_with suffix s = is_some (strip_suffix suffix s)

-- A path below the pattern's, or the pattern itself.
unfoldable pub path_prefix_matches : Str → Str → Bool
unfolding str_eq strip_prefix strip_suffix
path_prefix_matches pattern path =
    str_eq pattern (b'/' ∷ []) || str_eq path pattern || elim (strip_prefix pattern path) [
      | none ↦ false
      | some rest ↦ ends_with (b'/' ∷ []) pattern || starts_with (b'/' ∷ []) rest
    ]

abbrev pub path_is_glob : Option Str → Bool
path_is_glob none = false
path_is_glob (some path) = glob_syntax_is_active path

abbrev pub normal_host : Str → Str
normal_host host = to_ascii_lowercase (trimmed host)

-- One step of a loop that may panic.
infixl 5 ◌>=>◌
abbrev pub ◌>=>◌ {ℓ} : {S : Type ℓ} → (S → Option S) → (S → Option S) → S → Option S
◌>=>◌ f g s = elim (f s) [ none ↦ none | some s' ↦ g s' ]

-- The groups of a match after the first, up to nine in all; `insert_index` keeps nine itself.
unfoldable pub push_captures : List (Option Str) → Captures → Captures
push_captures [] captures = captures
push_captures (group ∷ groups) captures = push_captures groups (
    if ltb (length captures.indexed) 9
    then (record captures { indexed = captures.indexed ++ Option.get_or group [] ∷ [] })
    else captures)

abbrev pub rest_of {ℓ} : {A : Type ℓ} → List A → List A
rest_of [] = []
rest_of (a ∷ l) = l

module _ ⦃E : Engines⦄ where
  -- `push_literal`, in front of what follows.
  abbrev pub push_literal : ℕ → Str → Str
  push_literal b rest = if E.is_meta_character b then b'\\' ∷ b ∷ rest else b ∷ rest

  abbrev pub open_group : ℕ → Str
  open_group captures = if ltb captures 9 then codes "(" else codes "(?:"

  -- The loop of `compile_glob_regex` over the pattern: the regex text from here on, with so many
  -- capturing groups opened before. A backslash at the end is an error.
  unfoldable pub glob_source : ℕ → ℕ → Str → Option Str
  glob_source separator captures [] = some (codes "\\z")
  glob_source separator captures (b ∷ []) =
      let star = open_group captures ++ codes "[^" ++ push_literal separator (codes "]*?)\\z") in
      if b == b'\\'
      then none
      else if b == b'*'
      then some star
      else some (push_literal b (codes "\\z"))
  glob_source separator captures (b ∷ c ∷ s) =
      let escaped = Option.map (push_literal c) (glob_source separator captures s) in
      let plain = Option.map (push_literal b) (glob_source separator captures (c ∷ s)) in
      let double =
        Option.map (λ rest. open_group captures ++ codes ".*?)" ++ rest)
          (glob_source separator (captures + 1) s) in
      let single =
        Option.map
          (λ rest.
            open_group captures ++ codes "[^" ++ push_literal separator (codes "]*?)" ++ rest))
          (glob_source separator (captures + 1) (c ∷ s)) in
      if b == b'\\'
      then escaped
      else if b == b'*'
      then (if c == b'*' then double else single)
      else plain

  unfoldable pub compile_glob_regex : Str → ℕ → Option Str
  unfolding glob_source
  compile_glob_regex pattern separator = elim (glob_source separator 0 pattern) [
    | none ↦ none
    | some source ↦
        let whole = codes "(?s)\\A" ++ source in if E.linear_builds whole then some whole else none
  ]

  unfoldable pub register : Str → ℕ → CompiledGlobSet → Option CompiledGlobSet
  unfolding find_id compile_glob_regex
  register pattern separator globs = elim (glob_id globs pattern separator) [
    | some id ↦ some globs
    | none ↦ elim (compile_glob_regex pattern separator) [
      | none ↦ none
      | some program ↦ some (record {
        ids = globs.ids ++ ((separator, pattern), length globs.programs) ∷ [];
        programs = globs.programs ++ program ∷ [];
      })
    ]
  ]

  abbrev pub register_if : Bool → Str → ℕ → CompiledGlobSet → Option CompiledGlobSet
  register_if true pattern separator globs = register pattern separator globs
  register_if false pattern separator globs = some globs

  abbrev pub register_part : Option Str → ℕ → CompiledGlobSet → Option CompiledGlobSet
  register_part none separator globs = some globs
  register_part (some pattern) separator globs = register pattern separator globs

  abbrev pub register_glob : GlobMatcher → CompiledGlobSet → Option CompiledGlobSet
  register_glob glob =
      register_if (host_pattern_uses_regex glob.host) glob.host b'.'
      >=> register_part glob.port b'.'
      >=> (λ globs.
          if path_is_glob glob.path then register_part glob.path b'/' globs else some globs)
      >=> register_part glob.query b'&'

  unfoldable pub register_matcher : Matcher → CompiledGlobSet → Option CompiledGlobSet
  unfolding register host_pattern_uses_regex any
  register_matcher (Matcher.glob glob) globs = register_glob glob globs
  register_matcher (Matcher.not inner) globs = register_matcher inner globs
  register_matcher (Matcher.exact_url _) globs = some globs
  register_matcher (Matcher.port _) globs = some globs
  register_matcher (Matcher.regex _) globs = some globs

  -- The address of a socket, or the text without space and brackets round it.
  unfoldable pub normalize_ip_value : Str → Str
  unfolding trim_matches
  normalize_ip_value value = elim (E.socket_ip value) [
    | some ip ↦ ip
    | none ↦ trimmed (E.trim value)
  ]

  abbrev pub ip_is_glob : Str → Bool
  ip_is_glob pattern =
      glob_syntax_is_active pattern
      && not (str_eq pattern (codes "*"))
      && not (str_eq pattern (codes "**"))

  unfoldable pub register_ips : List Str → CompiledGlobSet → Option CompiledGlobSet
  unfolding register normalize_ip_value any str_eq
  register_ips [] globs = some globs
  register_ips (pattern ∷ patterns) globs =
      (register_if (ip_is_glob pattern) (normalize_ip_value pattern) 0 >=> register_ips patterns)
        globs

  -- What `register_condition` does at one node.
  unfoldable pub register_node : Condition → CompiledGlobSet → Option CompiledGlobSet
  unfolding register register_ips host_pattern_uses_regex any
  register_node (Condition.host pattern) globs =
      register_if (host_pattern_uses_regex pattern) (to_ascii_lowercase pattern) b'.' globs
  register_node (Condition.url (UrlCondition.glob pattern)) globs =
      register_if (glob_syntax_is_active pattern) pattern 0 globs
  register_node (Condition.client_ip patterns) globs = register_ips patterns globs
  register_node (Condition.server_ip patterns) globs = register_ips patterns globs
  register_node _ globs = some globs

-- planning.rs: `for_each_node`, for a visitor that threads a state and may panic: a node first,
-- then its children in order.
unfoldable mutual
  pub for_each_node {ℓ} : {S : Type ℓ} → (Condition → S → Option S) → Condition → S → Option S
  for_each_node visit (Condition.any cs) s = elim (visit (Condition.any cs) s) [
    | none ↦ none
    | some s' ↦ for_each_child visit cs s'
  ]
  for_each_node visit (Condition.all cs) s = elim (visit (Condition.all cs) s) [
    | none ↦ none
    | some s' ↦ for_each_child visit cs s'
  ]
  for_each_node visit (Condition.not c) s = elim (visit (Condition.not c) s) [
    | none ↦ none
    | some s' ↦ for_each_node visit c s'
  ]
  for_each_node visit c s = visit c s

  pub for_each_child {ℓ} : {S : Type ℓ} → (Condition → S → Option S) → Conditions → S → Option S
  for_each_child visit Conditions.nil s = some s
  for_each_child visit (Conditions.cons c cs) s = elim (for_each_node visit c s) [
    | none ↦ none
    | some s' ↦ for_each_child visit cs s'
  ]

module _ ⦃E : Engines⦄ where
  -- The loop of `CompiledGlobSet::build`.
  unfoldable pub register_rules : List Rule → CompiledGlobSet → Option CompiledGlobSet
  unfolding register_matcher register_node for_each_child
  register_rules [] globs = some globs
  register_rules (rule ∷ rules) globs =
      (register_matcher rule.matcher
          >=> for_each_child register_node rule.conditions
          >=> register_rules rules)
        globs

  abbrev pub build_globs : List Rule → Option CompiledGlobSet
  build_globs rules = register_rules rules no_globs
