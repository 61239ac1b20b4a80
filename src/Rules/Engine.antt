-- ===== src/Rules/Engine.antt =====
-- What the rule engine calls that is not its own code: the crates regex, fancy-regex, regex-syntax
-- and aho-corasick, the environment, and the address parsers of the standard library. They are
-- parameters; what is relied on of them is stated in `Lawful`.
use rsproxy.Base.Members.{Listed}
use rsproxy.Base.{
  ℕ, ◌≡◌, ◌<◌, zero, suc, Bool, true, false, Option, some, List, [], ◌++◌, get_elem?, length,
}
use rsproxy.Rules.Text.{Str, occurs, to_ascii_lowercase}

-- The groups of a match by number, the names of the pattern's groups, and the groups by name.
pub record Groups : Type 0 where
  pub indexed : List (Option Str)
  pub names : List Str
  pub by_name : Str → Option Str

-- `fancy_regex::Regex::captures`: a match, none, or the limit on backtracking or another error.
pub data FancyResult : Type 0 where
  found : Groups → FancyResult
  absent backtrack_limit other_error : FancyResult

-- `regex_syntax::hir::Hir`, as far as the source looks into it. `opaque` are the kinds without
-- parts: empty, a class, a look-around; `alternation` is left unread.
mutual
  pub data Hir : Type 0 where
    literal : Str → Hir
    capture : Hir → Hir
    concat : Hirs → Hir
    repetition : ℕ → Hir → Hir
    alternation : Hirs → Hir
    opaque : Hir

  pub data Hirs : Type 0 where
    nil : Hirs
    cons : Hir → Hirs → Hirs

pub record Engines : Type 0 where
  -- A glob's program, `LinearRegexBuilder::new(..).size_limit(..).build()`, by its text.
  pub linear_builds : Str → Bool
  pub linear_is_match : Str → Str → Bool
  pub linear_captures : Str → Bool → Str → Option Groups
  pub fancy_captures : Str → Bool → Str → FancyResult
  pub is_meta_character : ℕ → Bool
  pub regex_parse : Str → Option Hir
  -- `AhoCorasick::new(..).ok()` and `find_overlapping_iter`, whose matches are given by the numbers
  -- of their patterns; then the automaton that ignores the case of ASCII letters.
  pub automaton_builds : List Str → Bool
  pub find_overlapping : List Str → Str → List ℕ
  pub automaton_builds_insensitive : List Str → Bool
  pub find_overlapping_insensitive : List Str → Str → List ℕ
  -- `String::from_utf8(..).is_ok()` and `String::from_utf8_lossy`.
  pub is_utf8 : List ℕ → Bool
  pub from_utf8_lossy : List ℕ → Str
  -- `std::env::var(..).ok()`.
  pub env_var : Str → Option Str
  -- `parse::<SocketAddr>()` and its address as text; `parse::<Ipv6Addr>().is_ok()`.
  pub socket_ip : Str → Option Str
  pub is_ipv6 : Str → Bool
  -- `str::trim`, which takes off Unicode's white space.
  pub trim : Str → Str

-- The texts that a pattern's structure allows, as far as it is read: a literal spans itself, a
-- group what its pattern does, a concatenation the pieces of its parts in order, a repetition at
-- least as many pieces as its minimum. Nothing is said of the other kinds.
abbrev mutual
  pub Spans : Hir → Str → Type 0
  Spans (literal bytes) s = s ≡ bytes
  Spans (capture h) s = Spans h s
  Spans (concat hs) s = SpansAll hs s
  Spans (repetition zero h) s = Unit
  Spans (repetition (suc n) h) s =
      (front : Str) × (back : Str) × (s ≡ front ++ back) × Spans h front
  Spans (alternation hs) s = Unit
  Spans opaque s = Unit

  pub SpansAll : Hirs → Str → Type 0
  SpansAll nil s = s ≡ []
  SpansAll (cons h hs) s =
      (front : Str) × (back : Str) × (s ≡ front ++ back) × Spans h front × SpansAll hs back

-- Some piece of the text is spanned.
abbrev pub SpansWithin : Hir → Str → Type 0
SpansWithin h s =
    (front : Str) × (mid : Str) × (back : Str) × (s ≡ front ++ (mid ++ back)) × Spans h mid

-- What is relied on. The automaton finds every pattern that occurs in a text, and the one that
-- ignores case exactly those that occur in it when both are in lower case; it names patterns only. A text that a regex
-- matches has a piece that the pattern's structure spans.
pub record Lawful (E : Engines) : Type 0 where
  pub finds :
      (patterns : List Str) (text : Str) (i : ℕ) (pattern : Str)
      → E.automaton_builds patterns ≡ true
      → get_elem? patterns i ≡ some pattern
      → occurs pattern text ≡ true
      → Listed i (E.find_overlapping patterns text)
  pub finds_insensitive :
      (patterns : List Str) (text : Str) (i : ℕ) (pattern : Str)
      → get_elem? patterns i ≡ some pattern
      → occurs (to_ascii_lowercase pattern) (to_ascii_lowercase text) ≡ true
      → Listed i (E.find_overlapping_insensitive patterns text)
  pub finds_only :
      (patterns : List Str) (text : Str) (i : ℕ) (pattern : Str)
      → get_elem? patterns i ≡ some pattern
      → Listed i (E.find_overlapping_insensitive patterns text)
      → occurs (to_ascii_lowercase pattern) (to_ascii_lowercase text) ≡ true
  pub finds_below :
      (patterns : List Str) (text : Str) (i : ℕ)
      → Listed i (E.find_overlapping_insensitive patterns text)
      → i < length patterns
  pub linear_spans :
      (pattern text : Str) (hir : Hir) (groups : Groups)
      → E.regex_parse pattern ≡ some hir
      → E.linear_captures pattern false text ≡ some groups
      → SpansWithin hir text
  pub fancy_spans :
      (pattern text : Str) (hir : Hir) (groups : Groups)
      → E.regex_parse pattern ≡ some hir
      → E.fancy_captures pattern false text ≡ FancyResult.found groups
      → SpansWithin hir text
