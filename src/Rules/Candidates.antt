-- ===== src/Rules/Candidates.antt =====
-- crates/rsproxy-rules/src: `host_suffixes`, `extend_unique` and `prefilter_matches` of index.rs, and
-- `candidate_rule_indices` of resolve.rs: the rules that may match a URL.
use rsproxy.Base.{
  ℕ, zero, suc, Bool, Option, none, some, List, [], ◌∷◌, ◌++◌, ◌==◌, if◌then◌else◌, length,
  get_elem?,
}
use rsproxy.Rules.Text.{Str, is_empty, any}
use rsproxy.Rules.Url.{UrlParts}
use rsproxy.Rules.Model.{Rule}
use rsproxy.Rules.Engine.{Engines}
use rsproxy.Rules.Glob.{normal_host}
use rsproxy.Rules.IndexKey.{bucket}
use rsproxy.Rules.Index.{RuleIndex}

-- `host_suffixes`: a host, and what follows each of its dots, if anything does.
unfoldable pub after_dots : Str → List Str
after_dots [] = []
after_dots (b ∷ s) =
    let rest = after_dots s in if b == b'.' then (if is_empty s then [] else s ∷ rest) else rest

abbrev pub host_suffixes : Str → List Str
host_suffixes host = host ∷ after_dots host

abbrev pub has_number : ℕ → List ℕ → Bool
has_number n list = any (λ m. m == n) list

-- `extend_unique`: `seen` holds what is in `out`, which is therefore all that is kept.
unfoldable pub extend_unique : List ℕ → List ℕ → List ℕ
unfolding any
extend_unique out [] = out
extend_unique out (v ∷ vs) = extend_unique (if has_number v out then out else out ++ v ∷ []) vs

-- The loop over the matches of the automaton: it stops when every rule of the prefilter is found.
unfoldable pub collect_matches : RuleIndex → List ℕ → List ℕ → List ℕ
unfolding extend_unique
collect_matches index [] out = out
collect_matches index (found ∷ more) out = elim (get_elem? index.prefilter_literal_rules found) [
  | none ↦ collect_matches index more out
  | some rules ↦
      let out' = extend_unique out rules in
      let rest = collect_matches index more out' in
      if length out' == length index.prefilter_rule_ids then out' else rest
]

-- The buckets of the suffixes, one after another.
unfoldable pub extend_suffixes : RuleIndex → List Str → List ℕ → List ℕ
unfolding extend_unique bucket
extend_suffixes index [] out = out
extend_suffixes index (s ∷ ss) out =
    extend_suffixes index ss (extend_unique out (bucket s index.domain_suffix))

module _ ⦃E : Engines⦄ where
  unfoldable pub prefilter_matches : RuleIndex → Str → List ℕ
  unfolding collect_matches
  prefilter_matches index raw_url =
      if index.prefilter
      then collect_matches index (E.find_overlapping index.prefilter_literals raw_url) []
      else []

  -- resolve.rs: `candidate_rule_indices` of a URL that was parsed. The early return of an empty
  -- list returns what is there.
  unfoldable pub url_candidates : RuleIndex → UrlParts → Str → List ℕ
  unfolding extend_unique extend_suffixes bucket prefilter_matches after_dots
  url_candidates index url raw_url =
      let host = normal_host url.host in
      let exact = extend_unique [] (bucket host index.domain_exact) in
      let suffixes = extend_suffixes index (host_suffixes host) exact in
      extend_unique (extend_unique suffixes index.global) (prefilter_matches index raw_url)

-- `0..n`.
unfoldable pub range : ℕ → ℕ → List ℕ
range start zero = []
range start (suc n) = start ∷ range (suc start) n

module _ ⦃E : Engines⦄ where
  unfoldable pub candidate_rule_indices : List Rule → RuleIndex → Option UrlParts → Str → List ℕ
  unfolding url_candidates range
  candidate_rule_indices rules index none raw_url = range 0 (length rules)
  candidate_rule_indices rules index (some url) raw_url = url_candidates index url raw_url
