-- ===== src/Rules/Index/Keys.antt =====
-- crates/rsproxy-rules/src/index.rs: the key of a host pattern against the hosts that it matches,
-- and the suffixes of a host.
use rsproxy.Base.Members.{Listed}
use rsproxy.Base.{
  ℕ, ◌≡◌, ◌≢◌, refl, sym, ap, ◌∙◌, subst, ◌⊎◌, inl, inr, true, false, Option, none, some, [], ◌∷◌,
  ◌++◌, append_assoc, ◌==◌, arith, Bool-cases, Option-cases,
}
use rsproxy.Rules.Text.{Str, codes, str_eq, is_empty, any, all, strip_prefix, strip_suffix}
use rsproxy.Rules.Text.Laws.{str_eq-eq, strip_prefix-eq, strip_suffix-eq}
use rsproxy.Rules.Engine.{Engines}
use rsproxy.Rules.Glob.{CompiledGlobSet, dotted_suffix_prefix, glob_syntax_is_active}
use rsproxy.Rules.GlobMatch.{host_matches_normal}
use rsproxy.Rules.Candidates.{after_dots, host_suffixes}
use rsproxy.Rules.IndexKey.{
  MatcherIndexKey, is_domain_byte, is_plain_domain, wildcard_base, host_index_key,
}

-- The key leads to the host.
abbrev pub Covers : MatcherIndexKey → Str → Type 0
Covers (MatcherIndexKey.exact h) host = host ≡ h
Covers (MatcherIndexKey.suffix base) host = Listed base (host_suffixes host)
Covers MatcherIndexKey.global host = Unit

-- A plain domain has neither a star nor a backslash.
plain-active : (s : Str) → all is_domain_byte s ≡ true → glob_syntax_is_active s ≡ false
unfolding all any
plain-active [] h = refl
plain-active (b ∷ s) h = ground (arith, plain-active s)

plain_domain-active : (s : Str) → is_plain_domain s ≡ true → glob_syntax_is_active s ≡ false
unfolding is_plain_domain
plain_domain-active s plain = plain-active s (ground arith)

nonempty : (s : Str) → is_plain_domain s ≡ true → s ≢ []
unfolding is_plain_domain
nonempty s plain e = cc (ap is_empty e)

Listed-after_dots_cons :
    (base : Str) (b : ℕ) (t : Str) → Listed base (after_dots t) → Listed base (after_dots (b ∷ t))
unfolding after_dots
Listed-after_dots_cons base b [] h = absurd h
Listed-after_dots_cons base b (c ∷ t) h = elim (Bool-cases (b == b'.')) [
  | inl e ↦ rw e (inr h)
  | inr e ↦ rw e h
]

-- What follows a dot is one of the suffixes.
Listed-after_dots : (front base : Str) → base ≢ [] → Listed base (after_dots (front ++ b'.' ∷ base))
unfolding after_dots
Listed-after_dots [] [] some' = absurd (some' refl)
Listed-after_dots [] (b ∷ base) some' = inl refl
Listed-after_dots (c ∷ front) base some' =
    Listed-after_dots_cons base c (front ++ b'.' ∷ base) (Listed-after_dots front base some')

dotted_suffix_prefix-eq :
    (host base : Str) {front : Str}
    → dotted_suffix_prefix host base ≡ some front
    → host ≡ front ++ b'.' ∷ base
unfolding dotted_suffix_prefix
dotted_suffix_prefix-eq host base {front} h = elim (Option-cases (strip_suffix base host)) [
  | inl e ↦ absurd (none-ne-some (rw (e, dotted_suffix_prefix) at h))
  | inr (f, e) ↦
      let first : host ≡ f ++ base = strip_suffix-eq base host e in
      let second : f ≡ front ++ b'.' ∷ [] =
        strip_suffix-eq (b'.' ∷ []) f (rw (e, dotted_suffix_prefix) at h) in
      first ∙ ap (λ t. t ++ base) second ∙ append_assoc front (b'.' ∷ []) base
]
  where
    none-ne-some : {x : Str} → none ≡ some x → ⊥
    none-ne-some e = cc

-- How a pattern can begin: with one of the three prefixes, or with none of them.
data Start (p : Str) : Type 0 where
  deep : (base : Str) → p ≡ codes "**." ++ base → wildcard_base p ≡ some base → Start p
  level : (base : Str) → p ≡ codes "*." ++ base → wildcard_base p ≡ some base → Start p
  dot : (base : Str) → p ≡ b'.' ∷ base → wildcard_base p ≡ some base → Start p
  bare :
      strip_prefix (codes "**.") p ≡ none
      → strip_prefix (codes "*.") p ≡ none
      → wildcard_base p ≡ none
      → Start p

start_of : (p : Str) → Start p
unfolding wildcard_base
start_of p = elim (Option-cases (strip_prefix (codes "**.") p)) [
  | inr (base, e) ↦ Start.deep base (strip_prefix-eq (codes "**.") p e) (rw (e, wildcard_base))
  | inl e ↦ elim (Option-cases (strip_prefix (codes "*.") p)) [
    | inr (base, f) ↦ Start.level base (strip_prefix-eq (codes "*.") p f) (rw (e, f, wildcard_base))
    | inl f ↦ elim (Option-cases (strip_prefix (b'.' ∷ []) p)) [
      | inr (base, g) ↦
          Start.dot base (strip_prefix-eq (b'.' ∷ []) p g) (rw (e, f, g, wildcard_base))
      | inl g ↦ Start.bare e f (rw (e, f, g, wildcard_base))
    ]
  ]
]

-- With a base the key is the base or nothing.
key_of_base :
    (p base : Str)
    → wildcard_base p ≡ some base
    → (host_index_key p ≡ MatcherIndexKey.global)
      ⊎ (is_plain_domain base ≡ true) × (host_index_key p ≡ MatcherIndexKey.suffix base)
unfolding host_index_key
key_of_base p base h = ground arith

key_of_bare :
    (p : Str)
    → wildcard_base p ≡ none
    → (host_index_key p ≡ MatcherIndexKey.global)
      ⊎ (is_plain_domain p ≡ true) × (host_index_key p ≡ MatcherIndexKey.exact p)
unfolding host_index_key
key_of_bare p h = ground arith

module _ ⦃E : Engines⦄ (globs : CompiledGlobSet) (id : Option ℕ) where
  deep_lem :
      (base host : Str)
      → base ≢ []
      → host_matches_normal globs (codes "**." ++ base) host id ≡ true
      → Listed base (host_suffixes host)
  unfolding host_matches_normal str_eq strip_prefix
  deep_lem base host some' h = elim (Bool-cases (str_eq host base)) [
    | inl same ↦ inl (sym (str_eq-eq host base same))
    | inr other ↦ elim (Option-cases (dotted_suffix_prefix host base)) [
      | inr (front, e) ↦ inr (
          subst (λ t. Listed base (after_dots t)) (sym (dotted_suffix_prefix-eq host base e))
            (Listed-after_dots front base some'))
      | inl e ↦ absurd (ground arith)
    ]
  ]

  level_lem :
      (base host : Str)
      → base ≢ []
      → host_matches_normal globs (codes "*." ++ base) host id ≡ true
      → Listed base (host_suffixes host)
  unfolding host_matches_normal str_eq strip_prefix
  level_lem base host some' h = elim (Option-cases (dotted_suffix_prefix host base)) [
    | inr (front, e) ↦ inr (
        subst (λ t. Listed base (after_dots t)) (sym (dotted_suffix_prefix-eq host base e))
          (Listed-after_dots front base some'))
    | inl e ↦ absurd (ground arith)
  ]

  -- Without a wildcard the host is the pattern.
  exact_lem :
      (p host : Str)
      → glob_syntax_is_active p ≡ false
      → strip_prefix (codes "**.") p ≡ none
      → strip_prefix (codes "*.") p ≡ none
      → host_matches_normal globs p host id ≡ true
      → host ≡ p
  unfolding host_matches_normal
  exact_lem p host plain e f h = elim (Bool-cases (str_eq p (codes "**"))) [
    | inl same ↦ absurd (stars (codes "**") refl (str_eq-eq p (codes "**") same))
    | inr not_deep ↦ elim (Bool-cases (str_eq p (codes "*"))) [
      | inl same ↦ absurd (stars (codes "*") refl (str_eq-eq p (codes "*") same))
      | inr not_star ↦ elim (Bool-cases (str_eq p host)) [
        | inl same ↦ sym (str_eq-eq p host same)
        | inr other ↦ absurd (ground arith)
      ]
    ]
  ]
    where
      stars : (q : Str) → glob_syntax_is_active q ≡ true → p ≡ q → ⊥
      stars q active same = cc (subst (λ t. glob_syntax_is_active t ≡ false) same plain)

  dot_lem :
      (base host : Str)
      → is_plain_domain base ≡ true
      → host_matches_normal globs (b'.' ∷ base) host id ≡ true
      → Listed base (host_suffixes host)
  unfolding is_plain_domain any strip_prefix
  dot_lem base host plain h =
      let inactive : glob_syntax_is_active base ≡ false = plain_domain-active base plain in
      let same : host ≡ b'.' ∷ base = exact_lem (b'.' ∷ base) host inactive refl refl h in
      inr (
        subst (λ t. Listed base (after_dots t)) (sym same)
          (Listed-after_dots [] base (nonempty base plain)))

  pub host_index_key-Covers :
      (p host : Str) → host_matches_normal globs p host id ≡ true → Covers (host_index_key p) host
  host_index_key-Covers p host h = elim (start_of p) [
    | Start.deep base e w ↦ elim (key_of_base p base w) [
      | inl k ↦ rw k tt
      | inr (plain, k) ↦ rw k (
          deep_lem base host (nonempty base plain)
            (subst (λ t. host_matches_normal globs t host id ≡ true) e h))
    ]
    | Start.level base e w ↦ elim (key_of_base p base w) [
      | inl k ↦ rw k tt
      | inr (plain, k) ↦ rw k (
          level_lem base host (nonempty base plain)
            (subst (λ t. host_matches_normal globs t host id ≡ true) e h))
    ]
    | Start.dot base e w ↦ elim (key_of_base p base w) [
      | inl k ↦ rw k tt
      | inr (plain, k) ↦
          rw k
            (dot_lem base host plain (subst (λ t. host_matches_normal globs t host id ≡ true) e h))
    ]
    | Start.bare e f w ↦ elim (key_of_bare p w) [
      | inl k ↦ rw k tt
      | inr (plain, k) ↦ rw k (exact_lem p host (plain_domain-active p plain) e f h)
    ]
  ]
