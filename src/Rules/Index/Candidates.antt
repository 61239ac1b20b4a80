-- ===== src/Rules/Index/Candidates.antt =====
-- crates/rsproxy-rules/src/resolve.rs: the parts that the candidates of a URL are gathered from.
use rsproxy.Base.Members.{Listed, Distinct}
use rsproxy.Base.{
  none-ne-some, some-eq, ℕ, suc, ◌≡◌, refl, sym, ap, subst, ◌⊎◌, inl, inr, Bool, some, List, [],
  ◌∷◌, Bool-cases, Option-cases, get_elem?,
}
use rsproxy.Rules.Text.{Str, str_eq}
use rsproxy.Rules.Text.Laws.{str_eq-eq}
use rsproxy.Rules.Model.{Rule, CompiledRuleResources}
use rsproxy.Rules.Engine.{Engines}
use rsproxy.Rules.Glob.{CompiledGlobSet, build_globs}
use rsproxy.Rules.Literals.{CompiledBodyContainsSet, build_literals}
use rsproxy.Rules.Index.{
  RuleIndex, empty_buckets, build, assemble, builds_prefilter, bind_rules, file_rules, keys, values,
}
use rsproxy.Rules.Candidates.{extend_unique, extend_suffixes}
use rsproxy.Rules.IndexKey.{bucket}
use rsproxy.Rules.Index.Filed.{members, bucket-values}
use rsproxy.Rules.Index.Unique.{
  extend_unique-keeps, extend_unique-adds, extend_unique-only, extend_unique-Distinct,
}

-- The parts of an index that was built.
pub record Built ⦃E : Engines⦄ (rules : List Rule) (index : RuleIndex) : Type 0 where
  pub flag : Bool
  pub resources : List CompiledRuleResources
  pub globs : CompiledGlobSet
  pub literals : CompiledBodyContainsSet
  pub registered : build_globs rules ≡ some globs
  pub collected : build_literals rules ≡ some literals
  pub bound : bind_rules rules globs literals ≡ some resources
  pub chosen : builds_prefilter (keys (file_rules rules 0 empty_buckets).literal_rules) ≡ flag
  pub whole : index ≡ assemble flag (file_rules rules 0 empty_buckets) globs literals resources

module _ ⦃E : Engines⦄ where
  pub build-Built :
      (rules : List Rule) (index : RuleIndex) → build rules ≡ some index → Built rules index
  unfolding build
  build-Built rules index h = elim (Option-cases (build_globs rules)) [
    | inl e ↦ absurd (none-ne-some (rw (e, build) at h))
    | inr (globs, e) ↦ elim (Option-cases (build_literals rules)) [
      | inl f ↦ absurd (none-ne-some (rw (e, f, build) at h))
      | inr (literals, f) ↦ elim (Option-cases (bind_rules rules globs literals)) [
        | inl g ↦ absurd (none-ne-some (rw (e, f, g, build) at h))
        | inr (resources, g) ↦
            let b = file_rules rules 0 empty_buckets in
            let flag = builds_prefilter (keys b.literal_rules) in
            record {
              flag = flag;
              resources = resources;
              globs = globs;
              literals = literals;
              registered = e;
              collected = f;
              bound = g;
              chosen = refl;
              whole = sym (
                  some-eq (assemble flag b globs literals resources) index
                    (rw (e, f, g, build) at h));
            }
      ]
    ]
  ]

  -- A position with the key, and its bucket.
  pub bucket_position :
      (literal : Str) (i : ℕ) (m : List (Str × List ℕ))
      → Listed i (bucket literal m)
      → (n : ℕ) × (v : List ℕ) × (get_elem? (keys m) n ≡ some literal)
        × (get_elem? (values m) n ≡ some v)
        × Listed i v
  unfolding bucket
  bucket_position literal i [] h = absurd h
  bucket_position literal i ((k, v) ∷ m) h = elim (Bool-cases (str_eq k literal)) [
    | inl e ↦ (0, v, ap some (str_eq-eq k literal e), refl, rw (e, bucket) at h)
    | inr e ↦
        let (n, w, at_key, at_value, l) = bucket_position literal i m (rw (e, bucket) at h) in
        (suc n, w, at_key, at_value, l)
  ]

  pub extend_suffixes-keeps :
      (index : RuleIndex) (i : ℕ) (ss : List Str) (out : List ℕ)
      → Listed i out
      → Listed i (extend_suffixes index ss out)
  unfolding extend_suffixes
  extend_suffixes-keeps index i [] out h = h
  extend_suffixes-keeps index i (s ∷ ss) out h =
      extend_suffixes-keeps index i ss (extend_unique out (bucket s index.domain_suffix))
        (extend_unique-keeps i out (bucket s index.domain_suffix) h)

  pub extend_suffixes-adds :
      (index : RuleIndex) (i : ℕ) (base : Str) (ss : List Str) (out : List ℕ)
      → Listed base ss
      → Listed i (bucket base index.domain_suffix)
      → Listed i (extend_suffixes index ss out)
  unfolding extend_suffixes
  extend_suffixes-adds index i base [] out h l = absurd h
  extend_suffixes-adds index i base (s ∷ ss) out (inl e) l =
      extend_suffixes-keeps index i ss (extend_unique out (bucket s index.domain_suffix)) (
        extend_unique-adds i out (bucket s index.domain_suffix)
          (subst (λ t. Listed i (bucket t index.domain_suffix)) e l))
  extend_suffixes-adds index i base (s ∷ ss) out (inr h) l =
      extend_suffixes-adds index i base ss (extend_unique out (bucket s index.domain_suffix)) h l

  pub extend_suffixes-only :
      (index : RuleIndex) (i : ℕ) (ss : List Str) (out : List ℕ)
      → Listed i (extend_suffixes index ss out)
      → Listed i out ⊎ Listed i (members index.domain_suffix)
  unfolding extend_suffixes
  extend_suffixes-only index i [] out h = inl h
  extend_suffixes-only index i (s ∷ ss) out h =
      elim (extend_suffixes-only index i ss (extend_unique out (bucket s index.domain_suffix)) h) [
        | inr l ↦ inr l
        | inl l ↦ elim (extend_unique-only i out (bucket s index.domain_suffix) l) [
          | inl k ↦ inl k
          | inr k ↦ inr (bucket-values s i index.domain_suffix k)
        ]
      ]

  pub extend_suffixes-Distinct :
      (index : RuleIndex) (ss : List Str) (out : List ℕ)
      → Distinct out
      → Distinct (extend_suffixes index ss out)
  unfolding extend_suffixes
  extend_suffixes-Distinct index [] out d = d
  extend_suffixes-Distinct index (s ∷ ss) out d =
      extend_suffixes-Distinct index ss (extend_unique out (bucket s index.domain_suffix))
        (extend_unique-Distinct out (bucket s index.domain_suffix) d)
