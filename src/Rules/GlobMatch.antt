-- ===== src/Rules/GlobMatch.antt =====
-- crates/rsproxy-rules/src/matching.rs: the matching of hosts and addresses with the programs of a
-- snapshot, by their identifiers.
use rsproxy.Base.{
  ℕ, ◌-◌, Bool, true, false, not, ◌&&◌, ◌||◌, Option, none, some, if◌then◌else◌, is_some, length,
  take, get_elem?,
}
use rsproxy.Rules.Text.{
  Str, codes, str_eq, is_empty, any, has_byte, eq_ignore_ascii_case, trim_matches, strip_prefix,
}
use rsproxy.Rules.Model.{Captures}
use rsproxy.Rules.Engine.{Engines, Groups}
use rsproxy.Rules.Glob.{
  CompiledGlobSet, glob_syntax_is_active, dotted_suffix_prefix, normal_host, push_captures, rest_of,
  normalize_ip_value,
}

module _ ⦃E : Engines⦄ where
  abbrev pub program_matches : Option Str → Str → Bool
  program_matches none text = false
  program_matches (some program) text = E.linear_is_match program text

  -- `glob_match_id`, and the test of an identifier that may be missing.
  abbrev pub glob_match_id : CompiledGlobSet → ℕ → Str → Bool
  glob_match_id globs id text = program_matches (get_elem? globs.programs id) text

  unfoldable pub id_matches : CompiledGlobSet → Option ℕ → Str → Bool
  id_matches globs none text = false
  id_matches globs (some id) text = glob_match_id globs id text

  abbrev pub append_groups : Option Groups → Captures → Option Captures
  append_groups none captures = none
  append_groups (some groups) captures =
      some (push_captures (take (9 - length captures.indexed) (rest_of groups.indexed)) captures)

  -- `glob_match_with_captures_id`: the captures are changed only by a match.
  unfoldable pub match_with_captures : CompiledGlobSet → Option ℕ → Str → Captures → Option Captures
  unfolding push_captures
  match_with_captures globs none text captures = none
  match_with_captures globs (some id) text captures = elim (get_elem? globs.programs id) [
    | none ↦ none
    | some program ↦ append_groups (E.linear_captures program false text) captures
  ]

  -- `host_matches_id` once pattern and host are trimmed and in lower case.
  unfoldable pub host_matches_normal : CompiledGlobSet → Str → Str → Option ℕ → Bool
  unfolding strip_prefix str_eq any dotted_suffix_prefix id_matches
  host_matches_normal globs pattern host id =
      if str_eq pattern (codes "**") || str_eq pattern (codes "*")
      then true
      else elim (strip_prefix (codes "**.") pattern) [
        | some base ↦ str_eq host base || is_some (dotted_suffix_prefix host base)
        | none ↦ elim (strip_prefix (codes "*.") pattern) [
          | some base ↦ elim (dotted_suffix_prefix host base) [
            | none ↦ false
            | some front ↦ not (is_empty front) && not (has_byte b'.' front)
          ]
          | none ↦
              if glob_syntax_is_active pattern
              then id_matches globs id host
              else str_eq pattern host
        ]
      ]

  unfoldable pub host_matches_id : CompiledGlobSet → Str → Str → Option ℕ → Bool
  unfolding host_matches_normal trim_matches
  host_matches_id globs pattern host id =
      host_matches_normal globs (normal_host pattern) (normal_host host) id

  unfoldable pub ip_matches_id : CompiledGlobSet → Str → Str → Option ℕ → Bool
  unfolding normalize_ip_value str_eq any id_matches
  ip_matches_id globs raw actual id =
      let pattern = normalize_ip_value raw in
      if str_eq pattern (codes "*") || str_eq pattern (codes "**")
      then true
      else if glob_syntax_is_active pattern
      then id_matches globs id actual
      else eq_ignore_ascii_case pattern actual
