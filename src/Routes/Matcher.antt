-- ===== src/Routes/Matcher.antt =====
-- Domain patterns: `wildcardDomainMatch` and `domainPatternMatches` of internal/database/database.go,
-- `compileDomainMatcher` and `domainMatcher` of internal/database/route_resolver.go.
use netgoat.Prelude.{
  ◌+◌, Bool, true, false, ◌&&◌, ◌||◌, Option, none, some, List, [], ◌∷◌, if◌then◌else◌, ◌==◌,
  length, ltb,
}
use netgoat.Std.Text.{
  Bytes, bytes_eq, codes, to_lower, trim_space, trim_prefix, has_prefix, contains, split,
}
use netgoat.Std.Search.{has_suffix, index, drop}

-- What the program uses of `regexp`: compiling a pattern, and searching a text for it.
pub record Regexp : Type 1 where
  pub Regex : Type 0
  pub compile : Bytes → Option Regex
  pub match_string : Regex → Bytes → Bool

-- The loop over the parts between the stars; `rest` is `domain[pos:]`.
unfoldable pub match_middle : List Bytes → Bytes → Bool
match_middle [] rest = true
match_middle (last ∷ []) rest = true
match_middle (part ∷ next ∷ parts) rest =
    if part == [] then match_middle (next ∷ parts) rest else elim (index rest part) [
      | none ↦ false
      | some idx ↦ match_middle (next ∷ parts) (drop (idx + length part) rest)
    ]

unfoldable pub last_part : Bytes → List Bytes → Bytes
last_part part [] = part
last_part part (next ∷ parts) = last_part next parts

unfoldable pub match_parts : List Bytes → Bytes → Bool
match_parts [] domain = false
match_parts (pattern ∷ []) domain = pattern == domain
match_parts (first ∷ next ∷ parts) domain =
    has_prefix domain first
    && has_suffix domain (last_part next parts)
    && match_middle (next ∷ parts) (drop (length first) domain)

unfoldable pub wildcard_domain_match : Bytes → Bytes → Bool
wildcard_domain_match pattern domain = match_parts (split b'*' pattern) domain

module _ (regexp : Regexp) where
  open regexp use {Regex, compile, match_string}

  unfoldable pub regex_domain_match : Bytes → Bytes → Bool
  regex_domain_match pattern domain = elim (compile pattern) [
    | none ↦ false
    | some re ↦ match_string re domain
  ]

  unfoldable pub domain_pattern_matches : Bytes → Bytes → Bytes → Bool
  domain_pattern_matches route_type pattern domain =
      let pattern' = to_lower (trim_space pattern) in
      let route_type' = to_lower (trim_space route_type) in
      if route_type' == codes "regex"
      then regex_domain_match pattern' domain
      else if has_prefix pattern' (codes "regex:")
      then regex_domain_match (trim_prefix pattern' (codes "regex:")) domain
      else if has_prefix pattern' (codes "~")
      then regex_domain_match (trim_prefix pattern' (codes "~")) domain
      else if route_type' == codes "wildcard" || contains pattern' (codes "*")
      then wildcard_domain_match pattern' domain
      else false

  -- `domainMatcher`: the zero value, a wildcard or a compiled expression.
  pub data DomainMatcher : Type 0 where
    unset : DomainMatcher
    wildcard : Bytes → DomainMatcher
    regex : Regex → DomainMatcher

  unfoldable pub compiled : Option Regex → Option DomainMatcher
  compiled none = none
  compiled (some re) = some (regex re)

  -- `none` is the error of a pattern that does not compile.
  unfoldable pub compile_domain_matcher : Bytes → Bytes → Option DomainMatcher
  compile_domain_matcher route_type domain =
      let pattern = to_lower (trim_space domain) in
      if route_type == codes "regex"
      then compiled (compile pattern)
      else if has_prefix pattern (codes "regex:")
      then compiled (compile (trim_prefix pattern (codes "regex:")))
      else if has_prefix pattern (codes "~")
      then compiled (compile (trim_prefix pattern (codes "~")))
      else if route_type == codes "wildcard" || contains pattern (codes "*")
      then some (wildcard pattern)
      else some unset

  unfoldable pub configured : DomainMatcher → Bool
  configured unset = false
  configured (wildcard pattern) = ltb 0 (length pattern)
  configured (regex re) = true

  unfoldable pub matches : DomainMatcher → Bytes → Bool
  matches unset domain = false
  matches (wildcard pattern) domain = ltb 0 (length pattern) && wildcard_domain_match pattern domain
  matches (regex re) domain = match_string re domain
