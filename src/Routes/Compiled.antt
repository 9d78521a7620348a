-- ===== src/Routes/Compiled.antt =====
-- A compiled matcher of internal/database/route_resolver.go against the test of
-- internal/database/database.go that reads the pattern anew for each request.
use netgoat.Prelude.{
  ℕ, ◌≡◌, refl, Bool, true, false, ◌||◌, Option, none, some, [], ◌∷◌, ◌==◌, arith, Bool-cases, inl,
  inr, ltb, length,
}
use netgoat.Std.Text.{
  Bytes, bytes_eq, bytes_beq, codes, to_lower, trim_space, trim_prefix, has_prefix, contains, split,
}
use netgoat.Routes.Matcher.{
  Regexp, regex_domain_match, domain_pattern_matches, DomainMatcher, wildcard, compiled,
  compile_domain_matcher, matches, wildcard_domain_match, match_parts,
}

module _ (regexp : Regexp) where
  open regexp use {Regex, compile, match_string}

  -- What a matcher answers; a pattern that does not compile matches nothing.
  unfoldable pub answer : Option (DomainMatcher regexp) → Bytes → Bool
  answer none domain = false
  answer (some m) domain = matches regexp m domain

  answer-compiled :
      (p d : Bytes) → answer (compiled regexp (compile p)) d ≡ regex_domain_match regexp p d
  unfolding answer compiled matches regex_domain_match
  answer-compiled p d = go (compile p)
    where
      go :
          (o : Option Regex)
          → answer (compiled regexp o) d
            ≡ (elim o as (λ _. Bool) [ none ↦ false | some re ↦ match_string re d ])
      go none = refl
      go (some re) = refl

  answer_wildcard :
      (p : Bytes) (c : ℕ) (d : Bytes)
      → answer (some (wildcard p)) (c ∷ d) ≡ wildcard_domain_match p (c ∷ d)
  unfolding answer matches wildcard_domain_match match_parts split bytes_beq
  answer_wildcard [] c d = refl
  answer_wildcard (x ∷ p) c d =
      let some_byte : ltb 0 (length (x ∷ p)) ≡ true = ground arith in rw some_byte refl

  -- A matcher that is compiled once answers for every host name as the pattern itself does.
  pub answer-compile_domain_matcher :
      (route_type pattern : Bytes) (c : ℕ) (d : Bytes)
      → to_lower (trim_space route_type) ≡ route_type
      → answer (compile_domain_matcher regexp route_type pattern) (c ∷ d)
        ≡ domain_pattern_matches regexp route_type pattern (c ∷ d)
  unfolding compile_domain_matcher domain_pattern_matches
  answer-compile_domain_matcher route_type pattern c d same =
      let p = to_lower (trim_space pattern) in
      rw same (elim (Bool-cases (route_type == codes "regex")) [
        | inl e ↦ rw e (answer-compiled p (c ∷ d))
        | inr e ↦ rw e (elim (Bool-cases (has_prefix p (codes "regex:"))) [
          | inl f ↦ rw f (answer-compiled (trim_prefix p (codes "regex:")) (c ∷ d))
          | inr f ↦ rw f (elim (Bool-cases (has_prefix p (codes "~"))) [
            | inl g ↦ rw g (answer-compiled (trim_prefix p (codes "~")) (c ∷ d))
            | inr g ↦
                rw g (elim (Bool-cases (route_type == codes "wildcard" || contains p (codes "*"))) [
                  | inl h ↦ rw h (answer_wildcard p c d)
                  | inr h ↦ rw h (unfold answer matches in refl)
                ])
          ])
        ])
      ])
