-- ===== src/Waf/Verdict.antt =====
-- Which rule of the firewall decides, and what a reload leaves.
use netgoat.Prelude.{
  ◌⊎◌, ◌≡◌, refl, Bool, true, false, ◌&&◌, ◌||◌, inl, inr, Option, none, some, Option-cases, List,
  [], ◌∷◌, if◌then◌else◌, ◌==◌, arith,
}
use mathlib.Core.Path.{subst}
use netgoat.Std.Text.{Bytes, bytes_eq, codes}
use netgoat.Std.Sort.{find_first}
use netgoat.Std.Url.{query_unescape}
use netgoat.Waf.Engine.{
  ExprVm, RuleRow, WafRequest, WafContext, CompiledRule, context_of, compile_rule, compile_rows,
  reload, rule_matches, check_rules, check,
}

module _ (vm : ExprVm) where
  -- A rule whose action is to let through or to block.
  abbrev pub is_verdict : CompiledRule vm → Bool
  is_verdict rule =
      rule.action == codes "ALLOW" || (rule.action == [] || rule.action == codes "BLOCK")

  abbrev pub decides : WafContext → CompiledRule vm → Bool
  decides env rule = rule_matches vm env rule && is_verdict rule

  abbrev pub verdict : Option (CompiledRule vm) → Bool × Bytes
  verdict none = (false, [])
  verdict (some rule) =
      if rule.action == codes "ALLOW" then (false, rule.name) else (true, rule.name)

  check_rules-verdict :
      (env : WafContext) (rules : List (CompiledRule vm))
      → check_rules vm env rules ≡ verdict (find_first (decides env) rules)
  unfolding check_rules find_first
  check_rules-verdict env [] = refl
  check_rules-verdict env (rule ∷ rules) = ground (arith, check_rules-verdict env rules)

  -- A request whose query does not decode is blocked; any other is judged by the first rule that
  -- matches it and has an action, `ALLOW` or `BLOCK` or none, and let through if there is no such rule.
  pub check-verdict :
      (rules : List (CompiledRule vm)) (r : WafRequest)
      → check vm rules r ≡ (elim (query_unescape r.url_raw_query) [
        | none ↦ (true, codes "Block Malformed Encoding")
        | some decoded ↦ verdict (find_first (decides (context_of r decoded)) rules)
      ])
  unfolding check
  check-verdict rules r = elim (Option-cases (query_unescape r.url_raw_query)) [
    | inl bad ↦ rw (bad, check) refl
    | inr (decoded, good) ↦ rw (good, check) (check_rules-verdict (context_of r decoded) rules)
  ]

  -- Each rule is that of the row in its place.
  pub Compiles : List RuleRow → List (CompiledRule vm) → Type 0
  Compiles [] [] = Unit
  Compiles [] (rule ∷ rules) = ⊥
  Compiles (row ∷ rows) [] = ⊥
  Compiles (row ∷ rows) (rule ∷ rules) = (compile_rule vm row ≡ some rule) × Compiles rows rules

  compile_rows-Compiles :
      (rows : List RuleRow) (rules : List (CompiledRule vm))
      → compile_rows vm rows ≡ some rules
      → Compiles rows rules
  unfolding compile_rows Compiles
  compile_rows-Compiles [] [] h = tt
  compile_rows-Compiles [] (rule ∷ rules) h = cc
  compile_rows-Compiles (row ∷ rows) rules h = elim (Option-cases (compile_rule vm row)) [
    | inl bad ↦ let q : none ≡ some rules = rw bad at h in cc
    | inr (first, good) ↦ elim (Option-cases (compile_rows vm rows)) [
      | inl bad ↦ let q : none ≡ some rules = rw bad at (rw good at h) in cc
      | inr (rest, all) ↦
          let q : some (first ∷ rest) ≡ some rules = rw all at (rw good at h) in
          let same : first ∷ rest ≡ rules = cc in
          subst (Compiles (row ∷ rows)) same (good, compile_rows-Compiles rows rest all)
    ]
  ]

  -- A reload that fails, by the query, a scan or a rule that does not compile, leaves the rules as
  -- they were; one that succeeds has a rule for each row, in the order of the rows.
  reload_lem :
      (rows : Option (List RuleRow)) (rules : List (CompiledRule vm))
      → let (rules', done) = reload vm rows rules in
        ((done ≡ false) × (rules' ≡ rules))
        ⊎ ((done ≡ true) × (rs : List RuleRow) × (rows ≡ some rs) × Compiles rs rules')
  unfolding reload
  reload_lem none rules = inl (refl, refl)
  reload_lem (some rs) rules = elim (Option-cases (compile_rows vm rs)) [
    | inl bad ↦ inl (rw (bad, reload) (refl, refl))
    | inr (next, good) ↦
        inr (rw (good, reload) (refl, rs, refl, compile_rows-Compiles rs next good))
  ]
