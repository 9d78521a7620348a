-- ===== src/Waf/Engine.antt =====
-- `Engine` of internal/waf/waf.go: rules that are compiled when they are loaded, and checked in
-- their order. The expression engine is a parameter.
use netgoat.Prelude.{
  Bool, true, false, Option, none, some, List, [], ◌∷◌, if◌then◌else◌, ◌==◌, ◌>>=◌,
}
use netgoat.Std.Text.{Bytes, bytes_eq, codes, to_lower, to_upper, trim_space, trim_prefix}
use netgoat.Std.Search.{trim_suffix}
use netgoat.Std.Url.{Values, query_unescape, parse_query}
use netgoat.Routes.Domain.{split_host_port}
use netgoat.Cache.Store.{Header}

pub record WafContext : Type 0 where
  pub ip : Bytes
  pub host : Bytes
  pub method : Bytes
  pub path : Bytes
  pub query : Values
  pub raw_query : Bytes
  pub headers : Header

-- `expr.Compile` for a rule, and `expr.Run`: no result for an error, and no Boolean for an output of
-- another type.
pub record ExprVm : Type 1 where
  pub Program : Type 0
  pub compile : Bytes → Option Program
  pub run : Program → WafContext → Option (Option Bool)

-- A row of `waf_rules`, by priority and then by id.
pub record RuleRow : Type 0 where
  pub row_name : Bytes
  pub row_expression : Bytes
  pub row_action : Bytes

-- What `Check` reads of a request.
pub record WafRequest : Type 0 where
  pub remote_addr : Bytes
  pub request_host : Bytes
  pub request_method : Bytes
  pub url_path : Bytes
  pub url_raw_query : Bytes
  pub header : Header

unfoldable pub normalized_host : Bytes → Bytes
normalized_host hostport =
    let host = trim_space hostport in
    let parsed = elim (split_host_port host) as (λ _. Bytes) [
      | some h ↦ h
      | none ↦ trim_prefix (trim_suffix host (codes "]")) (codes "[")
    ] in
    to_lower (trim_suffix parsed (codes "."))

unfoldable pub peer_ip : Bytes → Bytes
peer_ip remote_addr = elim (split_host_port remote_addr) [
  | none ↦ remote_addr
  | some ip ↦ if ip == [] then remote_addr else ip
]

unfoldable pub context_of : WafRequest → Bytes → WafContext
context_of r decoded_query = record {
  ip = peer_ip r.remote_addr;
  host = normalized_host r.request_host;
  method = r.request_method;
  path = r.url_path;
  query = parse_query r.url_raw_query;
  raw_query = decoded_query;
  headers = r.header;
}

module _ (vm : ExprVm) where
  pub record CompiledRule : Type 0 where
    pub name : Bytes
    pub action : Bytes
    pub program : vm.Program

  unfoldable pub validate_expression : Bytes → Bool
  validate_expression expression = elim (vm.compile expression) [ none ↦ false | some _ ↦ true ]

  unfoldable pub compile_rule : RuleRow → Option CompiledRule
  compile_rule row = vm.compile row.row_expression >>= λ program. some (record {
    name = row.row_name;
    action = to_upper (trim_space row.row_action);
    program = program;
  })

  unfoldable pub compile_rows : List RuleRow → Option (List CompiledRule)
  compile_rows [] = some []
  compile_rows (row ∷ rows) =
      compile_rule row >>= λ rule. compile_rows rows >>= λ rules. some (rule ∷ rules)

  -- The rows are missing where a query or a scan fails. The rules, and whether they were replaced.
  unfoldable pub reload : Option (List RuleRow) → List CompiledRule → List CompiledRule × Bool
  reload rows rules = elim (rows >>= compile_rows) [
    | none ↦ (rules, false)
    | some next ↦ (next, true)
  ]

  unfoldable pub rule_matches : WafContext → CompiledRule → Bool
  rule_matches env rule = elim (vm.run rule.program env) [
    | none ↦ false
    | some none ↦ false
    | some (some matched) ↦ matched
  ]

  unfoldable pub check_rules : WafContext → List CompiledRule → Bool × Bytes
  check_rules env [] = (false, [])
  check_rules env (rule ∷ rules) =
      let rest = check_rules env rules in
      if rule_matches env rule
      then (if rule.action == codes "ALLOW"
          then (false, rule.name)
          else if rule.action == []
          then (true, rule.name)
          else if rule.action == codes "BLOCK"
          then (true, rule.name)
          else rest)
      else rest

  -- Whether the request is blocked, and the rule that decided.
  unfoldable pub check : List CompiledRule → WafRequest → Bool × Bytes
  check rules r = elim (query_unescape r.url_raw_query) [
    | none ↦ (true, codes "Block Malformed Encoding")
    | some decoded ↦ check_rules (context_of r decoded) rules
  ]

  -- The function `Check`, which loads the rules for one request; where they cannot be loaded, the
  -- request passes.
  unfoldable pub check_once : Option (List RuleRow) → WafRequest → Bool × Bytes
  check_once rows r =
      let (rules, loaded) = reload rows [] in if loaded then check rules r else (false, [])
