-- ===== src/Waf/Tests.antt =====
-- Rules of the firewall, with an expression engine that looks for a text in the path.
use netgoat.Prelude.{◌≡◌, none, some, List, [], ◌∷◌, if◌then◌else◌, ◌==◌}
use netgoat.Std.Text.{Bytes, bytes_eq, codes, contains}
use netgoat.Std.Sort.{find_first}
use netgoat.Std.Url.{query_unescape, hex_digit}
use netgoat.Waf.Engine.{ExprVm, RuleRow, WafRequest, CompiledRule, context_of, check}
use netgoat.Waf.Verdict.{verdict, decides, check-verdict}

abbrev path_search : ExprVm
path_search = record {
  Program = Bytes;
  compile = λ expression. if expression == [] then none else some expression;
  run = λ needle env. some (some (contains env.path needle));
}

abbrev rules : List (CompiledRule path_search)
rules =
    record { name = codes "static"; action = codes "ALLOW"; program = codes "/static/" }
    ∷ record { name = codes "php"; action = []; program = codes ".php" }
    ∷ []

abbrev probe : WafRequest
probe = record {
  remote_addr = codes "10.0.0.9:4711";
  request_host = codes "Example.com:8080";
  request_method = codes "GET";
  url_path = codes "/a.php";
  url_raw_query = codes "q=a%20b";
  header = [];
}

check-verdict_example :
    check path_search rules probe
    ≡ verdict path_search
        (find_first (decides path_search (context_of probe (codes "q=a b"))) rules)
unfolding query_unescape hex_digit
check-verdict_example = check-verdict path_search rules probe

abbrev bad_row : RuleRow
bad_row = record { row_name = codes "empty"; row_expression = []; row_action = codes "block" }
