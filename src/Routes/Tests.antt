-- ===== src/Routes/Tests.antt =====
-- Routes of internal/database/route_resolver.go on a small database, with a stand-in for regexp that
-- looks for the pattern as it is written and does not compile one with a bracket.
use netgoat.Prelude.{ℕ, ◌≡◌, refl, true, Option, none, some, List, [], ◌∷◌, ◌++◌, if◌then◌else◌}
use netgoat.Std.Dict.{lookup, insert}
use netgoat.Std.Search.{drop, has_suffix, trim_suffix, index, has_byte}
use netgoat.Std.Sort.{insert_sorted, sort_stable}
use netgoat.Std.Text.{
  Bytes, codes, bytes_beq, lower_byte, to_lower, has_prefix, trim_prefix, contains, trim_left,
  trim_right, trim, is_space, trim_space, split, cut, equal_fold,
}
use netgoat.Routes.Domain.{
  plain_host, port_follows, bracketed_host, split_host_port, without_port, normalize_domain,
  normalize_resolver_domain,
}
use netgoat.Routes.Matcher.{
  Regexp, match_middle, last_part, match_parts, wildcard_domain_match, regex_domain_match,
  domain_pattern_matches, compiled, compile_domain_matcher, configured, matches,
}
use netgoat.Routes.Compiled.{answer, answer-compile_domain_matcher}
use netgoat.Routes.Snapshot.{
  RouteRow, CachedRoute, RouteSnapshot, rune_count, path_route, domain_route, scan_route,
  scan_routes, checked, targets_of, fallback, with_targets, add_exact, add_pattern, add_path,
  add_route, add_routes, comes_before, pattern_before, path_before, sorted, new_route_snapshot,
  load_route_snapshot, reload,
}
use netgoat.Routes.Resolve.{
  RouteMatch, domain_match, path_match, usable, or_else, first_pattern, first_path, resolve_domain,
  resolve,
}
use netgoat.Routes.Collect.{completed}
use netgoat.Routes.Precedence.{choose, resolve-choose}
use netgoat.Routes.Reload.{reload_error}

program : Unit {0}
unfolding lookup insert drop has_suffix trim_suffix index has_byte insert_sorted sort_stable
    bytes_beq lower_byte to_lower has_prefix trim_prefix contains trim_left trim_right trim is_space
    trim_space split cut equal_fold plain_host port_follows bracketed_host split_host_port
    without_port normalize_domain normalize_resolver_domain match_middle last_part match_parts
    wildcard_domain_match regex_domain_match domain_pattern_matches compiled compile_domain_matcher
    configured matches rune_count path_route domain_route scan_route scan_routes checked targets_of
    fallback with_targets add_exact add_pattern add_path add_route add_routes comes_before
    pattern_before path_before sorted load_route_snapshot reload domain_match path_match usable
    or_else first_pattern first_path resolve_domain resolve
program = tt

abbrev plain : Regexp
plain = record {
  Regex = Bytes;
  compile = λ p. if has_byte b'(' p then none else some p;
  match_string = λ re s. contains s re;
}

row : ℕ → Bytes → Bytes → Bytes → RouteRow
row id kind domain prefix = record {
  row_id = id;
  row_type = kind;
  row_domain = domain;
  row_path_prefix = prefix;
  row_target_url = codes "http://up";
  row_certificate = [];
  row_private_key = [];
}

abbrev rows : List RouteRow
unfolding row
rows =
    row 1 (codes "wildcard") (codes "*.b.c") []
    ∷ row 2 (codes "wildcard") (codes "*.c") []
    ∷ row 3 (codes "domain") (codes "a.b.c") []
    ∷ row 4 (codes "path") [] (codes "/x")
    ∷ []

key : Option RouteMatch → Bytes
key none = []
key (some m) = m.route_key

snapshot : Option (RouteSnapshot plain) → RouteSnapshot plain
snapshot none = new_route_snapshot plain
snapshot (some s) = s

abbrev loaded : RouteSnapshot plain
unfolding program snapshot row
loaded = snapshot (load_route_snapshot plain (some rows) (some []))

chosen :
    (key (resolve plain loaded (codes "A.b.c.:80") (codes "/")) ≡ codes "domain:a.b.c")
    × (key (resolve plain loaded (codes "z.b.c") (codes "/")) ≡ codes "domain:*.b.c")
    × (key (resolve plain loaded (codes "z.c") (codes "/")) ≡ codes "domain:*.c")
    × (key (resolve plain loaded (codes "z") (codes "/xy")) ≡ codes "path:/x")
unfolding program key snapshot row
chosen = (refl, refl, refl, refl)

is_loaded : load_route_snapshot plain (some rows) (some []) ≡ some loaded
unfolding program snapshot row
is_loaded = refl

resolve-choose_example :
    (routes : List (CachedRoute plain)) × (scan_routes plain rows ≡ some routes)
    × (resolve plain loaded (codes "z.b.c") (codes "/")
        ≡ choose plain (completed plain [] routes) (codes "z.b.c") (codes "/"))
resolve-choose_example = resolve-choose plain rows [] loaded (codes "z.b.c") (codes "/") is_loaded

broken : RouteRow
unfolding row
broken = row 5 (codes "regex") (codes "a(") []

reload_error_example :
    (reload plain (some (rows ++ broken ∷ [])) (some []) loaded ≡ loaded)
    × (reload plain none (some []) loaded ≡ loaded)
    × (reload plain (some rows) none loaded ≡ loaded)
reload_error_example =
    reload_error plain rows [] broken (some rows) (some []) loaded
      (unfold program broken row in refl)

hosts :
    (normalize_domain (codes " [::1]:80 ") ≡ codes "::1")
    × (normalize_domain (codes "A.b.:443") ≡ codes "a.b")
    × (normalize_domain (codes "a]") ≡ codes "a")
    × (normalize_resolver_domain (codes "a]") ≡ codes "a]")
unfolding program
hosts = (refl, refl, refl, refl)

answer-compile_domain_matcher_example :
    answer plain (compile_domain_matcher plain (codes "wildcard") (codes "*.c")) (codes "b.c")
    ≡ domain_pattern_matches plain (codes "wildcard") (codes "*.c") (codes "b.c")
answer-compile_domain_matcher_example =
    answer-compile_domain_matcher plain (codes "wildcard") (codes "*.c") b'b' (codes ".c")
      (unfold program in refl)

-- The two parts of the pattern share a dot.
overlapping : wildcard_domain_match (codes "api.*.com") (codes "api.com") ≡ true
unfolding program
overlapping = refl
