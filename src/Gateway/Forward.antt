-- ===== src/Gateway/Forward.antt =====
-- What the request handler of main.go does behind its gates: the route, the shared cache, the
-- upstream, and what its response leaves in the cache.
use netgoat.Prelude.{
  ℕ, ◌*◌, Bool, true, false, not, ◌&&◌, Option, none, some, List, [], ◌∷◌, map, if◌then◌else◌, ◌==◌,
  nat_eq, ltb, leb, length, pos,
}
use netgoat.Std.Dict.{insert, delete}
use netgoat.Std.Text.{Bytes, bytes_eq, codes, to_lower, trim_space, contains}
use netgoat.Std.Words.{itoa}
use netgoat.Cache.Store.{get, set_with_ttl, Store as CacheStore}
use netgoat.Routes.Snapshot.{RouteTarget}
use netgoat.Routes.Resolve.{RouteMatch, resolve}
use netgoat.Metrics.Recorder.{record_cache_hit, record_proxy_error}
use netgoat.Agent.Sharing.{
  header_get, is_request_cacheable_for_shared_store, is_shared_cacheable_response,
}
use netgoat.Agent.Lifetime.{shared_cache_ttl}
use netgoat.Gateway.Request.{Request, prepare_forwarding_headers, host_name, cache_key}
use netgoat.Gateway.Gates.{client, error_page}
use netgoat.Gateway.World.{
  World, Site, Origin, delivered, broken, Upstream, Moment, State, refused, replayed, served,
  unserved, Handler, on_metrics,
}

-- The overlay goes into HTML that is not encoded and not too long.
unfoldable pub should_inject_overlay : Origin → Bool
should_inject_overlay res =
    let ct = to_lower (header_get (codes "Content-Type") res.origin_header) in
    let enc = to_lower (trim_space (header_get (codes "Content-Encoding") res.origin_header)) in
    if not (contains ct (codes "text/html"))
    then false
    else if not (enc == []) && not (enc == codes "identity")
    then false
    else elim res.content_length [ none ↦ false | some n ↦ leb n (256 * 1024) ]

module _ (w : World) (site : Site w) (m : Moment) (r : Request) where
  unfoldable pub url_list : List RouteTarget → List Bytes
  url_list targets = map (λ t. t.url) targets

  unfoldable pub overlaid : Origin → Origin
  overlaid res =
      if site.debug_overlay && should_inject_overlay res
      then (let body = w.inject_overlay res.origin_body in
          record res {
            origin_body = body;
            content_length = some (length body);
            origin_header =
                delete (codes "Transfer-Encoding")
                  (insert (codes "Content-Length") (itoa (length body) ∷ []) res.origin_header);
          })
      else res

  -- What the response leaves in the cache once its body has been read.
  unfoldable pub store_response : Origin → CacheStore → CacheStore
  store_response res c =
      let (ttl, ok) =
        shared_cache_ttl (header_get (codes "Cache-Control") res.origin_header) (pos c.ttl) in
      if not (res.origin_status == 200)
      then c
      else if not (is_shared_cacheable_response res.origin_header)
      then c
      else if not ok
      then c
      else if site.debug_overlay
          && contains (header_get (codes "Content-Type") res.origin_header) (codes "text/html")
      then c
      else if res.complete
          && (ltb 0 c.max_body_bytes && leb (length res.origin_body) c.max_body_bytes)
      then set_with_ttl m.done (cache_key r) 200 res.origin_header res.origin_body ttl c
      else c

  unfoldable pub after_response : Bool → Origin → State → State
  after_response cacheable res s = elim s.cache [
    | none ↦ s
    | some c ↦ if cacheable then record s { cache = some (store_response res c) } else s
  ]

  unfoldable pub upstream_of : RouteMatch → Upstream
  upstream_of found = record {
    route_key = found.route_key;
    urls = url_list found.match_targets;
    header = prepare_forwarding_headers w.netip r (client w site m r);
  }

  unfoldable pub gateway_status : Bool → ℕ
  gateway_status timeout = if timeout then 504 else 502

  unfoldable pub forward : RouteMatch → Bool → Handler
  forward found cacheable s = elim (m.proxy (upstream_of found)) [
    | delivered res ↦
        (served (overlaid res) (upstream_of found), after_response cacheable (overlaid res) s)
    | broken timeout err ↦
        error_page w site m r m.done
          (λ page. unserved (gateway_status timeout) err page (upstream_of found))
          (on_metrics (record_proxy_error m.done err) s)
  ]

  unfoldable pub cache_gate : RouteMatch → Handler
  cache_gate found s = elim s.cache [
    | none ↦ forward found false s
    | some c ↦
        if is_request_cacheable_for_shared_store r.method r.header
        then (let (c', hit) = get m.now (cache_key r) c in
            let s' = record s { cache = some c' } in
            elim hit [
              | some ent ↦ (replayed ent, on_metrics record_cache_hit s')
              | none ↦ forward found true s'
            ])
        else forward found false s
  ]

  unfoldable pub route_of_request : Option RouteMatch
  route_of_request = resolve w.regexp site.routes (host_name r.host) r.path

  unfoldable pub route_gate : Handler
  route_gate s = elim route_of_request [
    | none ↦ error_page w site m r m.now (refused 404) s
    | some found ↦
        if ltb 0 (length found.match_targets)
        then cache_gate found s
        else error_page w site m r m.now (refused 404) s
  ]
