-- ===== src/Gateway/Uncached.antt =====
-- Requests of main.go that the shared cache is not for.
use netgoat.Prelude.{
  ◌⊎◌, All, [], ◌≡◌, refl, ◌∙◌, Bool, true, false, Bool-cases, inl, inr, Option-cases,
}
use netgoat.Routes.Resolve.{RouteMatch}
use netgoat.Agent.Sharing.{header_get, conditional_headers, is_request_cacheable_for_shared_store}
use netgoat.Agent.Shared.{Lacks, request_unshared}
use netgoat.Std.Text.{codes, to_lower}
use netgoat.Metrics.Recorder.{record_request}
use netgoat.Gateway.Request.{Request}
use netgoat.Gateway.World.{
  World, Site, Proxied-cases, Origin, Moment, State, Answer, to_login, refused, blocked, decoy,
  replayed, served, unserved, on_metrics,
}
use netgoat.Gateway.Gates.{error_page, block}
use netgoat.Gateway.Forward.{forward, upstream_of, after_response, overlaid, cache_gate}
use netgoat.Gateway.Chain.{Laws, gates-Law}
use netgoat.Gateway.Handler.{handle}

abbrev pub is_replayed : Answer → Bool
is_replayed to_login = false
is_replayed (refused status page) = false
is_replayed (blocked reason status page) = false
is_replayed decoy = false
is_replayed (replayed ent) = true
is_replayed (served res up) = false
is_replayed (unserved status err page up) = false

module _ (w : World) (site : Site w) (m : Moment) (r : Request) where
  unfoldable IsApart : State → Answer × State → Type 0
  IsApart s (answer, s') = (s'.cache ≡ s.cache) × (is_replayed answer ≡ false)

  IsApart-from : (s t : State) (x : Answer × State) → t.cache ≡ s.cache → IsApart t x → IsApart s x
  unfolding IsApart
  IsApart-from s t x cache (same, kind) = (same ∙ cache, kind)

  after_response_uncacheable :
      (res : Origin) (s : State) → (after_response w site m r false res s).cache ≡ s.cache
  unfolding after_response
  after_response_uncacheable res s = elim (Option-cases s.cache) [
    | inl off ↦ rw (off, after_response) off
    | inr (c, on) ↦ rw (on, after_response) on
  ]

  forward-IsApart : (found : RouteMatch) (s : State) → IsApart s (forward w site m r found false s)
  unfolding error_page forward IsApart
  forward-IsApart found s = elim (Proxied-cases (m.proxy (upstream_of w site m r found))) [
    | inl (res, sent) ↦
        rw (sent, forward) (after_response_uncacheable (overlaid w site m r res) s, refl)
    | inr (timeout, err, failed) ↦ rw (failed, forward) (refl, refl)
  ]

  cache_gate-IsApart :
      (found : RouteMatch) (s : State)
      → is_request_cacheable_for_shared_store r.method r.header ≡ false
      → IsApart s (cache_gate w site m r found s)
  unfolding cache_gate
  cache_gate-IsApart found s other = elim (Option-cases s.cache) [
    | inl off ↦ rw (off, cache_gate) (IsApart-from _ s _ off (forward-IsApart found s))
    | inr (c, on) ↦ rw (on, other, cache_gate) (IsApart-from _ s _ on (forward-IsApart found s))
  ]

  IsApart-Laws :
      is_request_cacheable_for_shared_store r.method r.header ≡ false → Laws w site m r IsApart
  unfolding IsApart block error_page
  IsApart-Laws other = record {
    unseen = λ s t x metrics running cache h. let (same, kind) = h in (same ∙ cache, kind);
    refuses = λ status s. (refl, refl);
    blocks = λ reason status s. (refl, refl);
    logins = λ s. (refl, refl);
    decoys = λ s. (refl, refl);
    challenges = λ s page c. (refl, refl);
    place = λ s x h. h;
    forwards = λ found s. cache_gate-IsApart found s other;
  }

  handle_uncacheable :
      (s : State)
      → is_request_cacheable_for_shared_store r.method r.header ≡ false
      → IsApart s (handle w site m r s)
  unfolding handle IsApart
  handle_uncacheable s other =
      gates-Law w site m r IsApart (IsApart-Laws other) (on_metrics record_request s)

  -- Either a request leaves the shared cache as it was and is not answered from it, or it is a plain
  -- GET: without credentials, without a condition or a range, and with no directive that keeps it from
  -- the cache.
  pub handle-shared :
      (s : State)
      → (((handle w site m r s).1.cache ≡ s.cache) × (is_replayed (handle w site m r s).0 ≡ false))
        ⊎ ((r.method ≡ codes "GET")
            × (header_get (codes "Authorization") r.header ≡ [])
            × (header_get (codes "Cookie") r.header ≡ [])
            × All (λ name. header_get name r.header ≡ []) conditional_headers
            × Lacks (to_lower (header_get (codes "Cache-Control") r.header)) (codes "no-store"))
  unfolding IsApart
  handle-shared s = elim (Bool-cases (is_request_cacheable_for_shared_store r.method r.header)) [
    | inl cacheable ↦ inr (request_unshared r.method r.header cacheable)
    | inr other ↦ inl (handle_uncacheable s other)
  ]
