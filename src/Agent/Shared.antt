-- ===== src/Agent/Shared.antt =====
-- What is shared between clients by the response cache of main.go.
use netgoat.Prelude.{
  ◌↔◌, ap, ◌∙◌, ◌≡◌, ◌≢◌, refl, true, false, List, [], ◌∷◌, ◌==◌, arith, All, ◌⊎◌, inl, inr,
  Bool-cases,
}
use netgoat.Std.Text.{Bytes, bytes_eq, bytes_beq_iff, codes, to_lower, trim_space, split}
use netgoat.Cache.Store.{Header}
use netgoat.Agent.Sharing.{
  header_get, is_empty, directive_name, has_part, has_cache_directive, none_set,
  conditional_headers, has_any_directive, forbidding, before_equals, only_accept_encoding,
  is_shared_cacheable_response, is_request_cacheable_for_shared_store,
}

-- No directive of a Cache-Control value has this name.
unfoldable pub Lacks : Bytes → Bytes → Type 0
Lacks header d = All (λ part. directive_name part ≢ d) (split 44 header)

is_empty_iff : (s : Bytes) → is_empty s ≡ true → s ≡ []
unfolding is_empty
is_empty_iff [] h = refl
is_empty_iff (c ∷ s) h = cc

has_part-false :
    (parts : List Bytes) (d : Bytes)
    → has_part parts d ≡ false
    → All (λ part. directive_name part ≢ d) parts
unfolding has_part
has_part-false [] d h = tt
has_part-false (p ∷ parts) d h = elim (Bool-cases (directive_name p == d)) [
  | inl e ↦ absurd (ground (arith, e, h))
  | inr e ↦ (
    (λ same. absurd (ground (arith, e, (bytes_beq_iff (directive_name p) d).1 same))),
    has_part-false parts d (ground (arith, e, h)),
  )
]

none_set_lem :
    (names : List Bytes) (h : Header)
    → none_set names h ≡ true
    → All (λ name. header_get name h ≡ []) names
unfolding none_set
none_set_lem [] h e = tt
none_set_lem (n ∷ names) h e = elim (Bool-cases (is_empty (header_get n h))) [
  | inl absent ↦
      (is_empty_iff (header_get n h) absent, none_set_lem names h (ground (arith, absent, e)))
  | inr there ↦ absurd (ground (arith, there, e))
]

has_cache_directive_lem : (header d : Bytes) → has_cache_directive header d ≡ false → Lacks header d
unfolding has_cache_directive Lacks
has_cache_directive_lem header d h = has_part-false (split 44 header) d h

has_any_directive_lem :
    (header : Bytes) (ds : List Bytes) → has_any_directive header ds ≡ false → All (Lacks header) ds
unfolding has_any_directive
has_any_directive_lem header [] h = tt
has_any_directive_lem header (d ∷ ds) h = elim (Bool-cases (has_cache_directive header d)) [
  | inl e ↦ absurd (ground (arith, e, h))
  | inr e ↦
      (has_cache_directive_lem header d e, has_any_directive_lem header ds (ground (arith, e, h)))
]

only_lem :
    (parts : List Bytes)
    → only_accept_encoding parts ≡ true
    → All (λ part. trim_space part ≡ codes "accept-encoding") parts
unfolding only_accept_encoding
only_lem [] h = tt
only_lem (p ∷ parts) h = elim (Bool-cases (trim_space p == codes "accept-encoding")) [
  | inl e ↦ (
    (bytes_beq_iff (trim_space p) (codes "accept-encoding")).0 e,
    only_lem parts (ground (arith, e, h)),
  )
  | inr e ↦ absurd (ground (arith, e, h))
]

-- The response cache answers for, and stores for, no request but a plain GET: one without
-- credentials, without a condition or a range, and that no directive keeps from the cache.
pub request_unshared :
    (method : Bytes) (h : Header)
    → is_request_cacheable_for_shared_store method h ≡ true
    → (method ≡ codes "GET")
      × (header_get (codes "Authorization") h ≡ [])
      × (header_get (codes "Cookie") h ≡ [])
      × All (λ name. header_get name h ≡ []) conditional_headers
      × Lacks (to_lower (header_get (codes "Cache-Control") h)) (codes "no-store")
unfolding is_request_cacheable_for_shared_store
request_unshared method h e = (
  (bytes_beq_iff method (codes "GET")).0 (ground (arith, e)),
  is_empty_iff (header_get (codes "Authorization") h) (ground (arith, e)),
  is_empty_iff (header_get (codes "Cookie") h) (ground (arith, e)),
  none_set_lem conditional_headers h (ground (arith, e)),
  has_cache_directive_lem (to_lower (header_get (codes "Cache-Control") h)) (codes "no-store")
      (ground (arith, e)),
)

has_part_absent :
    (parts : List Bytes) (d : Bytes)
    → All (λ part. directive_name part ≢ d) parts
    → has_part parts d ≡ false
unfolding has_part
has_part_absent [] d h = refl
has_part_absent (p ∷ parts) d (other, h) = elim (Bool-cases (directive_name p == d)) [
  | inl e ↦ absurd (other ((bytes_beq_iff (directive_name p) d).0 e))
  | inr e ↦ rw e (has_part_absent parts d h)
]

Lacks_lem : (header d : Bytes) → Lacks header d → has_cache_directive header d ≡ false
unfolding has_cache_directive Lacks
Lacks_lem header d h = has_part_absent (split 44 header) d h

has_any_directive_absent :
    (header : Bytes) (ds : List Bytes) → All (Lacks header) ds → has_any_directive header ds ≡ false
unfolding has_any_directive
has_any_directive_absent header [] h = refl
has_any_directive_absent header (d ∷ ds) (p, h) =
    rw (Lacks_lem header d p) (has_any_directive_absent header ds h)

only_absent :
    (parts : List Bytes)
    → All (λ part. trim_space part ≡ codes "accept-encoding") parts
    → only_accept_encoding parts ≡ true
unfolding only_accept_encoding
only_absent [] h = refl
only_absent (p ∷ parts) (e, h) =
    rw ((bytes_beq_iff (trim_space p) (codes "accept-encoding")).1 e) (only_absent parts h)

-- A response that may be shared, by the first line of each of its headers: it sets no cookie, says
-- `public` and none of what forbids sharing, and varies with nothing but the accepted encoding.
pub record IsShareable (h : Header) : Type 0 where
  pub no_cookie : header_get (codes "Set-Cookie") h ≡ []
  pub says_public : ¬ (Lacks (to_lower (header_get (codes "Cache-Control") h)) (codes "public"))
  pub says_nothing_else :
      All
        (Lacks (to_lower (header_get (codes "Cache-Control") h)))
        (codes "private" ∷ codes "no-store" ∷ codes "no-cache" ∷ [])
  pub varies :
      (to_lower (trim_space (header_get (codes "Vary") h)) ≡ [])
      ⊎ All
          (λ part. trim_space part ≡ codes "accept-encoding")
          (split 44 (to_lower (trim_space (header_get (codes "Vary") h))))

empty_iff : (s : Bytes) → s ≡ [] → is_empty s ≡ true
unfolding is_empty
empty_iff s e = ap is_empty e

empty-Lacks : (s : Bytes) → is_empty s ≡ true → Lacks s (codes "public")
unfolding Lacks has_cache_directive has_part directive_name before_equals split
    netgoat.Std.Text.bytes_beq trim_space netgoat.Std.Text.cut
empty-Lacks s e =
    has_cache_directive_lem s (codes "public")
      (ap (λ x. has_cache_directive x (codes "public")) (is_empty_iff s e) ∙ refl)

-- A response may go into the shared cache exactly when, by the first line of each of its headers, it
-- sets no cookie, has a directive public and no directive private, no-store or no-cache, and varies
-- with nothing or with the accepted encoding only.
pub response_unshared : (h : Header) → (is_shared_cacheable_response h ≡ true) ↔ IsShareable h
unfolding is_shared_cacheable_response
response_unshared h =
    let cookie = header_get (codes "Set-Cookie") h in
    let cache_control = to_lower (header_get (codes "Cache-Control") h) in
    let vary = to_lower (trim_space (header_get (codes "Vary") h)) in
    (
      λ e. record {
        no_cookie = is_empty_iff cookie (ground (arith, e));
        says_public = λ lacks.
            absurd (let p = Lacks_lem cache_control (codes "public") lacks in ground (arith, e, p));
        says_nothing_else = has_any_directive_lem cache_control forbidding (ground (arith, e));
        varies = elim (Bool-cases (is_empty vary)) [
          | inl empty ↦ inl (is_empty_iff vary empty)
          | inr some_vary ↦ inr (only_lem (split 44 vary) (ground (arith, e, some_vary)))
        ];
      },
      λ v.
          let plain : is_empty cookie ≡ true = empty_iff cookie v.no_cookie in
          let shared : has_cache_directive cache_control (codes "public") ≡ true =
            elim (Bool-cases (has_cache_directive cache_control (codes "public"))) [
              | inl said ↦ said
              | inr unsaid ↦
                  absurd
                    (v.says_public (has_cache_directive_lem cache_control (codes "public") unsaid))
            ] in
          let some_control : is_empty cache_control ≡ false =
            elim (Bool-cases (is_empty cache_control)) [
              | inl blank ↦ absurd (v.says_public (empty-Lacks cache_control blank))
              | inr there ↦ there
            ] in
          let free = has_any_directive_absent cache_control forbidding v.says_nothing_else in
          rw (plain, some_control, shared, free)
            (elim v.varies [
              | inl same ↦ rw (empty_iff vary same) refl
              | inr only ↦ ground (arith, only_absent (split 44 vary) only)
            ]),
    )
