-- ===== src/Control/Upstreams.antt =====
-- What `normalizedRouteTargets` of main.go lets into the database.
use netgoat.Prelude.{
  ◌<◌, ◌≡◌, ◌⊎◌, true, false, Bool-cases, inl, inr, Option, none, some, Option-cases, List, [], ◌∷◌,
  map, ◌==◌, ==_refl, length, All, arith,
}
use mathlib.Core.Path.{subst}
use netgoat.Std.Text.{Bytes, bytes_eq, trim_space}
use netgoat.Routes.Snapshot.{RouteTarget}
use netgoat.Gateway.Request.{Url}
use netgoat.Control.Targets.{
  is_seen, health_check_of, is_health_check, is_upstream_url, normalize_targets, some_targets,
  normalized_route_targets,
}

module _ (parse : Bytes → Option Url) where
  -- A target with a URL that can be an upstream and a known check.
  abbrev pub IsUpstream : RouteTarget → Type 0
  IsUpstream t = (is_upstream_url parse t.url ≡ true) × (is_health_check t.health_check ≡ true)

  -- No two targets have the same URL.
  unfoldable pub IsDistinct : List RouteTarget → Type 0
  IsDistinct [] = Unit
  IsDistinct (t ∷ targets) = All (λ u. (t.url == u.url) ≡ false) targets × IsDistinct targets

  abbrev pub urls : List RouteTarget → List Bytes
  urls = map (λ t. t.url)

  -- The URL of a target, unless it is blank, is among those.
  abbrev pub IsCovered : List Bytes → RouteTarget → Type 0
  IsCovered known t = ((trim_space t.url == []) ≡ true) ⊎ (is_seen (trim_space t.url) known ≡ true)

  is_seen-split :
      (url s : Bytes) (seen : List Bytes)
      → is_seen url (s ∷ seen) ≡ false
      → ((s == url) ≡ false) × (is_seen url seen ≡ false)
  unfolding is_seen
  is_seen-split url s seen h = (ground (arith, h), ground (arith, h))

  -- What the loop has taken, after the URLs that were taken before.
  record IsLoop (seen : List Bytes) (targets out : List RouteTarget) : Type 0 where
    fresh : All (λ t. is_seen t.url seen ≡ false) out
    good : All IsUpstream out
    distinct : IsDistinct out
    covered : All (λ t. IsCovered seen t ⊎ IsCovered (urls out) t) targets

  All_imp {κ λ' ℓ} :
      {A : Type ℓ} (P : A → Type κ) (Q : A → Type λ') (xs : List A)
      → ((x : A) → P x → Q x)
      → All P xs
      → All Q xs
  All_imp P Q [] f h = tt
  All_imp P Q (x ∷ xs) f (h, hs) = (f x h, All_imp P Q xs f hs)

  IsCovered-later :
      (url : Bytes) (seen rest : List Bytes) (t : RouteTarget)
      → IsCovered (url ∷ seen) t ⊎ IsCovered rest t
      → IsCovered seen t ⊎ IsCovered (url ∷ rest) t
  unfolding is_seen
  IsCovered-later url seen rest t (inl (inl blank)) = inl (inl blank)
  IsCovered-later url seen rest t (inl (inr known)) = elim (Bool-cases (url == trim_space t.url)) [
    | inl same ↦ inr (inr (ground (arith, same)))
    | inr other ↦ inl (inr (ground (arith, other, known)))
  ]
  IsCovered-later url seen rest t (inr (inl blank)) = inl (inl blank)
  IsCovered-later url seen rest t (inr (inr known)) = inr (inr (ground (arith, known)))

  IsLoop-skip :
      (seen : List Bytes) (t : RouteTarget) (targets out : List RouteTarget)
      → IsCovered seen t
      → IsLoop seen targets out
      → IsLoop seen (t ∷ targets) out
  IsLoop-skip seen t targets out c v = record {
    fresh = v.fresh;
    good = v.good;
    distinct = v.distinct;
    covered = (inl c, v.covered);
  }

  IsLoop-take :
      (seen : List Bytes) (t : RouteTarget) (targets rest : List RouteTarget)
      → is_upstream_url parse (trim_space t.url) ≡ true
      → is_seen (trim_space t.url) seen ≡ false
      → is_health_check (health_check_of t) ≡ true
      → IsLoop (trim_space t.url ∷ seen) targets rest
      → IsLoop seen
          (t ∷ targets)
          (record { url = trim_space t.url; health_check = health_check_of t } ∷ rest)
  unfolding IsDistinct is_seen
  IsLoop-take seen t targets rest usable new check v =
      let url = trim_space t.url in
      let split = λ (u : RouteTarget) (h : is_seen u.url (url ∷ seen) ≡ false).
        is_seen-split u.url url seen h in
      record {
        fresh = (
          new,
          All_imp (λ u. is_seen u.url (url ∷ seen) ≡ false) (λ u. is_seen u.url seen ≡ false) rest
              (λ u h. (split u h).1) v.fresh,
        );
        good = ((usable, check), v.good);
        distinct = (
          All_imp (λ u. is_seen u.url (url ∷ seen) ≡ false) (λ u. (url == u.url) ≡ false) rest
              (λ u h. (split u h).0) v.fresh,
          v.distinct,
        );
        covered = (
          inr (inr (ground (arith, ==_refl url))),
          All_imp (λ u. IsCovered (url ∷ seen) u ⊎ IsCovered (urls rest) u)
              (λ u. IsCovered seen u ⊎ IsCovered (url ∷ urls rest) u) targets
              (IsCovered-later url seen (urls rest)) v.covered,
        );
      }

  normalize_targets-IsLoop :
      (seen : List Bytes) (targets out : List RouteTarget)
      → normalize_targets parse seen targets ≡ some out
      → IsLoop seen targets out
  unfolding normalize_targets IsDistinct
  normalize_targets-IsLoop seen [] [] h = record {
    fresh = tt;
    good = tt;
    distinct = tt;
    covered = tt;
  }
  normalize_targets-IsLoop seen [] (t ∷ out) h = cc
  normalize_targets-IsLoop seen (t ∷ targets) out h = elim (Bool-cases (trim_space t.url == [])) [
    | inl blank ↦
        IsLoop-skip seen t targets out (inl blank)
          (normalize_targets-IsLoop seen targets out (rw (blank, normalize_targets) at h))
    | inr filled ↦ elim (Bool-cases (is_upstream_url parse (trim_space t.url))) [
      | inr unusable ↦ let q : none ≡ some out = rw (filled, unusable, normalize_targets) at h in cc
      | inl usable ↦ elim (Bool-cases (is_seen (trim_space t.url) seen)) [
        | inl old ↦ IsLoop-skip seen t targets out (inr old) (
            normalize_targets-IsLoop seen targets out
              (rw (filled, usable, old, normalize_targets) at h))
        | inr new ↦ elim (Bool-cases (is_health_check (health_check_of t))) [
          | inr strange ↦
              let q : none ≡ some out = rw (filled, usable, new, strange, normalize_targets) at h in
              cc
          | inl check ↦
              elim (Option-cases (normalize_targets parse (trim_space t.url ∷ seen) targets)) [
                | inl failed ↦
                    let q : none ≡ some out =
                      rw (filled, usable, new, check, failed, normalize_targets) at h in
                    cc
                | inr (rest, done) ↦
                    let head : RouteTarget = record {
                      url = trim_space t.url;
                      health_check = health_check_of t;
                    } in
                    let q : some (head ∷ rest) ≡ some out =
                      rw (filled, usable, new, check, done, normalize_targets) at h in
                    let same : head ∷ rest ≡ out = cc in
                    subst (IsLoop seen (t ∷ targets)) same (
                      IsLoop-take seen t targets rest usable new check
                        (normalize_targets-IsLoop (trim_space t.url ∷ seen) targets rest done))
              ]
        ]
      ]
    ]
  ]

  some_targets_lem :
      (loop out : List RouteTarget)
      → some_targets parse loop ≡ some out
      → (loop ≡ out) × (0 < length out)
  unfolding some_targets
  some_targets_lem [] out h = cc
  some_targets_lem (t ∷ loop) out h =
      let same : t ∷ loop ≡ out = cc in (same, subst (λ l. 0 < length l) same (omega arith))

  IsCovered-first :
      (known : List Bytes) (t : RouteTarget)
      → IsCovered [] t ⊎ IsCovered known t
      → IsCovered known t
  unfolding is_seen
  IsCovered-first known t (inl (inl blank)) = inl blank
  IsCovered-first known t (inl (inr old)) = cc
  IsCovered-first known t (inr c) = c

  -- The targets of a route that are let into the database are at least one, each with an HTTP URL that
  -- has a host and with a check that is known, no two with the same URL; and each given URL that is not
  -- blank is among them.
  pub normalized_route_targets-IsUpstream :
      (targets out : List RouteTarget)
      → normalized_route_targets parse targets ≡ some out
      → (0 < length out) × All IsUpstream out × IsDistinct out × All (IsCovered (urls out)) targets
  unfolding normalized_route_targets
  normalized_route_targets-IsUpstream targets out h =
      elim (Option-cases (normalize_targets parse [] targets)) [
        | inl failed ↦ let q : none ≡ some out = rw (failed, normalized_route_targets) at h in cc
        | inr (loop, done) ↦
            let q : some_targets parse loop ≡ some out = rw (done, normalized_route_targets) at h in
            let (same, filled) = some_targets_lem loop out q in
            let v =
              subst (IsLoop [] targets) same (normalize_targets-IsLoop [] targets loop done) in
            (
              filled,
              v.good,
              v.distinct,
              All_imp (λ t. IsCovered [] t ⊎ IsCovered (urls out) t) (IsCovered (urls out)) targets
                  (IsCovered-first (urls out)) v.covered,
            )
      ]
