-- ===== src/Agent/Merge.antt =====
-- `mergeConfigSnapshots` of main.go: the routes of the local database and the configuration that a
-- control plane has sent. What the entries hold is a parameter.
use netgoat.Prelude.{
  ap, ℕ, ◌≡◌, refl, ◌∙◌, Bool, false, ◌||◌, Bool-cases, inl, inr, Option, none, some, List, [], ◌∷◌,
  ◌++◌, ◌==◌, ltb, length, ℤ, pos, eq_of_==,
}
use netgoat.Std.Dict.{Dict, lookup, insert, lookup-insert}
use netgoat.Std.Keys.{IsKeyed}
use netgoat.Std.Text.{Bytes, bytes_eq}

-- The entries of a map written into another, in the order in which `range` gives them.
unfoldable pub put_all {ℓ} : {V : Type ℓ} → Dict Bytes V → Dict Bytes V → Dict Bytes V
put_all [] d = d
put_all ((k, v) ∷ entries) d = put_all entries (insert k v d)

unfoldable pub has_entries {ℓ} : {V : Type ℓ} → Dict Bytes V → Bool
has_entries d = ltb 0 (length d)

pub record ConfigSnapshot (Route Rule User UserDomain Agent : Type 0) : Type 0 where
  pub version : ℤ
  pub timestamp : ℕ
  pub routes : Dict Bytes Route
  pub routes_configured : Bool
  pub waf_rules : Dict Bytes Rule
  pub waf_rules_configured : Bool
  pub users : List User
  pub user_domains : List UserDomain
  pub zero_trust_enabled : Bool
  pub zero_trust_configured : Bool
  pub agent_config : Agent

module _ {Route Rule User UserDomain Agent : Type 0} (no_config : Agent) where
  abbrev pub empty_snapshot : ConfigSnapshot Route Rule User UserDomain Agent
  empty_snapshot = record {
    version = pos 0;
    timestamp = 0;
    routes = [];
    routes_configured = false;
    waf_rules = [];
    waf_rules_configured = false;
    users = [];
    user_domains = [];
    zero_trust_enabled = false;
    zero_trust_configured = false;
    agent_config = no_config;
  }

  unfoldable pub merge_local :
      Option (ConfigSnapshot Route Rule User UserDomain Agent)
      → ConfigSnapshot Route Rule User UserDomain Agent
  merge_local none = empty_snapshot
  merge_local (some here) = record empty_snapshot {
    routes_configured = here.routes_configured || has_entries here.routes;
    routes = put_all here.routes [];
  }

  unfoldable pub merge_config_snapshots :
      Option (ConfigSnapshot Route Rule User UserDomain Agent)
      → Option (ConfigSnapshot Route Rule User UserDomain Agent)
      → ConfigSnapshot Route Rule User UserDomain Agent
  merge_config_snapshots here none = merge_local here
  merge_config_snapshots here (some remote) =
      let merged = merge_local here in
      record {
        version = remote.version;
        timestamp = remote.timestamp;
        routes = put_all remote.routes merged.routes;
        routes_configured =
            merged.routes_configured || remote.routes_configured || has_entries remote.routes;
        waf_rules = put_all remote.waf_rules merged.waf_rules;
        waf_rules_configured = remote.waf_rules_configured || has_entries remote.waf_rules;
        users = merged.users ++ remote.users;
        user_domains = merged.user_domains ++ remote.user_domains;
        zero_trust_enabled = remote.zero_trust_enabled;
        zero_trust_configured = remote.zero_trust_configured;
        agent_config = remote.agent_config;
      }

-- The first that is there.
unfoldable pub prefer {ℓ} : {V : Type ℓ} → Option V → Option V → Option V
prefer none o = o
prefer (some v) o = some v

lookup-put_all {ℓ} :
    {V : Type ℓ} (k : Bytes) (entries d : Dict Bytes V)
    → IsKeyed entries
    → lookup k (put_all entries d) ≡ prefer (lookup k entries) (lookup k d)
unfolding put_all lookup prefer IsKeyed
lookup-put_all k [] d keyed = refl
lookup-put_all k ((j, v) ∷ entries) d (new, keyed) =
    let rest = lookup-put_all k entries (insert j v d) keyed in
    let set = lookup-insert j k v d in
    elim (Bool-cases (j == k)) [
      | inl same ↦
          let gone : lookup k entries ≡ none = rw (eq_of_== j k same) at new in
          rw same (rest ∙ rw gone (rw same at set))
      | inr other ↦ rw other (rest ∙ rw (rw other at set) refl)
    ]

prefer-none {ℓ} : {V : Type ℓ} (o : Option V) → prefer o none ≡ o
unfolding prefer
prefer-none none = refl
prefer-none (some v) = refl

-- A merged snapshot has the remote route of a key if there is one, and else the local one; the rules
-- are the remote ones.
pub lookup-merge_config_snapshots :
    {Route Rule User UserDomain Agent : Type 0} (no_config : Agent)
    (here remote : ConfigSnapshot Route Rule User UserDomain Agent) (k : Bytes)
    → IsKeyed here.routes
    → IsKeyed remote.routes
    → IsKeyed remote.waf_rules
    → let merged = merge_config_snapshots no_config (some here) (some remote) in
      (lookup k merged.routes ≡ prefer (lookup k remote.routes) (lookup k here.routes))
      × (lookup k merged.waf_rules ≡ lookup k remote.waf_rules)
unfolding merge_config_snapshots merge_local lookup
lookup-merge_config_snapshots no_config here remote k local_keyed remote_keyed rules_keyed = (
  lookup-put_all k remote.routes (put_all here.routes []) remote_keyed
      ∙ ap (prefer (lookup k remote.routes))
          (lookup-put_all k here.routes [] local_keyed ∙ prefer-none (lookup k here.routes)),
  lookup-put_all k remote.waf_rules [] rules_keyed ∙ prefer-none (lookup k remote.waf_rules),
)
