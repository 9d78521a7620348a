-- ===== src/ClientIp/Chain.antt =====
-- Which address the resolver of internal/clientip/resolver.go settles on, and what a client that
-- writes forwarding headers can change.
use netgoat.Prelude.{
  true, false, ◌≡◌, refl, sym, ap, ◌∙◌, Option, none, some, List, [], ◌∷◌, ◌++◌, All, All-append,
  arith, Bool-cases, Option-cases, inl, inr, ◌⊎◌,
}
use mathlib.Core.List.{append_assoc, reverse, reverse-append, reverse-cons, reverse-reverse}
use netgoat.Std.Text.{Bytes}
use netgoat.ClientIp.NetIp.{NetIp}
use netgoat.ClientIp.Parse.{parse_address}
use netgoat.ClientIp.Resolver.{
  Request, is_trusted, first_untrusted, forwarding_chain, settle, behind_proxy, client_ip,
}

reverse_middle {ℓ} :
    {A : Type ℓ} (xs : List A) (a : A) (ys : List A)
    → reverse (xs ++ a ∷ ys) ≡ reverse ys ++ a ∷ reverse xs
reverse_middle xs a ys = simp (reverse-append, reverse-cons, append_assoc)

module _ (n : NetIp) where
  open n use {Addr, Prefix, text}

  abbrev pub IsTrusted : List Prefix → Addr → Type 0
  IsTrusted trusted a = is_trusted n trusted a ≡ true

  -- `a` is the last address of the chain outside the trusted proxies.
  pub record IsClient (trusted : List Prefix) (chain : List Addr) (a : Addr) : Type 0 where
    pub before : List Addr
    pub hops : List Addr
    pub chained : chain ≡ before ++ a ∷ hops
    pub outside : is_trusted n trusted a ≡ false
    pub proxies : All (IsTrusted trusted) hops

  first_untrusted_lem :
      (trusted : List Prefix) (r : List Addr) (a : Addr)
      → first_untrusted n trusted r ≡ some a
      → (hops before : List Addr) × (r ≡ hops ++ a ∷ before)
        × (is_trusted n trusted a ≡ false)
        × All (IsTrusted trusted) hops
  unfolding first_untrusted
  first_untrusted_lem trusted [] a h = cc
  first_untrusted_lem trusted (b ∷ r) a h = elim (Bool-cases (is_trusted n trusted b)) [
    | inl inside ↦
        let (hops, before, split', outside, proxies) =
          first_untrusted_lem trusted r a (ground arith) in
        (b ∷ hops, before, ap (◌∷◌ b) split', outside, (inside, proxies))
    | inr outside ↦
        let same : b ≡ a = ground arith in ([], r, ap (λ x. x ∷ r) same, rw (← same) outside, tt)
  ]

  All-reverse :
      (trusted : List Prefix) (r : List Addr)
      → All (IsTrusted trusted) r
      → All (IsTrusted trusted) (reverse r)
  All-reverse trusted [] h = tt
  All-reverse trusted (a ∷ r) (p, h) =
      rw reverse-cons
        (All-append (IsTrusted trusted) (reverse r) (a ∷ []) (All-reverse trusted r h) (p, tt))

  first_untrusted-IsClient :
      (trusted : List Prefix) (chain : List Addr) (a : Addr)
      → first_untrusted n trusted (reverse chain) ≡ some a
      → IsClient trusted chain a
  first_untrusted-IsClient trusted chain a h =
      let (hops, before, parts, outside, proxies) =
        first_untrusted_lem trusted (reverse chain) a h in
      record {
        before = reverse before;
        hops = reverse hops;
        chained = sym (reverse-reverse chain) ∙ (ap reverse parts ∙ reverse_middle hops a before);
        outside = outside;
        proxies = All-reverse trusted hops proxies;
      }

  -- The chain establishes a client, or the result is the peer.
  Settles : List Prefix → Addr → Option (List Addr) → Bytes → Type 0
  Settles trusted peer chain result =
      (result ≡ text peer)
      ⊎ ((c : List Addr) × (a : Addr) × (chain ≡ some c) × IsClient trusted c a × (result ≡ text a))

  settle-Settles :
      (trusted : List Prefix) (peer : Addr) (chain : Option (List Addr))
      → Settles trusted peer chain (settle n trusted peer chain)
  unfolding settle Settles
  settle-Settles trusted peer none = inl refl
  settle-Settles trusted peer (some chain) =
      elim (Option-cases (first_untrusted n trusted (reverse chain))) [
        | inl inside ↦ inl (rw (inside, settle) refl)
        | inr (a, found) ↦ inr (
          chain,
          a,
          refl,
          first_untrusted-IsClient trusted chain a found,
          rw (found, settle) refl,
        )
      ]

  behind_proxy-Settles :
      (trusted : List Prefix) (peer : Addr) (forwarded xff : List Bytes)
      → Settles trusted peer
          (forwarding_chain n forwarded xff)
          (behind_proxy n trusted peer forwarded xff)
  unfolding behind_proxy Settles
  behind_proxy-Settles trusted peer [] [] = inl refl
  behind_proxy-Settles trusted peer (f ∷ fs) xff = settle-Settles trusted peer _
  behind_proxy-Settles trusted peer [] (x ∷ xs) = settle-Settles trusted peer _

  -- For a request whose socket peer has an address, the answer is that peer, unless the peer is a
  -- trusted proxy and the forwarding headers are well formed and agree: then the answer may be the
  -- last address of their chain that is not a trusted proxy, all hops behind it being trusted.
  pub client_ip-IsClient :
      (trusted : List Prefix) (req : Request) (peer : Addr)
      → parse_address n req.remote_addr ≡ some peer
      → (client_ip n (some trusted) (some req) ≡ text peer)
        ⊎ ((chain : List Addr) × (a : Addr) × (is_trusted n trusted peer ≡ true)
            × (forwarding_chain n req.forwarded req.x_forwarded_for ≡ some chain)
            × IsClient trusted chain a
            × (client_ip n (some trusted) (some req) ≡ text a))
  unfolding client_ip Settles
  client_ip-IsClient trusted req peer h = elim (Bool-cases (is_trusted n trusted peer)) [
    | inr outside ↦ inl (rw (h, client_ip) (rw outside refl))
    | inl inside ↦
        let same : client_ip n (some trusted) (some req)
            ≡ behind_proxy n trusted peer req.forwarded req.x_forwarded_for =
          rw (h, client_ip) (rw inside refl) in
        elim (behind_proxy-Settles trusted peer req.forwarded req.x_forwarded_for) [
          | inl direct ↦ inl (same ∙ direct)
          | inr (chain, a, parsed, client, result) ↦
              inr (chain, a, inside, parsed, client, same ∙ result)
        ]
  ]
