-- ===== src/ClientIp/Spoofing.antt =====
-- What a client that sends its own `X-Forwarded-For` values can change in the answer of
-- internal/clientip/resolver.go.
use netgoat.Prelude.{
  ◌≤◌, ◌<◌, true, ◌≡◌, refl, ap, ◌∙◌, Option, none, some, List, [], ◌∷◌, ◌++◌, arith, length,
  length-append, Option-cases, inl, inr, ◌⊎◌,
}
use mathlib.Core.List.{append_assoc, append-nil, reverse, reverse-append}
use netgoat.Std.Text.{Bytes, split}
use netgoat.ClientIp.NetIp.{NetIp}
use netgoat.ClientIp.Parse.{
  collect, parse_address, x_forwarded_for_values, parse_x_forwarded_for, non_empty, header_size,
  max_forwarded_addresses, max_forwarded_header_bytes,
}
use netgoat.ClientIp.Resolver.{
  Request, is_trusted, first_untrusted, forwarding_chain, settle, behind_proxy, client_ip,
}

module _ (n : NetIp) where
  open n use {Addr, Prefix, text}

  -- Two runs of a loop that only appends to its chain append the same addresses.
  abbrev Appends : List Addr → List Addr → List Addr → List Addr → Type 0
  Appends c out d out' = (added : List Addr) × (out ≡ c ++ added) × (out' ≡ d ++ added)

  Appends-trans :
      (c c' c'' d d' d'' : List Addr)
      → Appends c c' d d'
      → Appends c' c'' d' d''
      → Appends c c'' d d''
  Appends-trans c c' c'' d d' d'' (x, p, q) (y, r, s) = (
    x ++ y,
    r ∙ (ap (λ t. t ++ y) p ∙ append_assoc c x y),
    s ∙ (ap (λ t. t ++ y) q ∙ append_assoc d x y),
  )

  pub collect-cons :
      (parse : Bytes → Option Addr) (raw : Bytes) (raws : List Bytes) (c out : List Addr)
      → collect n parse c (raw ∷ raws) ≡ some out
      → (a : Addr) × (parse raw ≡ some a)
        × (length c < max_forwarded_addresses)
        × (collect n parse (c ++ a ∷ []) raws ≡ some out)
  unfolding collect
  collect-cons parse raw raws c out h = elim (Option-cases (parse raw)) [
    | inl bad ↦ absurd (ground arith)
    | inr (a, good) ↦ (a, good, ground arith, ground arith)
  ]

  collect-Appends :
      (parse : Bytes → Option Addr) (raws : List Bytes) (c d out out' : List Addr)
      → collect n parse c raws ≡ some out
      → collect n parse d raws ≡ some out'
      → Appends c out d out'
  unfolding collect
  collect-Appends parse [] c d out out' p q = ([], cc (append-nil c), cc (append-nil d))
  collect-Appends parse (raw ∷ raws) c d out out' p q =
      let (a, good, _, p') = collect-cons parse raw raws c out p in
      let (b, good', _, q') = collect-cons parse raw raws d out' q in
      let same : b ≡ a = cc in
      let q'' = rw same at q' in
      Appends-trans c (c ++ a ∷ []) out d (d ++ a ∷ []) out' (a ∷ [], refl, refl)
        (collect-Appends parse raws (c ++ a ∷ []) (d ++ a ∷ []) out out' p' q'')

  pub values-cons :
      (value : Bytes) (values : List Bytes) (c out : List Addr)
      → x_forwarded_for_values n c (value ∷ values) ≡ some out
      → (mid : List Addr) × (collect n (parse_address n) c (split b',' value) ≡ some mid)
        × (x_forwarded_for_values n mid values ≡ some out)
  unfolding x_forwarded_for_values
  values-cons value values c out h =
      elim (Option-cases (collect n (parse_address n) c (split b',' value))) [
        | inl bad ↦ absurd (ground arith)
        | inr (mid, good) ↦ (mid, good, ground arith)
      ]

  values-Appends :
      (values : List Bytes) (c d out out' : List Addr)
      → x_forwarded_for_values n c values ≡ some out
      → x_forwarded_for_values n d values ≡ some out'
      → Appends c out d out'
  unfolding x_forwarded_for_values
  values-Appends [] c d out out' p q = ([], cc (append-nil c), cc (append-nil d))
  values-Appends (value ∷ values) c d out out' p q =
      let (m, here, p') = values-cons value values c out p in
      let (m', here', q') = values-cons value values d out' q in
      Appends-trans c m out d m' out'
        (collect-Appends (parse_address n) (split b',' value) c d m m' here here')
        (values-Appends values m m' out out' p' q')

  values-append :
      (forged values : List Bytes) (c out : List Addr)
      → x_forwarded_for_values n c (forged ++ values) ≡ some out
      → (mid : List Addr) × (x_forwarded_for_values n mid values ≡ some out)
  values-append [] values c out h = (c, h)
  values-append (f ∷ forged) values c out h =
      let (m, _, h') = values-cons f (forged ++ values) c out h in
      values-append forged values m out h'

  parse-values :
      (values : List Bytes) (chain : List Addr)
      → parse_x_forwarded_for n values ≡ some chain
      → x_forwarded_for_values n [] values ≡ some chain
  unfolding parse_x_forwarded_for non_empty
  parse-values values chain h = ground arith

  -- What stands before the client's own values only lengthens the chain in front.
  parse_x_forwarded_for-append :
      (forged values : List Bytes) (chain long : List Addr)
      → parse_x_forwarded_for n values ≡ some chain
      → parse_x_forwarded_for n (forged ++ values) ≡ some long
      → (front : List Addr) × (long ≡ front ++ chain)
  parse_x_forwarded_for-append forged values chain long p q =
      let (mid, rest) = values-append forged values [] long (parse-values _ long q) in
      let (added, own, longer) =
        values-Appends values [] mid chain long (parse-values values chain p) rest in
      (mid, rw own longer)

  first_untrusted-append :
      (trusted : List Prefix) (r s : List Addr) (a : Addr)
      → first_untrusted n trusted r ≡ some a
      → first_untrusted n trusted (r ++ s) ≡ some a
  unfolding first_untrusted
  first_untrusted-append trusted [] s a h = cc
  first_untrusted-append trusted (b ∷ r) s a h =
      ground (arith, first_untrusted-append trusted r s a)

  abbrev pub request : Bytes → List Bytes → Request
  request remote_addr values = record {
    remote_addr = remote_addr;
    forwarded = [];
    x_forwarded_for = values;
  }

  client_ip_trusted :
      (trusted : List Prefix) (remote_addr : Bytes) (peer : Addr) (forged : List Bytes) (x : Bytes)
      (xs : List Bytes)
      → parse_address n remote_addr ≡ some peer
      → is_trusted n trusted peer ≡ true
      → client_ip n (some trusted) (some (request remote_addr (forged ++ x ∷ xs)))
        ≡ settle n trusted peer (parse_x_forwarded_for n (forged ++ x ∷ xs))
  unfolding client_ip behind_proxy forwarding_chain
  client_ip_trusted trusted remote_addr peer [] x xs p q = rw (p, client_ip) (rw q refl)
  client_ip_trusted trusted remote_addr peer (f ∷ forged) x xs p q = rw (p, client_ip) (rw q refl)

  settle-append :
      (trusted : List Prefix) (peer a : Addr) (front chain : List Addr)
      → first_untrusted n trusted (reverse chain) ≡ some a
      → settle n trusted peer (some (front ++ chain)) ≡ text a
  unfolding settle
  settle-append trusted peer a front chain h =
      let found : first_untrusted n trusted (reverse (front ++ chain)) ≡ some a =
        rw (reverse-append front chain)
          (first_untrusted-append trusted (reverse chain) (reverse front) a h) in
      rw (found, settle) refl

  settle-none : (trusted : List Prefix) (peer : Addr) → settle n trusted peer none ≡ text peer
  unfolding settle
  settle-none trusted peer = refl

  -- Behind a trusted proxy, if the values of `X-Forwarded-For` establish a client address, then
  -- values that are put in front of them do not make it another one: the answer is still that
  -- address, or the address of the proxy if the whole header is then refused.
  pub client_ip_forged :
      (trusted : List Prefix) (remote_addr : Bytes) (peer a : Addr) (forged : List Bytes)
      (x : Bytes) (xs : List Bytes) (chain : List Addr)
      → parse_address n remote_addr ≡ some peer
      → is_trusted n trusted peer ≡ true
      → parse_x_forwarded_for n (x ∷ xs) ≡ some chain
      → first_untrusted n trusted (reverse chain) ≡ some a
      → (client_ip n (some trusted) (some (request remote_addr (x ∷ xs))) ≡ text a)
        × ((client_ip n (some trusted) (some (request remote_addr (forged ++ x ∷ xs))) ≡ text a)
            ⊎ (client_ip n (some trusted) (some (request remote_addr (forged ++ x ∷ xs)))
                ≡ text peer))
  client_ip_forged trusted remote_addr peer a forged x xs chain p q own client =
      let honest = client_ip_trusted trusted remote_addr peer [] x xs p q in
      let result = client_ip_trusted trusted remote_addr peer forged x xs p q in
      (
        honest ∙ (ap (settle n trusted peer) own ∙ settle-append trusted peer a [] chain client),
        elim (Option-cases (parse_x_forwarded_for n (forged ++ x ∷ xs))) [
          | inl refused ↦
              inr (result ∙ (ap (settle n trusted peer) refused ∙ settle-none trusted peer))
          | inr (long, parsed) ↦
              let (front, longer) =
                parse_x_forwarded_for-append forged (x ∷ xs) chain long own parsed in
              inl (
                result
                ∙ (ap (settle n trusted peer) (parsed ∙ ap some longer)
                    ∙ settle-append trusted peer a front chain client))
        ],
      )

  collect-length :
      (parse : Bytes → Option Addr) (raws : List Bytes) (c out : List Addr)
      → collect n parse c raws ≡ some out
      → length c ≤ max_forwarded_addresses
      → length out ≤ max_forwarded_addresses
  unfolding collect
  collect-length parse [] c out h q = ground arith
  collect-length parse (raw ∷ raws) c out h q =
      let (a, _, room, h') = collect-cons parse raw raws c out h in
      collect-length parse raws (c ++ a ∷ []) out h' (omega (arith, length-append c (a ∷ [])))

  values-length :
      (values : List Bytes) (c out : List Addr)
      → x_forwarded_for_values n c values ≡ some out
      → length c ≤ max_forwarded_addresses
      → length out ≤ max_forwarded_addresses
  unfolding x_forwarded_for_values
  values-length [] c out h q = ground arith
  values-length (value ∷ values) c out h q =
      let (mid, here, rest) = values-cons value values c out h in
      values-length values mid out rest
        (collect-length (parse_address n) (split b',' value) c mid here q)

  -- A chain that is accepted from `X-Forwarded-For` has one to 64 addresses, and comes from values
  -- of at most 8192 bytes.
  parse_x_forwarded_for_bounds :
      (values : List Bytes) (chain : List Addr)
      → parse_x_forwarded_for n values ≡ some chain
      → (0 < length chain)
        × (length chain ≤ max_forwarded_addresses)
        × (header_size values ≤ max_forwarded_header_bytes)
  unfolding parse_x_forwarded_for non_empty
  parse_x_forwarded_for_bounds values chain h =
      let run = parse-values values chain h in
      (non_empty_lem, values-length values [] chain run (omega arith), ground arith)
    where
      non_empty_lem : 0 < length chain
      non_empty_lem = ground arith
