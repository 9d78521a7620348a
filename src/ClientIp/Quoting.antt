-- ===== src/ClientIp/Quoting.antt =====
-- Quoted strings in the `Forwarded` header, internal/clientip/resolver.go: what a sender quotes is
-- what the scanners read back.
use netgoat.Prelude.{
  ℕ, Bool, true, false, ◌||◌, ◌≡◌, ◌≢◌, ◌⊎◌, refl, ap, ◌∙◌, Option, none, some, List, [], ◌∷◌, ◌++◌,
  ltb, if◌then◌else◌, ◌==◌, nat_eq, last?, drop_last, All, arith, Bool-cases, inl, inr,
}
use mathlib.Core.List.{append_assoc, append-nil}
use netgoat.Std.Text.{Bytes, bytes_eq, codes, trim, trim_left, trim_right, cut, to_lower, bytes_beq}
use netgoat.ClientIp.NetIp.{NetIp}
use netgoat.ClientIp.Scan.{
  Scan, start, scan, scan_byte, finish, is_control, is_ows, trim_ows, is_token,
  split_outside_quotes, decode_inner, decode_forwarded_value,
}
use netgoat.ClientIp.Parse.{seen_name, parameters_loop, forwarded_for_address, parse_address}

-- A quoted string as RFC 7230 writes it: quotes and backslashes are escaped.
unfoldable pub escape : Bytes → Bytes
escape [] = []
escape (c ∷ s) = if c == 34 || c == 92 then 92 ∷ c ∷ escape s else c ∷ escape s

unfoldable pub quote : Bytes → Bytes
quote s = 34 ∷ escape s ++ 34 ∷ []

abbrev pub IsPrintable : ℕ → Type 0
IsPrintable c = (ltb c 0x20 || c == 0x7f) ≡ false

last?-append {ℓ} : {A : Type ℓ} (xs : List A) (x : A) → last? (xs ++ x ∷ []) ≡ some x
last?-append [] x = refl
last?-append (y ∷ []) x = refl
last?-append (y ∷ z ∷ xs) x = last?-append (z ∷ xs) x

drop_last-append {ℓ} : {A : Type ℓ} (xs : List A) (x : A) → drop_last (xs ++ x ∷ []) ≡ xs
drop_last-append [] x = refl
drop_last-append (y ∷ []) x = refl
drop_last-append (y ∷ z ∷ xs) x = ap (◌∷◌ y) (drop_last-append (z ∷ xs) x)

decode_inner-escape : (s : Bytes) → All IsPrintable s → decode_inner false (escape s) ≡ some s
unfolding decode_inner escape
decode_inner-escape [] h = refl
decode_inner-escape (c ∷ s) (p, h) = ground (arith, decode_inner-escape s h)

-- Decoding what was quoted gives back every text without control characters.
decode-quote : (s : Bytes) → All IsPrintable s → decode_forwarded_value (quote s) ≡ some s
unfolding decode_forwarded_value quote
decode-quote s h =
    rw (last?-append (escape s) 34, drop_last-append (escape s) 34) (decode_inner-escape s h)

abbrev inside : Bytes → Scan
inside cur = record { quoted = true; escaped = false; cur = cur }

pub scan_step :
    (delimiter : ℕ) (st st' : Scan) (c : ℕ) (s : Bytes)
    → scan_byte delimiter st c ≡ some ([], st')
    → scan delimiter st (c ∷ s) ≡ scan delimiter st' s
unfolding scan
scan_step delimiter st st' c s h = rw (h, scan) (ground arith)

module _ (delimiter : ℕ) where
  collect_byte :
      (cur : Bytes) (c : ℕ)
      → IsPrintable c
      → (c == 34 || c == 92) ≡ false
      → scan_byte delimiter (inside cur) c ≡ some ([], inside (cur ++ c ∷ []))
  unfolding scan_byte is_control
  collect_byte cur c p q = ground arith

  escaped_byte :
      (cur : Bytes) (c : ℕ)
      → (c == 34 || c == 92) ≡ true
      → scan_byte delimiter (record { quoted = true; escaped = true; cur = cur }) c
        ≡ some ([], inside (cur ++ c ∷ []))
  unfolding scan_byte is_control
  escaped_byte cur c q = ground arith

  backslash :
      (cur : Bytes)
      → scan_byte delimiter (inside cur) 92
        ≡ some ([], record { quoted = true; escaped = true; cur = cur ++ 92 ∷ [] })
  unfolding scan_byte is_control
  backslash cur = refl

  -- Inside quotes the scanner only collects, delimiters included.
  scan-escape :
      (s cur rest : Bytes)
      → All IsPrintable s
      → scan delimiter (inside cur) (escape s ++ rest)
        ≡ scan delimiter (inside (cur ++ escape s)) rest
  unfolding escape
  scan-escape [] cur rest h = rw append-nil refl
  scan-escape (c ∷ s) cur rest (p, h) = elim (Bool-cases (c == 34 || c == 92)) [
    | inl special ↦ rw special (
        scan_step delimiter _ _ 92 (c ∷ escape s ++ rest) (backslash cur)
        ∙ (scan_step delimiter _ _ c (escape s ++ rest) (escaped_byte (cur ++ 92 ∷ []) c special)
            ∙ (scan-escape s ((cur ++ 92 ∷ []) ++ c ∷ []) rest h
                ∙ ap (λ x. scan delimiter (inside x) rest) (simp append_assoc))))
    | inr plain ↦ rw plain (
        scan_step delimiter _ _ c (escape s ++ rest) (collect_byte cur c p plain)
        ∙ (scan-escape s (cur ++ c ∷ []) rest h
            ∙ ap (λ x. scan delimiter (inside x) rest) (simp append_assoc)))
  ]

-- `for="…"`
unfoldable pub for_element : Bytes → Bytes
for_element s = codes "for=" ++ quote s

trim_right-append :
    (p : ℕ → Bool) (s : Bytes) (d : ℕ) → p d ≡ false → trim_right p (s ++ d ∷ []) ≡ s ++ d ∷ []
unfolding trim_right
trim_right-append p [] d h = rw h refl
trim_right-append p (c ∷ []) d h = rw (trim_right-append p [] d h, trim_right) refl
trim_right-append p (c ∷ e ∷ s) d h = rw (trim_right-append p (e ∷ s) d h, trim_right) refl

trim_ows-ends :
    (c : ℕ) (s : Bytes) (d : ℕ)
    → is_ows c ≡ false
    → is_ows d ≡ false
    → trim_ows (c ∷ s ++ d ∷ []) ≡ c ∷ s ++ d ∷ []
unfolding trim_ows trim trim_left
trim_ows-ends c s d p q = rw p (trim_right-append is_ows (c ∷ s) d q)

trim_ows-for_element : (s : Bytes) → trim_ows (for_element s) ≡ for_element s
unfolding for_element quote is_ows
trim_ows-for_element s = trim_ows-ends 102 (111 ∷ 114 ∷ 61 ∷ 34 ∷ escape s) 34 refl refl

abbrev IsDelimiter : ℕ → Type 0
IsDelimiter d = (d ≡ b',') ⊎ (d ≡ b';')

abbrev plain : Bytes → Scan
plain cur = record { quoted = false; escaped = false; cur = cur }

-- From the start to the opening quote.
scan-for :
    (d : ℕ) (rest : Bytes)
    → IsDelimiter d
    → scan d start (102 ∷ 111 ∷ 114 ∷ 61 ∷ 34 ∷ rest)
      ≡ scan d (inside (codes "for=" ++ 34 ∷ [])) rest
unfolding scan_byte is_control
scan-for d rest h =
    scan_step d start (plain (102 ∷ [])) 102 _ (ground arith)
    ∙ (scan_step d _ (plain (102 ∷ 111 ∷ [])) 111 _ (ground arith)
        ∙ (scan_step d _ (plain (102 ∷ 111 ∷ 114 ∷ [])) 114 _ (ground arith)
            ∙ (scan_step d _ (plain (codes "for=")) 61 _ (ground arith)
                ∙ scan_step d _ _ 34 rest (ground arith))))

finish-for_element : (s : Bytes) → finish (for_element s) ≡ some (for_element s)
unfolding finish
finish-for_element s = rw (trim_ows-for_element s, finish) (opened s)
  where
    opened :
        (s : Bytes)
        → elim (for_element s) as (λ _. Option Bytes) [ [] ↦ none | c ∷ r ↦ some (c ∷ r) ]
          ≡ some (for_element s)
    opened s = unfold for_element quote in refl

scan-plain : (d : ℕ) (s : Bytes) → scan d (plain (for_element s)) [] ≡ some (for_element s ∷ [])
unfolding scan
scan-plain d s = rw (finish-for_element s) refl

-- From the closing quote to the end.
scan-end :
    (d : ℕ) (s : Bytes)
    → scan d (inside ((codes "for=" ++ 34 ∷ []) ++ escape s)) (34 ∷ []) ≡ some (for_element s ∷ [])
unfolding scan_byte is_control for_element quote
scan-end d s = scan_step d _ (plain (for_element s)) 34 [] refl ∙ scan-plain d s

-- An element that carries a quoted address is one element, whatever the address holds.
pub split-for_element :
    (d : ℕ) (s : Bytes)
    → IsDelimiter d
    → All IsPrintable s
    → split_outside_quotes (for_element s) d ≡ some (for_element s ∷ [])
unfolding split_outside_quotes for_element quote
split-for_element d s which h =
    rw (trim_ows-for_element s, split_outside_quotes)
      (scan-for d (escape s ++ 34 ∷ []) which
        ∙ (scan-escape d s (codes "for=" ++ 34 ∷ []) (34 ∷ []) h ∙ scan-end d s))

trim_ows-quote : (s : Bytes) → trim_ows (quote s) ≡ quote s
unfolding quote is_ows
trim_ows-quote s = trim_ows-ends 34 (escape s) 34 refl refl

trim_ows-for : trim_ows (codes "for") ≡ codes "for"
unfolding trim_ows trim trim_left trim_right is_ows
trim_ows-for = refl

cut-for_element : (s : Bytes) → cut 61 (for_element s) ≡ some (codes "for", quote s)
unfolding cut for_element
cut-for_element s = refl

module _ (n : NetIp) where
  open n use {Addr}

  parameters_loop-for_element :
      (s : Bytes) → All IsPrintable s → parameters_loop n [] [] (for_element s ∷ []) ≡ some s
  unfolding parameters_loop seen_name to_lower bytes_beq is_token quote
  parameters_loop-for_element s h =
      rw (trim_ows-for_element s, parameters_loop)
        (rw (cut-for_element s, parameters_loop)
          (rw (trim_ows-for, trim_ows-quote s) (rw (decode-quote s h, parameters_loop) refl)))

  -- An element that quotes an address gives that address.
  pub forwarded_for_address-for_element :
      (s : Bytes)
      → All IsPrintable s
      → s ≢ []
      → forwarded_for_address n (for_element s) ≡ parse_address n s
  unfolding forwarded_for_address bytes_beq
  forwarded_for_address-for_element [] h some' = absurd (some' refl)
  forwarded_for_address-for_element (c ∷ s) h some' =
      rw (split-for_element b';' (c ∷ s) (inr refl) h, forwarded_for_address)
        (rw (parameters_loop-for_element (c ∷ s) h, forwarded_for_address) refl)
