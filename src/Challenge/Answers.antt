-- ===== src/Challenge/Answers.antt =====
-- The answers that internal/challenge/challenge.go draws, as functions of the random bytes it reads.
use netgoat.Prelude.{
  ℕ, zero, suc, ◌+◌, ◌/◌, ◌%◌, Bool, ◌||◌, List, [], ◌∷◌, if◌then◌else◌, ◌==◌, nat_eq, take, ltb,
  length, get_elem?, none, some,
}
use netgoat.Std.Text.{Bytes, codes}
use netgoat.Challenge.Suspicion.{ChallengeType, no_challenge, text, click, slider}

-- `boundedClone`
unfoldable pub bounded_clone : Bytes → ℕ → Bytes
bounded_clone value limit = if ltb limit (length value) then take limit value else value

abbrev pub words : List Bytes
words =
    codes "sunrise"
    ∷ codes "mountain"
    ∷ codes "ocean"
    ∷ codes "forest"
    ∷ codes "desert"
    ∷ codes "river"
    ∷ codes "cloud"
    ∷ codes "thunder"
    ∷ []

unfoldable pub generate_text_answer : ℕ → Bytes
generate_text_answer b = elim (get_elem? words (b % length words)) [ none ↦ [] | some word ↦ word ]

-- `strings.Join(result, ",")` of the digits of the fields `idx`, `idx + 1`, ... that were seen.
unfoldable pub join_seen : (ℕ → Bool) → ℕ → ℕ → Bytes
join_seen seen zero idx = []
join_seen seen (suc fields) idx =
    let rest = join_seen seen fields (idx + 1) in
    if seen idx then (b'0' + idx) ∷ (elim rest [ [] ↦ [] | c ∷ cs ↦ b',' ∷ c ∷ cs ]) else rest

unfoldable pub generate_click_answer : ℕ → ℕ → ℕ → Bytes
generate_click_answer b0 b1 b2 =
    join_seen (λ idx. b0 % 9 == idx || b1 % 9 == idx || b2 % 9 == idx) 9 0

unfoldable pub generate_slider_answer : ℕ → Bytes
generate_slider_answer b = (b'0' + (20 + b % 60) / 10) ∷ []

-- The three bytes that an answer may need.
pub record Draw : Type 0 where
  pub b0 : ℕ
  pub b1 : ℕ
  pub b2 : ℕ

-- The `switch` of `Create`.
unfoldable pub generate_answer : ChallengeType → Draw → Bytes
generate_answer no_challenge d = []
generate_answer text d = generate_text_answer d.b0
generate_answer click d = generate_click_answer d.b0 d.b1 d.b2
generate_answer slider d = generate_slider_answer d.b0
