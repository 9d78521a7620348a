-- ===== src/Challenge/Suspicion.antt =====
-- `CalculateSuspicion` and `DetermineChallengeType` of internal/challenge/challenge.go.
use netgoat.Prelude.{
  ℕ, ◌+◌, Bool, true, false, not, ◌&&◌, ◌||◌, List, [], ◌∷◌, if◌then◌else◌, ◌==◌, nat_eq, ltb,
  length,
}
use netgoat.Std.Text.{Bytes, bytes_eq, codes, to_lower, contains}

pub data ChallengeType : Type 0 where
  no_challenge : ChallengeType
  text : ChallengeType
  click : ChallengeType
  slider : ChallengeType

abbrev pub bots : List Bytes
bots =
    codes "bot"
    ∷ codes "crawler"
    ∷ codes "spider"
    ∷ codes "scraper"
    ∷ codes "curl"
    ∷ codes "wget"
    ∷ codes "python"
    ∷ codes "go-http-client"
    ∷ codes "java"
    ∷ []

unfoldable pub has_any : Bytes → List Bytes → Bool
has_any ua [] = false
has_any ua (b ∷ bs) = if contains ua b then true else has_any ua bs

unfoldable pub count_byte : ℕ → Bytes → ℕ
count_byte b [] = 0
count_byte b (c ∷ s) = let rest = count_byte b s in if c == b then rest + 1 else rest

unfoldable pub points : Bool → ℕ → ℕ
points b n = if b then n else 0

unfoldable pub capped : ℕ → ℕ
capped score = if ltb 100 score then 100 else score

-- The address of the client is not looked at.
unfoldable pub calculate_suspicion : Bytes → Bytes → ℕ
calculate_suspicion user_agent ip =
    let ua = to_lower user_agent in
    capped (
      points (has_any ua bots) 30
      + points (user_agent == [] || ltb (length user_agent) 10) 25
      + points
          (not (contains ua (codes "mozilla"))
            && not (contains ua (codes "chrome"))
            && not (contains ua (codes "safari")))
          15
      + points (ltb 10 (count_byte b';' ua) || ltb 300 (length ua)) 10)

unfoldable pub determine_challenge_type : ℕ → ChallengeType
determine_challenge_type suspicion =
    if ltb suspicion 30
    then no_challenge
    else if ltb suspicion 60
    then text
    else if ltb suspicion 80
    then click
    else slider
