-- ===== src/Gateway/Pages.antt =====
-- Error pages of main.go, and the challenges that come with them. The pages themselves are HTML and
-- not modelled, but the configured page that is picked.
use netgoat.Prelude.{
  ℕ, ◌+◌, Bool, true, false, ◌&&◌, ◌||◌, Option, none, some, List, [], ◌∷◌, if◌then◌else◌, ltb,
  length,
}
use netgoat.Std.Dict.{Dict, lookup}
use netgoat.Std.Text.{Bytes, bytes_eq, codes, to_lower, trim_space, has_prefix, contains}
use netgoat.Challenge.Suspicion.{
  ChallengeType, no_challenge, text, click, slider, calculate_suspicion, determine_challenge_type,
}
use netgoat.Challenge.Answers.{Draw}
use netgoat.Challenge.Store.{Store, Challenge, create, is_verified}
use netgoat.Gateway.Request.{Request}
use netgoat.Agent.Sharing.{header_get}

pub record ErrorPageStore : Type 0 where
  pub by_host : Dict Bytes Bytes
  pub by_path : Dict Bytes Bytes
  pub default_page : Bytes

-- The loop over the prefixes, with the length of the best one so far plus one, and its page.
unfoldable pub pick_path : Bytes → ℕ → Option Bytes → Dict Bytes Bytes → Option Bytes
pick_path path best chosen [] = chosen
pick_path path best chosen ((prefix, page) ∷ rest) =
    if has_prefix path prefix && (ltb best (length prefix + 1) && ltb 0 (length page))
    then pick_path path (length prefix + 1) (some page) rest
    else pick_path path best chosen rest

unfoldable pub pick_by_path : Request → ErrorPageStore → Bytes
pick_by_path r s = elim (pick_path r.path 0 none s.by_path) [
  | none ↦ s.default_page
  | some page ↦ page
]

unfoldable pub pick : Request → ErrorPageStore → Bytes
pick r s = elim (lookup (to_lower r.host) s.by_host) [
  | none ↦ pick_by_path r s
  | some page ↦ if ltb 0 (length page) then page else pick_by_path r s
]

unfoldable pub is_html : Bytes → Bool
is_html b =
    let trimmed = trim_space (to_lower b) in
    has_prefix trimmed (codes "<")
    && (contains trimmed (codes "<html") || contains trimmed (codes "<body"))

-- What a page shows: the configured page, the plain text, or a page with or without a challenge.
pub data Page : Type 0 where
  configured : Bytes → Page
  plain : Page
  dynamic : Option Challenge → Page

-- What a new challenge draws: its random bytes, and the ids until one is free.
pub record Dice : Type 0 where
  pub draw : Draw
  pub ids : List Bytes

unfoldable pub is_none : ChallengeType → Bool
is_none no_challenge = true
is_none text = false
is_none click = false
is_none slider = false

module _ (sum : Bytes → Bytes) where
  -- Without a free id among those drawn there is no challenge.
  unfoldable pub new_challenge :
      Bytes → Bytes → ℕ → ChallengeType → Dice → ℕ → Store → Option Challenge × Store
  new_challenge ip user_agent suspicion kind dice now s =
      elim (create sum ip user_agent suspicion kind dice.draw dice.ids now s) [
        | none ↦ (none, s)
        | some (c, s') ↦ (some c, s')
      ]

  unfoldable pub error_challenge : Bytes → Bytes → Dice → ℕ → Store → Option Challenge × Store
  error_challenge ip user_agent dice now s =
      let suspicion = calculate_suspicion user_agent ip in
      let kind = determine_challenge_type suspicion in
      if is_none kind then (none, s) else new_challenge ip user_agent suspicion kind dice now s

  unfoldable pub verified_page : ErrorPageStore → Request → Page
  verified_page pages r =
      let p = pick r pages in if ltb 0 (length p) && is_html p then configured p else plain

  -- `ip` is the address of the client.
  unfoldable pub write_error : ErrorPageStore → Bytes → Request → Dice → ℕ → Store → Page × Store
  write_error pages ip r dice now s =
      let (passed, s') = is_verified sum ip now s in
      if passed
      then (verified_page pages r, s')
      else (let (c, s'') =
            error_challenge ip (header_get (codes "User-Agent") r.header) dice now s' in
          (dynamic c, s''))

  unfoldable pub write_zero_trust_challenge : Bytes → Request → Dice → ℕ → Store → Page × Store
  write_zero_trust_challenge binding r dice now s =
      let (c, s') =
        new_challenge binding (header_get (codes "User-Agent") r.header) 50 text dice now s in
      (dynamic c, s')
