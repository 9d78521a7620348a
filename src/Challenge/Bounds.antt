-- ===== src/Challenge/Bounds.antt =====
-- How suspicious a client can become in internal/challenge/challenge.go.
use netgoat.Prelude.{
  suc, ℕ, ◌+◌, ◌≤◌, ◌≡◌, ◌≢◌, refl, ap, Bool, false, ◌&&◌, ◌||◌, [], ◌∷◌, ◌==◌, nat_eq, ltb, length,
  arith,
}
use netgoat.Std.Text.{Bytes, bytes_eq, bytes_beq_iff, to_lower}
use netgoat.Challenge.Suspicion.{
  slider, count_byte, points, capped, calculate_suspicion, determine_challenge_type,
}

count_byte-le : (b : ℕ) (s : Bytes) → count_byte b s ≤ length s
unfolding count_byte
count_byte-le b [] = omega arith
count_byte-le b (c ∷ s) = ground (arith, count_byte-le b s)

length-to_lower : (s : Bytes) → length (to_lower s) ≡ length s
unfolding to_lower
length-to_lower [] = refl
length-to_lower (c ∷ s) = ap suc (length-to_lower s)

-- A user agent is not both too short and too long.
short_or_long :
    (ua : Bytes)
    → ((ua == [] || ltb (length ua) 10)
        && (ltb 10 (count_byte b';' (to_lower ua)) || ltb 300 (length (to_lower ua))))
      ≡ false
short_or_long ua =
    ground (arith, length-to_lower ua, count_byte-le b';' (to_lower ua), bytes_beq_iff ua [])

total :
    (bot short plain long : Bool)
    → (short && long) ≡ false
    → capped (points bot 30 + points short 25 + points plain 15 + points long 10) ≤ 70
unfolding points capped
total bot short plain long apart = ground arith

below_slider : (n : ℕ) → n ≤ 70 → determine_challenge_type n ≢ slider
unfolding determine_challenge_type
below_slider n q = ground arith

-- No client is suspicious enough for a slider: a user agent cannot be both too short and too long.
calculate_suspicion_bound :
    (user_agent ip : Bytes)
    → (calculate_suspicion user_agent ip ≤ 70)
      × (determine_challenge_type (calculate_suspicion user_agent ip) ≢ slider)
unfolding calculate_suspicion
calculate_suspicion_bound user_agent ip =
    let small : calculate_suspicion user_agent ip ≤ 70 = total _ _ _ _ (short_or_long user_agent) in
    (small, below_slider _ small)
