-- ===== src/Gateway/ZeroTrust.antt =====
-- The way of a user through the zero-trust challenge of main.go: the page of the gate, the handler
-- that checks the answer, and the gate again.
use netgoat.Prelude.{nat_eq}
use netgoat.Std.Text.{Bytes, bytes_eq}
use netgoat.Challenge.Store.{Challenge, Store}
use netgoat.Gateway.Request.{Request, Url, zero_trust_challenge_binding}
use netgoat.Gateway.World.{World, Site, Moment}
use netgoat.Gateway.Gates.{client, auth_result}

module _ (w : World) (site : Site w) where
  abbrev pub binding_of : Moment → Request → Bytes
  binding_of m r = zero_trust_challenge_binding (client w site m r) (auth_result w site m r)
