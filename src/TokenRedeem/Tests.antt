-- ===== src/TokenRedeem/Tests.antt =====
-- Token redemption at concrete inputs, with toy operations: keys are not hashed, a sealed token is
-- the token, and every token is good.
use construct_server.Base.{
  ℕ, List, ◌≡◌, ◌≢◌, some, true, refl, ◌∷◌, [], replicate, ◌≤◌, arith, ◌+◌, ◌*◌,
}
use construct_server.TokenRedeem.{
  value_of, Hashes, Redis, Answers, Bytes, redeemed, redeem_for_sealed_send, unit_key, expiry,
}
use construct_server.TokenRedeem.Once.{Send, redeem, run, redeem_for_sealed_send-once}
use construct_server.TokenRedeem.Units.{
  names_unit, rides, paid, room, Ordered, redeem_for_sealed_send-rides,
}

abbrev toy : Hashes
toy = record {
  hash = λ b. b;
  open_sealed_token_bytes = λ b. some b;
  verify_token = λ token nonce. true;
}

abbrev empty : Redis
empty = record { spent = []; units = [] }

abbrev up : Answers
up = record { lookup = true; spend = true; opening = true }

abbrev send : ℕ → Bytes → Send
send at bytes = record {
  nonce = replicate 32 1;
  bytes = bytes;
  spend_id = replicate 32 2;
  recipient = 7 ∷ [];
  at = at;
  answers = up;
}

abbrev token : Bytes
token = replicate 32 5

first_paid : (redeem toy empty (send 100 token)).1 ≡ redeemed
unfolding redeem_for_sealed_send expiry
first_paid = refl

redeem_for_sealed_send-once_example :
    (redeem toy
      (run toy (redeem toy empty (send 100 token)).0 (send 101 [] ∷ []))
      (send 9_000 token)).1
    ≢ redeemed
redeem_for_sealed_send-once_example =
    redeem_for_sealed_send-once toy empty (send 100 token) (send 9_000 token) (send 101 [] ∷ [])
      refl first_paid (omega arith)

-- One token, and two envelopes that it covers.
abbrev album : List Send
album = send 100 token ∷ send 101 [] ∷ send 102 [] ∷ []

abbrev unit : Bytes
unit = unit_key toy (replicate 32 2) (7 ∷ [])

album-rides : rides toy unit empty album ≡ 2
unfolding rides redeem_for_sealed_send expiry names_unit value_of
album-rides = refl

in_order : Ordered 100 album
unfolding Ordered
in_order = (omega arith, (omega arith, (omega arith, tt)))

redeem_for_sealed_send-rides_example :
    rides toy unit empty album ≤ room unit 100 empty.units + 255 * paid toy unit empty album
redeem_for_sealed_send-rides_example =
    redeem_for_sealed_send-rides toy unit 100 album empty in_order
