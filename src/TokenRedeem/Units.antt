-- ===== src/TokenRedeem/Units.antt =====
-- messaging-service/src/token_redeem.rs: how many envelopes a paid unit covers.
use construct_server.Base.{
  ℕ, List, ◌≡◌, Bool, if◌then◌else◌, ◌<◌, ◌≤◌, arith, true, ◌+◌, ◌-◌, bytes_eq, false, ◌*◌,
  Bool-cases, inl, subst, bytes_eq_sound, inr, Option, ◌&&◌, ◌∷◌, some, leb, refl, [], none,
}
use construct_server.TokenRedeem.{
  Bytes, Entry, Redis, Hashes, Answers, TokenRedeemResult, exists_at, expiry, value_of, incr,
  set_nx, max_envelopes_per_spend_unit, unit_key, spend_nonce, redeem_opened, redeem_token,
  redeem_and_open, after_lookup, open_after, open_spend_unit, redeem_normalized,
  redeem_for_sealed_send, normalize_spend_id, try_cover_with_paid_unit, redeemed, unit_covered,
}
use construct_server.TokenRedeem.Once.{Send, redeem}

-- How many more envelopes a unit covers.
pub room : Bytes → ℕ → List Entry → ℕ
room key now units = if exists_at key now units then 256 - value_of key units else 0

abbrev pub one_if : Bool → ℕ
one_if true = 1
one_if false = 0

abbrev pub is_covered : TokenRedeemResult → Bool
is_covered unit_covered = true
is_covered _ = false

abbrev pub is_redeemed : TokenRedeemResult → Bool
is_redeemed redeemed = true
is_redeemed _ = false

room_later :
    (key : Bytes) (now later : ℕ) (units : List Entry)
    → now ≤ later
    → room key later units ≤ room key now units
unfolding room
room_later key now later units le = ground arith

incr-room :
    (key other : Bytes) (now : ℕ) (units : List Entry)
    → value_of other units < 256
    → exists_at other now units ≡ true
    → one_if (bytes_eq other key) + room key now (incr other units) ≤ room key now units
unfolding room incr expiry value_of
incr-room key other now units below live = elim (Bool-cases (bytes_eq other key)) [
  | inl e ↦
      let live' : exists_at key now units ≡ true =
        subst (λ k. exists_at k now units ≡ true) (bytes_eq_sound other key e) live in
      let below' : value_of key units < 256 =
        subst (λ k. value_of k units < 256) (bytes_eq_sound other key e) below in
      rw (e, bytes_eq_sound other key e) (ground (arith, live', below'))
  | inr e ↦ rw e (omega arith)
]

incr_shrinks :
    (key other : Bytes) (now : ℕ) (units : List Entry)
    → room key now (incr other units) ≤ room key now units
unfolding room incr expiry value_of
incr_shrinks key other now units = elim (Bool-cases (bytes_eq other key)) [
  | inl e ↦ rw (e, bytes_eq_sound other key e) (ground arith)
  | inr e ↦ rw e (omega arith)
]

new-room :
    (key other : Bytes) (now : ℕ) (units : List Entry)
    → room key now (record { key = other; value = 1; expires_at = now + 7200 } ∷ units)
      ≤ room key now units + 255 * one_if (bytes_eq other key)
unfolding room expiry value_of
new-room key other now units = elim (Bool-cases (bytes_eq other key)) [
  | inl e ↦ rw e (ground arith)
  | inr e ↦ rw e (omega arith)
]

-- What opening a unit gives.
open-room :
    (h : Hashes) (key id recipient : Bytes) (now : ℕ) (units : List Entry) (answers : Bool)
    → room key now (open_spend_unit h units id recipient now answers)
      ≤ room key now units + 255 * one_if (bytes_eq (unit_key h id recipient) key)
unfolding open_spend_unit set_nx
open-room h key id recipient now units false = omega arith
open-room h key id recipient now units true =
    let other = unit_key h id recipient in
    elim (Bool-cases (exists_at other now units)) [
      | inl live ↦ rw live (omega (arith, incr_shrinks key other now units))
      | inr dead ↦ rw dead (new-room key other now units)
    ]

-- The unit of a send, when it names one.
unfoldable pub names_unit : Hashes → Bytes → Option (Option Bytes) → Bytes → Bool
names_unit h key (some (some id)) recipient = bytes_eq (unit_key h id recipient) key
names_unit h key _ recipient = false

not_covered :
    (h : Hashes) (spent : List Entry) (nonce bytes : Bytes) (now : ℕ) (answers : Bool)
    → is_covered (redeem_token h spent nonce bytes now answers).1 ≡ false
unfolding redeem_token redeem_opened spend_nonce
not_covered h spent nonce bytes now answers = ground arith

and_false : (b : Bool) → (b && false) ≡ false
and_false true = refl
and_false false = refl

and_true : (b : Bool) → (b && true) ≡ b
and_true true = refl
and_true false = refl

module _ (h : Hashes) (key nonce bytes recipient : Bytes) (now : ℕ) (a : Answers) (db : Redis) where
  -- A covered envelope takes one from the unit; a redeemed token gives it at most 255.
  abbrev Rides : Bool → Redis × TokenRedeemResult → Type 0
  Rides same p =
      one_if (same && is_covered p.1) + room key now p.0.units
      ≤ room key now db.units + 255 * one_if (same && is_redeemed p.1)

  opened-Rides :
      (units : List Entry) (id : Bytes) (result : TokenRedeemResult)
      → is_covered result ≡ false
      → let same = bytes_eq (unit_key h id recipient) key in
        one_if (same && is_covered result)
          + room key now (open_after h units (some id) recipient now a.opening result)
        ≤ room key now units + 255 * one_if (same && is_redeemed result)
  unfolding open_after
  opened-Rides units id redeemed other =
      let same = bytes_eq (unit_key h id recipient) key in
      rw (and_false same, and_true same)
        (omega (arith, open-room h key id recipient now units a.opening))
  opened-Rides units id unit_covered other = absurd cc
  opened-Rides units id _ other =
      rw (and_false (bytes_eq (unit_key h id recipient) key)) (omega arith)

  lookup-Rides :
      (id : Bytes)
      → Rides (bytes_eq (unit_key h id recipient) key) (
          after_lookup h db nonce bytes id recipient now a
            (try_cover_with_paid_unit h db.units id recipient now a.lookup))
  unfolding after_lookup try_cover_with_paid_unit redeem_and_open
  lookup-Rides id =
      let other = unit_key h id recipient in
      let same = bytes_eq other key in
      elim (Bool-cases a.lookup) [
        | inl up ↦ elim (Bool-cases (exists_at other now db.units)) [
          | inl live ↦
              elim (Bool-cases (leb max_envelopes_per_spend_unit (value_of other db.units))) [
                | inl full ↦ simp (up, live, full, and_false same) (omega arith)
                | inr below ↦
                    simp (up, live, below, and_false same, and_true same)
                      (omega (arith, incr-room key other now db.units (ground arith) live))
              ]
          | inr dead ↦
              simp (up, dead)
                (opened-Rides db.units id (redeem_token h db.spent nonce bytes now a.spend).1
                  (not_covered h db.spent nonce bytes now a.spend))
        ]
        | inr down ↦ simp (down, and_false same) (omega arith)
      ]

  normalized-Rides :
      (spend_id : Option (Option Bytes))
      → Rides
          (names_unit h key spend_id recipient)
          (redeem_normalized h db nonce bytes spend_id recipient now a)
  unfolding redeem_normalized names_unit redeem_and_open open_after
  normalized-Rides none = omega arith
  normalized-Rides (some none) = omega arith
  normalized-Rides (some (some id)) = lookup-Rides id

  pub redeem-Rides :
      (spend_id : Bytes)
      → Rides
          (names_unit h key (normalize_spend_id spend_id) recipient)
          (redeem_for_sealed_send h db nonce bytes spend_id recipient now a)
  unfolding redeem_for_sealed_send
  redeem-Rides spend_id = normalized-Rides (normalize_spend_id spend_id)

-- How many sends of a run are covered by the unit `key`, and how many tokens are redeemed for it.
module _ (h : Hashes) (key : Bytes) where
  abbrev mine : Send → Bool
  mine s = names_unit h key (normalize_spend_id s.spend_id) s.recipient

  unfoldable pub rides : Redis → List Send → ℕ
  rides db [] = 0
  rides db (s ∷ ss) =
      let (db', result) = redeem h db s in one_if (mine s && is_covered result) + rides db' ss

  pub paid : Redis → List Send → ℕ
  paid db [] = 0
  paid db (s ∷ ss) =
      let (db', result) = redeem h db s in one_if (mine s && is_redeemed result) + paid db' ss

-- The times of a run do not go back.
unfoldable pub Ordered : ℕ → List Send → Type 0
Ordered now [] = Unit
Ordered now (s ∷ ss) = (now ≤ s.at) × Ordered s.at ss

-- Over any run of sends in the order of their times, the unit of one spend id and one recipient
-- covers at most what was left of it before, and 255 envelopes more for each token that is redeemed
-- for it, whatever else is sent meanwhile.
pub redeem_for_sealed_send-rides :
    (h : Hashes) (key : Bytes) (now : ℕ) (ss : List Send) (db : Redis)
    → Ordered now ss
    → rides h key db ss ≤ room key now db.units + 255 * paid h key db ss
unfolding rides paid Ordered
redeem_for_sealed_send-rides h key now [] db times = omega arith
redeem_for_sealed_send-rides h key now (s ∷ ss) db times =
    let step = redeem-Rides h key s.nonce s.bytes s.recipient s.at s.answers db s.spend_id in
    let rest = redeem_for_sealed_send-rides h key s.at ss (redeem h db s).0 times.1 in
    omega (arith, step, rest, room_later key now s.at db.units times.0)
