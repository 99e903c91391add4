-- ===== src/TokenRedeem/Once.antt =====
-- messaging-service/src/token_redeem.rs: a nonce is spent once.
use construct_server.Base.{
  ℕ, List, ◌≡◌, Bool, true, ◌≢◌, ◌≤◌, Bool-cases, ◌+◌, arith, bytes_eq, inl, false, inr,
  bytes_eq_refl, bytes_eq_sound, ◌∷◌, refl, Option, [], if◌then◌else◌, length, subst, ◌<◌, ap, ◌==◌,
  some, ◌||◌, none, not,
}
use construct_server.TokenRedeem.{
  covered, exhausted, need_token, lookup_error, Bytes, Entry, Redis, Hashes, Answers,
  TokenRedeemResult, UnitLookup, exists_at, expiry, set_nx, spent_ttl_secs, spend_nonce,
  redeem_opened, redeem_token, redeem_and_open, after_lookup, redeem_normalized,
  redeem_for_sealed_send, normalize_spend_id, try_cover_with_paid_unit, redeemed, redis_error,
  unit_covered, decrypt_failed, double_spent, invalid_token, unit_exhausted, missing_token,
}

-- `SET NX` never takes life from a key.
set_nx-expiry :
    (key other : Bytes) (value ttl now : ℕ) (es : List Entry)
    → expiry key es ≤ expiry key (set_nx other value ttl now es).0
unfolding set_nx expiry
set_nx-expiry key other value ttl now es = elim (Bool-cases (exists_at other now es)) [
  | inl live ↦ rw live (omega arith)
  | inr dead ↦ rw dead (elim (Bool-cases (bytes_eq other key)) [
    | inl e ↦
        let free : exists_at key now es ≡ false =
          subst (λ k. exists_at k now es ≡ false) (bytes_eq_sound other key e) dead in
        rw e (ground (arith, free))
    | inr e ↦ rw e (omega arith)
  ])
]

set_nx-fresh :
    (key : Bytes) (value ttl now : ℕ) (es : List Entry)
    → (set_nx key value ttl now es).1 ≡ true
    → (expiry key es ≤ now) × (expiry key (set_nx key value ttl now es).0 ≡ now + ttl)
unfolding set_nx expiry
set_nx-fresh key value ttl now es = elim (Bool-cases (exists_at key now es)) [
  | inl live ↦ rw live (λ h. absurd cc)
  | inr dead ↦ rw (dead, bytes_eq_refl key) (λ h. (ground arith, refl))
]

-- What one redemption does to the nonces that are spent.
pub record Spending (key nonce_key : Bytes) (now : ℕ) (before after : List Entry)
    (result : TokenRedeemResult) : Type 0 where
  pub lives : expiry key before ≤ expiry key after
  pub spends :
      result ≡ redeemed
      → (expiry nonce_key before ≤ now) × (expiry nonce_key after ≡ now + spent_ttl_secs)

unchanged :
    (key nonce_key : Bytes) (now : ℕ) (es : List Entry) (result : TokenRedeemResult)
    → result ≢ redeemed
    → Spending key nonce_key now es es result
unchanged key nonce_key now es result other = record {
  lives = omega arith;
  spends = λ h. absurd (other h);
}

fresh_redeemed : (b : Bool) → (if b then redeemed else double_spent) ≡ redeemed → b ≡ true
fresh_redeemed true h = refl
fresh_redeemed false h = absurd cc

module _ (h : Hashes) (key nonce : Bytes) (now : ℕ) where
  abbrev Spends : List Entry → List Entry × TokenRedeemResult → Type 0
  Spends before p = Spending key (h.hash nonce) now before p.0 p.1

  spend_nonce-Spending :
      (spent : List Entry) (answers : Bool) → Spends spent (spend_nonce h spent nonce now answers)
  unfolding spend_nonce
  spend_nonce-Spending spent false = unchanged key (h.hash nonce) now spent redis_error (λ e. cc)
  spend_nonce-Spending spent true = record {
    lives = set_nx-expiry key (h.hash nonce) 1 spent_ttl_secs now spent;
    spends = λ e. set_nx-fresh (h.hash nonce) 1 spent_ttl_secs now spent (fresh_redeemed _ e);
  }

  opened-Spending :
      (spent : List Entry) (token : Option Bytes) (answers : Bool)
      → Spends spent (redeem_opened h spent nonce token now answers)
  unfolding redeem_opened
  opened-Spending spent none answers =
      unchanged key (h.hash nonce) now spent decrypt_failed (λ e. cc)
  opened-Spending spent (some token) answers =
      elim (Bool-cases (not (length token == 32) || not (h.verify_token token nonce))) [
        | inl e ↦ rw e (unchanged key (h.hash nonce) now spent invalid_token (λ e'. cc))
        | inr e ↦ rw e (spend_nonce-Spending spent answers)
      ]

  token-Spending :
      (spent : List Entry) (bytes : Bytes) (answers : Bool)
      → Spends spent (redeem_token h spent nonce bytes now answers)
  unfolding redeem_token
  token-Spending spent bytes answers = elim (Bool-cases (length nonce == 0 || length bytes == 0)) [
    | inl e ↦ rw e (unchanged key (h.hash nonce) now spent missing_token (λ e'. cc))
    | inr e ↦ rw e (elim (Bool-cases (length nonce == 32)) [
      | inl f ↦ rw f (opened-Spending spent (h.open_sealed_token_bytes bytes) answers)
      | inr f ↦ rw f (unchanged key (h.hash nonce) now spent invalid_token (λ e'. cc))
    ])
  ]

  module _ (db : Redis) (bytes recipient : Bytes) (a : Answers) where
    abbrev Spent : Redis × TokenRedeemResult → Type 0
    Spent p = Spending key (h.hash nonce) now db.spent p.0.spent p.1

    refused :
        (units : List Entry) (result : TokenRedeemResult)
        → result ≢ redeemed
        → Spent (record db { units = units }, result)
    refused units result other = unchanged key (h.hash nonce) now db.spent result other

    open-Spending :
        (id : Option Bytes) → Spent (redeem_and_open h db nonce bytes id recipient now a)
    unfolding redeem_and_open
    open-Spending id = token-Spending db.spent bytes a.spend

    lookup-Spending :
        (id : Bytes) (units : List Entry) (found : UnitLookup)
        → Spent (after_lookup h db nonce bytes id recipient now a (units, found))
    unfolding after_lookup
    lookup-Spending id units covered = refused units unit_covered (λ e. cc)
    lookup-Spending id units exhausted = refused db.units unit_exhausted (λ e. cc)
    lookup-Spending id units lookup_error = refused db.units redis_error (λ e. cc)
    lookup-Spending id units need_token = open-Spending (some id)

    normalized-Spending :
        (spend_id : Option (Option Bytes))
        → Spent (redeem_normalized h db nonce bytes spend_id recipient now a)
    unfolding redeem_normalized
    normalized-Spending none = refused db.units invalid_token (λ e. cc)
    normalized-Spending (some none) = open-Spending none
    normalized-Spending (some (some id)) =
        let (units, found) = try_cover_with_paid_unit h db.units id recipient now a.lookup in
        lookup-Spending id units found

    pub redeem-Spending :
        (spend_id : Bytes)
        → Spent (redeem_for_sealed_send h db nonce bytes spend_id recipient now a)
    unfolding redeem_for_sealed_send
    redeem-Spending spend_id = normalized-Spending (normalize_spend_id spend_id)

-- A redemption.
pub record Send : Type 0 where
  pub nonce : Bytes
  pub bytes : Bytes
  pub spend_id : Bytes
  pub recipient : Bytes
  pub at : ℕ
  pub answers : Answers

abbrev pub redeem : Hashes → Redis → Send → Redis × TokenRedeemResult
redeem h db s = redeem_for_sealed_send h db s.nonce s.bytes s.spend_id s.recipient s.at s.answers

pub run : Hashes → Redis → List Send → Redis
run h db [] = db
run h db (s ∷ ss) = run h (redeem h db s).0 ss

run-expiry :
    (h : Hashes) (key : Bytes) (ss : List Send) (db : Redis)
    → expiry key db.spent ≤ expiry key (run h db ss).spent
unfolding run
run-expiry h key [] db = omega arith
run-expiry h key (s ∷ ss) db =
    let step = redeem-Spending h key s.nonce s.at db s.bytes s.recipient s.answers s.spend_id in
    let rest = run-expiry h key ss (redeem h db s).0 in omega (arith, step.lives, rest)

-- A token nonce that was redeemed is not redeemed again within the thirty days that its marker
-- lives, with any token bytes, spend id and recipient, after any run of other redemptions, some of
-- which Redis may not answer.
pub redeem_for_sealed_send-once :
    (h : Hashes) (db : Redis) (first second : Send) (between : List Send)
    → first.nonce ≡ second.nonce
    → (redeem h db first).1 ≡ redeemed
    → second.at < first.at + spent_ttl_secs
    → (redeem h (run h (redeem h db first).0 between) second).1 ≢ redeemed
redeem_for_sealed_send-once h db first second between same paid soon again =
    let key = h.hash first.nonce in
    let one =
      redeem-Spending h key first.nonce first.at db first.bytes first.recipient first.answers
        first.spend_id in
    let mid = run h (redeem h db first).0 between in
    let kept = run-expiry h key between (redeem h db first).0 in
    let two =
      redeem-Spending h key second.nonce second.at mid second.bytes second.recipient second.answers
        second.spend_id in
    let marked : expiry key mid.spent ≤ second.at = rw (ap h.hash same) ((two.spends again).0) in
    absurd (omega (arith, soon, marked, kept, (one.spends paid).1))
