-- ===== src/TokenRedeem.antt =====
-- messaging-service/src/token_redeem.rs: redeeming the Privacy Pass token of a sealed send.
--
-- SHA-256 with hex encoding, the opening of a sealed token and its verification are parameters.
-- Redis holds two families of keys, told apart by their prefix: `spent`, of nonces, and `units`, of
-- paid logical messages. A key exists until its time of expiry. Each Lua script and each command is
-- one step; whether Redis answers it is an argument.
pub mod Once
pub mod Units
mod Tests
use construct_server.Base.{
  Bool, List, Option, ℕ, ◌++◌, if◌then◌else◌, ltb, some, suc, true, ◌∷◌, bytes_eq, false, length,
  none, not, [], leb, ◌+◌, ◌==◌, ◌||◌,
}

abbrev pub Bytes : Type 0
Bytes = List ℕ

abbrev pub spent_ttl_secs : ℕ
spent_ttl_secs = 2_592_000

abbrev pub spend_unit_ttl_secs : ℕ
spend_unit_ttl_secs = 7_200

abbrev pub max_envelopes_per_spend_unit : ℕ
max_envelopes_per_spend_unit = 256

abbrev pub spend_id_len : ℕ
spend_id_len = 32

pub data TokenRedeemResult : Type 0 where
  redeemed unit_covered missing_token decrypt_failed invalid_token : TokenRedeemResult
  double_spent unit_exhausted redis_error not_configured : TokenRedeemResult

abbrev pub is_accept : TokenRedeemResult → Bool
is_accept redeemed = true
is_accept unit_covered = true
is_accept _ = false

-- A write to Redis; the newest write of a key counts.
pub record Entry : Type 0 where
  pub key : Bytes
  pub value : ℕ
  pub expires_at : ℕ

pub record Redis : Type 0 where
  pub spent : List Entry
  pub units : List Entry

-- `expiry` and `value_of` of a key that was never written are 0.
pub expiry : Bytes → List Entry → ℕ
expiry key [] = 0
expiry key (e ∷ es) = if bytes_eq e.key key then e.expires_at else expiry key es

pub value_of : Bytes → List Entry → ℕ
value_of key [] = 0
value_of key (e ∷ es) = if bytes_eq e.key key then e.value else value_of key es

abbrev pub exists_at : Bytes → ℕ → List Entry → Bool
exists_at key now es = ltb now (expiry key es)

-- `SET key value EX ttl NX`.
pub set_nx : Bytes → ℕ → ℕ → ℕ → List Entry → List Entry × Bool
set_nx key value ttl now es =
    if exists_at key now es
    then (es, false)
    else (record { key = key; value = value; expires_at = now + ttl } ∷ es, true)

-- `INCR` of a key that exists.
pub incr : Bytes → List Entry → List Entry
incr key es = record { key = key; value = suc (value_of key es); expires_at = expiry key es } ∷ es

pub data UnitLookup : Type 0 where
  covered exhausted need_token lookup_error : UnitLookup

-- `Err(())` is `none`.
pub normalize_spend_id : Bytes → Option (Option Bytes)
normalize_spend_id raw =
    if length raw == 0
    then some none
    else if length raw == spend_id_len
    then some (some raw)
    else none

-- Whether Redis answers the lookup, the spending and the opening of the unit.
pub record Answers : Type 0 where
  pub lookup : Bool
  pub spend : Bool
  pub opening : Bool

pub record Hashes : Type 0 where
  pub hash : Bytes → Bytes
  pub open_sealed_token_bytes : Bytes → Option Bytes
  pub verify_token : Bytes → Bytes → Bool

module _ (h : Hashes) where
  abbrev pub unit_key : Bytes → Bytes → Bytes
  unit_key spend_id recipient_user_id = h.hash (spend_id ++ (124 ∷ recipient_user_id))

  -- The script: absent, at the cap, or counted.
  pub try_cover_with_paid_unit : List Entry → Bytes → Bytes → ℕ → Bool → List Entry × UnitLookup
  unfolding incr
  try_cover_with_paid_unit units spend_id recipient now answers =
      let key = unit_key spend_id recipient in
      if not answers
      then (units, lookup_error)
      else if not (exists_at key now units)
      then (units, need_token)
      else if leb max_envelopes_per_spend_unit (value_of key units)
      then (units, exhausted)
      else (incr key units, covered)

  pub open_spend_unit : List Entry → Bytes → Bytes → ℕ → Bool → List Entry
  unfolding set_nx incr
  open_spend_unit units spend_id recipient now answers =
      let key = unit_key spend_id recipient in
      if not answers
      then units
      else if exists_at key now units
      then incr key units
      else (set_nx key 1 spend_unit_ttl_secs now units).0

  pub spend_nonce : List Entry → Bytes → ℕ → Bool → List Entry × TokenRedeemResult
  unfolding set_nx
  spend_nonce spent nonce now answers =
      let (spent', fresh) = set_nx (h.hash nonce) 1 spent_ttl_secs now spent in
      if not answers
      then (spent, redis_error)
      else (spent', if fresh then redeemed else double_spent)

  pub redeem_opened : List Entry → Bytes → Option Bytes → ℕ → Bool → List Entry × TokenRedeemResult
  unfolding spend_nonce
  redeem_opened spent nonce none now answers = (spent, decrypt_failed)
  redeem_opened spent nonce (some token) now answers =
      if not (length token == 32) || not (h.verify_token token nonce)
      then (spent, invalid_token)
      else spend_nonce spent nonce now answers

  pub redeem_token : List Entry → Bytes → Bytes → ℕ → Bool → List Entry × TokenRedeemResult
  unfolding redeem_opened
  redeem_token spent token_nonce token_bytes now answers =
      if length token_nonce == 0 || length token_bytes == 0
      then (spent, missing_token)
      else if not (length token_nonce == 32)
      then (spent, invalid_token)
      else redeem_opened spent token_nonce (h.open_sealed_token_bytes token_bytes) now answers

  -- The unit is opened only by a token that was redeemed.
  pub open_after : List Entry → Option Bytes → Bytes → ℕ → Bool → TokenRedeemResult → List Entry
  unfolding open_spend_unit
  open_after units (some id) recipient now answers redeemed =
      open_spend_unit units id recipient now answers
  open_after units _ recipient now answers _ = units

  pub redeem_and_open :
      Redis → Bytes → Bytes → Option Bytes → Bytes → ℕ → Answers → Redis × TokenRedeemResult
  unfolding open_after redeem_token
  redeem_and_open db token_nonce token_bytes spend_id recipient now a =
      let (spent', result) = redeem_token db.spent token_nonce token_bytes now a.spend in
      (
        record {
          spent = spent';
          units = open_after db.units spend_id recipient now a.opening result;
        },
        result,
      )

  pub after_lookup :
      Redis
      → Bytes
      → Bytes
      → Bytes
      → Bytes
      → ℕ
      → Answers
      → List Entry × UnitLookup
      → Redis × TokenRedeemResult
  unfolding redeem_and_open
  after_lookup db nonce bytes id recipient now a (units, covered) =
      (record db { units = units }, unit_covered)
  after_lookup db nonce bytes id recipient now a (units, exhausted) = (db, unit_exhausted)
  after_lookup db nonce bytes id recipient now a (units, lookup_error) = (db, redis_error)
  after_lookup db nonce bytes id recipient now a (units, need_token) =
      redeem_and_open db nonce bytes (some id) recipient now a

  pub redeem_normalized :
      Redis
      → Bytes
      → Bytes
      → Option (Option Bytes)
      → Bytes
      → ℕ
      → Answers
      → Redis × TokenRedeemResult
  unfolding after_lookup try_cover_with_paid_unit
  redeem_normalized db nonce bytes none recipient now a = (db, invalid_token)
  redeem_normalized db nonce bytes (some none) recipient now a =
      redeem_and_open db nonce bytes none recipient now a
  redeem_normalized db nonce bytes (some (some id)) recipient now a =
      after_lookup db nonce bytes id recipient now a
        (try_cover_with_paid_unit db.units id recipient now a.lookup)

  pub redeem_for_sealed_send :
      Redis → Bytes → Bytes → Bytes → Bytes → ℕ → Answers → Redis × TokenRedeemResult
  unfolding redeem_normalized normalize_spend_id
  redeem_for_sealed_send db nonce bytes spend_id recipient now a =
      redeem_normalized db nonce bytes (normalize_spend_id spend_id) recipient now a

-- Both keys must be configured.
pub redeem_token_checked :
    Option Hashes → Redis → Bytes → Bytes → Bytes → Bytes → ℕ → Answers → Redis × TokenRedeemResult
unfolding redeem_for_sealed_send
redeem_token_checked none db nonce bytes spend_id recipient now a = (db, not_configured)
redeem_token_checked (some h) db nonce bytes spend_id recipient now a =
    redeem_for_sealed_send h db nonce bytes spend_id recipient now a
