-- ===== src/Sentinel/Tests.antt =====
-- The permission check at concrete inputs.
use construct_server.Base.{◌≡◌, ◌∷◌, [], none, some, true, false, refl, ◌≢◌, subst}
use construct_server.RateLimit.{should_skip_redis, new}
use construct_server.Sentinel.{
  Replies, Rows, Keys, Clock, FlagRow, banned, flagged, denied, trust_level, check_send_permission,
  trusted, TrustLevel, user_limit, is_blocked,
}
use construct_server.Sentinel.Outage.{
  down, trust_level-down, trust_level-uncached, check_send_permission-down,
}
use construct_server.Sentinel.Permission.{check_send_permission-answered}

abbrev up : Replies
up = record {
  ban_exists = some false;
  flag_exists = some false;
  ban_del = some tt;
  blocks_is_member = some false;
  blocks_exists = some true;
  blocks_add = some tt;
  blocks_expire = some tt;
  msg_incr = some 3;
  user_msg_incr = some 201;
  own_copy_incr = some 1;
}

abbrev expired : FlagRow
expired = record { is_banned = true; ban_expires_at = some 100; is_flagged = false }

abbrev rows_of : FlagRow → Rows
rows_of row = record {
  flags = some (some row);
  ban_cleared = some tt;
  registered_at = some (some 0);
  blocked_devices = some [];
}

abbrev at : Clock
at = record { now_ms = 1_000_000_000; now_secs = 1_000_000 }

abbrev keys : Keys
keys = record { device_key = 1 ∷ []; user_key = some (2 ∷ []); own_copy_key = 3 ∷ [] }

abbrev IsFlagged : TrustLevel → Type 0
IsFlagged flagged = Unit
IsFlagged _ = ⊥

abbrev IsTrusted : TrustLevel → Type 0
IsTrusted trusted = Unit
IsTrusted _ = ⊥

trusted_ne : trusted ≢ banned
trusted_ne e = subst IsTrusted e tt

flagged_ne : flagged ≢ banned
flagged_ne e = subst IsFlagged e tt

check_send_permission-down_example :
    check_send_permission new down (rows_of expired) keys (9 ∷ []) at ≡ (new, none)
check_send_permission-down_example =
    check_send_permission-down new (rows_of expired) keys (9 ∷ []) at
      (rw (trust_level-down (rows_of expired) expired (some 0) 1_000_000 refl refl) flagged_ne)

abbrev ban : FlagRow
ban = record { is_banned = true; ban_expires_at = none; is_flagged = false }

check_send_permission-answered_example :
    (check_send_permission new up (rows_of expired) keys (9 ∷ []) at).1
    ≡ some (denied user_limit 3600)
unfolding new should_skip_redis is_blocked trust_level
check_send_permission-answered_example =
    check_send_permission-answered new up (rows_of expired) keys (9 ∷ []) (2 ∷ []) at 3 201 false
      refl
      (rw
        (trust_level-uncached up (rows_of expired) expired (some 0) 1_000_000 refl refl refl refl
          refl refl)
        trusted_ne)
      refl refl refl refl
