-- ===== src/Channel/Admission.antt =====
-- crates/construct-db/src/channel.rs: how a device comes into a private channel.
use construct_server.Base.{
  ℕ, List, Bool, Option, [], none, ◌≡◌, some, true, ◌==◌, false, suc, ◌||◌, ◌∷◌, Bool-cases,
  some-injective, sym, ◌∙◌, ◌≢◌, if◌then◌else◌, subst, refl, ◌>>=◌, arith, bytes_eq, inl, inr,
}
use construct_server.Group.{Bytes, DeviceId, ok}
use construct_server.Group.Tables.{is_some, is_empty}
use construct_server.Channel.{private, ChannelRecord, ChannelInviteLink, ChannelDb, live}
use construct_server.Channel.Subscriptions.{
  find_subscriber, is_past, is_used_up, may_count, check_link, check_private,
  resolve_channel_invite_link, increment_channel_invite_link_usage, use_link,
  admit_channel_subscription, subscribe_channel_atomic, subscribe_channel, subscribed,
  subscription_reply, admitted, admit_new, ChannelSubscription, full, channel_not_found,
  invite_required, invite_not_found, wrong_channel, invite_revoked, invite_expired,
  invite_exhausted,
}

-- The link that a device came in by: before, as the service's clock `now` and that of Postgres have
-- it, and after.
pub record IsUsed (c : ChannelRecord) (token : Bytes) (now db_now : ℕ)
    (links links' : List ChannelInviteLink) : Type 0 where
  pub link : ChannelInviteLink
  pub found : resolve_channel_invite_link token links ≡ some link
  pub of_channel : (link.channel_id == c.channel_id) ≡ true
  pub not_revoked : is_some link.revoked_at ≡ false
  pub not_expired : (is_past now link.expires_at || is_past db_now link.expires_at) ≡ false
  pub not_used_up : is_used_up link.max_uses link.use_count ≡ false
  pub counted :
      resolve_channel_invite_link token links'
      ≡ some (record link { use_count = suc link.use_count })

incremented_here :
    (token : Bytes) (now : ℕ) (l : ChannelInviteLink) (ls links' : List ChannelInviteLink)
    → (if may_count l now then some (record l { use_count = suc l.use_count } ∷ ls) else none)
      ≡ some links'
    → (may_count l now ≡ true) × (record l { use_count = suc l.use_count } ∷ ls ≡ links')
incremented_here token now l ls links' e = elim (Bool-cases (may_count l now)) [
  | inl may ↦ (may, some-injective _ _ (ground (arith, e, may)))
  | inr may ↦ absurd (cc)
]

incremented_rest :
    (l : ChannelInviteLink) (o : Option (List ChannelInviteLink)) (links' : List ChannelInviteLink)
    → (o >>= λ rest. some (l ∷ rest)) ≡ some links'
    → (rest : List ChannelInviteLink) × (o ≡ some rest) × (l ∷ rest ≡ links')
incremented_rest l none links' e = absurd (cc)
incremented_rest l (some rest) links' e = (rest, refl, some-injective _ _ e)

resolved-incremented :
    (token : Bytes) (now : ℕ) (links links' : List ChannelInviteLink)
    → increment_channel_invite_link_usage token now links ≡ some links'
    → (l : ChannelInviteLink) × (resolve_channel_invite_link token links ≡ some l)
      × (may_count l now ≡ true)
      × (resolve_channel_invite_link token links' ≡ some (record l { use_count = suc l.use_count }))
unfolding increment_channel_invite_link_usage resolve_channel_invite_link
resolved-incremented token now [] links' e = absurd (cc)
resolved-incremented token now (l ∷ ls) links' e = elim (Bool-cases (bytes_eq l.token token)) [
  | inl same ↦
      let (may, shape) = incremented_here token now l ls links' (ground (arith, e, same)) in
      (
        l,
        rw same refl,
        may,
        subst
            (λ k.
              resolve_channel_invite_link token k ≡ some (record l { use_count = suc l.use_count }))
            shape (rw same refl),
      )
  | inr other ↦
      let (rest, e', shape) =
        incremented_rest l (increment_channel_invite_link_usage token now ls) links'
          (ground (arith, e, other)) in
      let (found, r, may, after) = resolved-incremented token now ls rest e' in
      (
        found,
        rw other r,
        may,
        subst
            (λ k.
              resolve_channel_invite_link token k
              ≡ some (record found { use_count = suc found.use_count }))
            shape (rw other after),
      )
]

link_refuses :
    (o : Option ChannelInviteLink) (id now at : ℕ) → check_link o id now ≢ some (subscribed at)
link_refuses none id now at e = absurd (cc)
link_refuses (some l) id now at e = ground (arith, e)

-- What is found wrong with a link is no acceptance.
refuses :
    (token : Bytes) (links : List ChannelInviteLink) (id now at : ℕ) (r : ChannelSubscription)
    → check_private private token links id now ≡ some r
    → subscription_reply (some r) ≢ ok at
refuses token links id now at (subscribed n) e h = elim (Bool-cases (is_empty token)) [
  | inl bare ↦ ground (arith, e, bare)
  | inr given ↦
      link_refuses (resolve_channel_invite_link token links) id now n (ground (arith, e, given))
]
refuses token links id now at channel_not_found e h = absurd (cc)
refuses token links id now at full e h = absurd (cc)
refuses token links id now at invite_required e h = absurd (cc)
refuses token links id now at invite_not_found e h = absurd (cc)
refuses token links id now at wrong_channel e h = absurd (cc)
refuses token links id now at invite_revoked e h = absurd (cc)
refuses token links id now at invite_expired e h = absurd (cc)
refuses token links id now at invite_exhausted e h = absurd (cc)

link_ok :
    (o : Option ChannelInviteLink) (id now : ℕ)
    → check_link o id now ≡ none
    → (l : ChannelInviteLink) × (o ≡ some l)
      × ((l.channel_id == id) ≡ true)
      × (is_past now l.expires_at ≡ false)
link_ok none id now e = absurd (cc)
link_ok (some l) id now e = (l, refl, ground (arith, e), ground (arith, e))

may_count_ok :
    (l : ChannelInviteLink) (now : ℕ)
    → may_count l now ≡ true
    → (is_some l.revoked_at ≡ false)
      × (is_past now l.expires_at ≡ false)
      × (is_used_up l.max_uses l.use_count ≡ false)
may_count_ok l now e = (ground (arith, e), ground (arith, e), ground (arith, e))

admitted_ok :
    (o : Option (List ChannelInviteLink)) (c : ChannelRecord) (db : ChannelDb) (device : DeviceId)
    (now at : ℕ)
    → subscription_reply (some (admitted o c db device now).1) ≡ ok at
    → o ≡ some (admitted o c db device now).0.links
admitted_ok none c db device now at e = absurd (cc)
admitted_ok (some links) c db device now at e = refl

room_ok :
    (over : Bool) (db : ChannelDb) (x : ChannelDb × ChannelSubscription) (at : ℕ)
    → subscription_reply (some (if over then (db, full) else x).1) ≡ ok at
    → (if over then (db, full) else x) ≡ x
room_ok true db x at e = absurd (cc)
room_ok false db x at e = refl

admit_new_ok :
    (o : Option ChannelSubscription) (c : ChannelRecord) (db : ChannelDb) (device : DeviceId)
    (token : Bytes) (now at : ℕ)
    → o ≡ none
    → subscription_reply (some (admit_new o c db device token now).1) ≡ ok at
    → use_link c.visibility token now db.links ≡ some (admit_new o c db device token now).0.links
admit_new_ok (some r) c db device token now at n e = absurd (cc)
admit_new_ok none c db device token now at n e =
    let links = use_link c.visibility token now db.links in
    let same = room_ok _ db (admitted links c db device now) at e in
    subst (λ x. links ≡ some x.0.links) (sym same)
      (admitted_ok links c db device now at
        (subst (λ x. subscription_reply (some x.1) ≡ ok at) same e))

passed :
    (o : Option ChannelSubscription) (c : ChannelRecord) (db : ChannelDb) (device : DeviceId)
    (token : Bytes) (now db_now at : ℕ)
    → check_private private token db.links c.channel_id now ≡ o
    → subscription_reply (some (admit_new o c db device token db_now).1) ≡ ok at
    → o ≡ none
passed none c db device token now db_now at e h = refl
passed (some r) c db device token now db_now at e h =
    absurd (refuses token db.links c.channel_id now at r e h)

admitted-IsUsed :
    (c : ChannelRecord) (db : ChannelDb) (device : DeviceId) (token : Bytes) (now db_now at : ℕ)
    → c.visibility ≡ private
    → (let check = check_private private token db.links c.channel_id now in
        subscription_reply (some (admit_new check c db device token db_now).1) ≡ ok at)
    → (let check = check_private private token db.links c.channel_id now in
        IsUsed c token now db_now db.links (admit_new check c db device token db_now).0.links)
admitted-IsUsed c db device token now db_now at v e =
    let check = check_private private token db.links c.channel_id now in
    let links' = (admit_new check c db device token db_now).0.links in
    let none_wrong = passed check c db device token now db_now at refl e in
    let used = admit_new_ok check c db device token db_now at none_wrong e in
    let counted = subst (λ x. use_link x token db_now db.links ≡ some links') v used in
    let (l, r, may, after) = resolved-incremented token db_now db.links links' counted in
    let (l', r', here, fresh) =
      link_ok (resolve_channel_invite_link token db.links) c.channel_id now
        (ground (arith, none_wrong)) in
    let same = some-injective _ _ (sym r' ∙ r) in
    let (kept, fresh', unused) = may_count_ok l db_now may in
    record {
      link = l;
      found = r;
      of_channel = subst (λ x. (x.channel_id == c.channel_id) ≡ true) same here;
      not_revoked = kept;
      not_expired = rw (subst (λ x. is_past now x.expires_at ≡ false) same fresh) fresh';
      not_used_up = unused;
      counted = after;
    }

-- A device that has no row and whose subscription to a private channel is accepted came by the
-- link with its token, which is of this channel, not revoked, not expired by the clock of the
-- service or of Postgres, and not used up; afterwards the link under the token is the same one
-- with one use more.
pub subscribe_channel-IsUsed :
    (db : ChannelDb) (c : ChannelRecord) (device : DeviceId) (belongs allowed : Bool)
    (token : Bytes) (now db_now : ℕ) (stored : Bool) (at : ℕ)
    → live db.channel ≡ some c
    → c.visibility ≡ private
    → find_subscriber device db.subscribers ≡ none
    → (subscribe_channel db device belongs allowed token now db_now stored).1 ≡ ok at
    → IsUsed c token now db_now db.links
        (subscribe_channel db device belongs allowed token now db_now stored).0.links
unfolding subscribe_channel subscribe_channel_atomic admit_channel_subscription
subscribe_channel-IsUsed db c device false allowed token now db_now stored at lv v new e =
    absurd (cc)
subscribe_channel-IsUsed db c device true false token now db_now stored at lv v new e = absurd (cc)
subscribe_channel-IsUsed db c device true true token now db_now false at lv v new e = absurd (cc)
subscribe_channel-IsUsed db c device true true token now db_now true at lv v new e =
    let same : admit_channel_subscription (live db.channel) db device token now db_now
        ≡ admit_new (check_private c.visibility token db.links c.channel_id now) c db device token
            db_now =
      rw lv (rw new refl) in
    let same' =
      subst
        (λ x.
          admit_channel_subscription (live db.channel) db device token now db_now
          ≡ admit_new (check_private x token db.links c.channel_id now) c db device token db_now)
        v same in
    subst
      (λ x. subscription_reply (some x.1) ≡ ok at → IsUsed c token now db_now db.links x.0.links)
      (sym same') (admitted-IsUsed c db device token now db_now at v) e
