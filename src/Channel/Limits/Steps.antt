-- ===== src/Channel/Limits/Steps.antt =====
-- crates/construct-db/src/channel.rs: what subscribing and unsubscribing keep.
use construct_server.Base.{
  ℕ, List, Bool, Option, none, All, false, length, true, ◌≡◌, arith, some, ◌==◌, ◌⊎◌, Bool-cases,
  leb, suc, ◌&&◌, inl, ◌||◌, inr, subst, sym, some-injective, ◌∙◌,
}
use construct_server.Group.{Bytes, DeviceId}
use construct_server.Group.Tables.{is_some}
use construct_server.Channel.{
  public, private, ChannelRecord, Subscriber, ChannelInviteLink, ChannelDb, Visibility,
}
use construct_server.Channel.Subscriptions.{
  find_subscriber, use_link, admit_channel_subscription, subscribe_channel_atomic,
  delete_subscriber, admitted, count_down, unsubscribe_from_channel,
}
use construct_server.Channel.Limits.Rows.{
  Keyed, AllWithinUses, AnyWithinUses, incremented, deleted-owned, deleted-present, deleted-Keyed,
  length-deleted,
}

-- The count of subscribers is exact and, with a limit, within it.
abbrev pub fits : Option ChannelRecord → ℕ → Bool
fits none n = false
fits (some c) n = c.subscriber_count == n && (c.max_subscribers == 0 || leb n c.max_subscribers)

pub record IsSound (owner : DeviceId) (db : ChannelDb) : Type 0 where
  pub fit : fits db.channel (length db.subscribers) ≡ true
  pub keyed : Keyed db.subscribers
  pub owned : All (λ s. s.is_owner ≡ (s.device_id == owner)) db.subscribers
  pub present : is_some (find_subscriber owner db.subscribers) ≡ true
  pub links : AllWithinUses db.links

-- What an admission that is new leaves.
abbrev pub Admits : ChannelDb → DeviceId → Bytes → ℕ → ChannelDb → Type 0
Admits db device token now db' =
    (db' ≡ db)
    ⊎ ((c : ChannelRecord) × (db.channel ≡ some c)
        × (find_subscriber device db.subscribers ≡ none)
        × ((c.max_subscribers == 0 || leb (suc (length db.subscribers)) c.max_subscribers) ≡ true)
        × (links : List ChannelInviteLink) × (use_link c.visibility token now db.links ≡ some links)
        × (db' ≡ (admitted (some links) c db device now).0))

pub admits :
    (db : ChannelDb) (device : DeviceId) (token : Bytes) (now db_now : ℕ) (stored : Bool)
    → Admits db device token db_now (subscribe_channel_atomic db device token now db_now stored).0
unfolding subscribe_channel_atomic admit_channel_subscription
admits db device token now db_now stored = ground arith

module _ (owner : DeviceId) where
  pub kept-IsSound :
      (db db' : ChannelDb)
      → db'.subscribers ≡ db.subscribers
      → db'.links ≡ db.links
      → ((n : ℕ) → fits db.channel n ≡ true → fits db'.channel n ≡ true)
      → IsSound owner db
      → IsSound owner db'
  kept-IsSound db db' ss ls fit s = record {
    fit = rw ss (fit (length db.subscribers) s.fit);
    keyed = rw ss s.keyed;
    owned = rw ss s.owned;
    present = rw ss s.present;
    links = rw ls s.links;
  }

  not_owner :
      (device : DeviceId) (ss : List Subscriber)
      → find_subscriber device ss ≡ none
      → is_some (find_subscriber owner ss) ≡ true
      → (device == owner) ≡ false
  not_owner device ss h present = elim (Bool-cases (device == owner)) [
    | inr e ↦ e
    | inl e ↦
        let same : device ≡ owner = ground (arith, e) in
        let gone : find_subscriber owner ss ≡ none =
          subst (λ x. find_subscriber x ss ≡ none) same h in
        absurd (ground (arith, gone, present))
  ]

  used-within :
      (visibility : Visibility) (token : Bytes) (now : ℕ) (ls ls' : List ChannelInviteLink)
      → use_link visibility token now ls ≡ some ls'
      → AllWithinUses ls
      → AllWithinUses ls'
  used-within public token now ls ls' e h = subst AllWithinUses (some-injective _ _ e) h
  used-within private token now ls ls' e h = subst AnyWithinUses e (incremented token now ls h)

  pub Admits-IsSound :
      (db db' : ChannelDb) (device : DeviceId) (token : Bytes) (now : ℕ)
      → Admits db device token now db'
      → IsSound owner db
      → IsSound owner db'
  unfolding find_subscriber
  Admits-IsSound db db' device token now (inl e) s = subst (IsSound owner) (sym e) s
  Admits-IsSound db db' device token now (inr (c, found, fresh, room, links, used, e)) s =
      let ne = not_owner device db.subscribers fresh s.present in
      subst (IsSound owner) (sym e) (record {
        fit = ground (arith, room);
        keyed = (fresh, s.keyed);
        owned = (sym ne, s.owned);
        present = rw ne s.present;
        links = used-within c.visibility token now db.links links used s.links;
      })

  counted_down :
      (channel : Option ChannelRecord) (m n : ℕ)
      → suc m ≡ n
      → fits channel n ≡ true
      → fits (count_down channel) m ≡ true
  counted_down none m n e h = absurd (cc)
  counted_down (some c) m n e h = ground (arith, e, h)

  fits-fewer :
      (db : ChannelDb) (device : DeviceId)
      → IsSound owner db
      → (length (delete_subscriber device db.subscribers) == length db.subscribers) ≡ false
      → fits (count_down db.channel) (length (delete_subscriber device db.subscribers)) ≡ true
  fits-fewer db device s fewer = elim (length-deleted device db.subscribers s.keyed) [
    | inl e ↦ absurd (ground (arith, e, fewer))
    | inr e ↦ counted_down db.channel _ _ e s.fit
  ]

  pub unsubscribes-IsSound :
      (db : ChannelDb) (device : DeviceId)
      → IsSound owner db
      → IsSound owner (unsubscribe_from_channel db device).0
  unfolding unsubscribe_from_channel
  unsubscribes-IsSound db device s =
      let ss = delete_subscriber device db.subscribers in
      elim (Bool-cases (length ss == length db.subscribers)) [
        | inl same ↦ rw same s
        | inr fewer ↦ rw fewer (record {
          fit = (fits-fewer db device s fewer);
          keyed = deleted-Keyed device db.subscribers s.keyed;
          owned = deleted-owned owner device db.subscribers s.owned;
          present = deleted-present owner device db.subscribers s.owned ∙ s.present;
          links = s.links;
        })
      ]

  pub linked-IsSound :
      (db : ChannelDb) (ls : List ChannelInviteLink)
      → AllWithinUses ls
      → IsSound owner db
      → IsSound owner (record db { links = ls })
  linked-IsSound db ls h s = record {
    fit = s.fit;
    keyed = s.keyed;
    owned = s.owned;
    present = s.present;
    links = h;
  }
