-- ===== src/Channel/Limits/Rows.antt =====
-- crates/construct-db/src/channel.rs: what the statements on links and subscribers keep.
use construct_server.Base.{
  ℕ, List, Bool, Option, [], none, All, length, true, ◌∷◌, ◌≡◌, arith, some, ◌==◌, ◌⊎◌, Bool-cases,
  leb, refl, suc, ◌&&◌, bytes_eq, inl, inr, ap, not, ◌>>=◌, subst,
}
use construct_server.Group.{Bytes, DeviceId, Uuid}
use construct_server.Group.Tables.{is_some}
use construct_server.Channel.{Subscriber, ChannelInviteLink}
use construct_server.Channel.Subscriptions.{
  find_subscriber, may_count, increment_channel_invite_link_usage, delete_subscriber,
}
use construct_server.Channel.Links.{revoke_channel_invite_link}

abbrev pub Keyed : List Subscriber → Type 0
Keyed [] = Unit
Keyed (s ∷ ss) = (find_subscriber s.device_id ss ≡ none) × Keyed ss

-- The link was used no more often than it may be.
abbrev pub within_uses : ChannelInviteLink → Bool
within_uses l = elim l.max_uses [ none ↦ true | some max ↦ leb l.use_count max ]

abbrev pub AllWithinUses : List ChannelInviteLink → Type 0
AllWithinUses links = All (λ l. within_uses l ≡ true) links

abbrev pub AnyWithinUses : Option (List ChannelInviteLink) → Type 0
AnyWithinUses none = Unit
AnyWithinUses (some links) = AllWithinUses links

counted-within :
    (l : ChannelInviteLink) (now : ℕ)
    → may_count l now ≡ true
    → within_uses (record l { use_count = suc l.use_count }) ≡ true
counted-within l now h = ground (arith, h)

consed :
    (l : ChannelInviteLink) (rest : Option (List ChannelInviteLink))
    → within_uses l ≡ true
    → AnyWithinUses rest
    → AnyWithinUses (rest >>= λ ls. some (l ∷ ls))
consed l none h hs = tt
consed l (some ls) h hs = (h, hs)

pub incremented :
    (token : Bytes) (now : ℕ) (links : List ChannelInviteLink)
    → AllWithinUses links
    → AnyWithinUses (increment_channel_invite_link_usage token now links)
unfolding increment_channel_invite_link_usage
incremented token now [] h = tt
incremented token now (l ∷ ls) h = elim (Bool-cases (bytes_eq l.token token)) [
  | inr other ↦ rw other (consed l _ h.0 (incremented token now ls h.1))
  | inl same ↦ elim (Bool-cases (may_count l now)) [
    | inl may ↦ rw (same, may) (counted-within l now may, h.1)
    | inr may ↦ rw (same, may) tt
  ]
]

pub revoked-within :
    (id : Uuid) (token : Bytes) (now : ℕ) (links : List ChannelInviteLink)
    → AllWithinUses links
    → AnyWithinUses (revoke_channel_invite_link id token now links)
unfolding revoke_channel_invite_link
revoked-within id token now [] h = tt
revoked-within id token now (l ∷ ls) h = elim (Bool-cases (bytes_eq l.token token)) [
  | inr other ↦ rw other (consed l _ h.0 (revoked-within id token now ls h.1))
  | inl same ↦ elim (Bool-cases (l.channel_id == id && not (is_some l.revoked_at))) [
    | inl may ↦ rw (same, may) h
    | inr may ↦ rw (same, may) tt
  ]
]

module _ (owner : DeviceId) (device : DeviceId) where
  pub deleted-owned :
      (ss : List Subscriber)
      → All (λ s. s.is_owner ≡ (s.device_id == owner)) ss
      → All (λ s. s.is_owner ≡ (s.device_id == owner)) (delete_subscriber device ss)
  unfolding delete_subscriber
  deleted-owned [] h = tt
  deleted-owned (s ∷ ss) h = ground (arith, deleted-owned ss h.1)

  pub deleted-present :
      (ss : List Subscriber)
      → All (λ s. s.is_owner ≡ (s.device_id == owner)) ss
      → is_some (find_subscriber owner (delete_subscriber device ss))
        ≡ is_some (find_subscriber owner ss)
  unfolding delete_subscriber find_subscriber
  deleted-present [] h = refl
  deleted-present (s ∷ ss) h = ground (arith, deleted-present ss h.1)

deleted-missing :
    (device other : DeviceId) (ss : List Subscriber)
    → find_subscriber other ss ≡ none
    → find_subscriber other (delete_subscriber device ss) ≡ none
unfolding delete_subscriber find_subscriber
deleted-missing device other [] h = h
deleted-missing device other (s ∷ ss) h = ground (arith, deleted-missing device other ss)

pub deleted-Keyed :
    (device : DeviceId) (ss : List Subscriber) → Keyed ss → Keyed (delete_subscriber device ss)
unfolding delete_subscriber
deleted-Keyed device [] h = tt
deleted-Keyed device (s ∷ ss) h =
    ground (arith, deleted-Keyed device ss h.1, deleted-missing device s.device_id ss h.0)

-- A device that is not there is not deleted, and at most one row goes.
missing-deleted :
    (device : DeviceId) (ss : List Subscriber)
    → find_subscriber device ss ≡ none
    → delete_subscriber device ss ≡ ss
unfolding delete_subscriber find_subscriber
missing-deleted device [] h = refl
missing-deleted device (s ∷ ss) h = ground (arith, missing-deleted device ss)

more : {m n : ℕ} → (m ≡ n) ⊎ (suc m ≡ n) → (suc m ≡ suc n) ⊎ (suc (suc m) ≡ suc n)
more (inl e) = inl (ap suc e)
more (inr e) = inr (ap suc e)

pub length-deleted :
    (device : DeviceId) (ss : List Subscriber)
    → Keyed ss
    → (length (delete_subscriber device ss) ≡ length ss)
      ⊎ (suc (length (delete_subscriber device ss)) ≡ length ss)
unfolding delete_subscriber
length-deleted device [] h = inl refl
length-deleted device (s ∷ ss) h = elim (Bool-cases (s.device_id == device && not s.is_owner)) [
  | inl gone ↦
      let same : s.device_id ≡ device = ground (arith, gone) in
      let rest : delete_subscriber device ss ≡ ss =
        missing-deleted device ss (subst (λ x. find_subscriber x ss ≡ none) same h.0) in
      inr (rw (gone, rest) refl)
  | inr kept ↦ rw kept (more (length-deleted device ss h.1))
]
