-- ===== src/Group/Sequence.antt =====
-- group-service/src/handlers/messaging.rs: sequence numbers, and messages that are sent twice.
use construct_server.Base.{
  ℕ, List, Bool, Option, [], none, Option-cases, inl, some, subst, suc, ◌∷◌, ◌≡◌, arith, inr, refl,
  sym, ◌<◌, Bool-cases, bytes_eq_refl, false, true, ap, bytes_eq_sound, ◌∙◌, ltb, ◌≤◌, All, All-map,
  some-injective,
}
use construct_server.Group.{Bytes, DeviceId, Uuid, GroupRow, Message, Group, no_group, ok}
use construct_server.Group.Tables.{is_empty}
use construct_server.Group.Messages.{
  SendGroupMessageRequest, send_group_message, send_to, insert_group_message, insert_or_keep,
  find_conflict, same_client_id, client_id, new_message,
}
use construct_server.Group.Signed.{Directory}
use construct_server.Group.Lifecycle.{set_group_dissolved_at}
use construct_server.Group.Commits.{store_commit}
use construct_server.Group.Outcomes.{IsDeleted, IsDelegated}
use construct_server.Group.Run.{Event, run, lasts, IsKept, run-IsKept, lasting-IsKept}
use construct_server.Group.Cleanup.{cleanup_expired_group_messages}

-- The messages, newest first, have falling sequence numbers below `next`.
abbrev pub Falling : ℕ → List Message → Type 0
Falling next [] = Unit
Falling next (m ∷ ms) = (m.sequence_number < next) × Falling m.sequence_number ms

abbrev pub RowFalling : Option GroupRow → List Message → Type 0
RowFalling none messages = messages ≡ []
RowFalling (some r) messages = Falling r.next_sequence messages

abbrev pub HasSequence : Group → Type 0
HasSequence g = RowFalling g.row g.messages

Falling-later : (n : ℕ) (ms : List Message) → Falling n ms → Falling (suc n) ms
Falling-later n [] h = tt
Falling-later n (m ∷ ms) h = (omega (arith, h.0), h.1)

insert-Falling :
    (n : ℕ) (m : Message) (ms : List Message) (conflict : Option Message)
    → m.sequence_number ≡ n
    → Falling n ms
    → Falling (suc n) (insert_or_keep conflict m ms).0
insert-Falling n m ms none e h = (omega (arith, e), rw e h)
insert-Falling n m ms (some old) e h = Falling-later n ms h

created-HasSequence :
    (row : Option GroupRow) (ms : List Message) → row ≡ none → RowFalling row ms → Falling 0 ms
created-HasSequence none [] e h = tt
created-HasSequence none (m ∷ ms) e h = absurd (cc)
created-HasSequence (some r) ms e h = absurd (cc)

dissolved-HasSequence :
    (now : ℕ) (row : Option GroupRow) (ms : List Message)
    → RowFalling row ms
    → RowFalling (set_group_dissolved_at now row) ms
dissolved-HasSequence now none ms h = h
dissolved-HasSequence now (some r) ms h = h

-- A property of the row and of the messages is not touched by a change of the other tables.
module _ {ℓ} (P : Group → Type ℓ) (g g' : Group) where
  by-IsDelegated :
      (target : DeviceId) (role : ℕ)
      → ((admins : List _) → P g → P (record g { admins = admins }))
      → IsDelegated g target role g'
      → P g
      → P g'
  by-IsDelegated target role same x h = subst P (sym x.2) (same _ h)

deleted-HasSequence :
    (g g' : Group) (target : DeviceId) → IsDeleted g target g' → HasSequence g → HasSequence g'
deleted-HasSequence g g' target (inl e) h = subst HasSequence (sym e) h
deleted-HasSequence g g' target (inr e) h = subst HasSequence (sym e) h

Falling-weaken : (n n' : ℕ) (ms : List Message) → n ≤ n' → Falling n ms → Falling n' ms
Falling-weaken n n' [] le h = tt
Falling-weaken n n' (m ∷ ms) le h = (omega (arith, le, h.0), h.1)

swept-Falling :
    (now n : ℕ) (ms : List Message)
    → Falling n ms
    → Falling n (cleanup_expired_group_messages now ms)
unfolding cleanup_expired_group_messages
swept-Falling now n [] h = tt
swept-Falling now n (m ∷ ms) h = elim (Bool-cases (ltb m.expires_at now)) [
  | inl e ↦
      rw e (swept-Falling now n ms (Falling-weaken m.sequence_number n ms (omega (arith, h.0)) h.1))
  | inr e ↦ rw e (h.0, swept-Falling now m.sequence_number ms h.1)
]

swept-HasSequence :
    (now : ℕ) (row : Option GroupRow) (ms : List Message)
    → RowFalling row ms
    → RowFalling row (cleanup_expired_group_messages now ms)
unfolding cleanup_expired_group_messages
swept-HasSequence now none [] h = refl
swept-HasSequence now none (m ∷ ms) h = absurd (cc)
swept-HasSequence now (some r) ms h = swept-Falling now r.next_sequence ms h

HasSequence-IsKept : (now : ℕ) → IsKept now HasSequence
unfolding store_commit insert_group_message
HasSequence-IsKept now = record {
  created = λ g device req row h. created-HasSequence g.row g.messages row h;
  dissolved = λ g h. dissolved-HasSequence now g.row g.messages h;
  delegated =
      λ g g' target role x h. by-IsDelegated HasSequence g g' target role (λ admins k. k) x h;
  handed = λ g old new admins e h. h;
  committed = λ g r mls_commit tree found h. subst (λ row. RowFalling row g.messages) found h;
  invited = λ g invites h. h;
  joined = λ g device found fresh h. h;
  deleted = λ g g' target plain x h. deleted-HasSequence g g' target x h;
  sends = λ g r m found next h.
      insert-Falling r.next_sequence m g.messages (find_conflict m.client_message_id g.messages)
        next (subst (λ row. RowFalling row g.messages) found h);
  swept = λ g h. swept-HasSequence now g.row g.messages h;
}

-- After any run of the handlers and of clean-ups on a group that did not exist, its messages have
-- strictly growing sequence numbers in the order in which they were stored, below the next one.
pub run-HasSequence : (d : Directory) (es : List Event) → HasSequence (run d es no_group)
run-HasSequence d es = run-IsKept d HasSequence HasSequence-IsKept (λ g h. refl) es no_group refl

same_client_id_sound :
    (id : Bytes) (other : Option Bytes) → same_client_id (some id) other ≡ true → other ≡ some id
same_client_id_sound id none h = absurd (cc)
same_client_id_sound id (some other) h = ap some (sym (bytes_eq_sound id other h))

-- The message that a client's id stands for.
module _ (id : Bytes) (m : Message) where
  abbrev Knows : Group → Type 0
  Knows g = find_conflict (some id) g.messages ≡ some m

  insert-Knows :
      (new : Message) (ms : List Message)
      → find_conflict (some id) ms ≡ some m
      → find_conflict (some id) (insert_group_message new ms).0 ≡ some m
  unfolding insert_group_message find_conflict
  insert-Knows new ms h = elim (Option-cases (find_conflict new.client_message_id ms)) [
    | inr (old, e) ↦ rw e h
    | inl e ↦ elim (Bool-cases (same_client_id (some id) new.client_message_id)) [
      | inr other ↦ rw (e, other) h
      | inl same ↦
          let missing =
            subst (λ o. find_conflict o ms ≡ none)
              (same_client_id_sound id new.client_message_id same) e in
          absurd (cc)
    ]
  ]

  deleted-Knows : (g g' : Group) (target : DeviceId) → IsDeleted g target g' → Knows g → Knows g'
  deleted-Knows g g' target (inl e) h = subst Knows (sym e) h
  deleted-Knows g g' target (inr e) h = subst Knows (sym e) h

  -- A message that has not expired is not deleted.
  swept-Knows :
      (now : ℕ) (ms : List Message)
      → now ≤ m.expires_at
      → find_conflict (some id) ms ≡ some m
      → find_conflict (some id) (cleanup_expired_group_messages now ms) ≡ some m
  unfolding cleanup_expired_group_messages find_conflict
  swept-Knows now [] live h = h
  swept-Knows now (x ∷ xs) live h =
      elim (Bool-cases (same_client_id (some id) x.client_message_id)) [
        | inl same ↦
            let is : x ≡ m = some-injective _ _ (ground (arith, h, same)) in
            let kept : ltb x.expires_at now ≡ false =
              subst (λ y. ltb y.expires_at now ≡ false) (sym is) (ground (arith, live)) in
            rw (kept, same) (ap some is)
        | inr other ↦
            let rest = swept-Knows now xs live (ground (arith, h, other)) in
            elim (Bool-cases (ltb x.expires_at now)) [
              | inl gone ↦ rw gone rest
              | inr kept ↦ rw (kept, other) rest
            ]
      ]

  Knows-IsKept : (now : ℕ) → now ≤ m.expires_at → IsKept now Knows
  unfolding store_commit
  Knows-IsKept now live = record {
    created = λ g device req row h. h;
    dissolved = λ g h. h;
    delegated = λ g g' target role x h. by-IsDelegated Knows g g' target role (λ admins k. k) x h;
    handed = λ g old new admins e h. h;
    committed = λ g r mls_commit tree found h. h;
    invited = λ g invites h. h;
    joined = λ g device found fresh h. h;
    deleted = λ g g' target plain x h. deleted-Knows g g' target x h;
    sends = λ g r new found next h. insert-Knows new g.messages h;
    swept = λ g h. swept-Knows now g.messages live h;
  }

-- What an insertion answers is what the id of the message stands for from then on.
inserted-Knows :
    (id : Bytes) (new : Message) (ms : List Message)
    → new.client_message_id ≡ some id
    → find_conflict (some id) (insert_group_message new ms).0 ≡ some (insert_group_message new ms).1
unfolding insert_group_message find_conflict
inserted-Knows id new ms e = elim (Option-cases (find_conflict (some id) ms)) [
  | inl missing ↦ rw (e, missing, bytes_eq_refl id) refl
  | inr (old, known) ↦ rw (e, known) known
]

-- An insertion under a known id answers with its message and stores nothing.
known-inserted :
    (id : Bytes) (new m : Message) (ms : List Message)
    → new.client_message_id ≡ some id
    → find_conflict (some id) ms ≡ some m
    → insert_group_message new ms ≡ (ms, m)
unfolding insert_group_message
known-inserted id new m ms e known = rw (e, known) refl

-- What an accepted request has done.
module _ (g : Group) (device : DeviceId) (req : SendGroupMessageRequest) (id : Uuid) (now : ℕ)
    (m : Message) where
  abbrev IsSent : GroupRow → Group → Type 0
  IsSent r g' =
      let new = insert_group_message (new_message r req id now) g.messages in
      (g'.messages ≡ new.0) × (m ≡ new.1)

  send_to-IsSent :
      (row : Option GroupRow) (stored : Bool)
      → (send_to row g req id now stored).1 ≡ ok m
      → (r : GroupRow) × IsSent r (send_to row g req id now stored).0
  unfolding send_to
  send_to-IsSent none stored e = absurd (cc)
  send_to-IsSent (some r) stored e = (r, ground arith)

  past_checks :
      (allowed stored : Bool)
      → (send_group_message g device allowed req id now stored).1 ≡ ok m
      → send_group_message g device allowed req id now stored ≡ send_to g.row g req id now stored
  unfolding send_group_message
  past_checks allowed stored e = ground arith

  send_group_message-IsSent :
      (allowed stored : Bool)
      → (send_group_message g device allowed req id now stored).1 ≡ ok m
      → (r : GroupRow) × IsSent r (send_group_message g device allowed req id now stored).0
  send_group_message-IsSent allowed stored e =
      let p = past_checks allowed stored e in
      rw p (send_to-IsSent g.row stored (ap (λ x. x.1) (sym p) ∙ e))

client_id-some : (id : Bytes) → is_empty id ≡ false → client_id id ≡ some id
client_id-some [] h = absurd (cc)
client_id-some (x ∷ xs) h = refl

-- A message that is sent again with the same client id that is not empty, by any device and after
-- any run of the handlers and of clean-ups, none of them later than the message expires,
-- throughout which the group exists, is answered, if it is accepted, with the message that was
-- stored first, and no message is stored.
pub send_group_message-twice :
    (d : Directory) (g : Group) (es : List Event) (device device' : DeviceId)
    (allowed allowed' : Bool) (req req' : SendGroupMessageRequest) (id id' now now' : ℕ)
    (stored stored' : Bool) (m m' : Message)
    → let g₁ = run d es (send_group_message g device allowed req id now stored).0 in
      let g₂ = (send_group_message g₁ device' allowed' req' id' now' stored').0 in
      is_empty req.client_message_id ≡ false
      → lasts d es (send_group_message g device allowed req id now stored).0 ≡ true
      → All (λ e. e.now ≤ m.expires_at) es
      → req'.client_message_id ≡ req.client_message_id
      → (send_group_message g device allowed req id now stored).1 ≡ ok m
      → (send_group_message g₁ device' allowed' req' id' now' stored').1 ≡ ok m'
      → (m' ≡ m) × (g₂.messages ≡ g₁.messages)
send_group_message-twice d g es device device' allowed allowed' req req' id id' now now' stored
      stored' m m' named there live same e e' =
    let cid = client_id-some req.client_message_id named in
    let s₁ = send_group_message-IsSent g device req id now m allowed stored e in
    let known : find_conflict (some req.client_message_id)
          (send_group_message g device allowed req id now stored).0.messages
        ≡ some m =
      ap (find_conflict (some req.client_message_id)) s₁.1.0
      ∙ inserted-Knows req.client_message_id (new_message s₁.0 req id now) g.messages cid
      ∙ ap some (sym s₁.1.1) in
    let g₁ = run d es (send_group_message g device allowed req id now stored).0 in
    let later =
      lasting-IsKept d (Knows req.client_message_id m) es _
        (All-map (λ x l. Knows-IsKept req.client_message_id m x.now l) es live) there known in
    let s₂ = send_group_message-IsSent g₁ device' req' id' now' m' allowed' stored' e' in
    let again =
      known-inserted req.client_message_id (new_message s₂.0 req' id' now') m g₁.messages
        (ap client_id same ∙ cid) later in
    (s₂.1.1 ∙ ap (λ p. p.1) again, s₂.1.0 ∙ ap (λ p. p.0) again)
