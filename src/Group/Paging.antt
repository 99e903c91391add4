-- ===== src/Group/Paging.antt =====
-- group-service/src/handlers/messaging.rs: a client that reads the messages page by page.
mod Listed
use construct_server.Base.{
  ℕ, ℤ, List, Option, [], none, ltb_ℤ, ◌∷◌, ◌≡◌, if◌then◌else◌, pos, ltb, true, arith, refl, ◌&&◌,
  All, Bool-cases, some, suc, ◌<◌, ◌≤◌, inl, lt→ltb, inr, take, ◌++◌, ◌^◌, ◌≢◌, Option-cases, drop,
  length, zero, ap, subst, le→not_ltb, ◌∙◌, sym, length-drop,
}
use construct_server.Group.{Uuid, Message}
use construct_server.Group.Messages.{
  clamp_limit, insert_by_sequence, is_listed, listed, cursor, list_group_messages,
}
use construct_server.Group.Tables.{as_i64-small}
use construct_server.Group.Sequence.{Falling}
use construct_server.Group.Paging.Listed.{
  above-last, listed-later, listed-Within, listed-Rising, last-All, take-drop, none_taken, take_nil,
  no_length, length-listed, last_of, Rising, Within, above,
}

module _ (topic : Option Uuid) (now limit : ℕ) (messages : List Message) where
  -- A client that asks from its last message on, for as many pages as it has `fuel`.
  pub read_pages : ℕ → Option ℕ → List Message
  read_pages zero after = []
  read_pages (suc fuel) after =
      list_group_messages after limit topic now messages
      ++ elim (last_of (list_group_messages after limit topic now messages)) [
        | none ↦ []
        | some m ↦ read_pages fuel (some m.sequence_number)
      ]

  reads :
      (n : ℕ) (fuel : ℕ) (after : Option ℕ)
      → Falling n messages
      → n ≤ 2 ^ 63
      → 0 < limit
      → length (listed (cursor after) topic now messages) ≤ fuel
      → read_pages fuel after ≡ listed (cursor after) topic now messages
  unfolding read_pages
  reads n zero after h small pos_limit le = sym (no_length _ le)
  reads n (suc fuel) after h small pos_limit le =
      let all = listed (cursor after) topic now messages in
      elim (Option-cases (last_of (take limit all))) [
        | inl nothing ↦ rw nothing (take_nil limit all (none_taken limit all pos_limit nothing))
        | inr (m, found) ↦
            let w =
              last-All _ limit all m (listed-Within (cursor after) topic now n messages h) found in
            let rising = listed-Rising (cursor after) topic now n messages h in
            let next : listed (cursor (some m.sequence_number)) topic now messages
                ≡ drop limit all =
              subst (λ z. listed z topic now messages ≡ drop limit all)
                (sym (as_i64-small m.sequence_number (omega (arith, w.1, small))))
                (listed-later topic now (cursor after) m.sequence_number messages w.0
                  ∙ (above-last limit 0 all m rising found).1) in
            let rest =
              reads n fuel (some m.sequence_number) h small pos_limit
                (rw next (omega (arith, length-drop limit all))) in
            rw (found, rest, next) (take-drop limit all)
      ]

clamp_limit-positive : (requested : ℕ) → 0 < clamp_limit requested
clamp_limit-positive requested = ground arith

-- A client that asks for the messages page after page, each from its last message on and with any
-- limit, has after at most as many pages as there are messages all that are past its cursor, in
-- its topic and not expired, each once and in the order of their sequence numbers, if the numbers
-- are below 2 ^ 63 and grow in the order in which the messages were stored.
pub read_pages-listed :
    (topic : Option Uuid) (now requested : ℕ) (messages : List Message) (next : ℕ)
    (after : Option ℕ)
    → Falling next messages
    → next ≤ 2 ^ 63
    → read_pages topic now (clamp_limit requested) messages (length messages) after
      ≡ listed (cursor after) topic now messages
read_pages-listed topic now requested messages next after h small =
    reads topic now (clamp_limit requested) messages next (length messages) after h small
      (clamp_limit-positive requested) (length-listed (cursor after) topic now messages)
