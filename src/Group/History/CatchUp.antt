-- ===== src/Group/History/CatchUp.antt =====
-- group-service/src/handlers/mls_sync.rs: what a client that was away makes of fetch_commits.
use construct_server.Base.{
  ℕ, List, Option, [], none, All, if◌then◌else◌, pos, some, ◌++◌, ◌<◌, ◌∷◌, ◌≡◌, ◌≤◌, arith, leb,
  lt→ltb, ◌==◌, ◌>>=◌, Option-cases, refl, inl, inr, Bool-cases, ◌^◌, leb→le, ◌∙◌, leb_false→lt,
  subst,
}
use construct_server.Group.{Bytes, DeviceId, GroupRow, Commit, Group, ok}
use construct_server.Group.Tables.{as_i64-small, insert_by_epoch, get_group_commits_since, as_i64}
use construct_server.Group.Commits.{fetch_commits}
use construct_server.Group.History.{Chain, NewestTree, RowHistory, HasHistory}

-- What a client knows of a group.
pub record Client : Type 0 where
  pub epoch : ℕ
  pub tree : Bytes

-- A client applies a commit that leads on from its own epoch, and no other.
abbrev pub apply_commit : Client → Commit → Option Client
apply_commit client c =
    if c.epoch_from == client.epoch
    then some (record { epoch = c.epoch_to; tree = c.ratchet_tree_snapshot })
    else none

pub replay : List Commit → Client → Option Client
replay [] client = some client
replay (c ∷ cs) client = apply_commit client c >>= replay cs

abbrev Below : ℕ → List Commit → Type 0
Below n cs = All (λ c. c.epoch_from < n) cs

insert-Below :
    (n : ℕ) (c : Commit) (cs : List Commit)
    → c.epoch_from < n
    → Below n cs
    → Below n (insert_by_epoch c cs)
unfolding insert_by_epoch
insert-Below n c [] h b = (h, tt)
insert-Below n c (x ∷ xs) h b = ground (arith, insert-Below n c xs h b.1)

Below-later : (m n : ℕ) (cs : List Commit) → m ≤ n → Below m cs → Below n cs
Below-later m n [] le b = tt
Below-later m n (c ∷ cs) le b = (omega (arith, b.0), Below-later m n cs le b.1)

insert_last :
    (c : Commit) (cs : List Commit) → Below c.epoch_from cs → insert_by_epoch c cs ≡ cs ++ (c ∷ [])
unfolding insert_by_epoch
insert_last c [] b = refl
insert_last c (x ∷ xs) b = rw (lt→ltb x.epoch_from c.epoch_from b.0, insert_last c xs b.1) refl

replay_last :
    (cs : List Commit) (c : Commit) (client : Client)
    → replay (cs ++ (c ∷ [])) client ≡ (replay cs client >>= λ at. apply_commit at c)
unfolding replay
replay_last [] c client = elim (Option-cases (apply_commit client c)) [
  | inl e ↦ rw e refl
  | inr (a, e) ↦ rw e refl
]
replay_last (x ∷ xs) c client = elim (Option-cases (apply_commit client x)) [
  | inl e ↦ rw e refl
  | inr (a, e) ↦ rw e (replay_last xs c a)
]

-- No commit has expired.
abbrev pub Kept : ℕ → List Commit → Type 0
Kept now cs = All (λ c. now < c.expires_at) cs

module _ (base since now : ℕ) where
  fetched : List Commit → List Commit
  fetched cs = get_group_commits_since (pos since) now cs

  fetched-Below : (epoch : ℕ) (cs : List Commit) → Chain base epoch cs → Below epoch (fetched cs)
  unfolding fetched get_group_commits_since
  fetched-Below epoch [] h = tt
  fetched-Below epoch (c ∷ cs) h =
      let rest : Below epoch (fetched cs) =
        Below-later c.epoch_from epoch (fetched cs) (omega (arith, h.1))
          (fetched-Below c.epoch_from cs h.2) in
      ground (arith, h.1, rest, insert-Below epoch c (fetched cs) (omega (arith, h.1)) rest)

  fetched_none :
      (epoch : ℕ) (cs : List Commit) → Chain base epoch cs → epoch ≤ since → fetched cs ≡ []
  unfolding fetched get_group_commits_since
  fetched_none epoch [] h le = refl
  fetched_none epoch (c ∷ cs) h le =
      ground (arith, h.1, fetched_none c.epoch_from cs h.2 (omega (arith, h.1)))

  fetched_more :
      (c : Commit) (cs : List Commit)
      → since ≤ c.epoch_from
      → now < c.expires_at
      → Below c.epoch_from (fetched cs)
      → fetched (c ∷ cs) ≡ fetched cs ++ (c ∷ [])
  unfolding fetched get_group_commits_since
  fetched_more c cs le live below = ground (arith, insert_last c (fetched cs) below)

  -- The tree that the commits lead a client to.
  abbrev final_tree : Bytes → List Commit → Bytes
  final_tree tree [] = tree
  final_tree tree (c ∷ cs) = if leb since c.epoch_from then c.ratchet_tree_snapshot else tree

  replay-fetched :
      (tree : Bytes) (epoch : ℕ) (cs : List Commit)
      → Chain base epoch cs
      → Kept now cs
      → base ≤ since
      → since ≤ epoch
      → replay (fetched cs) (record { epoch = since; tree = tree })
        ≡ some (record { epoch = epoch; tree = final_tree tree cs })
  unfolding replay fetched get_group_commits_since
  replay-fetched tree epoch [] h kept start le =
      let same : since ≡ epoch = omega (arith, h, start, le) in rw same refl
  replay-fetched tree epoch (c ∷ cs) h kept start le = elim (Bool-cases (leb since c.epoch_from)) [
    | inl e ↦
        let from = leb→le since c.epoch_from e in
        let ih = replay-fetched tree c.epoch_from cs h.2 kept.1 start from in
        rw (e, fetched_more c cs from kept.0 (fetched-Below c.epoch_from cs h.2))
          (replay_last (fetched cs) c (record { epoch = since; tree = tree })
            ∙ rw ih (ground (arith, h.0)))
    | inr e ↦
        let before = leb_false→lt since c.epoch_from e in
        let same : since ≡ epoch = omega (arith, h.1) in
        rw (e, fetched_none epoch (c ∷ cs) h (omega arith)) (rw same refl)
  ]

  final_tree_newest :
      (tree newest : Bytes) (epoch : ℕ) (cs : List Commit)
      → Chain base epoch cs
      → NewestTree newest cs
      → base ≤ since
      → since < epoch
      → final_tree tree cs ≡ newest
  final_tree_newest tree newest epoch [] h n start lt = absurd (omega (arith, h, start, lt))
  final_tree_newest tree newest epoch (c ∷ cs) h n start lt = ground (arith, h.1, n)

fetch_commits_lists :
    (g : Group) (device : DeviceId) (since now : ℕ) (cs : List Commit)
    → fetch_commits g device since now ≡ ok cs
    → cs ≡ get_group_commits_since (as_i64 since) now g.commits
unfolding fetch_commits
fetch_commits_lists g device since now cs e = ground arith

-- A client that is behind the epoch of a group, none of whose commits has expired, and not before
-- the first epoch that they lead from, gets to the epoch and the ratchet tree of the group by
-- applying the commits that fetch_commits lists, in their order, if the commits are one line of
-- epochs and the epoch is below 2 ^ 63.
pub fetch_commits-replay :
    (g : Group) (device : DeviceId) (r : GroupRow) (base now : ℕ) (client : Client)
    (cs : List Commit)
    → HasHistory base g
    → g.row ≡ some r
    → Kept now g.commits
    → r.epoch < 2 ^ 63
    → base ≤ client.epoch
    → client.epoch < r.epoch
    → fetch_commits g device client.epoch now ≡ ok cs
    → replay cs client ≡ some (record { epoch = r.epoch; tree = r.ratchet_tree })
unfolding fetched
fetch_commits-replay g device r base now client cs history found kept small start behind e =
    let h = subst (λ row. RowHistory base row g.commits) found history in
    let lists : cs ≡ get_group_commits_since (pos client.epoch) now g.commits =
      subst (λ z. cs ≡ get_group_commits_since z now g.commits)
        (as_i64-small client.epoch (omega (arith, small, behind)))
        (fetch_commits_lists g device client.epoch now cs e) in
    rw
      (
        lists,
        replay-fetched base client.epoch now client.tree r.epoch g.commits h.0 kept start
            (omega (arith, behind)),
      )
      (rw
        (final_tree_newest base client.epoch now client.tree r.ratchet_tree r.epoch g.commits h.0
          h.1 start behind)
        refl)
