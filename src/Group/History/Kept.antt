-- ===== src/Group/History/Kept.antt =====
-- group-service/src/handlers/mls_sync.rs and cleanup.rs: a commit that was accepted can be fetched
-- until it expires.
use construct_server.Base.{
  ℕ, ℤ, List, Bool, Option, [], none, some, ◌∷◌, ◌≡◌, ◌≤◌, ◌<◌, ◌+◌, ◌⊎◌, ◌^◌, inl, inr, arith,
  refl, subst, sym, ltb, Bool-cases, pos, true, false, suc, All, All-map, leb_ℤ, ◌&&◌, ◌==◌, ap,
}
use construct_server.Group.{DeviceId, GroupRow, Commit, Group, ok}
use construct_server.Group.Tables.{get_group_commits_since, insert_by_epoch, as_i64, as_i64-small}
use construct_server.Group.Commits.{
  submit_commit, SubmitCommitRequest, store_commit, commit_locked, commit_ttl, fetch_commits,
}
use construct_server.Group.Signed.{Directory}
use construct_server.Group.Cleanup.{cleanup_expired_group_commits}
use construct_server.Group.Outcomes.{IsDeleted}
use construct_server.Group.Run.{Event, run, lasts, IsKept, lasting-IsKept}

abbrev pub Listed : Commit → List Commit → Type 0
Listed c [] = ⊥
Listed c (x ∷ xs) = (x ≡ c) ⊎ Listed c xs

module _ (c : Commit) where
  swept-Listed :
      (now : ℕ) (cs : List Commit)
      → now ≤ c.expires_at
      → Listed c cs
      → Listed c (cleanup_expired_group_commits now cs)
  unfolding cleanup_expired_group_commits
  swept-Listed now [] live h = h
  swept-Listed now (x ∷ xs) live (inl e) =
      let kept : ltb x.expires_at now ≡ false =
        subst (λ y. ltb y.expires_at now ≡ false) (sym e) (ground (arith, live)) in
      rw kept (inl e)
  swept-Listed now (x ∷ xs) live (inr h) =
      let rest = swept-Listed now xs live h in
      elim (Bool-cases (ltb x.expires_at now)) [
        | inl gone ↦ rw gone rest
        | inr kept ↦ rw kept (inr rest)
      ]

  deleted-Listed :
      (g g' : Group) (target : DeviceId)
      → IsDeleted g target g'
      → Listed c g.commits
      → Listed c g'.commits
  deleted-Listed g g' target (inl e) h = subst (λ x. Listed c x.commits) (sym e) h
  deleted-Listed g g' target (inr e) h = subst (λ x. Listed c x.commits) (sym e) h

  Listed-IsKept : (now : ℕ) → now ≤ c.expires_at → IsKept now (λ g. Listed c g.commits)
  unfolding store_commit
  Listed-IsKept now live = record {
    created = λ g device req row h. h;
    dissolved = λ g h. h;
    delegated = λ g g' target role x h. subst (λ y. Listed c y.commits) (sym x.2) h;
    handed = λ g old new admins e h. h;
    committed = λ g r mls_commit tree found h. inr h;
    invited = λ g invites h. h;
    joined = λ g device found fresh h. h;
    deleted = λ g g' target plain x h. deleted-Listed g g' target x h;
    sends = λ g r m found next h. h;
    swept = λ g h. swept-Listed now g.commits live h;
  }

  inserted_here : (cs : List Commit) → Listed c (insert_by_epoch c cs)
  unfolding insert_by_epoch
  inserted_here [] = inl refl
  inserted_here (x ∷ xs) = elim (Bool-cases (ltb x.epoch_from c.epoch_from)) [
    | inl e ↦ rw e (inr (inserted_here xs))
    | inr e ↦ rw e (inl refl)
  ]

  inserted_other : (d : Commit) (cs : List Commit) → Listed c cs → Listed c (insert_by_epoch d cs)
  unfolding insert_by_epoch
  inserted_other d [] h = absurd h
  inserted_other d (x ∷ xs) (inl e) = elim (Bool-cases (ltb x.epoch_from d.epoch_from)) [
    | inl lt ↦ rw lt (inl e)
    | inr ge ↦ rw ge (inr (inl e))
  ]
  inserted_other d (x ∷ xs) (inr h) = elim (Bool-cases (ltb x.epoch_from d.epoch_from)) [
    | inl lt ↦ rw lt (inr (inserted_other d xs h))
    | inr ge ↦ rw ge (inr (inr h))
  ]

  fetched-Listed :
      (since : ℤ) (now : ℕ) (cs : List Commit)
      → leb_ℤ since (pos c.epoch_from) ≡ true
      → now < c.expires_at
      → Listed c cs
      → Listed c (get_group_commits_since since now cs)
  unfolding get_group_commits_since
  fetched-Listed since now [] le live h = h
  fetched-Listed since now (x ∷ xs) le live (inl e) =
      let asked : (leb_ℤ since (pos x.epoch_from) && ltb now x.expires_at) ≡ true =
        subst (λ y. (leb_ℤ since (pos y.epoch_from) && ltb now y.expires_at) ≡ true) (sym e)
          (ground (arith, le, live)) in
      rw asked (
        subst (λ y. Listed c (insert_by_epoch y (get_group_commits_since since now xs))) (sym e)
          (inserted_here (get_group_commits_since since now xs)))
  fetched-Listed since now (x ∷ xs) le live (inr h) =
      let rest = fetched-Listed since now xs le live h in
      elim (Bool-cases (leb_ℤ since (pos x.epoch_from) && ltb now x.expires_at)) [
        | inl e ↦ rw e (inserted_other x (get_group_commits_since since now xs) rest)
        | inr e ↦ rw e rest
      ]

-- The commit that a request stores.
abbrev pub commit_of : SubmitCommitRequest → ℕ → Commit
commit_of req now = record {
  epoch_from = req.epoch;
  epoch_to = suc req.epoch;
  mls_commit = req.mls_commit;
  ratchet_tree_snapshot = req.new_ratchet_tree;
  committed_at = now;
  expires_at = now + commit_ttl;
}

locked-Listed :
    (row : Option GroupRow) (g : Group) (req : SubmitCommitRequest) (now : ℕ) (stored : Bool)
    (answer : ℕ × ℕ)
    → (commit_locked row g req now stored).1 ≡ ok answer
    → Listed (commit_of req now) (commit_locked row g req now stored).0.commits
unfolding commit_locked store_commit
locked-Listed none g req now stored answer e = absurd (cc)
locked-Listed (some r) g req now false answer e = ground (arith, e)
locked-Listed (some r) g req now true answer e =
    let is : (req.epoch == r.epoch) ≡ true = ground (arith, e) in
    let same : r.epoch ≡ req.epoch = ground (arith, e) in
    rw is (inl (ap (λ n. record (commit_of req now) { epoch_from = n; epoch_to = suc n }) same))

submitted-Listed :
    (g : Group) (device : DeviceId) (req : SubmitCommitRequest) (now : ℕ) (stored : Bool)
    (answer : ℕ × ℕ)
    → (submit_commit g device req now stored).1 ≡ ok answer
    → Listed (commit_of req now) (submit_commit g device req now stored).0.commits
unfolding submit_commit
submitted-Listed g device req now stored answer e =
    ground (arith, e, locked-Listed g.row g req now stored answer)

fetches :
    (g : Group) (device : DeviceId) (since now : ℕ) (cs : List Commit)
    → fetch_commits g device since now ≡ ok cs
    → get_group_commits_since (as_i64 since) now g.commits ≡ cs
unfolding fetch_commits
fetches g device since now cs e = ground arith

-- A commit that was accepted is among the commits that fetch_commits lists less than 30 days later
-- to any device that it answers, from the epoch of the commit or an earlier one on, after any run
-- of the handlers and of clean-ups throughout which the group exists and in which nothing comes
-- later than 30 days after the commit, if its epoch is below 2 ^ 63.
pub submit_commit-fetched :
    (d : Directory) (g : Group) (es : List Event) (device device' : DeviceId)
    (req : SubmitCommitRequest) (now since at : ℕ) (stored : Bool) (answer : ℕ × ℕ)
    (cs : List Commit)
    → (submit_commit g device req now stored).1 ≡ ok answer
    → lasts d es (submit_commit g device req now stored).0 ≡ true
    → All (λ e. e.now ≤ now + commit_ttl) es
    → since ≤ req.epoch
    → req.epoch < 2 ^ 63
    → at < now + commit_ttl
    → fetch_commits (run d es (submit_commit g device req now stored).0) device' since at ≡ ok cs
    → Listed (commit_of req now) cs
submit_commit-fetched d g es device device' req now since at stored answer cs e there early from
      small live fetched =
    let c = commit_of req now in
    let g₁ = run d es (submit_commit g device req now stored).0 in
    let kept =
      lasting-IsKept d (λ x. Listed c x.commits) es _
        (All-map (λ x l. Listed-IsKept c x.now l) es early) there
        (submitted-Listed g device req now stored answer e) in
    let asked : leb_ℤ (as_i64 since) (pos req.epoch) ≡ true =
      rw (as_i64-small since (omega (arith, from, small))) (ground (arith, from)) in
    subst (Listed c) (fetches g₁ device' since at cs fetched)
      (fetched-Listed c (as_i64 since) at g₁.commits asked live kept)
