-- ===== src/Group/History/Retention.antt =====
-- group-service/src/cleanup.rs: what the deletion of expired commits leaves of the history of a
-- group.
use construct_server.Base.{
  ℕ, List, Option, [], none, some, ◌∷◌, ◌≡◌, ◌≤◌, ◌<◌, ◌+◌, ◌⊎◌, inl, inr, arith, refl, subst, sym,
  ltb, Bool-cases,
}
use construct_server.Group.{Bytes, GroupRow, Commit, Group, no_group}
use construct_server.Group.Commits.{store_commit, commit_ttl}
use construct_server.Group.Lifecycle.{set_group_dissolved_at, new_group, CreateGroupRequest}
use construct_server.Group.Signed.{Directory}
use construct_server.Group.Cleanup.{cleanup_expired_group_commits, erased}
use construct_server.Group.Outcomes.{IsDeleted}
use construct_server.Group.Run.{Event, call_by, run, IsKept, call_by-IsKept}
use construct_server.Group.History.{Chain, NewestTree, RowHistory, HasHistory}

-- The times of the events never go back.
abbrev pub IsOrdered : ℕ → List Event → Type 0
IsOrdered t [] = Unit
IsOrdered t (e ∷ es) = (t ≤ e.now) × IsOrdered e.now es

pub last_time : ℕ → List Event → ℕ
last_time t [] = t
last_time t (e ∷ es) = last_time e.now es

-- The commits, newest first, were stored at falling times up to `t`, none before the group.
abbrev pub Aged : ℕ → ℕ → List Commit → Type 0
Aged created t [] = created ≤ t
Aged created t (c ∷ cs) =
    (c.expires_at ≡ c.committed_at + commit_ttl)
    × (c.committed_at ≤ t)
    × Aged created c.committed_at cs

abbrev pub RowAged : ℕ → Option GroupRow → List Commit → Type 0
RowAged t none commits = Unit
RowAged t (some r) commits = Aged r.created_at t commits

-- The group was created longer ago than commits are kept.
abbrev pub IsOlder : ℕ → Option GroupRow → Type 0
IsOlder t none = ⊥
IsOlder t (some r) = r.created_at + commit_ttl < t

pub record IsRetained (t : ℕ) (g : Group) : Type 0 where
  pub base : ℕ
  pub history : HasHistory base g
  pub aged : RowAged t g.row g.commits
  pub whole : (base ≡ 0) ⊎ IsOlder t g.row

Aged-later : (created t t' : ℕ) (cs : List Commit) → t ≤ t' → Aged created t cs → Aged created t' cs
Aged-later created t t' [] le a = omega (arith, le, a)
Aged-later created t t' (c ∷ cs) le a = (a.0, omega (arith, le, a.1), a.2)

created-Aged : (created t : ℕ) (cs : List Commit) → Aged created t cs → created ≤ t
created-Aged created t [] a = a
created-Aged created t (c ∷ cs) a = omega (arith, a.1, created-Aged created c.committed_at cs a.2)

module _ (now created : ℕ) where
  abbrev swept : List Commit → List Commit
  swept cs = cleanup_expired_group_commits now cs

  -- Once a commit has expired, so have the ones before it.
  swept_none : (t : ℕ) (cs : List Commit) → t + commit_ttl < now → Aged created t cs → swept cs ≡ []
  unfolding cleanup_expired_group_commits
  swept_none t [] old a = refl
  swept_none t (c ∷ cs) old a =
      ground (arith, old, a.0, a.1, swept_none c.committed_at cs (omega (arith, old, a.1)) a.2)

  swept-Aged : (t : ℕ) (cs : List Commit) → Aged created t cs → Aged created t (swept cs)
  unfolding cleanup_expired_group_commits
  swept-Aged t [] a = a
  swept-Aged t (c ∷ cs) a = elim (Bool-cases (ltb c.expires_at now)) [
    | inl e ↦
        rw e (Aged-later created c.committed_at t (swept cs) a.1 (swept-Aged c.committed_at cs a.2))
    | inr e ↦ rw e (a.0, a.1, swept-Aged c.committed_at cs a.2)
  ]

  swept-NewestTree :
      (tree : Bytes) (t : ℕ) (cs : List Commit)
      → Aged created t cs
      → NewestTree tree cs
      → NewestTree tree (swept cs)
  unfolding cleanup_expired_group_commits
  swept-NewestTree tree t [] a n = tt
  swept-NewestTree tree t (c ∷ cs) a n = elim (Bool-cases (ltb c.expires_at now)) [
    | inl e ↦
        let none_left = swept_none c.committed_at cs (ground (arith, e, a.0)) a.2 in
        rw (e, none_left) tt
    | inr e ↦ rw e n
  ]

  -- The line of epochs is cut at one place, and then the group is older than the commits kept.
  swept-Chain :
      (base epoch t : ℕ) (cs : List Commit)
      → Aged created t cs
      → Chain base epoch cs
      → (base' : ℕ) × Chain base' epoch (swept cs) × ((base' ≡ base) ⊎ (created + commit_ttl < now))
  unfolding cleanup_expired_group_commits
  swept-Chain base epoch t [] a h = (base, h, inl refl)
  swept-Chain base epoch t (c ∷ cs) a h = elim (Bool-cases (ltb c.expires_at now)) [
    | inl e ↦
        let old : c.committed_at + commit_ttl < now = ground (arith, e, a.0) in
        let before = created-Aged created c.committed_at cs a.2 in
        (epoch, rw (e, swept_none c.committed_at cs old a.2) refl, inr (omega (arith, old, before)))
    | inr e ↦
        let (base', chain, cut) = swept-Chain base c.epoch_from c.committed_at cs a.2 h.2 in
        (base', rw e (h.0, h.1, chain), cut)
  ]

-- What the history of a group is, by its row.
abbrev RowRetained : ℕ → Option GroupRow → List Commit → Type 0
RowRetained t row cs =
    (base : ℕ) × RowHistory base row cs × RowAged t row cs × ((base ≡ 0) ⊎ IsOlder t row)

of_row : (t : ℕ) (g : Group) → RowRetained t g.row g.commits → IsRetained t g
of_row t g (base, history, aged, whole) = record {
  base = base;
  history = history;
  aged = aged;
  whole = whole;
}

to_row : (t : ℕ) (g : Group) → IsRetained t g → RowRetained t g.row g.commits
to_row t g h = (h.base, h.history, h.aged, h.whole)

row_later :
    (t t' : ℕ) (row : Option GroupRow) (cs : List Commit)
    → t ≤ t'
    → RowRetained t row cs
    → RowRetained t' row cs
row_later t t' none cs le (base, h, a, inl e) = (base, h, tt, inl e)
row_later t t' none cs le (base, h, a, inr e) = absurd e
row_later t t' (some r) cs le (base, h, a, inl e) =
    (base, h, Aged-later r.created_at t t' cs le a, inl e)
row_later t t' (some r) cs le (base, h, a, inr older) =
    (base, h, Aged-later r.created_at t t' cs le a, inr (omega (arith, older, le)))

row_created :
    (now : ℕ) (g : Group) (device : _) (req : CreateGroupRequest) (row : Option GroupRow)
    (cs : List Commit)
    → row ≡ none
    → RowRetained now row cs
    → RowRetained now (new_group g device req now).row cs
row_created now g device req none [] e h = (0, (refl, tt), omega arith, inl refl)
row_created now g device req none (c ∷ cs) e h = absurd (ground (arith, h.1))
row_created now g device req (some r) cs e h = absurd (cc)

row_dissolved :
    (now : ℕ) (row : Option GroupRow) (cs : List Commit)
    → RowRetained now row cs
    → RowRetained now (set_group_dissolved_at now row) cs
row_dissolved now none cs h = h
row_dissolved now (some r) cs h = h

row_committed :
    (now : ℕ) (r : GroupRow) (mls_commit tree : Bytes) (g : Group)
    → RowRetained now (some r) g.commits
    → IsRetained now (store_commit r mls_commit tree now g)
unfolding store_commit
row_committed now r mls_commit tree g (base, h, a, whole) = record {
  base = base;
  history = ((refl, refl, h.0), refl);
  aged = (refl, omega arith, a);
  whole = whole;
}

row_swept :
    (now : ℕ) (row : Option GroupRow) (cs : List Commit)
    → RowRetained now row cs
    → RowRetained now row (cleanup_expired_group_commits now cs)
unfolding cleanup_expired_group_commits
row_swept now none [] h = h
row_swept now none (c ∷ cs) h = absurd (ground (arith, h.1))
row_swept now (some r) cs (base, h, a, whole) =
    let aged = swept-Aged now r.created_at now cs a in
    let newest = swept-NewestTree now r.created_at r.ratchet_tree now cs a h.1 in
    let (base', chain, cut) = swept-Chain now r.created_at base r.epoch now cs a h.0 in
    elim cut [
      | inl same ↦ (
        base',
        (chain, newest),
        aged,
        elim whole [ inl zero ↦ inl (omega (arith, same, zero)) | inr older ↦ inr older ],
      )
      | inr older ↦ (base', (chain, newest), aged, inr older)
    ]

deleted-IsRetained :
    (t : ℕ) (g g' : Group) (target : _) → IsDeleted g target g' → IsRetained t g → IsRetained t g'
deleted-IsRetained t g g' target (inl e) h =
    subst (IsRetained t) (sym e) (of_row t _ (to_row t g h))
deleted-IsRetained t g g' target (inr e) h =
    subst (IsRetained t) (sym e) (of_row t _ (to_row t g h))

IsRetained-IsKept : (now : ℕ) → IsKept now (IsRetained now)
IsRetained-IsKept now = record {
  created = λ g device req row h.
      of_row now _ (row_created now g device req g.row g.commits row (to_row now g h));
  dissolved = λ g h. of_row now _ (row_dissolved now g.row g.commits (to_row now g h));
  delegated =
      λ g g' target role x h. subst (IsRetained now) (sym x.2) (of_row now _ (to_row now g h));
  handed = λ g old new admins e h. of_row now _ (to_row now g h);
  committed = λ g r mls_commit tree found h.
      row_committed now r mls_commit tree g
        (subst (λ row. RowRetained now row g.commits) found (to_row now g h));
  invited = λ g invites h. of_row now _ (to_row now g h);
  joined = λ g device found fresh h. of_row now _ (to_row now g h);
  deleted = λ g g' target plain x h. deleted-IsRetained now g g' target x h;
  sends = λ g r m found next h.
      of_row now _ (subst (λ row. RowRetained now row g.commits) found (to_row now g h));
  swept = λ g h. of_row now _ (row_swept now g.row g.commits (to_row now g h));
}

no_rows-IsRetained : (t : ℕ) (g : Group) → IsRetained t (erased g)
no_rows-IsRetained t g = record { base = 0; history = refl; aged = tt; whole = inl refl }

from-IsRetained :
    (d : Directory) (es : List Event) (t : ℕ) (g : Group)
    → IsOrdered t es
    → IsRetained t g
    → IsRetained (last_time t es) (run d es g)
unfolding run last_time
from-IsRetained d [] t g o h = h
from-IsRetained d (e ∷ es) t g o h =
    let h' = of_row e.now g (row_later t e.now g.row g.commits o.0 (to_row t g h)) in
    from-IsRetained d es e.now (call_by d g e.device e.now e.call) o.1 (
      call_by-IsKept d (IsRetained e.now) e.now (IsRetained-IsKept e.now) g e.device e.call h'
        (λ _. no_rows-IsRetained e.now g))

-- After any run of the handlers and of the clean-ups that delete expired commits, at times that
-- never go back, on a group that did not exist, there is no group and no commit; or its commits
-- lead from one epoch to its own, one commit for each; the first epoch is 0 unless the group is
-- more than 30 days old at the last time; its ratchet tree is that of the newest commit if one is
-- left; and the commits expire 30 days after they were stored, which was in the order of their
-- epochs and not before the group was created.
pub run-IsRetained :
    (d : Directory) (es : List Event)
    → IsOrdered 0 es
    → IsRetained (last_time 0 es) (run d es no_group)
run-IsRetained d es ordered =
    from-IsRetained d es 0 no_group ordered
      (record { base = 0; history = refl; aged = tt; whole = inl refl })
