-- ===== src/Group/History/Epochs.antt =====
-- group-service/src/handlers/mls_sync.rs: submit_commit against a log of trees that is appended to
-- at a given length only.
use construct_server.Base.{
  ℕ, List, Bool, Option, [], none, arith, if◌then◌else◌, length, some, ◌∷◌, ◌≡◌, refl, ◌+◌, ◌==◌,
}
use construct_server.Group.{Bytes, DeviceId, GroupRow, Commit, Group, Reply, ok, err, aborted}
use construct_server.Group.Commits.{submit_commit, SubmitCommitRequest, store_commit, commit_locked}
use construct_server.Group.History.{Chain, RowHistory, HasHistory}

-- The specification: the trees of the epochs of a group after `base`, newest first.
abbrev pub append_at : ℕ → ℕ → Bytes → List Bytes → Option (List Bytes)
append_at base epoch tree log = if epoch == base + length log then some (tree ∷ log) else none

pub trees : List Commit → List Bytes
trees [] = []
trees (c ∷ cs) = c.ratchet_tree_snapshot ∷ trees cs

-- What a reply means for the log before and after.
abbrev pub Means : ℕ → List Bytes → List Bytes → Option (List Bytes) → Reply (ℕ × ℕ) → Type 0
Means base log log' attempt (ok (epoch, at)) = (attempt ≡ some log') × (epoch ≡ base + length log')
Means base log log' attempt (err aborted) = (attempt ≡ none) × (log' ≡ log)
Means base log log' attempt (err _) = log' ≡ log

length-trees :
    (base epoch : ℕ) (cs : List Commit) → Chain base epoch cs → base + length (trees cs) ≡ epoch
unfolding trees
length-trees base epoch [] h = omega (arith, h)
length-trees base epoch (c ∷ cs) h = omega (arith, h.1, length-trees base c.epoch_from cs h.2)

commit_locked-Means :
    (base : ℕ) (row : Option GroupRow) (g : Group) (req : SubmitCommitRequest) (now : ℕ)
    (stored : Bool)
    → RowHistory base row g.commits
    → let (g', reply) = commit_locked row g req now stored in
      let log = trees g.commits in
      Means base log (trees g'.commits) (append_at base req.epoch req.new_ratchet_tree log) reply
unfolding commit_locked store_commit trees
commit_locked-Means base none g req now stored h = refl
commit_locked-Means base (some r) g req now stored h =
    ground (arith, length-trees base r.epoch g.commits h.0)

-- On a group whose commits are one line of epochs from any epoch on, submit_commit refines a log
-- of trees since that epoch that is appended to at its end only: a success is an append at the
-- epoch of the request and answers with the new end, an epoch mismatch is a refused append, and
-- any other error leaves the log as it is.
pub submit_commit-Means :
    (base : ℕ) (g : Group) (device : DeviceId) (req : SubmitCommitRequest) (now : ℕ) (stored : Bool)
    → HasHistory base g
    → let (g', reply) = submit_commit g device req now stored in
      let log = trees g.commits in
      Means base log (trees g'.commits) (append_at base req.epoch req.new_ratchet_tree log) reply
unfolding submit_commit
submit_commit-Means base g device req now stored h =
    ground (arith, commit_locked-Means base g.row g req now stored h)
