-- ===== src/Group/Commits.antt =====
-- group-service/src/handlers/mls_sync.rs: commits, which move a group from epoch to epoch.
use construct_server.Base.{
  ℕ, List, Bool, Option, none, if◌then◌else◌, some, not, suc, ◌+◌, ◌==◌, ◌∷◌,
}
use construct_server.Group.{Bytes, DeviceId, GroupRow, Commit, Group, Reply, ok, err}
use construct_server.Group.Status.{
  invalid_argument, permission_denied, not_found, aborted, internal,
}
use construct_server.Group.Tables.{
  is_empty, is_some, is_group_member, get_group_dissolved_at, get_group_commits_since, as_i64,
}

abbrev pub commit_ttl : ℕ
commit_ttl = 2_592_000

-- insert_group_commit and update_group_epoch_and_ratchet_tree of one transaction.
unfoldable pub store_commit : GroupRow → Bytes → Bytes → ℕ → Group → Group
store_commit r mls_commit new_ratchet_tree now g = record g {
  row = some (record r { ratchet_tree = new_ratchet_tree; epoch = suc r.epoch });
  commits =
      record {
        epoch_from = r.epoch;
        epoch_to = suc r.epoch;
        mls_commit = mls_commit;
        ratchet_tree_snapshot = new_ratchet_tree;
        committed_at = now;
        expires_at = now + commit_ttl;
      }
      ∷ g.commits;
}

pub record SubmitCommitRequest : Type 0 where
  pub epoch : ℕ
  pub mls_commit : Bytes
  pub new_ratchet_tree : Bytes

-- The transaction, on the row that it locks. The check of the key packages that the welcomes are
-- for only logs a warning.
unfoldable pub commit_locked :
    Option GroupRow → Group → SubmitCommitRequest → ℕ → Bool → Group × Reply (ℕ × ℕ)
commit_locked none g req now stored = (g, err internal)
commit_locked (some r) g req now stored =
    if not (req.epoch == r.epoch)
    then (g, err aborted)
    else if not stored
    then (g, err internal)
    else (store_commit r req.mls_commit req.new_ratchet_tree now g, ok (suc r.epoch, now))

unfoldable pub submit_commit :
    Group → DeviceId → SubmitCommitRequest → ℕ → Bool → Group × Reply (ℕ × ℕ)
submit_commit g device req now stored =
    if not (is_group_member device g.members)
    then (g, err permission_denied)
    else if is_empty req.mls_commit
    then (g, err invalid_argument)
    else if is_empty req.new_ratchet_tree
    then (g, err invalid_argument)
    else if is_some (get_group_dissolved_at g.row)
    then (g, err not_found)
    else commit_locked g.row g req now stored

unfoldable pub fetch_commits : Group → DeviceId → ℕ → ℕ → Reply (List Commit)
fetch_commits g device since_epoch now =
    if not (is_group_member device g.members)
    then err permission_denied
    else if is_some (get_group_dissolved_at g.row)
    then err not_found
    else ok (get_group_commits_since (as_i64 since_epoch) now g.commits)
