-- ===== src/Group/Lifecycle.antt =====
-- group-service/src/handlers/group_lifecycle.rs: creation, state and dissolution of a group.
use construct_server.Base.{
  ℕ, List, Bool, Option, ℤ, [], none, if◌then◌else◌, some, false, ltb, not, ◌==◌, ◌∷◌, true, ◌&&◌,
}
use construct_server.Group.{
  Bytes, DeviceId, GroupRow, Commit, Group, Reply, ok, err, closed, after_check,
}
use construct_server.Group.Status.{
  invalid_argument, permission_denied, not_found, already_exists, resource_exhausted, internal,
}
use construct_server.Group.Tables.{
  is_empty, is_some, is_group_member, check_group_admin, get_group_dissolved_at, as_i64,
  get_group_member_count, get_group_commits_since,
}
use construct_server.Group.Signed.{Directory, verify_admin_proof, dissolve_group_text}

pub record CreateGroupRequest : Type 0 where
  pub initial_ratchet_tree : Bytes
  pub encrypted_group_context : Bytes
  pub max_members : ℕ
  pub message_retention_days : ℕ
  pub threads_enabled : Bool

abbrev pub retention_days : ℕ → ℕ
retention_days days = if days == 0 then 30 else days

-- One transaction: the row of the group, its creator as the member at leaf 0 and as full admin.
abbrev pub new_group : Group → DeviceId → CreateGroupRequest → ℕ → Group
new_group g device req now = record g {
  row = some (record {
    epoch = 0;
    ratchet_tree = req.initial_ratchet_tree;
    encrypted_group_context = req.encrypted_group_context;
    max_members = req.max_members;
    message_retention_days = retention_days req.message_retention_days;
    threads_enabled = req.threads_enabled;
    created_at = now;
    dissolved_at = none;
    next_sequence = 0;
  });
  members = record { device_id = device; leaf_index = 0 } ∷ g.members;
  admins = record { device_id = device; role = 1; is_creator = true } ∷ g.admins;
}

abbrev pub create_group_with_creator :
    Option GroupRow → Group → DeviceId → CreateGroupRequest → ℕ → Bool → Group × Reply ℕ
create_group_with_creator row g device req now false = (g, err internal)
create_group_with_creator none g device req now true = (new_group g device req now, ok now)
create_group_with_creator (some r) g device req now true = (g, err already_exists)

-- The position of a client, and what it is sent: the tree, or the commits that it lacks.
pub record GroupStateReply : Type 0 where
  pub epoch : ℕ
  pub ratchet_tree : Option Bytes
  pub pending_commits : List Commit
  pub max_members : ℕ
  pub member_count : ℕ
  pub message_retention_days : ℕ
  pub threads_enabled : Bool
  pub created_at : ℕ

abbrev pub state_reply : GroupRow → ℕ → Option Bytes → List Commit → GroupStateReply
state_reply r members tree commits = record {
  epoch = r.epoch;
  ratchet_tree = tree;
  pending_commits = commits;
  max_members = r.max_members;
  member_count = members;
  message_retention_days = r.message_retention_days;
  threads_enabled = r.threads_enabled;
  created_at = r.created_at;
}

abbrev pub state_for : Option ℕ → GroupRow → ℕ → ℕ → List Commit → GroupStateReply
state_for none r members now commits = state_reply r members (some r.ratchet_tree) []
state_for (some known) r members now commits =
    state_reply r members none
      (if ltb known r.epoch then get_group_commits_since (as_i64 known) now commits else [])

-- `get_active_group_state` finds the row of a group that is not dissolved.
abbrev pub get_active_group_state : Option GroupRow → Option GroupRow
get_active_group_state none = none
get_active_group_state (some r) = if is_some r.dissolved_at then none else some r

abbrev pub state_of_active :
    Option GroupRow → Option ℕ → ℕ → ℕ → List Commit → Reply GroupStateReply
state_of_active none known members now commits = err not_found
state_of_active (some r) known members now commits = ok (state_for known r members now commits)

-- get_pending_commits_since and get_group_commits_since are one statement but for a column.
unfoldable pub get_group_state : Group → DeviceId → Option ℕ → ℕ → Reply GroupStateReply
get_group_state g device known now =
    if not (is_group_member device g.members)
    then err permission_denied
    else state_of_active (get_active_group_state g.row) known (get_group_member_count g.members) now
        g.commits

abbrev pub set_group_dissolved_at : ℕ → Option GroupRow → Option GroupRow
set_group_dissolved_at now none = none
set_group_dissolved_at now (some r) = some (record r { dissolved_at = some now })

module _ (d : Directory) where
  -- `allowed` is the verdict of the limiter, `stored` whether the transaction commits.
  unfoldable pub create_group :
      Group → DeviceId → ℕ → Bool → CreateGroupRequest → ℕ → Bool → Group × Reply ℕ
  create_group g device user allowed req now stored =
      if not allowed
      then (g, err resource_exhausted)
      else if is_empty req.initial_ratchet_tree
      then (g, err invalid_argument)
      else if ltb 2048 req.max_members
      then (g, err invalid_argument)
      else if req.max_members == 0
      then (g, err invalid_argument)
      else if ltb 90 req.message_retention_days
      then (g, err invalid_argument)
      else if not (d.device_belongs_to_user device user)
      then (g, err permission_denied)
      else create_group_with_creator g.row g device req now stored

  unfoldable pub dissolve_group : Group → DeviceId → Bytes → ℤ → ℕ → Bool → Group × Reply ℕ
  dissolve_group g device proof timestamp now stored =
      let (is_creator, is_admin) = check_group_admin device g.admins in
      if not is_creator && not is_admin
      then (g, err permission_denied)
      else after_check
          (verify_admin_proof d device proof timestamp now (dissolve_group_text timestamp)) g
          (if is_some (get_group_dissolved_at g.row)
            then (g, err not_found)
            else if not stored
            then (g, err internal)
            else (
              record g { row = set_group_dissolved_at now g.row; hub = closed ∷ g.hub },
              ok now,
            ))
