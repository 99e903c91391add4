-- ===== src/Group/Tests.antt =====
-- A group of two devices, and the theorems at concrete calls.
use construct_server.Base.{
  ℕ, List, [], none, false, replicate, reverse, some, true, ◌∷◌, ◌≡◌, arith, pos, refl, ◌≢◌, length,
  ◌+◌, ap, ◌≤◌, take,
}
use construct_server.Group.{
  Bytes, DeviceId, GroupRow, Group, Message, GroupInvite, no_group, ok, err, closed,
}
use construct_server.Group.Status.{internal, permission_denied, failed_precondition}
use construct_server.Group.Signed.{Directory, verify_admin_proof}
use construct_server.Group.Tables.{
  is_group_member, get_group_commits_since, insert_by_epoch, get_group_invite_for_accept,
  find_admin, max_leaf_index, get_next_group_leaf_index, has_pending_group_invite, has_invite_row,
}
use construct_server.Group.Lifecycle.{
  CreateGroupRequest, dissolve_group, get_group_state, state_reply,
}
use construct_server.Group.Admins.{full}
use construct_server.Group.Commits.{
  SubmitCommitRequest, submit_commit, commit_locked, store_commit, fetch_commits, store_commit,
}
use construct_server.Group.Membership.{
  AcceptGroupInviteRequest, InviteToGroupRequest, begin_accept, finish_accept, accept_group_invite,
  leave_group, delete_member, invite_to_group, invite_resolved, invite_device,
}
use construct_server.Group.Messages.{
  listed, cursor, clamp_limit, SendGroupMessageRequest, send_group_message, send_to,
  insert_group_message, find_conflict, fetch_group_messages, insert_by_sequence,
}
use construct_server.Group.Packages.{
  KeyPackage, consume_key_package_for_user, oldest_eligible, is_eligible, publish_key_package,
  publish_loop, has_ref, count_key_packages_for_device, new_package, get_key_package_device_by_ref,
}
use construct_server.Group.Packages.Oldest.{IsOldest, consume_key_package_for_user-IsOldest}
use construct_server.Group.Packages.Once.{
  Request, publish, consume, serve, count_ref, publications, serve-count_ref,
}
use construct_server.Group.Cleanup.{
  cleanup_expired_group_invites, run_cleanup, cleanup_expired_group_messages,
  cleanup_expired_group_commits,
}
use construct_server.Group.History.Retention.{IsOrdered, last_time, IsRetained, run-IsRetained}
use construct_server.Group.Run.{
  Call, Event, run, leave, create, dissolve, delegate, transfer, invite, accept_begins, accept_ends,
  send, clean, lasts, call_by,
}
use construct_server.Group.Ownership.{IsWellOwned, run-IsWellOwned}
use construct_server.Group.Standing.{AllJoined, run-AllJoined, leave_group-half}
use construct_server.Group.History.CatchUp.{replay, fetch_commits-replay}
use construct_server.Group.History.Epochs.{trees, append_at, Means, submit_commit-Means}
use construct_server.Group.History.Once.{submit_commit-once}
use construct_server.Group.History.Kept.{Listed, commit_of, submit_commit-fetched}
use construct_server.Group.History.Joins.{
  IsJoined, accept_group_invite-IsJoined, begin_accept-overtaken,
}
use construct_server.Group.Sequence.{HasSequence, run-HasSequence, send_group_message-twice}
use construct_server.Group.Paging.{read_pages, read_pages-listed}
use construct_server.Group.Authority.{IsAuthorised, call_by-IsAuthorised}

abbrev key : Bytes
key = replicate 32 7

abbrev signature : Bytes
signature = replicate 64 9

abbrev directory : Directory
directory = record {
  get_device_verifying_key = λ device. some key;
  device_belongs_to_user = λ device user. true;
  is_key = λ k. true;
  verify = λ k text s. true;
}

abbrev package_of_2 : KeyPackage
package_of_2 = record {
  user_id = 20;
  device_id = 2;
  key_package = 8 ∷ [];
  key_package_ref = 88 ∷ [];
  published_at = 10;
  expires_at = 1000;
}

abbrev newer_package : KeyPackage
newer_package = record {
  user_id = 20;
  device_id = 2;
  key_package = 9 ∷ [];
  key_package_ref = 99 ∷ [];
  published_at = 20;
  expires_at = 1000;
}

abbrev create_request : CreateGroupRequest
create_request = record {
  initial_ratchet_tree = 1 ∷ [];
  encrypted_group_context = [];
  max_members = 10;
  message_retention_days = 0;
  threads_enabled = false;
}

abbrev invite_request : InviteToGroupRequest
invite_request = record {
  mls_welcome = 3 ∷ [];
  key_package_ref = 88 ∷ [];
  epoch = 0;
  expires_in_seconds = 0;
}

abbrev accept_request : AcceptGroupInviteRequest
accept_request = record {
  invite_id = 50;
  mls_commit = 4 ∷ [];
  new_ratchet_tree = 2 ∷ [];
  acceptance_signature = signature;
  signature_timestamp = pos 120;
}

abbrev commit_request : SubmitCommitRequest
commit_request = record { epoch = 0; mls_commit = 5 ∷ []; new_ratchet_tree = 6 ∷ [] }

abbrev send_request : SendGroupMessageRequest
send_request = record {
  epoch = 0;
  mls_ciphertext = 7 ∷ [];
  client_message_id = 65 ∷ [];
  thread_id = none;
  topic_id = none;
}

abbrev by : DeviceId → ℕ → Call → Event
by device now call = record { device = device; now = now; call = call }

abbrev first_message : Message
first_message = record {
  message_id = 70;
  epoch = 0;
  mls_ciphertext = 7 ∷ [];
  sequence_number = 0;
  client_message_id = some (65 ∷ []);
  thread_id = none;
  topic_id = none;
  sent_at = 200;
  expires_at = 2_592_200;
}

-- Device 2 joins by an invite, becomes an admin and then the owner, and device 1 leaves; a clean-up
-- comes after more than 30 days.
abbrev story : List Event
story =
    by 1 100 (create 10 true create_request true)
    ∷ by 1 110 (invite (package_of_2 ∷ []) true invite_request 50 true)
    ∷ by 2 120 (accept_begins 20 accept_request true)
    ∷ by 2 121 (accept_ends (pos 0) accept_request true true)
    ∷ by 1 130 (
        delegate
          (record {
            target_device_id = 2;
            role = full;
            admin_proof = signature;
            signature_timestamp = pos 130;
          })
          true)
    ∷ by 1 140 (
        transfer
          (record {
            new_owner_device_id = 2;
            owner_signature = signature;
            new_owner_acceptance = signature;
            signature_timestamp = pos 140;
          })
          true)
    ∷ by 1 150 (leave (1 ∷ []) true true)
    ∷ by 2 160 (send true (record send_request { epoch = 1 }) 70 true)
    ∷ by 0 3_000_000 (clean true)
    ∷ []

run-IsWellOwned_example : IsWellOwned (run directory story no_group)
run-IsWellOwned_example = run-IsWellOwned directory story

run-AllJoined_example : let g = run directory story no_group in AllJoined g.admins g.members
run-AllJoined_example =
    run-AllJoined directory story (tt, (tt, (tt, (tt, (tt, (tt, (refl, (tt, (tt, tt)))))))))

story-IsOrdered : IsOrdered 0 story
story-IsOrdered = ground arith

run-IsRetained_example : IsRetained (last_time 0 story) (run directory story no_group)
run-IsRetained_example = run-IsRetained directory story story-IsOrdered

run-HasSequence_example : HasSequence (run directory story no_group)
run-HasSequence_example = run-HasSequence directory story

-- Device 1 is the creator, device 2 a full admin with an invite for device 3 pending.
abbrev row_at : ℕ → Bytes → GroupRow
row_at epoch tree = record {
  epoch = epoch;
  ratchet_tree = tree;
  encrypted_group_context = [];
  max_members = 10;
  message_retention_days = 30;
  threads_enabled = false;
  created_at = 100;
  dissolved_at = none;
  next_sequence = 0;
}

abbrev pair : Group
pair = record no_group {
  row = some (row_at 0 (1 ∷ []));
  members =
      record { device_id = 2; leaf_index = 1 } ∷ record { device_id = 1; leaf_index = 0 } ∷ [];
  admins =
      record { device_id = 2; role = 1; is_creator = false }
      ∷ record { device_id = 1; role = 1; is_creator = true }
      ∷ [];
  invites =
      record {
        invite_id = 50;
        target_device_id = 3;
        mls_welcome = 3 ∷ [];
        key_package_ref = 88 ∷ [];
        epoch = pos 0;
        invited_at = 110;
        expires_at = 1000;
      }
      ∷ [];
}

fails_half : (leave_group pair 2 (1 ∷ []) true false).1 ≡ err internal
unfolding leave_group delete_member is_group_member find_admin
fails_half = refl

leave_group-half_example :
    let g' = (leave_group pair 2 (1 ∷ []) true false).0 in
    (is_group_member 2 g'.members ≡ false)
    × (g'.admins ≡ pair.admins)
    × (leave_group g' 2 (1 ∷ []) true true ≡ (g', err permission_denied))
leave_group-half_example = leave_group-half pair 2 (1 ∷ []) true true fails_half

commits : (submit_commit pair 2 commit_request 200 true).1 ≡ ok (1, 200)
unfolding submit_commit commit_locked is_group_member
commits = refl

-- A clean-up after all has expired, and a message.
abbrev clean_then : List Event
clean_then =
    by 0 3_000_000 (clean true)
    ∷ by 2 3_000_001 (send true (record send_request { epoch = 1 }) 70 true)
    ∷ []

still_there : lasts directory clean_then (submit_commit pair 2 commit_request 200 true).0 ≡ true
unfolding lasts run_cleanup submit_commit commit_locked store_commit is_group_member
    send_group_message send_to
still_there = refl

submit_commit-once_example :
    (submit_commit
      (run directory clean_then (submit_commit pair 2 commit_request 200 true).0)
      1
      commit_request
      300
      true).1
    ≢ ok (1, 300)
submit_commit-once_example =
    submit_commit-once directory pair clean_then 2 1 commit_request commit_request 200 300 true true
      commits still_there (omega arith)

submit_commit-Means_example :
    let (g', reply) = submit_commit pair 2 commit_request 200 true in
    Means 0
      (trees pair.commits)
      (trees g'.commits)
      (append_at 0 0 (6 ∷ []) (trees pair.commits))
      reply
submit_commit-Means_example = submit_commit-Means 0 pair 2 commit_request 200 true (refl, tt)

-- Two commits on, with the first one's author away since epoch 0.
abbrev two_on : Group
two_on = record pair {
  row = some (row_at 2 (8 ∷ []));
  commits =
      record {
        epoch_from = 1;
        epoch_to = 2;
        mls_commit = 5 ∷ [];
        ratchet_tree_snapshot = 8 ∷ [];
        committed_at = 210;
        expires_at = 9000;
      }
      ∷ record {
        epoch_from = 0;
        epoch_to = 1;
        mls_commit = 5 ∷ [];
        ratchet_tree_snapshot = 6 ∷ [];
        committed_at = 200;
        expires_at = 9000;
      }
      ∷ [];
}

fetches : fetch_commits two_on 1 0 300 ≡ ok (reverse two_on.commits)
unfolding fetch_commits is_group_member get_group_commits_since insert_by_epoch
fetches = refl

fetch_commits-replay_example :
    replay (reverse two_on.commits) (record { epoch = 0; tree = 1 ∷ [] })
    ≡ some (record { epoch = 2; tree = 8 ∷ [] })
fetch_commits-replay_example =
    fetch_commits-replay two_on 1 (row_at 2 (8 ∷ [])) 0 300 (record { epoch = 0; tree = 1 ∷ [] })
      (reverse two_on.commits) ((refl, refl, (refl, refl, refl)), refl) refl
      (omega arith, (omega arith, tt)) (omega arith) (omega arith) (omega arith) fetches

accepts :
    (accept_group_invite directory pair 3 30 accept_request 130 true true true).1 ≡ ok (1, 130)
unfolding accept_group_invite begin_accept finish_accept is_group_member get_group_invite_for_accept
    verify_admin_proof
accepts = refl

accept_group_invite-IsJoined_example :
    IsJoined 3 50 1 (accept_group_invite directory pair 3 30 accept_request 130 true true true).0
accept_group_invite-IsJoined_example =
    accept_group_invite-IsJoined directory pair 3 30 accept_request 130 true true true 1 130 accepts

begins : (begin_accept directory pair 3 30 accept_request 130 true).1 ≡ ok (pos 0)
unfolding begin_accept is_group_member get_group_invite_for_accept verify_admin_proof
begins = refl

overtakes :
    (submit_commit
      (begin_accept directory pair 3 30 accept_request 130 true).0
      2
      commit_request
      131
      true).1
    ≡ ok (1, 131)
unfolding submit_commit commit_locked begin_accept is_group_member get_group_invite_for_accept
    verify_admin_proof
overtakes = refl

begin_accept-overtaken_example :
    let g₁ = (begin_accept directory pair 3 30 accept_request 130 true).0 in
    let g₂ = (submit_commit g₁ 2 commit_request 131 true).0 in
    (finish_accept directory g₂ (pos 0) accept_request 132 true true
      ≡ (g₂, err failed_precondition))
    × (is_group_member 3 g₂.members ≡ true)
begin_accept-overtaken_example =
    begin_accept-overtaken directory pair 3 30 2 accept_request commit_request 130 131 132 true true
      true true (pos 0) (1, 131) begins overtakes

sends_once : (send_group_message pair 2 true send_request 70 200 true).1 ≡ ok first_message
unfolding send_group_message send_to insert_group_message find_conflict is_group_member
sends_once = refl

-- The last clean-up that leaves the message.
abbrev cleans : List Event
cleans = by 0 2_592_200 (clean true) ∷ []

pair_stays :
    lasts directory cleans (send_group_message pair 2 true send_request 70 200 true).0 ≡ true
unfolding lasts run_cleanup send_group_message send_to is_group_member
pair_stays = refl

sends_again :
    (send_group_message
      (run directory cleans (send_group_message pair 2 true send_request 70 200 true).0)
      1
      true
      send_request
      71
      2_592_300
      true).1
    ≡ ok first_message
unfolding send_group_message send_to insert_group_message find_conflict is_group_member run
    run_cleanup cleanup_expired_group_messages
sends_again = refl

send_group_message-twice_example :
    let g₁ = run directory cleans (send_group_message pair 2 true send_request 70 200 true).0 in
    let g₂ = (send_group_message g₁ 1 true send_request 71 2_592_300 true).0 in
    (first_message ≡ first_message) × (g₂.messages ≡ g₁.messages)
send_group_message-twice_example =
    send_group_message-twice directory pair cleans 2 1 true true send_request send_request 70 71 200
      2_592_300 true true first_message first_message refl pair_stays (omega arith, tt) refl
      sends_once sends_again

consumes :
    (consume_key_package_for_user 20 none 50 (newer_package ∷ package_of_2 ∷ [])).1
    ≡ some package_of_2
unfolding consume_key_package_for_user oldest_eligible
consumes = refl

consume_key_package_for_user-IsOldest_example :
    (is_eligible 20 none 50 package_of_2 ≡ true)
    × IsOldest 20 none 50 package_of_2 (newer_package ∷ package_of_2 ∷ [])
consume_key_package_for_user-IsOldest_example =
    consume_key_package_for_user-IsOldest 20 none 50 (newer_package ∷ package_of_2 ∷ [])
      package_of_2 consumes

abbrev requests : List (ℕ × Request)
requests =
    (10, publish 20 2 true ((8 ∷ []) ∷ (9 ∷ []) ∷ []) 2)
    ∷ (20, consume 20 none)
    ∷ (30, consume 20 (some 2))
    ∷ []

abbrev hash : Bytes → Bytes
hash bytes = 1 ∷ bytes

serve-count_ref_example :
    let h = serve hash requests (record { table = []; given = [] }) in
    count_ref (1 ∷ 8 ∷ []) h.table + count_ref (1 ∷ 8 ∷ []) h.given
    ≤ count_ref (1 ∷ 8 ∷ []) []
      + count_ref (1 ∷ 8 ∷ []) []
      + publications hash (1 ∷ 8 ∷ []) requests
serve-count_ref_example =
    serve-count_ref hash (1 ∷ 8 ∷ []) requests (record { table = []; given = [] })

changes : call_by directory pair 2 110 (dissolve signature (pos 100) true) ≢ pair
unfolding dissolve_group verify_admin_proof find_admin
changes e = let hub : length (closed ∷ []) ≡ 0 = ap (λ g. length g.hub) e in omega (arith, hub)

call_by-IsAuthorised_example : IsAuthorised directory pair 2 110 (dissolve signature (pos 100) true)
call_by-IsAuthorised_example =
    call_by-IsAuthorised directory pair 2 110 (dissolve signature (pos 100) true) changes

abbrev messages : List Message
messages =
    record first_message { sequence_number = 3 }
    ∷ record first_message { sequence_number = 1 }
    ∷ first_message
    ∷ []

read_pages-listed_example :
    read_pages none 300 (clamp_limit 0) messages (length messages) (some 0)
    ≡ listed (cursor (some 0)) none 300 messages
read_pages-listed_example =
    read_pages-listed none 300 0 messages 4 (some 0) (omega arith, (omega arith, (omega arith, tt)))
      (omega arith)

-- The other reads and the branches that no theorem is about.
state_of_two_on :
    get_group_state two_on 1 (some 1) 300
    ≡ ok (state_reply (row_at 2 (8 ∷ [])) 2 none (take 1 two_on.commits))
unfolding get_group_state is_group_member get_group_commits_since insert_by_epoch
state_of_two_on = refl

fetches_a_page :
    fetch_group_messages (record pair { messages = messages }) 2 (some 0) 0 none 300
    ≡ ok (record first_message { sequence_number = 1 } ∷ [])
unfolding fetch_group_messages is_group_member listed insert_by_sequence
fetches_a_page = refl

publishes :
    publish_key_package hash 20 2 true ((8 ∷ []) ∷ (8 ∷ []) ∷ []) 10 2 []
    ≡ (new_package hash 20 2 (8 ∷ []) 10 ∷ [], ok 1)
unfolding publish_key_package publish_loop has_ref count_key_packages_for_device
publishes = refl

invites_once :
    (invite_to_group
      (package_of_2 ∷ [])
      (record pair { members = [] })
      1
      true
      invite_request
      51
      120
      true).1
    ≡ ok (51, 604_920)
unfolding invite_to_group invite_resolved invite_device find_admin is_group_member
    get_key_package_device_by_ref has_pending_group_invite has_invite_row
invites_once = refl

next_leaf : get_next_group_leaf_index pair.members ≡ 2
unfolding max_leaf_index
next_leaf = refl

abbrev old_invite : GroupInvite
old_invite = record {
  invite_id = 50;
  target_device_id = 2;
  mls_welcome = [];
  key_package_ref = [];
  epoch = pos 0;
  invited_at = 0;
  expires_at = 9;
}

invites_go : cleanup_expired_group_invites 10 (old_invite ∷ []) ≡ []
unfolding cleanup_expired_group_invites
invites_go = refl

abbrev early_clean : List Event
early_clean = by 0 400 (clean true) ∷ []

pair_remains : lasts directory early_clean (submit_commit pair 2 commit_request 200 true).0 ≡ true
unfolding lasts run_cleanup submit_commit commit_locked store_commit is_group_member
pair_remains = refl

fetches_it :
    fetch_commits
      (run directory early_clean (submit_commit pair 2 commit_request 200 true).0)
      1
      0
      500
    ≡ ok (commit_of commit_request 200 ∷ [])
unfolding fetch_commits run run_cleanup submit_commit commit_locked store_commit is_group_member
    cleanup_expired_group_commits get_group_commits_since insert_by_epoch
fetches_it = refl

submit_commit-fetched_example :
    Listed (commit_of commit_request 200) (commit_of commit_request 200 ∷ [])
submit_commit-fetched_example =
    submit_commit-fetched directory pair early_clean 2 1 commit_request 200 0 500 true (1, 200)
      (commit_of commit_request 200 ∷ []) commits pair_remains (omega arith, tt) (omega arith)
      (omega arith) (omega arith) fetches_it
