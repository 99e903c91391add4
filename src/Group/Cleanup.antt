-- ===== src/Group/Cleanup.antt =====
-- group-service/src/cleanup.rs, and cleanup_mls_expired with the functions that it calls in
-- shared/migrations/050_mls_cleanup_function.sql and 076_mls_cleanup_functions_that_run.sql, on the
-- rows of one group: what the worker of the service deletes.
use construct_server.Base.{
  ℕ, List, Bool, Option, [], none, false, if◌then◌else◌, some, ◌∷◌, ltb, ◌+◌, ◌≡◌, ◌⊎◌, arith,
}
use construct_server.Group.{GroupRow, Commit, GroupInvite, Message, Group}

unfoldable pub cleanup_expired_group_messages : ℕ → List Message → List Message
cleanup_expired_group_messages now [] = []
cleanup_expired_group_messages now (m ∷ ms) =
    let rest = cleanup_expired_group_messages now ms in
    if ltb m.expires_at now then rest else m ∷ rest

unfoldable pub cleanup_expired_group_commits : ℕ → List Commit → List Commit
cleanup_expired_group_commits now [] = []
cleanup_expired_group_commits now (c ∷ cs) =
    let rest = cleanup_expired_group_commits now cs in
    if ltb c.expires_at now then rest else c ∷ rest

unfoldable pub cleanup_expired_group_invites : ℕ → List GroupInvite → List GroupInvite
cleanup_expired_group_invites now [] = []
cleanup_expired_group_invites now (i ∷ rest) =
    let others = cleanup_expired_group_invites now rest in
    if ltb i.expires_at now then others else i ∷ others

abbrev pub expired_deleted : ℕ → Group → Group
expired_deleted now g = record g {
  messages = cleanup_expired_group_messages now g.messages;
  commits = cleanup_expired_group_commits now g.commits;
  invites = cleanup_expired_group_invites now g.invites;
}

abbrev pub long_dissolved : ℕ → Option ℕ → Bool
long_dissolved now none = false
long_dissolved now (some at) = ltb (at + 86_400) now

abbrev pub is_long_dissolved : ℕ → Option GroupRow → Bool
is_long_dissolved now none = false
is_long_dissolved now (some r) = long_dissolved now r.dissolved_at

-- The group with all its rows deleted; what its hub was handed stays.
abbrev pub erased : Group → Group
erased g = record g {
  row = none;
  members = [];
  admins = [];
  commits = [];
  invites = [];
  messages = [];
}

abbrev pub cleanup_dissolved_groups : ℕ → Group → Group
cleanup_dissolved_groups now g = if is_long_dissolved now g.row then erased g else g

-- One statement, which fails as a whole.
unfoldable pub run_cleanup : Group → ℕ → Bool → Group
run_cleanup g now stored =
    if stored then cleanup_dissolved_groups now (expired_deleted now g) else g

pub run_cleanup-outcome :
    (g : Group) (now : ℕ) (stored : Bool)
    → let g' = run_cleanup g now stored in (g' ≡ g) ⊎ (g' ≡ expired_deleted now g) ⊎ (g' ≡ erased g)
unfolding run_cleanup
run_cleanup-outcome g now stored = ground arith
