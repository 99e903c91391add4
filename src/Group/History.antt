-- ===== src/Group/History.antt =====
-- group-service/src/handlers/mls_sync.rs, membership.rs and cleanup.rs: the commits of a group are
-- one line of epochs, and a client catches up along it.
pub mod CatchUp
pub mod Epochs
pub mod Joins
pub mod Kept
pub mod Once
pub mod Retention
use construct_server.Base.{ℕ, List, Option, [], none, ◌∷◌, ◌≡◌, some, suc}
use construct_server.Group.{Bytes, GroupRow, Commit, Group}

-- The commits, newest first, lead from the epoch `base` to `epoch` one by one, and the newest one's
-- tree is the group's.
abbrev pub Chain : ℕ → ℕ → List Commit → Type 0
Chain base epoch [] = epoch ≡ base
Chain base epoch (c ∷ cs) =
    (c.epoch_to ≡ epoch) × (suc c.epoch_from ≡ epoch) × Chain base c.epoch_from cs

abbrev pub NewestTree : Bytes → List Commit → Type 0
NewestTree tree [] = Unit
NewestTree tree (c ∷ cs) = c.ratchet_tree_snapshot ≡ tree

abbrev pub RowHistory : ℕ → Option GroupRow → List Commit → Type 0
RowHistory base none commits = commits ≡ []
RowHistory base (some r) commits = Chain base r.epoch commits × NewestTree r.ratchet_tree commits

abbrev pub HasHistory : ℕ → Group → Type 0
HasHistory base g = RowHistory base g.row g.commits
