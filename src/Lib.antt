-- ===== src/Lib.antt =====
-- The Construct messaging server (construct-server), in Rust: a set of services over Postgres and
-- Redis, with shared crates. This library models the parts that decide something: the key
-- transparency log that clients audit, the rate limits that hold while Redis is away, and the
-- permission to send, invites, the tokens that pay for sealed messages, calls, MLS groups, and
-- broadcast channels.
--
-- Files and the code they model (paths from the repository's root):
-- - Transparency: key-service/src/kt.rs, the Merkle tree. `merkle_root`, `generate_inclusion_proof`
--   and `verify_inclusion` keep their names; `root_within` and `proof_within` are the recursions on
--   fuel, and the number of leaves is enough fuel, since both halves of a tree are smaller than it.
-- - KeyLog: the database half of the same file. The table kt_leaves is a list of rows; one call of
--   `db_ensure_leaf` is one step, since the source runs it under an advisory lock in a transaction;
--   `build_kt_proofs` appends the leaves of a device and makes its proofs from one snapshot.
-- - RateLimit: crates/construct-rate-limit/src/degraded.rs. A limiter is a record of its atomics
--   and its sixteen shards; a shard is an association list from hashes to entries.
-- - Sentinel: crates/construct-sentinel-service/src/core.rs. What Redis and Postgres reply to the
--   commands of one call is an argument, an error included; `charge_window` falls back on RateLimit.
--   A call in the source that is asked for a reply is a field of `Replies` or `Rows`.
-- - Invite: crates/crypto-agility/src/invites.rs, identity-service/src/invite_core.rs and
--   `burn_used_invite` of crates/construct-db/src/lib.rs. The state is the table of burned ids and
--   the contact links; the service and Postgres have a clock each. Deletion of expired rows is done
--   by no code of the repository, so it is an event that may delete any expired rows.
-- - TokenRedeem: messaging-service/src/token_redeem.rs. Redis is two families of keys with their
--   times of expiry; each command and each script is one step, which may fail.
-- - Signaling: signaling-service/src/registry.rs. A `World` is what one instance holds in memory
--   and what all share in Redis; other instances are whatever Redis holds at the next step.
-- - LinkResult: crates/construct-queue/src/tokens.rs, the encoding of a link result; which lists of
--   bytes are text is a parameter.
-- - Ssrf: crates/construct-federation/src/ssrf.rs, the test of IPv4 addresses.
-- - Group: group-service/src/handlers, group-service/src/helpers.rs and the statements of
--   crates/construct-db/src/mls.rs. A `Group` is the rows of one group in Postgres; Group/Run is the
--   handlers as calls on it, with the two halves of accept_group_invite as calls of their own. Each
--   statement or transaction is one step; a write may fail. Group/Cleanup is the worker of
--   group-service/src/cleanup.rs, which deletes expired rows and groups that were dissolved for a
--   day; its SQL is in shared/migrations. A clean-up is a call of a run. Group/Packages is the table of key
--   packages. Ed25519, SHA-256 and the directory of devices are parameters; the verdict of the rate
--   limiter is an argument.
-- - Channel: group-service/src/handlers/subscriptions.rs, channel_lifecycle.rs, channel_admin.rs,
--   channel_invite_links.rs and posts.rs, and the statements of crates/construct-db/src/channel.rs. A
--   `ChannelDb` is the rows of one channel and the invite links of all; Channel/Run runs the
--   handlers on it. The verdict of the rate limiter and whether a write succeeds are arguments.
-- - Base: lists, Boolean tests and integers that the others share.
--
-- Numbers are natural numbers, with wrap-around and saturation written out where the source has
-- them; times are after the epoch. SHA-256 and the signer of tree heads are parameters. Threads are
-- not modelled: each call is one step.
--
-- Not modelled: the network, SQL and Redis themselves, metrics and logs, configuration, and the
-- services that mostly pass requests on; the manifest lists every part.
pub mod Base
pub mod Channel
pub mod Group
pub mod Invite
pub mod KeyLog
pub mod LinkResult
pub mod RateLimit
pub mod Sentinel
pub mod Signaling
pub mod Ssrf
pub mod TokenRedeem
pub mod Transparency
