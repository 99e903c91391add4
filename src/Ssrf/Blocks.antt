-- ===== src/Ssrf/Blocks.antt =====
-- crates/construct-federation/src/ssrf.rs: the blocks of addresses that are refused.
use construct_server.Base.{ℕ, ◌≡◌, ◌*◌, ◌<◌, false, ◌+◌, arith, ◌≤◌}
use construct_server.Ssrf.{Ipv4Addr, is_public_v4}

-- An address as a number.
abbrev pub number : Ipv4Addr → ℕ
number v4 = v4.a * 16_777_216 + v4.b * 65_536 + v4.c * 256 + v4.d

-- In the block that starts at `a.b.c.0` and has `size` addresses.
abbrev pub InBlock : Ipv4Addr → ℕ → ℕ → ℕ → ℕ → Type 0
InBlock v4 a b c size =
    (a * 16_777_216 + b * 65_536 + c * 256 ≤ number v4)
    × (number v4 < a * 16_777_216 + b * 65_536 + c * 256 + size)

-- The blocks that a server must not dial: its own host, private, shared, loopback, link-local,
-- protocol, documentation, benchmarking and multicast addresses.
pub data IsInternal (v4 : Ipv4Addr) : Type 0 where
  this_host : InBlock v4 0 0 0 1 → IsInternal v4
  private_10 : InBlock v4 10 0 0 16_777_216 → IsInternal v4
  shared : InBlock v4 100 64 0 4_194_304 → IsInternal v4
  loopback : InBlock v4 127 0 0 16_777_216 → IsInternal v4
  link_local : InBlock v4 169 254 0 65_536 → IsInternal v4
  private_172 : InBlock v4 172 16 0 1_048_576 → IsInternal v4
  protocol : InBlock v4 192 0 0 256 → IsInternal v4
  documentation_1 : InBlock v4 192 0 2 256 → IsInternal v4
  private_192 : InBlock v4 192 168 0 65_536 → IsInternal v4
  benchmarking : InBlock v4 198 18 0 131_072 → IsInternal v4
  documentation_2 : InBlock v4 198 51 100 256 → IsInternal v4
  documentation_3 : InBlock v4 203 0 113 256 → IsInternal v4
  multicast : InBlock v4 224 0 0 268_435_456 → IsInternal v4

module _ (v4 : Ipv4Addr) (b : v4.b < 256) (c : v4.c < 256) (d : v4.d < 256) where
  this_host_refused : InBlock v4 0 0 0 1 → is_public_v4 v4 ≡ false
  unfolding is_public_v4
  this_host_refused h = ground (arith, h)

  private_10_refused : InBlock v4 10 0 0 16_777_216 → is_public_v4 v4 ≡ false
  unfolding is_public_v4
  private_10_refused h = ground (arith, h)

  shared_refused : InBlock v4 100 64 0 4_194_304 → is_public_v4 v4 ≡ false
  unfolding is_public_v4
  shared_refused h = ground (arith, h)

  loopback_refused : InBlock v4 127 0 0 16_777_216 → is_public_v4 v4 ≡ false
  unfolding is_public_v4
  loopback_refused h = ground (arith, h)

  link_local_refused : InBlock v4 169 254 0 65_536 → is_public_v4 v4 ≡ false
  unfolding is_public_v4
  link_local_refused h = ground (arith, h)

  private_172_refused : InBlock v4 172 16 0 1_048_576 → is_public_v4 v4 ≡ false
  unfolding is_public_v4
  private_172_refused h = ground (arith, h)

  protocol_refused : InBlock v4 192 0 0 256 → is_public_v4 v4 ≡ false
  unfolding is_public_v4
  protocol_refused h = ground (arith, h)

  documentation_1_refused : InBlock v4 192 0 2 256 → is_public_v4 v4 ≡ false
  unfolding is_public_v4
  documentation_1_refused h = ground (arith, h)

  private_192_refused : InBlock v4 192 168 0 65_536 → is_public_v4 v4 ≡ false
  unfolding is_public_v4
  private_192_refused h = ground (arith, h)

  benchmarking_refused : InBlock v4 198 18 0 131_072 → is_public_v4 v4 ≡ false
  unfolding is_public_v4
  benchmarking_refused h = ground (arith, h)

  documentation_2_refused : InBlock v4 198 51 100 256 → is_public_v4 v4 ≡ false
  unfolding is_public_v4
  documentation_2_refused h = ground (arith, h)

  documentation_3_refused : InBlock v4 203 0 113 256 → is_public_v4 v4 ≡ false
  unfolding is_public_v4
  documentation_3_refused h = ground (arith, h)

  multicast_refused : InBlock v4 224 0 0 268_435_456 → is_public_v4 v4 ≡ false
  unfolding is_public_v4
  multicast_refused h = ground (arith, h)

-- No address of these blocks is public, for octets below 256.
pub is_public_v4-IsInternal :
    (v4 : Ipv4Addr) → v4.b < 256 → v4.c < 256 → v4.d < 256 → IsInternal v4 → is_public_v4 v4 ≡ false
is_public_v4-IsInternal v4 b c d (this_host h) = this_host_refused v4 b c d h
is_public_v4-IsInternal v4 b c d (private_10 h) = private_10_refused v4 b c d h
is_public_v4-IsInternal v4 b c d (shared h) = shared_refused v4 b c d h
is_public_v4-IsInternal v4 b c d (loopback h) = loopback_refused v4 b c d h
is_public_v4-IsInternal v4 b c d (link_local h) = link_local_refused v4 b c d h
is_public_v4-IsInternal v4 b c d (private_172 h) = private_172_refused v4 b c d h
is_public_v4-IsInternal v4 b c d (protocol h) = protocol_refused v4 b c d h
is_public_v4-IsInternal v4 b c d (documentation_1 h) = documentation_1_refused v4 b c d h
is_public_v4-IsInternal v4 b c d (private_192 h) = private_192_refused v4 b c d h
is_public_v4-IsInternal v4 b c d (benchmarking h) = benchmarking_refused v4 b c d h
is_public_v4-IsInternal v4 b c d (documentation_2 h) = documentation_2_refused v4 b c d h
is_public_v4-IsInternal v4 b c d (documentation_3 h) = documentation_3_refused v4 b c d h
is_public_v4-IsInternal v4 b c d (multicast h) = multicast_refused v4 b c d h
