-- ===== src/Ssrf/Tests.antt =====
-- Addresses at concrete inputs.
use construct_server.Base.{◌≡◌, false, arith}
use construct_server.Ssrf.{Ipv4Addr, is_public_v4}
use construct_server.Ssrf.Blocks.{link_local, is_public_v4-IsInternal}

-- The metadata service of a cloud.
abbrev metadata : Ipv4Addr
metadata = record { a = 169; b = 254; c = 169; d = 254 }

is_public_v4-IsInternal_example : is_public_v4 metadata ≡ false
is_public_v4-IsInternal_example =
    is_public_v4-IsInternal metadata (omega arith) (omega arith) (omega arith)
      (link_local (omega arith, omega arith))
