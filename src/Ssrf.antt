-- ===== src/Ssrf.antt =====
-- crates/construct-federation/src/ssrf.rs: which addresses may be dialled. An IPv4 address is its
-- four octets. The tests of the standard library are written out after its documentation.
pub mod Blocks
mod Tests
use construct_server.Base.{Bool, ℕ, if◌then◌else◌, ◌==◌, ◌||◌, false, ◌&&◌, leb, ◌/◌, true}

pub record Ipv4Addr : Type 0 where
  pub a : ℕ
  pub b : ℕ
  pub c : ℕ
  pub d : ℕ

pub is_private : Ipv4Addr → Bool
is_private v4 =
    v4.a == 10 || (v4.a == 172 && leb 16 v4.b && leb v4.b 31) || (v4.a == 192 && v4.b == 168)

pub is_documentation : Ipv4Addr → Bool
is_documentation v4 =
    (v4.a == 192 && v4.b == 0 && v4.c == 2)
    || (v4.a == 198 && v4.b == 51 && v4.c == 100)
    || (v4.a == 203 && v4.b == 0 && v4.c == 113)

pub is_broadcast : Ipv4Addr → Bool
is_broadcast v4 = v4.a == 255 && v4.b == 255 && v4.c == 255 && v4.d == 255

pub is_unspecified : Ipv4Addr → Bool
is_unspecified v4 = v4.a == 0 && v4.b == 0 && v4.c == 0 && v4.d == 0

pub is_special : Ipv4Addr → Bool
unfolding is_private is_documentation is_broadcast is_unspecified
is_special v4 =
    is_private v4
    || v4.a == 127
    || (v4.a == 169 && v4.b == 254)
    || is_broadcast v4
    || is_documentation v4
    || is_unspecified v4
    || (leb 224 v4.a && leb v4.a 239)

-- `o[1] & 0xc0 == 64` reads the two high bits of the octet.
pub is_public_v4 : Ipv4Addr → Bool
unfolding is_special
is_public_v4 v4 =
    if is_special v4
    then false
    else if v4.a == 100 && v4.b / 64 == 1
    then false
    else if v4.a == 198 && (v4.b == 18 || v4.b == 19)
    then false
    else if v4.a == 192 && v4.b == 0 && v4.c == 0
    then false
    else true
