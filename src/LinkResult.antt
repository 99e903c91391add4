-- ===== src/LinkResult.antt =====
-- crates/construct-queue/src/tokens.rs: the stored result of linking a device, two ids with a length
-- byte each and a proof. A string is a list of bytes; `is_utf8` tells which lists are one.
mod Tests
use construct_server.Base.{
  ◌>>=◌, Bool, List, Option, drop, if◌then◌else◌, leb, none, take, ℕ, ◌≡◌, length, true, ◌∷◌, some,
  ◌&&◌, ◌++◌, Bool-cases, [], ap, length-append, arith, inl, refl, some-injective, inr,
}

abbrev pub Bytes : Type 0
Bytes = List ℕ

pub encode_link_result : Bytes → Bytes → Bytes → Option Bytes
encode_link_result user_id device_id proof =
    if leb (length user_id) 255 && leb (length device_id) 255
    then some (length user_id ∷ (user_id ++ (length device_id ∷ (device_id ++ proof))))
    else none

module _ (is_utf8 : Bytes → Bool) where
  -- A length byte, that many bytes of text, and the rest.
  pub decode_field : Bytes → Option (Bytes × Bytes)
  decode_field [] = none
  decode_field (n ∷ rest) =
      if leb n (length rest) && is_utf8 (take n rest) then some (take n rest, drop n rest) else none

  pub decode_link_result : Bytes → Option (Bytes × Bytes × Bytes)
  unfolding decode_field
  decode_link_result v = do
    user ← decode_field v
    device ← decode_field user.1
    some (user.0, device.0, device.1)

  take_prefix : (x y : Bytes) → take (length x) (x ++ y) ≡ x
  take_prefix [] y = refl
  take_prefix (a ∷ x) y = ap (λ t. a ∷ t) (take_prefix x y)

  drop_prefix : (x y : Bytes) → drop (length x) (x ++ y) ≡ y
  drop_prefix [] y = refl
  drop_prefix (a ∷ x) y = drop_prefix x y

  prefix_fits : (x y : Bytes) → leb (length x) (length (x ++ y)) ≡ true
  prefix_fits x y = let size = length-append x y in ground (arith, size)

  field_round_trip :
      (x y : Bytes) → is_utf8 x ≡ true → decode_field (length x ∷ (x ++ y)) ≡ some (x, y)
  unfolding decode_field
  field_round_trip x y text = rw (prefix_fits x y, take_prefix x y, text, drop_prefix x y) refl

  -- What was encoded, from two ids that are text, is decoded to the same ids and proof.
  pub decode_link_result-encode_link_result :
      (user_id device_id proof v : Bytes)
      → is_utf8 user_id ≡ true
      → is_utf8 device_id ≡ true
      → encode_link_result user_id device_id proof ≡ some v
      → decode_link_result v ≡ some (user_id, device_id, proof)
  unfolding decode_link_result encode_link_result
  decode_link_result-encode_link_result user_id device_id proof v u d h =
      elim (Bool-cases (leb (length user_id) 255 && leb (length device_id) 255)) [
        | inl e ↦
            let whole : length user_id ∷ (user_id ++ (length device_id ∷ (device_id ++ proof)))
                ≡ v =
              some-injective _ _ (ground (arith, e, h)) in
            rw
              (
                ← whole,
                field_round_trip user_id (length device_id ∷ (device_id ++ proof)) u,
                field_round_trip device_id proof d,
              )
              refl
        | inr e ↦ absurd (ground (arith, e, h))
      ]
