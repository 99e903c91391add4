-- ===== src/Group/Signed.antt =====
-- group-service/src/helpers.rs: the signed proof that an operation on a group asks for.
--
-- Ed25519 and the table of devices, which the identity service keeps, are parameters. The signed
-- text is made of an operation's prefix, the ids and the time; `SignedText` has a constructor for
-- each format, less the id of the group, which is the same throughout.
use construct_server.Base.{
  ℕ, Bool, Option, ℤ, none, if◌then◌else◌, pos, some, ltb, negsuc, not, length, suc, ◌-ℤ◌, ◌==◌,
}
use construct_server.Group.{Bytes, DeviceId, Uuid, Status}

pub data SignedText : Type 0 where
  dissolve_group_text : ℤ → SignedText
  delegate_admin_text : DeviceId → ℤ → SignedText
  transfer_ownership_text : DeviceId → ℤ → SignedText
  accept_ownership_text : DeviceId → ℤ → SignedText
  group_join_text : Uuid → ℤ → SignedText
  remove_member_text : DeviceId → ℤ → SignedText

pub record Directory : Type 0 where
  pub get_device_verifying_key : DeviceId → Option Bytes
  pub device_belongs_to_user : DeviceId → ℕ → Bool
  pub is_key : Bytes → Bool
  pub verify : Bytes → SignedText → Bytes → Bool

abbrev pub abs : ℤ → ℕ
abs (pos n) = n
abs (negsuc n) = suc n

module _ (d : Directory) where
  abbrev pub verify_with_key : Option Bytes → SignedText → Bytes → Option Status
  verify_with_key none text signature = some Status.not_found
  verify_with_key (some key) text signature =
      if not (length key == 32)
      then some Status.invalid_argument
      else if not (d.is_key key)
      then some Status.invalid_argument
      else if not (length signature == 64)
      then some Status.invalid_argument
      else if d.verify key text signature
      then none
      else some Status.permission_denied

  -- `none` is `Ok(())`. With a time near the bounds of i64 the subtraction may wrap; the result is
  -- then far more than 300 as well.
  unfoldable pub verify_admin_proof : DeviceId → Bytes → ℤ → ℕ → SignedText → Option Status
  verify_admin_proof device signature timestamp now text =
      if ltb 300 (abs (pos now -ℤ timestamp))
      then some Status.invalid_argument
      else verify_with_key (d.get_device_verifying_key device) text signature
