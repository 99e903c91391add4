-- ===== src/Signaling/Routing.antt =====
-- signaling-service/src/registry.rs: who a signal goes to, and who may name the callee's device.
use mathlib.Core.Option
use construct_server.Base.{
  ℕ, ◌≡◌, Option, some, Bool-cases, arith, bytes_eq, not, inl, ◌&&◌, inr, refl, some-injective,
}
use construct_server.Signaling.{
  Bytes, CallState, caller, callee, role_of, forward_target, connects, write_answer, is_none,
  or_device, or_time,
}

-- A signal is routed exactly for a party of the call, and then to the other party: from the caller
-- to the callee, on the device that answered if one did, and from the callee to the device that
-- calls; in a call of a user to themselves it goes as from the caller.
pub forward_target-role_of :
    (s : CallState) (from_user : Bytes)
    → forward_target s from_user
      ≡ Option.map
          (λ role. elim role [
            | caller ↦ (s.callee_user_id, s.accepted_callee_device_id)
            | callee ↦ (s.caller_user_id, some s.caller_device_id)
          ])
          (role_of s from_user)
unfolding forward_target role_of
forward_target-role_of s from_user = elim (Bool-cases (bytes_eq s.caller_user_id from_user)) [
  | inl e ↦ rw e refl
  | inr e ↦ elim (Bool-cases (bytes_eq s.callee_user_id from_user)) [
    | inl f ↦ rw (e, f) refl
    | inr f ↦ rw (e, f) refl
  ]
]

written :
    (s : CallState) (device : Option Bytes) (at : ℕ)
    → let t = write_answer at (or_device s.accepted_callee_device_id device) s in
      (t.answered_at_ms ≡ some at)
      × (t.accepted_callee_device_id ≡ or_device s.accepted_callee_device_id device)
unfolding write_answer
written s device at = ground arith

-- What a `Connected` writes: the time of the answer and the device are written once and then kept,
-- and only a `Connected` that names a device, which is the callee's, sets the device.
pub connects-first :
    (s : CallState) (device : Option Bytes) (now_ms : ℕ) (f : CallState → CallState)
    → connects device now_ms s ≡ some f
    → ((f s).answered_at_ms ≡ some (or_time s.answered_at_ms now_ms))
      × ((f s).accepted_callee_device_id ≡ or_device s.accepted_callee_device_id device)
unfolding connects
connects-first s device now_ms f h =
    let answer =
      write_answer (or_time s.answered_at_ms now_ms)
        (or_device s.accepted_callee_device_id device) in
    elim (Bool-cases (not (is_none s.answered_at_ms) && is_none device)) [
      | inl e ↦ absurd (ground (arith, e, h))
      | inr e ↦
          let same : answer ≡ f = some-injective _ _ (ground (arith, e, h)) in
          rw (← same) (written s device (or_time s.answered_at_ms now_ms))
    ]
