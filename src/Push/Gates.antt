-- ===== src/Push/Gates.antt =====
-- The gates of the preflight against a forged clock: `checkGrace` and `checkSubscription` of
-- apps/backend/src/sync/push/delta.service.ts.
use ayphen_retail_pos.Common.{
  not, ◌&&◌, Bool-cases, ℕ, ◌+◌, ◌-◌, ◌<◌, ◌≤◌, ◌≡◌, ◌≢◌, refl, Bool, true, false, ◌⊎◌, inl, inr,
  Option, some, ltb, if◌then◌else◌, arith, Option-cases,
}
use mathlib.Core.Bool.{false≢true}
use ayphen_retail_pos.Ledger.{MutationAction}
use ayphen_retail_pos.Push.{
  Gate, SyncMutation, MutationEnv, SubscriptionSyncState, SubscriptionStatus, paused, running,
  Handler, effective_as_of, future_skew_tolerance_ms, revocation_grace_window_ms, pass, deny, later,
  subscription_suspended, subscription_reconciliation_required, subscription_lapsed_at_write,
}
use ayphen_retail_pos.Push.Process.{
  before_reconciliation, subscription_as_of, lapsed_at_write, check_subscription, check_grace,
}

-- The stamp that the write-gate reads is no earlier than the session and the device's last sync.
subscription_as_of-floor :
    (env : MutationEnv) (as_of t : ℕ)
    → (t < env.session_created_at)
      ⊎ ((last : ℕ) × (env.device_last_sync_at ≡ some last) × (t < last))
    → ltb t (subscription_as_of env as_of) ≡ true
unfolding subscription_as_of
subscription_as_of-floor env as_of t (inr (last, synced, before)) =
    rw (synced, subscription_as_of) (ground (arith, before))
subscription_as_of-floor env as_of t (inl before) = elim (Option-cases env.device_last_sync_at) [
  | inl never ↦ rw (never, subscription_as_of) (ground (arith, before))
  | inr (last, synced) ↦ rw (synced, subscription_as_of) (ground (arith, before))
]

gate-ne-pass :
    (status : SubscriptionStatus) (pending lapsed : Bool)
    → lapsed ≡ true
    → (elim status [
      | paused ↦ later subscription_suspended
      | running ↦
          if pending
          then later subscription_reconciliation_required
          else if lapsed
          then deny subscription_lapsed_at_write
          else pass
    ])
      ≢ pass
gate-ne-pass paused pending lapsed h e = cc e
gate-ne-pass running true lapsed h e = cc e
gate-ne-pass running false lapsed h e = cc (rw h at e)

-- Once a subscription has lapsed before the device's session began or before it last synced, no client
-- stamp gets a write past the subscription gate.
pub check_subscription-ne-pass :
    (env : MutationEnv) (sub : SubscriptionSyncState) (t as_of : ℕ)
    → env.subscription ≡ some sub
    → sub.access_valid_until ≡ some t
    → t < env.now
    → (t < env.session_created_at)
      ⊎ ((last : ℕ) × (env.device_last_sync_at ≡ some last) × (t < last))
    → check_subscription env as_of ≢ pass
unfolding check_subscription lapsed_at_write
check_subscription-ne-pass env sub t as_of has until lapsed floor =
    rw (has, check_subscription)
      (gate-ne-pass sub.status _ (lapsed_at_write sub env as_of) (
        rw (until, lapsed_at_write)
          (ground (arith, lapsed, subscription_as_of-floor env as_of t floor))))

-- The answers of the gate to a write made in time.
abbrev pub IsInTime : SubscriptionSyncState → Gate → Type 0
IsInTime sub gate =
    (gate ≡ pass)
    ⊎ ((sub.status ≡ paused) × (gate ≡ later subscription_suspended))
    ⊎ ((sub.reconciliation_pending ≡ true) × (gate ≡ later subscription_reconciliation_required))

gate-IsInTime :
    (sub : SubscriptionSyncState) (status : SubscriptionStatus) (before lapsed : Bool)
    → sub.status ≡ status
    → lapsed ≡ false
    → IsInTime sub (elim status [
      | paused ↦ later subscription_suspended
      | running ↦
          if sub.reconciliation_pending && not before
          then later subscription_reconciliation_required
          else if lapsed
          then deny subscription_lapsed_at_write
          else pass
    ])
gate-IsInTime sub paused before lapsed e h = inr (inl (e, refl))
gate-IsInTime sub running before lapsed e h =
    elim (Bool-cases (sub.reconciliation_pending && not before)) [
      | inl pending ↦ inr (inr (ground (arith, pending), rw pending refl))
      | inr settled ↦ inl (rw (settled, h) refl)
    ]

-- A write that was queued by the end of the subscription, on a device whose session and last sync are
-- no later, is not denied however long after the lapse it arrives: it passes the gate, or it is told
-- to retry later, because the subscription is paused or a reconciliation is pending.
pub check_subscription-IsInTime :
    (env : MutationEnv) (sub : SubscriptionSyncState) (t as_of : ℕ)
    → env.subscription ≡ some sub
    → sub.access_valid_until ≡ some t
    → as_of ≤ t
    → env.session_created_at ≤ t
    → ((last : ℕ) → env.device_last_sync_at ≡ some last → last ≤ t)
    → IsInTime sub (check_subscription env as_of)
unfolding check_subscription lapsed_at_write subscription_as_of
check_subscription-IsInTime env sub t as_of has until queued session synced =
    rw (has, check_subscription)
      (gate-IsInTime sub sub.status (before_reconciliation sub as_of)
        (lapsed_at_write sub env as_of) refl
        (rw (until, lapsed_at_write)
          (elim (Option-cases env.device_last_sync_at) [
            | inl never ↦ rw (never, subscription_as_of) (ground (arith, queued, session))
            | inr (last, at) ↦
                rw (at, subscription_as_of) (ground (arith, queued, session, synced last at))
          ])))

effective_as_of-le : (m : SyncMutation) (env : MutationEnv) → effective_as_of m env ≤ env.now
unfolding effective_as_of
effective_as_of-le m env = elim (Option-cases m.client_modified_at) [
  | inl absent ↦ rw (absent, effective_as_of) (ground arith)
  | inr (t, stamped) ↦ rw (stamped, effective_as_of) (ground arith)
]

-- The reach-back clamp.
grace_bounds :
    (now as_of : ℕ)
    → as_of ≤ now
    → let at =
        if ltb now (as_of + revocation_grace_window_ms)
        then as_of
        else now - revocation_grace_window_ms in
      (at ≤ now) × (now ≤ at + revocation_grace_window_ms)
grace_bounds now as_of h = (ground (arith, h), ground (arith, h))

past_tests :
    (a b c : Bool)
    → (if a then false else if b then false else c) ≡ true
    → (a ≡ false) × (b ≡ false) × (c ≡ true)
past_tests true b c h = cc h
past_tests false true c h = cc h
past_tests false false c h = (refl, refl, h)

module _ {D : Type 0} (handlers : ℕ → Option (Handler D))
    (was_crud_authorized_at : ℕ → ℕ → ℕ → MutationAction → ℕ → Bool) where
  -- A write that is let through by grace alone was authorized at an instant of the last thirty minutes,
  -- and its stamp is neither before its session nor ahead of the tolerated skew.
  pub check_grace-window :
      (m : SyncMutation) (handler : Handler D) (env : MutationEnv)
      → check_grace handlers was_crud_authorized_at m handler env ≡ true
      → (t : ℕ) × (at : ℕ) × (m.client_modified_at ≡ some t)
        × (env.session_created_at ≤ t)
        × (t ≤ env.now + future_skew_tolerance_ms)
        × (at ≤ env.now)
        × (env.now ≤ at + revocation_grace_window_ms)
        × (was_crud_authorized_at env.user_id env.store_id handler.permission_entity m.action at
            ≡ true)
  unfolding check_grace effective_as_of
  check_grace-window m handler env h = elim (Option-cases m.client_modified_at) [
    | inl absent ↦ absurd (false≢true (rw (absent, check_grace) at h))
    | inr (t, stamped) ↦
        let h₁ = rw (stamped, check_grace) at h in
        let (near, after, granted) =
          past_tests (ltb (env.now + future_skew_tolerance_ms) t) (ltb t env.session_created_at) _
            h₁ in
        let (low, high) = grace_bounds env.now (effective_as_of m env) (effective_as_of-le m env) in
        (t, _, stamped, ground (arith, after), ground (arith, near), low, high, granted)
  ]
