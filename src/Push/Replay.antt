-- ===== src/Push/Replay.antt =====
-- The replay of a mutation that has been decided (apps/backend/src/sync/push/delta.service.ts).
use ayphen_retail_pos.Common.{
  ℕ, ◌+◌, ◌*◌, ◌<◌, ◌≡◌, refl, sym, ap, subst, ◌∙◌, Bool, true, false, not, inl, inr, Option, none,
  some, List, [], ◌∷◌, ◌++◌, ==_refl, find, arith, Bool-cases, Option-cases, some_injective,
}
use mathlib.Core.Bool.{false≢true}
use ayphen_retail_pos.Ledger.{MutationAction}
use ayphen_retail_pos.Push.{
  SyncMutation, MutationEnv, PushCode, server_error, is_duplicate_entry, Handler, Wire,
  wire_applied, wire_conflict, wire_rejected, wire_retry_later, wire_duplicate, IdempotencyStatus,
  was_applied, was_rejected, was_conflict, IdempotencyRow, ServerState, has_key, find_row, ttl_of,
  is_live, insert_row, remove_row, sanitize, bump_failure, effective_as_of,
}
use ayphen_retail_pos.Push.Cases.{Reply, if-All, execute-All, decide-All}
use ayphen_retail_pos.Push.Process.{
  record_idempotency, terminal_reject, commit, map_rejected, map_crash, execute, decide, drop_row,
  process_one,
}

abbrev pub is_server_error : PushCode → Bool
is_server_error server_error = true
is_server_error _ = false

-- A result that is decided for good: not `retry_later`, and no internal error.
abbrev pub is_final : Wire → Bool
is_final (wire_applied row) = true
is_final (wire_conflict row) = true
is_final (wire_rejected code) = not (is_server_error code)
is_final _ = false

-- How long a result is replayed: five minutes for a conflict, and 45 days for what was applied or
-- rejected, in milliseconds.
abbrev pub replay_window_ms : Wire → ℕ
replay_window_ms (wire_conflict row) = 5 * 60 * 1000
replay_window_ms _ = 45 * 24 * 60 * 60 * 1000

-- A result as a replay shows it.
abbrev pub hide_row : Wire → Wire
hide_row (wire_conflict row) = wire_conflict none
hide_row w = w

find-append :
    {A : Type 0} (p : A → Bool) (xs : List A) (x : A)
    → find p xs ≡ none
    → p x ≡ true
    → find p (xs ++ x ∷ []) ≡ some x
find-append p [] x h hit = rw hit refl
find-append p (y ∷ ys) x h hit = elim (Bool-cases (p y)) [
  | inl first ↦ cc (rw first at h)
  | inr other ↦ rw other (find-append p ys x (rw other at h) hit)
]

pub find_row-remove_row :
    (m : SyncMutation) (env : MutationEnv) (rows : List IdempotencyRow)
    → find_row m env (remove_row m env rows) ≡ none
unfolding remove_row
find_row-remove_row m env [] = refl
find_row-remove_row m env (r ∷ rows) = elim (Bool-cases (has_key m env r)) [
  | inl hit ↦ rw hit (find_row-remove_row m env rows)
  | inr miss ↦ rw miss (rw miss (find_row-remove_row m env rows))
]

-- The row of this mutation was written by this execution and holds its result.
pub record Recorded {D : Type 0} (m : SyncMutation) (env : MutationEnv) (w : Wire)
    (s : ServerState D) : Type 0 where
  pub row : IdempotencyRow
  pub found : find_row m env s.idempotency ≡ some row
  pub at_now : row.created_at ≡ env.now
  pub same : sanitize row.status row.result ≡ hide_row w
  pub lasting : ttl_of row.status ≡ replay_window_ms w

abbrev written_row : SyncMutation → MutationEnv → IdempotencyStatus → Wire → IdempotencyRow
written_row m env status w = record {
  mutation_id = m.mutation_id;
  user_fk = env.user_id;
  store_fk = env.store_id;
  entity_type = m.entity_type;
  action = m.action;
  status = status;
  result = w;
  created_at = env.now;
}

written_row-key :
    (m : SyncMutation) (env : MutationEnv) (status : IdempotencyStatus) (w : Wire)
    → has_key m env (written_row m env status w) ≡ true
written_row-key m env status w =
    rw (==_refl m.mutation_id, ==_refl env.user_id, ==_refl env.store_id) refl

pub find_row-insert_row :
    (m : SyncMutation) (env : MutationEnv) (status : IdempotencyStatus) (w : Wire)
    (rows : List IdempotencyRow)
    → find_row m env rows ≡ none
    → find_row m env (insert_row m env status w rows) ≡ some (written_row m env status w)
unfolding insert_row
find_row-insert_row m env status w rows free =
    rw (free, insert_row)
      (find-append (has_key m env) rows (written_row m env status w) free
        (written_row-key m env status w))

module _ {D : Type 0} (m : SyncMutation) (env : MutationEnv) where
  -- A reply that is decided for good has been recorded.
  abbrev IsRemembered : Reply D → Type 0
  IsRemembered r = (w : Wire) → r.0 ≡ some w → is_final w ≡ true → Recorded m env w r.1

  abbrev IsFresh : ServerState D → Type 0
  IsFresh s = find_row m env s.idempotency ≡ none

  recorded :
      (status : IdempotencyStatus) (w : Wire) (s : ServerState D)
      → IsFresh s
      → sanitize status w ≡ hide_row w
      → ttl_of status ≡ replay_window_ms w
      → IsRemembered (some w, record_idempotency m env status w s)
  recorded status w s free same lasting w' e final = record {
    row = written_row m env status w;
    found = find_row-insert_row m env status w s.idempotency free;
    at_now = refl;
    same = same ∙ ap hide_row (some_injective e);
    lasting = lasting ∙ ap replay_window_ms (some_injective e);
  }

  terminal_reject-IsRemembered :
      (code : PushCode) (s : ServerState D)
      → IsFresh s
      → IsRemembered (terminal_reject m env code s)
  unfolding terminal_reject
  terminal_reject-IsRemembered code s free =
      recorded was_rejected (wire_rejected code) s free refl refl

  commit-IsRemembered :
      (status : IdempotencyStatus) (w : Wire) (written s : ServerState D)
      → IsFresh s
      → IsFresh written
      → sanitize status w ≡ hide_row w
      → ttl_of status ≡ replay_window_ms w
      → IsRemembered (commit m env status w written s)
  unfolding commit
  commit-IsRemembered status w written s free free_too same lasting =
      rw (free, commit) (recorded status w written free_too same lasting)

  map_rejected-IsRemembered :
      (code : PushCode) (s : ServerState D) → IsFresh s → IsRemembered (map_rejected m env code s)
  unfolding map_rejected
  map_rejected-IsRemembered code s free =
      rw (free, map_rejected)
        (if-All IsRemembered (is_duplicate_entry code) _ _
          (terminal_reject-IsRemembered code s free) (terminal_reject-IsRemembered code s free))

  map_crash-IsRemembered : (s : ServerState D) → IsFresh s → IsRemembered (map_crash m env s)
  unfolding map_crash
  map_crash-IsRemembered s free =
      if-All IsRemembered _ _ _
        (terminal_reject-IsRemembered server_error
          (record s { failures = bump_failure m env s.failures }) free)
        (λ w e final. absurd (not_final w e final))
    where
      not_final : (w : Wire) → some (wire_rejected server_error) ≡ some w → is_final w ≡ true → ⊥
      not_final w e final = cc (subst (λ v. is_final v ≡ true) (sym (some_injective e)) final)

  execute-IsRemembered :
      (handler : Handler D) (as_of : ℕ) (s : ServerState D)
      → IsFresh s
      → IsRemembered (execute m handler as_of env s)
  execute-IsRemembered handler as_of s free =
      execute-All IsRemembered m env handler as_of s
        (λ row d e. commit-IsRemembered was_applied (wire_applied row) _ s free free refl refl)
        (λ guuid row d e.
          commit-IsRemembered was_conflict (wire_conflict row) _ s free free refl refl)
        (λ code. map_rejected-IsRemembered code s free) (map_crash-IsRemembered s free)

  not_final-IsRemembered :
      (w : Wire) (s : ServerState D) → is_final w ≡ false → IsRemembered (some w, s)
  not_final-IsRemembered w s open_still w' e final =
      absurd (
        false≢true (sym open_still ∙ subst (λ v. is_final v ≡ true) (sym (some_injective e)) final))

  module _ (handlers : ℕ → Option (Handler D))
      (was_crud_authorized_at : ℕ → ℕ → ℕ → MutationAction → ℕ → Bool) where
    decide-IsRemembered :
        (s : ServerState D)
        → IsFresh s
        → IsRemembered (decide handlers was_crud_authorized_at m env (λ u. u) s)
    decide-IsRemembered s free =
        decide-All IsRemembered m env handlers was_crud_authorized_at (λ u. u) s
          (λ code. terminal_reject-IsRemembered code s free)
          (λ code. not_final-IsRemembered (wire_retry_later code) s refl)
          (λ handler e. execute-IsRemembered handler (effective_as_of m env) s free)

    process_one-IsRemembered :
        (s : ServerState D)
        → IsRemembered (process_one handlers was_crud_authorized_at m env (λ u. u) s)
    unfolding process_one
    process_one-IsRemembered s = elim (Option-cases (find_row m env s.idempotency)) [
      | inl free ↦ rw (free, process_one) (decide-IsRemembered s free)
      | inr (r, present) ↦
          rw (present, process_one)
            (if-All IsRemembered (is_live r env.now) _ _
              (not_final-IsRemembered (wire_duplicate (sanitize r.status r.result)) s refl)
              (decide-IsRemembered (drop_row handlers was_crud_authorized_at m env s)
                (find_row-remove_row m env s.idempotency)))
    ]

    -- A mutation that has been applied, rejected for good or found in conflict is not executed again: for
    -- five minutes after a conflict, and for 45 days after it was applied or rejected, the same
    -- mutation of the same user and store replays its result as a duplicate and changes nothing.
    pub process_one-replays :
        (env' : MutationEnv) (rival : ServerState D → ServerState D) (s : ServerState D) {w : Wire}
        {s' : ServerState D}
        → process_one handlers was_crud_authorized_at m env (λ u. u) s ≡ (some w, s')
        → is_final w ≡ true
        → env'.user_id ≡ env.user_id
        → env'.store_id ≡ env.store_id
        → env'.now < env.now + replay_window_ms w
        → process_one handlers was_crud_authorized_at m env' rival s'
          ≡ (some (wire_duplicate (hide_row w)), s')
    unfolding process_one
    process_one-replays env' rival s {w} {s'} h final user store soon =
        let r = subst IsRemembered h (process_one-IsRemembered s) w refl final in
        let found : find_row m env' s'.idempotency ≡ some r.row = rw (user, store) r.found in
        let live : is_live r.row env'.now ≡ true = ground (arith, r.at_now, r.lasting, soon) in
        rw (found, process_one) (rw (live) (rw (r.same) refl))
