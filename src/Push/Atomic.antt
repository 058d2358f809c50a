-- ===== src/Push/Atomic.antt =====
-- The transaction of a push and its idempotency row, among other requests
-- (apps/backend/src/sync/push/delta.service.ts).
use ayphen_retail_pos.Common.{
  ℕ, ◌≡◌, refl, sym, ap, subst, ◌∙◌, Bool, true, false, ◌⊎◌, inl, inr, Option, none, some, List, [],
  ◌∷◌, leb, if◌then◌else◌, is_some, Bool-cases, Option-cases,
}
use ayphen_retail_pos.Ledger.{MutationAction}
use ayphen_retail_pos.Push.{
  SyncMutation, MutationEnv, PushCode, server_error, is_duplicate_entry, Handler, Wire,
  wire_applied, wire_conflict, wire_duplicate, was_applied, was_conflict, IdempotencyStatus,
  IdempotencyRow, ServerState, has_key, find_row, is_live, remove_row, sanitize, bump_failure,
  record_conflict, effective_as_of, failure_count, poison_mutation_max_failures,
}
use ayphen_retail_pos.Push.Cases.{Reply, if-All, execute-All, decide-All}
use ayphen_retail_pos.Push.Replay.{find_row-insert_row}
use ayphen_retail_pos.Push.Process.{
  terminal_reject, poll_race_winner, commit, map_rejected, map_crash, decide, drop_row, process_one,
}

-- The replies of a committed transaction.
abbrev pub is_committed : Option Wire → Bool
is_committed (some (wire_applied row)) = true
is_committed (some (wire_conflict row)) = true
is_committed _ = false

remove_row-absent :
    (m : SyncMutation) (env : MutationEnv) (rows : List IdempotencyRow)
    → find_row m env rows ≡ none
    → remove_row m env rows ≡ rows
unfolding remove_row
remove_row-absent m env [] h = refl
remove_row-absent m env (r ∷ rows) h = elim (Bool-cases (has_key m env r)) [
  | inl hit ↦ cc (rw hit at h)
  | inr miss ↦ rw miss (ap (λ rs. r ∷ rs) (remove_row-absent m env rows (rw miss at h)))
]

module _ {D : Type 0} (m : SyncMutation) (env : MutationEnv) where
  -- A reply to a mutation that came on `s`, with a transaction that found `before`: committed, with no row
  -- of the mutation before and one after, or not, with the business data of one of the two.
  abbrev pub IsAtomic : ServerState D → ServerState D → Reply D → Type 0
  IsAtomic s before r =
      ((is_committed r.0 ≡ true)
        × (find_row m env before.idempotency ≡ none)
        × (is_some (find_row m env r.1.idempotency) ≡ true))
      ⊎ ((is_committed r.0 ≡ false)
          × ((r.1.business ≡ s.business) ⊎ (r.1.business ≡ before.business)))

  terminal_reject-business :
      (code : PushCode) (s : ServerState D)
      → (is_committed (terminal_reject m env code s).0 ≡ false)
        × ((terminal_reject m env code s).1.business ≡ s.business)
  unfolding terminal_reject
  terminal_reject-business code s = (refl, refl)

  poll_race_winner-business :
      (s : ServerState D)
      → (is_committed (poll_race_winner m env s).0 ≡ false)
        × ((poll_race_winner m env s).1.business ≡ s.business)
  unfolding poll_race_winner
  poll_race_winner-business s = elim (Option-cases (find_row m env s.idempotency)) [
    | inl absent ↦ rw (absent, poll_race_winner) (refl, refl)
    | inr (r, present) ↦ rw (present, poll_race_winner) (refl, refl)
  ]

  commit-IsAtomic :
      (s before : ServerState D) (status : IdempotencyStatus) (w : Wire) (written : ServerState D)
      → is_committed (some w) ≡ true
      → written.idempotency ≡ before.idempotency
      → IsAtomic s before (commit m env status w written before)
  unfolding commit
  commit-IsAtomic s before status w written yes_committed same =
      elim (Option-cases (find_row m env before.idempotency)) [
        | inr (r, taken) ↦
            let (uncommitted, same_business) = poll_race_winner-business before in
            rw (taken, commit) (inr (uncommitted, inr same_business))
        | inl free ↦
            let inserted =
              find_row-insert_row m env status w written.idempotency
                (ap (find_row m env) same ∙ free) in
            rw (free, commit) (inl (yes_committed, refl, rw inserted refl))
      ]

  map_rejected-IsAtomic :
      (s before : ServerState D) (code : PushCode)
      → IsAtomic s before (map_rejected m env code before)
  unfolding map_rejected
  map_rejected-IsAtomic s before code =
      if-All (IsAtomic s before) (is_duplicate_entry code) _ _
        (pick (find_row m env before.idempotency)) own
    where
      own : IsAtomic s before (terminal_reject m env code before)
      own =
          let (uncommitted, same) = terminal_reject-business code before in
          inr (uncommitted, inr same)

      pick :
          (found : Option IdempotencyRow)
          → IsAtomic s before (elim found [
            | none ↦ terminal_reject m env code before
            | some r ↦
                if is_live r env.now
                then (some (wire_duplicate (sanitize r.status r.result)), before)
                else terminal_reject m env code before
          ])
      pick none = own
      pick (some r) = if-All (IsAtomic s before) (is_live r env.now) _ _ (inr (refl, inr refl)) own

  map_crash-IsAtomic : (s before : ServerState D) → IsAtomic s before (map_crash m env before)
  unfolding map_crash
  map_crash-IsAtomic s before =
      let bumped = record before { failures = bump_failure m env before.failures } in
      let (uncommitted, same) = terminal_reject-business server_error bumped in
      if-All (IsAtomic s before)
        (leb poison_mutation_max_failures (failure_count m env bumped.failures)) _ _
        (inr (uncommitted, inr same)) (inr (refl, inr refl))

  module _ (handlers : ℕ → Option (Handler D))
      (was_crud_authorized_at : ℕ → ℕ → ℕ → MutationAction → ℕ → Bool)
      (rival : ServerState D → ServerState D) where
    decide-IsAtomic :
        (s : ServerState D)
        → IsAtomic s (rival s) (decide handlers was_crud_authorized_at m env rival s)
    decide-IsAtomic s =
        decide-All (IsAtomic s (rival s)) m env handlers was_crud_authorized_at rival s
          (λ code.
            let (uncommitted, same) = terminal_reject-business code s in
            inr (uncommitted, inl same))
          (λ code. inr (refl, inl refl))
          (λ handler e.
            execute-All (IsAtomic s (rival s)) m env handler (effective_as_of m env) (rival s)
              (λ row d f.
                commit-IsAtomic s (rival s) was_applied (wire_applied row)
                  (record (rival s) { business = d }) refl refl)
              (λ guuid row d f.
                commit-IsAtomic s (rival s) was_conflict (wire_conflict row)
                  (record (rival s) {
                    business = d;
                    conflicts = record_conflict m env guuid row (rival s).conflicts;
                  })
                  refl refl)
              (λ code. map_rejected-IsAtomic s (rival s) code) (map_crash-IsAtomic s (rival s)))

    -- Whatever other requests commit between the preflight and the transaction, a mutation is applied or
    -- recorded as a conflict only where no row of it was found, and leaves its row; with any other
    -- reply the business data is as it was found.
    pub process_one-IsAtomic :
        (s : ServerState D)
        → IsAtomic s
            (rival (drop_row handlers was_crud_authorized_at m env s))
            (process_one handlers was_crud_authorized_at m env rival s)
    unfolding process_one
    process_one-IsAtomic s = elim (Option-cases (find_row m env s.idempotency)) [
      | inl absent ↦
          rw (absent, process_one)
            (subst
              (λ (rows : List IdempotencyRow).
                IsAtomic s (rival (record s { idempotency = rows }))
                  (decide handlers was_crud_authorized_at m env rival s))
              (sym (remove_row-absent m env s.idempotency absent)) (decide-IsAtomic s))
      | inr (r, present) ↦
          rw (present, process_one)
            (if-All (IsAtomic s (rival (drop_row handlers was_crud_authorized_at m env s)))
              (is_live r env.now) _ _ (inr (refl, inl refl))
              (decide-IsAtomic (drop_row handlers was_crud_authorized_at m env s)))
    ]
