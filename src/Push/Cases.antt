-- ===== src/Push/Cases.antt =====
-- Case analysis of a push (apps/backend/src/sync/push/delta.service.ts): a predicate on the reply and
-- the state holds of `execute` and of `decide` when it holds of each way in which they end.
use ayphen_retail_pos.Common.{
  ℕ, Bool, true, false, ◌≡◌, refl, inl, inr, Option, none, some, ltb, leb, if◌then◌else◌,
  Option-cases,
}
use ayphen_retail_pos.Ledger.{MutationAction}
use ayphen_retail_pos.Push.{
  SyncMutation, MutationEnv, PushCode, server_error, unknown_mutation, mutation_payload_too_large,
  parent_failed, HandlerRun, applied, conflict, rejected, violates, crashes, Handler, Wire,
  wire_applied, wire_conflict, wire_retry_later, was_applied, was_conflict, ServerState,
  failure_count, record_conflict, map_constraint_violation, effective_as_of, parent_has_failed,
  pass, deny, later, Gate, poison_mutation_max_failures, max_mutation_payload_bytes,
}
use ayphen_retail_pos.Push.Process.{
  terminal_reject, commit, map_rejected, map_crash, execute, check_handler, decide,
}

abbrev pub Reply : Type 0 → Type 0
Reply D = Option Wire × ServerState D

pub if-All {ℓ} :
    {A : Type 0} (P : A → Type ℓ) (c : Bool) (a b : A) → P a → P b → P (if c then a else b)
if-All P true a b p q = p
if-All P false a b p q = q

module _ {D : Type 0} (P : Reply D → Type 0) (m : SyncMutation) (env : MutationEnv) where
  pub execute-All :
      (handler : Handler D) (as_of : ℕ) (s : ServerState D)
      → ((row : ℕ) (d : D)
          → handler.apply m env as_of s.business ≡ applied row d
          → P (commit m env was_applied (wire_applied row) (record s { business = d }) s))
      → ((guuid row : Option ℕ) (d : D)
          → handler.apply m env as_of s.business ≡ conflict guuid row d
          → P (
              commit m env was_conflict
                (wire_conflict row)
                (record s { business = d; conflicts = record_conflict m env guuid row s.conflicts })
                s))
      → ((code : PushCode) → P (map_rejected m env code s))
      → P (map_crash m env s)
      → P (execute m handler as_of env s)
  unfolding execute
  execute-All handler as_of s on_applied on_conflict on_rejected on_crash =
      split (handler.apply m env as_of s.business) refl
    where
      split :
          (run : HandlerRun D)
          → handler.apply m env as_of s.business ≡ run
          → P (elim run [
            | applied row d ↦
                commit m env was_applied (wire_applied row) (record s { business = d }) s
            | conflict guuid row d ↦
                commit m env was_conflict
                  (wire_conflict row)
                  (record s {
                    business = d;
                    conflicts = record_conflict m env guuid row s.conflicts;
                  })
                  s
            | rejected code ↦ map_rejected m env code s
            | violates pg ↦ elim (map_constraint_violation pg) [
              | some code ↦ map_rejected m env code s
              | none ↦ map_crash m env s
            ]
            | crashes ↦ map_crash m env s
          ])
      split (applied row d) e = on_applied row d e
      split (conflict guuid row d) e = on_conflict guuid row d e
      split (rejected code) e = on_rejected code
      split (violates pg) e = elim (Option-cases (map_constraint_violation pg)) [
        | inl unknown ↦ rw unknown on_crash
        | inr (code, known) ↦ rw known (on_rejected code)
      ]
      split crashes e = on_crash

  module _ (handlers : ℕ → Option (Handler D))
      (was_crud_authorized_at : ℕ → ℕ → ℕ → MutationAction → ℕ → Bool)
      (rival : ServerState D → ServerState D) where
    pub decide-All :
        (s : ServerState D)
        → ((code : PushCode) → P (terminal_reject m env code s))
        → ((code : PushCode) → P (some (wire_retry_later code), s))
        → ((handler : Handler D)
            → handlers m.entity_type ≡ some handler
            → P (execute m handler (effective_as_of m env) env (rival s)))
        → P (decide handlers was_crud_authorized_at m env rival s)
    unfolding decide
    decide-All s on_reject on_later on_execute =
        if-All P (ltb max_mutation_payload_bytes m.payload_bytes) _ _
          (on_reject mutation_payload_too_large)
          (if-All P (leb poison_mutation_max_failures (failure_count m env s.failures)) _ _
            (on_reject server_error)
            (if-All P (parent_has_failed m env) _ _ (on_reject parent_failed)
              (dispatch (handlers m.entity_type) refl)))
      where
        gate :
            (handler : Handler D)
            → handlers m.entity_type ≡ some handler
            → (said : Gate)
            → P (elim said [
              | deny code ↦ terminal_reject m env code s
              | later code ↦ (some (wire_retry_later code), s)
              | pass ↦ execute m handler (effective_as_of m env) env (rival s)
            ])
        gate handler e (deny code) = on_reject code
        gate handler e (later code) = on_later code
        gate handler e pass = on_execute handler e

        dispatch :
            (found : Option (Handler D))
            → handlers m.entity_type ≡ found
            → P (elim found [
              | none ↦ terminal_reject m env unknown_mutation s
              | some handler ↦ elim (check_handler handlers was_crud_authorized_at m handler env) [
                | deny code ↦ terminal_reject m env code s
                | later code ↦ (some (wire_retry_later code), s)
                | pass ↦ execute m handler (effective_as_of m env) env (rival s)
              ]
            ])
        dispatch none e = on_reject unknown_mutation
        dispatch (some handler) e = gate handler e _
