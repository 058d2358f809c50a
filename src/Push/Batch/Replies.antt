-- ===== src/Push/Batch/Replies.antt =====
-- The replies of one wave of apps/backend/src/sync/push/delta.service.ts, and their record.
use ayphen_retail_pos.Common.{
  ℕ, ◌≡◌, refl, Bool, true, false, Option, none, some, List, [], ◌∷◌, if◌then◌else◌, ltb, leb,
}
use ayphen_retail_pos.Ledger.{MutationAction}
use ayphen_retail_pos.Push.{
  SyncMutation, MutationEnv, Handler, Wire, wire_applied, wire_duplicate, ServerState, find_row,
  is_live, sanitize, IdempotencyRow, parent_has_failed, failure_count, max_mutation_payload_bytes,
  poison_mutation_max_failures,
}
use ayphen_retail_pos.Push.Process.{terminal_reject, decide, drop_row, process_one}
use ayphen_retail_pos.Push.Cases.{Reply, if-All}
use ayphen_retail_pos.Push.Batch.{Others, run_wave}

abbrev pub is_applied : Wire → Bool
is_applied (wire_applied _) = true
is_applied _ = false

-- A reply that is no fresh application.
abbrev NotApplied : {D : Type 0} → Reply D → Type 0
NotApplied (none, s) = Unit
NotApplied (some w, s) = is_applied w ≡ false

module _ {D : Type 0} (handlers : ℕ → Option (Handler D))
    (was_crud_authorized_at : ℕ → ℕ → ℕ → MutationAction → ℕ → Bool) where
  decide-NotApplied :
      (m : SyncMutation) (env : MutationEnv) (rival : ServerState D → ServerState D)
      (s : ServerState D)
      → parent_has_failed m env ≡ true
      → NotApplied (decide handlers was_crud_authorized_at m env rival s)
  unfolding decide terminal_reject
  decide-NotApplied m env rival s failed =
      if-All NotApplied (ltb max_mutation_payload_bytes m.payload_bytes) _ _ refl (
        if-All NotApplied (leb poison_mutation_max_failures (failure_count m env s.failures)) _ _
          refl (rw failed refl))

  process_one-NotApplied :
      (m : SyncMutation) (env : MutationEnv) (rival : ServerState D → ServerState D)
      (s : ServerState D)
      → parent_has_failed m env ≡ true
      → NotApplied (process_one handlers was_crud_authorized_at m env rival s)
  unfolding process_one
  process_one-NotApplied m env rival s failed = split (find_row m env s.idempotency)
    where
      split :
          (o : Option IdempotencyRow)
          → NotApplied (elim o as (λ _. Reply D) [
            | none ↦ decide handlers was_crud_authorized_at m env rival s
            | some r ↦
                if is_live r env.now
                then (some (wire_duplicate (sanitize r.status r.result)), s)
                else decide handlers was_crud_authorized_at m env rival
                    (drop_row handlers was_crud_authorized_at m env s)
          ])
      split none = decide-NotApplied m env rival s failed
      split (some r) =
          if-All NotApplied (is_live r env.now) _ _ refl (
            decide-NotApplied m env rival (drop_row handlers was_crud_authorized_at m env s) failed)

-- The replies of a wave, in its order: none is a fresh application after a failed parent.
abbrev pub Replies : MutationEnv → List SyncMutation → List (SyncMutation × Wire) → Type 0
Replies env [] [] = Unit
Replies env [] (r ∷ rs) = ⊥
Replies env (m ∷ ms) [] = ⊥
Replies env (m ∷ ms) (r ∷ rs) =
    (r.0 ≡ m) × (parent_has_failed m env ≡ true → is_applied (r.1) ≡ false) × Replies env ms rs

-- A wave that throws has no replies.
abbrev pub WaveReplies :
    {D : Type 0}
    → MutationEnv
    → List SyncMutation
    → Option (List (SyncMutation × Wire)) × ServerState D
    → Type 0
WaveReplies env ms (none, s) = Unit
WaveReplies env ms (some rs, s) = Replies env ms rs

module _ {D : Type 0} (handlers : ℕ → Option (Handler D))
    (was_crud_authorized_at : ℕ → ℕ → ℕ → MutationAction → ℕ → Bool) (others : Others D) where
  pub run_wave-Replies :
      (env : MutationEnv) (wave : List SyncMutation) (s : ServerState D)
      → WaveReplies env wave (run_wave handlers was_crud_authorized_at others env wave s)
  unfolding run_wave
  run_wave-Replies env [] s = tt
  run_wave-Replies env (m ∷ ms) s =
      step (process_one handlers was_crud_authorized_at m env (others.rival m) (others.before m s))
        (λ failed.
          process_one-NotApplied handlers was_crud_authorized_at m env (others.rival m)
            (others.before m s) failed)
        (λ s₁. run_wave-Replies env ms s₁)
    where
      step :
          (reply : Option Wire × ServerState D)
          → (parent_has_failed m env ≡ true → NotApplied reply)
          → ((s₁ : ServerState D)
              → WaveReplies env ms (run_wave handlers was_crud_authorized_at others env ms s₁))
          → WaveReplies env
              (m ∷ ms)
              (elim (reply.0) as (λ _. Option (List (SyncMutation × Wire)) × ServerState D) [
                | none ↦ (none, reply.1)
                | some w ↦
                    (let (rest, s₂) =
                        run_wave handlers was_crud_authorized_at others env ms (reply.1) in
                      (elim rest [ none ↦ none | some rs ↦ some ((m, w) ∷ rs) ], s₂))
              ])
      step (none, s₁) h rec = tt
      step (some w, s₁) h rec =
          join (run_wave handlers was_crud_authorized_at others env ms s₁) (rec s₁)
        where
          join :
              (r : Option (List (SyncMutation × Wire)) × ServerState D)
              → WaveReplies env ms r
              → WaveReplies env
                  (m ∷ ms)
                  (elim (r.0) [ none ↦ none | some rs ↦ some ((m, w) ∷ rs) ], r.1)
          join (none, s₂) k = tt
          join (some rs, s₂) k = (refl, h, k)
