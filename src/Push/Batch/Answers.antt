-- ===== src/Push/Batch/Answers.antt =====
-- The results that `runMutationWaves` of apps/backend/src/sync/push/delta.service.ts leaves for
-- `buildResult`.
use ayphen_retail_pos.Common.{
  ℕ, zero, suc, ◌≡◌, refl, sym, ap, subst, ◌∙◌, Bool, true, inl, inr, ◌⊎◌, Option, some, List, [],
  ◌∷◌, All, ◌==◌, ==_refl, is_some, member, Bool-cases, Option-cases,
}
use ayphen_retail_pos.Ledger.{MutationAction}
use ayphen_retail_pos.Push.{
  SyncMutation, MutationEnv, Handler, Wire, wire_rejected, parent_cycle, ServerState,
}
use ayphen_retail_pos.Push.Sort.Measure.{In}
use ayphen_retail_pos.Push.Cycles.{find_parent_cycle_mutation_ids}
use ayphen_retail_pos.Push.Waves.{compute_waves}
use ayphen_retail_pos.Push.Batch.{
  Results, result_of, Progress, reject_cyclic, record_results, with_failed, Others, nothing_run,
  run_waves, run_mutation_waves, mutation_results,
}
use ayphen_retail_pos.Push.Batch.Replies.{Replies}
use ayphen_retail_pos.Push.Batch.Runs.{
  Waves, Ended, Ended-some, run_waves-Ended, add_failed-grows, add_failed-guuid,
}
use ayphen_retail_pos.Push.Batch.Levels.{InWaves, InWaves-cases, compute_waves-InWaves}
use ayphen_retail_pos.Push.Batch.Unique.{Has, IsUnique, to_run-IsUnique}

abbrev IsAnswered : ℕ → Progress → Type 0
IsAnswered a p = is_some (result_of a p.results) ≡ true

answered-cons :
    (a b : ℕ) (w : Wire) (rs : Results)
    → is_some (result_of a rs) ≡ true
    → is_some (result_of a ((b, w) ∷ rs)) ≡ true
answered-cons a b w rs h = elim (Bool-cases (b == a)) [
  | inl hit ↦ rw hit refl
  | inr miss ↦ rw miss h
]

record_results-IsAnswered :
    (env : MutationEnv) (wave : List SyncMutation) (rs : List (SyncMutation × Wire)) (p : Progress)
    (a : ℕ)
    → Replies env wave rs
    → IsAnswered a p ⊎ Has a wave
    → IsAnswered a (record_results rs p)
unfolding record_results
record_results-IsAnswered env [] [] p a h (inl k) = k
record_results-IsAnswered env [] [] p a h (inr k) = absurd (k.1)
record_results-IsAnswered env [] (r ∷ rs) p a h start = absurd h
record_results-IsAnswered env (m ∷ ms) [] p a h start = absurd h
record_results-IsAnswered env (m ∷ ms) ((m', w) ∷ rs) p a h start =
    record_results-IsAnswered env ms rs _ a h.2 (turn start)
  where
    turn :
        IsAnswered a p ⊎ Has a (m ∷ ms)
        → (is_some (result_of a ((m'.mutation_id, w) ∷ p.results)) ≡ true) ⊎ Has a ms
    turn (inl k) = inl (answered-cons a m'.mutation_id w p.results k)
    turn (inr (x, inl e, same)) =
        let equal : m'.mutation_id ≡ a = ap (λ y. y.mutation_id) (h.0 ∙ sym e) ∙ same in
        inl (rw equal (rw (==_refl a) refl))
    turn (inr (x, inr k, same)) = inr (x, k, same)

-- A rejected cycle leaves its results and its guuids.
pub reject_cyclic-keeps :
    (cyclic : List ℕ) (ms : List SyncMutation) (p : Progress)
    → ((a : ℕ) → IsAnswered a p → IsAnswered a (reject_cyclic cyclic ms p))
      × ((g : ℕ) → member g p.failed ≡ true → member g (reject_cyclic cyclic ms p).failed ≡ true)
unfolding reject_cyclic
reject_cyclic-keeps cyclic [] p = ((λ a h. h), (λ g h. h))
reject_cyclic-keeps cyclic (m ∷ ms) p = elim (Bool-cases (member m.mutation_id cyclic)) [
  | inr free ↦ rw (free, reject_cyclic) (reject_cyclic-keeps cyclic ms p)
  | inl on ↦
      rw (on, reject_cyclic)
        (let rest = reject_cyclic-keeps cyclic ms _ in
          (
            (λ a h.
                rest.0 a (answered-cons a m.mutation_id (wire_rejected parent_cycle) p.results h)),
            (λ g h. rest.1 g (add_failed-grows true m g p.failed h)),
          ))
]

pub reject_cyclic-rejects :
    (cyclic : List ℕ) (ms : List SyncMutation) (p : Progress) (m : SyncMutation)
    → In m ms
    → member m.mutation_id cyclic ≡ true
    → IsAnswered m.mutation_id (reject_cyclic cyclic ms p)
      × ((g : ℕ) → m.payload_guuid ≡ some g → member g (reject_cyclic cyclic ms p).failed ≡ true)
unfolding reject_cyclic
reject_cyclic-rejects cyclic [] p m h on = absurd h
reject_cyclic-rejects cyclic (x ∷ xs) p m (inl e) on =
    subst
      (λ (y : SyncMutation).
        IsAnswered m.mutation_id (reject_cyclic cyclic (y ∷ xs) p)
        × ((g : ℕ)
            → m.payload_guuid ≡ some g
            → member g (reject_cyclic cyclic (y ∷ xs) p).failed ≡ true))
      e
      (rw (on, reject_cyclic)
        (let rest = reject_cyclic-keeps cyclic xs _ in
          (
            rest.0 m.mutation_id (rw (==_refl m.mutation_id) refl),
            (λ g named. rest.1 g (add_failed-guuid true m g p.failed refl named)),
          )))
reject_cyclic-rejects cyclic (x ∷ xs) p m (inr h) on =
    elim (Bool-cases (member x.mutation_id cyclic)) [
      | inl hit ↦ rw (hit, reject_cyclic) (reject_cyclic-rejects cyclic xs _ m h on)
      | inr miss ↦ rw (miss, reject_cyclic) (reject_cyclic-rejects cyclic xs p m h on)
    ]

module _ {D : Type 0} (handlers : ℕ → Option (Handler D))
    (was_crud_authorized_at : ℕ → ℕ → ℕ → MutationAction → ℕ → Bool) (others : Others D)
    (env : MutationEnv) where
  abbrev Pending : ℕ → Waves → Progress → Type 0
  Pending a ws p = IsAnswered a p ⊎ ((x : SyncMutation) × InWaves x ws × (x.mutation_id ≡ a))

  nothing-Pending : (a : ℕ) (p : Progress) → Pending a [] p → IsAnswered a p
  nothing-Pending a p (inl h) = h
  nothing-Pending a p (inr (x, (zero, k), e)) = absurd k
  nothing-Pending a p (inr (x, (suc i, k), e)) = absurd k

  run_waves-IsAnswered :
      (a : ℕ) (ws : Waves) (p : Progress) (s : ServerState D)
      → Pending a ws p
      → Ended (Pending a []) (run_waves handlers was_crud_authorized_at others env ws p s)
  run_waves-IsAnswered a =
      run_waves-Ended handlers was_crud_authorized_at others env (Pending a)
        (λ wave ws p rs h replies. elim (first_or_later wave ws p h) [
          | inl k ↦ inl (record_results-IsAnswered (with_failed env p.failed) wave rs p a replies k)
          | inr later ↦ inr later
        ])
    where
      first_or_later :
          (wave : List SyncMutation) (ws : Waves) (p : Progress)
          → Pending a (some wave ∷ ws) p
          → (IsAnswered a p ⊎ Has a wave)
            ⊎ ((x : SyncMutation) × InWaves x ws × (x.mutation_id ≡ a))
      first_or_later wave ws p (inl h) = inl (inl h)
      first_or_later wave ws p (inr (x, k, e)) = elim (InWaves-cases x wave ws k) [
        | inl now ↦ inl (inr (x, now, e))
        | inr later ↦ inr (x, later, e)
      ]

  -- The run of a batch, with its parts named.
  pub record IsRun (batch : List SyncMutation) (s : ServerState D) (p : Progress) : Type 0 where
    pub cyclic : List ℕ
    pub unique : List SyncMutation
    pub found : find_parent_cycle_mutation_ids batch ≡ some cyclic
    pub sorted : IsUnique cyclic batch unique
    pub ran :
        (run_waves handlers was_crud_authorized_at others env
          (compute_waves unique)
          (reject_cyclic cyclic batch (nothing_run env))
          s).0
        ≡ some p

  pub run_mutation_waves-IsRun :
      (batch : List SyncMutation) (s : ServerState D) (p : Progress)
      → (run_mutation_waves handlers was_crud_authorized_at others batch env s).0 ≡ some p
      → IsRun batch s p
  unfolding run_mutation_waves
  run_mutation_waves-IsRun batch s p h =
      elim (Option-cases (find_parent_cycle_mutation_ids batch)) [
        | inl lost ↦ cc (rw (lost, run_mutation_waves) at h)
        | inr (cyclic, found) ↦
            (let (unique, ends, sorted) = to_run-IsUnique cyclic batch in
              record {
                cyclic = cyclic;
                unique = unique;
                found = found;
                sorted = sorted;
                ran = rw ends at (rw (found, run_mutation_waves) at h);
              })
      ]

  -- A run that returns has a result for every mutation of the batch.
  pub run_mutation_waves-answers :
      (batch : List SyncMutation) (s : ServerState D) (p : Progress)
      → (run_mutation_waves handlers was_crud_authorized_at others batch env s).0 ≡ some p
      → All (λ (o : Option Wire). is_some o ≡ true) (mutation_results batch p.results)
  unfolding mutation_results
  run_mutation_waves-answers batch s p h = results_of batch (λ m k. answer m k)
    where
      run : IsRun batch s p
      run = run_mutation_waves-IsRun batch s p h

      start :
          (m : SyncMutation)
          → In m batch
          → Pending m.mutation_id
              (compute_waves (run.unique))
              (reject_cyclic (run.cyclic) batch (nothing_run env))
      start m k = elim (Bool-cases (member m.mutation_id run.cyclic)) [
        | inl on ↦ inl (reject_cyclic-rejects run.cyclic batch (nothing_run env) m k on).0
        | inr free ↦
            (let (x, k', e) = run.sorted.all m k free in
              inr (x, compute_waves-InWaves run.unique run.sorted.distinct x k', e))
      ]

      answer : (m : SyncMutation) → In m batch → IsAnswered m.mutation_id p
      answer m k = nothing-Pending m.mutation_id p (
          Ended-some (Pending m.mutation_id []) _ p
            (run_waves-IsAnswered m.mutation_id (compute_waves (run.unique))
              (reject_cyclic (run.cyclic) batch (nothing_run env)) s (start m k))
            run.ran)

      results_of :
          (ms : List SyncMutation)
          → ((m : SyncMutation) → In m ms → IsAnswered m.mutation_id p)
          → All (λ (o : Option Wire). is_some o ≡ true) (mutation_results ms p.results)
      results_of [] f = tt
      results_of (m ∷ ms) f = (f m (inl refl), results_of ms (λ x k. f x (inr k)))
