-- ===== src/Push/Batch/Levels.antt =====
-- The waves of `runMutationWaves` of apps/backend/src/sync/push/delta.service.ts by their number, and
-- what the record of a wave keeps.
use ayphen_retail_pos.Common.{
  ℕ, zero, suc, ◌+◌, ◌<◌, ◌≤◌, ◌≡◌, refl, sym, ap, subst, ◌∙◌, Bool, true, inl, inr, ◌⊎◌, Option,
  some, List, [], ◌∷◌, ◌==◌, ==_refl, ==→eq, if◌then◌else◌, filter, arith, Bool-cases,
}
use ayphen_retail_pos.Push.{SyncMutation, MutationEnv, Wire}
use ayphen_retail_pos.Push.Sort.Measure.{In}
use ayphen_retail_pos.Push.Cycles.Chains.{distinct-eq}
use ayphen_retail_pos.Push.Waves.{wave_in, compute_waves}
use ayphen_retail_pos.Push.Waves.Order.{IsDistinct}
use ayphen_retail_pos.Push.Waves.Placed.{members, members-compute_waves}
use ayphen_retail_pos.Push.Batch.{result_of, Progress, record_results, with_failed}
use ayphen_retail_pos.Push.Batch.Replies.{Replies}
use ayphen_retail_pos.Push.Batch.Runs.{Waves, Outcome, record_results-other, record_results-Outcome}

abbrev pub InWaves : SyncMutation → Waves → Type 0
InWaves m ws = (i : ℕ) × In m (members i ws)

-- A mutation of the waves is in the first one or in the others.
pub InWaves-cases :
    (m : SyncMutation) (wave : List SyncMutation) (ws : Waves)
    → InWaves m (some wave ∷ ws)
    → In m wave ⊎ InWaves m ws
InWaves-cases m wave ws (zero, h) = inl h
InWaves-cases m wave ws (suc i, h) = inr (i, h)

pub filter-In :
    (p : SyncMutation → Bool) (ms : List SyncMutation) (m : SyncMutation)
    → In m (filter p ms)
    → In m ms × (p m ≡ true)
filter-In p [] m h = absurd h
filter-In p (x ∷ xs) m h = elim (Bool-cases (p x)) [
  | inl hit ↦ elim (cons_cases (rw hit at h)) [
    | inl e ↦ (inl e, subst (λ y. p y ≡ true) (sym e) hit)
    | inr k ↦ (let (k', e) = filter-In p xs m k in (inr k', e))
  ]
  | inr miss ↦ (let (k, e) = filter-In p xs m (rw miss at h) in (inr k, e))
]
  where
    cons_cases : In m (x ∷ filter p xs) → (m ≡ x) ⊎ In m (filter p xs)
    cons_cases h = h

pub In-filter :
    (p : SyncMutation → Bool) (ms : List SyncMutation) (m : SyncMutation)
    → In m ms
    → p m ≡ true
    → In m (filter p ms)
In-filter p [] m h e = absurd h
In-filter p (x ∷ xs) m (inl same) e =
    subst (λ y. In m (if p y then y ∷ filter p xs else filter p xs)) same (rw e (inl refl))
In-filter p (x ∷ xs) m (inr h) e = elim (Bool-cases (p x)) [
  | inl hit ↦ rw hit (inr (In-filter p xs m h e))
  | inr miss ↦ rw miss (In-filter p xs m h e)
]

module _ (unique : List SyncMutation) (distinct : IsDistinct unique) where
  -- The waves that are left start at wave `k`.
  abbrev pub Leveled : ℕ → Waves → Type 0
  Leveled k ws =
      (i : ℕ) (x : SyncMutation) → In x (members i ws) → In x unique × (wave_in unique x ≡ k + i)

  pub compute_waves-Leveled : Leveled 0 (compute_waves unique)
  compute_waves-Leveled i x h =
      let (k, e) =
        filter-In (λ m. wave_in unique m == i) unique x
          (subst (In x) (members-compute_waves unique i) h) in
      (k, ==→eq (wave_in unique x) i e ∙ omega arith)

  pub compute_waves-InWaves : (m : SyncMutation) → In m unique → InWaves m (compute_waves unique)
  compute_waves-InWaves m h = (
    wave_in unique m,
    subst (In m) (sym (members-compute_waves unique (wave_in unique m))) (
        In-filter (λ x. wave_in unique x == wave_in unique m) unique m h
          (==_refl (wave_in unique m))),
  )

  pub next-Leveled :
      (k : ℕ) (w : Option (List SyncMutation)) (ws : Waves)
      → Leveled k (w ∷ ws)
      → Leveled (suc k) ws
  next-Leveled k w ws h i x m = let (u, e) = h (suc i) x m in (u, e ∙ omega arith)

  pub level-le :
      (k : ℕ) (ws : Waves) (x : SyncMutation) → Leveled k ws → InWaves x ws → k ≤ wave_in unique x
  level-le k ws x h (i, m) = let e = (h i x m).1 in ground (arith, e)

  module _ (env : MutationEnv) (q : SyncMutation) (q_in : In q unique) where
    pub first-level :
        (k : ℕ) (wave : List SyncMutation) (ws : Waves) (x : SyncMutation)
        → Leveled k (some wave ∷ ws)
        → In x wave
        → In x unique × (wave_in unique x ≡ k)
    first-level k wave ws x h m = let (u, e) = h 0 x m in (u, e ∙ omega arith)

    only-q :
        (k : ℕ) (wave : List SyncMutation) (ws : Waves)
        → Leveled k (some wave ∷ ws)
        → (x : SyncMutation) → In x wave
        → x.mutation_id ≡ q.mutation_id
        → x ≡ q
    only-q k wave ws h x m e =
        distinct-eq unique x q distinct (first-level k wave ws x h m).0 q_in e

    -- The result of an earlier wave stays.
    pub kept-q :
        (k : ℕ) (wave : List SyncMutation) (ws : Waves) (p : Progress)
        (rs : List (SyncMutation × Wire))
        → Leveled k (some wave ∷ ws)
        → Replies (with_failed env p.failed) wave rs
        → wave_in unique q < k
        → result_of q.mutation_id (record_results rs p).results ≡ result_of q.mutation_id p.results
    kept-q k wave ws p rs h replies before =
        record_results-other (with_failed env p.failed) wave rs p q.mutation_id replies (λ x m e.
          not_here x (first-level k wave ws x h m).1
            (ap (wave_in unique) (only-q k wave ws h x m e)))
      where
        not_here :
            (x : SyncMutation) → wave_in unique x ≡ k → wave_in unique x ≡ wave_in unique q → ⊥
        not_here x e f = ground (arith, e, f, before)

    pub Outcome-q :
        (k : ℕ) (wave : List SyncMutation) (ws : Waves) (p : Progress)
        (rs : List (SyncMutation × Wire))
        → Leveled k (some wave ∷ ws)
        → Replies (with_failed env p.failed) wave rs
        → In q wave
        → Outcome (with_failed env p.failed) q (record_results rs p)
    Outcome-q k wave ws p rs h replies m =
        record_results-Outcome (with_failed env p.failed) q wave rs p replies (only-q k wave ws h)
          (inr m)
