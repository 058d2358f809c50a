-- ===== src/Push/Batch/Cascade.antt =====
-- The cascade of a failed parent in `runMutationWaves` of
-- apps/backend/src/sync/push/delta.service.ts.
use ayphen_retail_pos.Common.{
  ℕ, suc, ◌<◌, ◌≡◌, sym, subst, ◌∙◌, Bool, true, false, inl, inr, ◌⊎◌, Option, none, some, List,
  ◌∷◌, member, arith, some_injective,
}
use ayphen_retail_pos.Push.{SyncMutation, MutationEnv, Wire, parent_has_failed}
use ayphen_retail_pos.Push.Sort.Measure.{In}
use ayphen_retail_pos.Push.Waves.{wave_in}
use ayphen_retail_pos.Push.Waves.Order.{IsDistinct}
use ayphen_retail_pos.Push.Batch.{result_of, is_failed, Progress, record_results, with_failed}
use ayphen_retail_pos.Push.Batch.Replies.{is_applied, Replies}
use ayphen_retail_pos.Push.Batch.Runs.{Waves, record_results-grows}
use ayphen_retail_pos.Push.Batch.Levels.{
  InWaves, InWaves-cases, Leveled, next-Leveled, level-le, first-level, kept-q, Outcome-q,
}

-- A failed parent fails the gate of its child.
parent_has_failed_lem :
    (env : MutationEnv) (m : SyncMutation) (g : ℕ) (failed : List ℕ)
    → m.parent_guuid ≡ some g
    → member g failed ≡ true
    → parent_has_failed m (with_failed env failed) ≡ true
unfolding parent_has_failed
parent_has_failed_lem env m g failed named h = split m.parent_guuid named
  where
    split : (o : Option ℕ) → o ≡ some g → elim o [ none ↦ false | some k ↦ member k failed ] ≡ true
    split none e = cc e
    split (some k) e = subst (λ a. member a failed ≡ true) (sym (some_injective e)) h

module _ (unique : List SyncMutation) (distinct : IsDistinct unique) (env : MutationEnv)
    (m : SyncMutation) (m_in : In m unique) (g : ℕ) (child : m.parent_guuid ≡ some g) where
  -- The result of a mutation that has run, with what it means for its child.
  pub record Failed (wire : Wire) (q : SyncMutation) (p : Progress) : Type 0 where
    pub recorded : result_of q.mutation_id p.results ≡ some wire
    pub fails : is_failed wire ≡ true → member g p.failed ≡ true

  -- The child has run, and is not applied if the parent's guuid had failed before.
  pub record Settled (failed : Bool) (p : Progress) : Type 0 where
    pub wire : Wire
    pub recorded : result_of m.mutation_id p.results ≡ some wire
    pub unapplied : failed ≡ true → is_applied wire ≡ false

  module _ (q : SyncMutation) (q_in : In q unique) (parent : q.payload_guuid ≡ some g) where
    -- Neither has run; the parent has; both have.
    pub data Stage (k : ℕ) (ws : Waves) (p : Progress) : Type 0 where
      fresh : InWaves q ws → InWaves m ws → wave_in unique q < wave_in unique m → Stage k ws p
      between : (wire : Wire) → Failed wire q p → wave_in unique q < k → InWaves m ws → Stage k ws p
      both :
          (wire : Wire)
          → Failed wire q p
          → Settled (is_failed wire) p
          → wave_in unique q < k
          → wave_in unique m < k
          → Stage k ws p

    abbrev pub Cascading : Waves → Progress → Type 0
    Cascading ws p = (k : ℕ) × Leveled unique distinct k ws × Stage k ws p

    pub keep-Cascading :
        (wave : List SyncMutation) (ws : Waves) (p : Progress) (rs : List (SyncMutation × Wire))
        → Cascading (some wave ∷ ws) p
        → Replies (with_failed env p.failed) wave rs
        → Cascading ws (record_results rs p)
    keep-Cascading wave ws p rs (k, level, stage) replies =
        (suc k, next-Leveled unique distinct k (some wave) ws level, turn stage)
      where
        kept_parent :
            (wire : Wire)
            → Failed wire q p
            → wave_in unique q < k
            → Failed wire q (record_results rs p)
        kept_parent wire f before = record {
          recorded =
              kept-q unique distinct env q q_in k wave ws p rs level replies before ∙ f.recorded;
          fails = λ e. record_results-grows rs p g (f.fails e);
        }

        new_child :
            (wire : Wire)
            → Failed wire q p
            → In m wave
            → Settled (is_failed wire) (record_results rs p)
        new_child wire f now =
            let o = Outcome-q unique distinct env m m_in k wave ws p rs level replies now in
            record {
              wire = o.wire;
              recorded = o.recorded;
              unapplied =
                  λ e. o.cascades (parent_has_failed_lem env m g p.failed child (f.fails e));
            }

        level_of : (x : SyncMutation) → In x wave → wave_in unique x ≡ k
        level_of x now = (first-level unique distinct env q q_in k wave ws x level now).1

        at_fresh :
            In q wave ⊎ InWaves q ws
            → In m wave ⊎ InWaves m ws
            → wave_in unique q < wave_in unique m
            → Stage (suc k) ws (record_results rs p)
        at_fresh (inl now) (inl now') less =
            absurd (ground (arith, level_of q now, level_of m now', less))
        at_fresh (inr later) (inl now') less = absurd (
            ground (
              arith,
              level_of m now',
              level-le unique distinct (suc k) ws q
                  (next-Leveled unique distinct k (some wave) ws level) later,
              less,
            ))
        at_fresh (inr later) (inr later') less = fresh later later' less
        at_fresh (inl now) (inr later') less =
            let o = Outcome-q unique distinct env q q_in k wave ws p rs level replies now in
            between o.wire (record { recorded = o.recorded; fails = λ e. o.fails g e parent })
              (ground (arith, level_of q now)) later'

        turn : Stage k (some wave ∷ ws) p → Stage (suc k) ws (record_results rs p)
        turn (fresh later later' less) =
            at_fresh (InWaves-cases q wave ws later) (InWaves-cases m wave ws later') less
        turn (between wire f before later) = elim (InWaves-cases m wave ws later) [
          | inl now ↦
              both wire (kept_parent wire f before) (new_child wire f now) (ground (arith, before))
                (ground (arith, level_of m now))
          | inr later' ↦ between wire (kept_parent wire f before) (ground (arith, before)) later'
        ]
        turn (both wire f c before before') =
            both wire (kept_parent wire f before)
              (record {
                wire = c.wire;
                recorded =
                    kept-q unique distinct env m m_in k wave ws p rs level replies before'
                    ∙ c.recorded;
                unapplied = c.unapplied;
              })
              (ground (arith, before)) (ground (arith, before'))

-- The child of a guuid that has failed before any wave.
module _ (unique : List SyncMutation) (distinct : IsDistinct unique) (env : MutationEnv)
    (m : SyncMutation) (m_in : In m unique) (g : ℕ) (child : m.parent_guuid ≡ some g) where
  pub data Doomed (k : ℕ) (ws : Waves) (p : Progress) : Type 0 where
    waiting : member g p.failed ≡ true → InWaves m ws → Doomed k ws p
    run : Settled unique distinct env m m_in g child true p → wave_in unique m < k → Doomed k ws p

  abbrev pub Blocked : Waves → Progress → Type 0
  Blocked ws p = (k : ℕ) × Leveled unique distinct k ws × Doomed k ws p

  pub keep-Blocked :
      (wave : List SyncMutation) (ws : Waves) (p : Progress) (rs : List (SyncMutation × Wire))
      → Blocked (some wave ∷ ws) p
      → Replies (with_failed env p.failed) wave rs
      → Blocked ws (record_results rs p)
  keep-Blocked wave ws p rs (k, level, stage) replies =
      (suc k, next-Leveled unique distinct k (some wave) ws level, turn stage)
    where
      level_of : In m wave → wave_in unique m ≡ k
      level_of now = (first-level unique distinct env m m_in k wave ws m level now).1

      turn : Doomed k (some wave ∷ ws) p → Doomed (suc k) ws (record_results rs p)
      turn (waiting failed later) = elim (InWaves-cases m wave ws later) [
        | inr later' ↦ waiting (record_results-grows rs p g failed) later'
        | inl now ↦
            (let o = Outcome-q unique distinct env m m_in k wave ws p rs level replies now in
              run
                (record {
                  wire = o.wire;
                  recorded = o.recorded;
                  unapplied = λ e. o.cascades (parent_has_failed_lem env m g p.failed child failed);
                })
                (ground (arith, level_of now)))
      ]
      turn (run c before) =
          run
            (record {
              wire = c.wire;
              recorded =
                  kept-q unique distinct env m m_in k wave ws p rs level replies before
                  ∙ c.recorded;
              unapplied = c.unapplied;
            })
            (ground (arith, before))
