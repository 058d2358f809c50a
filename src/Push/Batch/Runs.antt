-- ===== src/Push/Batch/Runs.antt =====
-- The run of the waves of apps/backend/src/sync/push/delta.service.ts: what the record of a wave
-- keeps, and a rule for invariants over the waves that are left.
use ayphen_retail_pos.Common.{
  ℕ, ◌≡◌, refl, sym, ap, subst, ◌∙◌, Bool, true, false, inl, inr, ◌⊎◌, Option, none, some, List, [],
  ◌∷◌, ◌==◌, ==_refl, ==→eq, if◌then◌else◌, member, arith, Bool-cases, some_injective,
}
use ayphen_retail_pos.Ledger.{MutationAction}
use ayphen_retail_pos.Push.{
  SyncMutation, MutationEnv, Handler, Wire, ServerState, parent_has_failed,
}
use ayphen_retail_pos.Push.Sort.Measure.{In}
use ayphen_retail_pos.Push.Batch.{
  result_of, is_failed, add_failed, Progress, record_results, with_failed, Others, run_wave,
  run_waves,
}
use ayphen_retail_pos.Push.Batch.Replies.{is_applied, Replies, WaveReplies, run_wave-Replies}

pub add_failed-grows :
    (failed : Bool) (m : SyncMutation) (g : ℕ) (gs : List ℕ)
    → member g gs ≡ true
    → member g (add_failed failed m gs) ≡ true
unfolding add_failed
add_failed-grows false m g gs h = h
add_failed-grows true m g gs h = split m.payload_guuid
  where
    split : (o : Option ℕ) → member g (elim o [ none ↦ gs | some k ↦ k ∷ gs ]) ≡ true
    split none = h
    split (some k) = ground (arith, h)

pub add_failed-guuid :
    (failed : Bool) (m : SyncMutation) (g : ℕ) (gs : List ℕ)
    → failed ≡ true
    → m.payload_guuid ≡ some g
    → member g (add_failed failed m gs) ≡ true
unfolding add_failed
add_failed-guuid false m g gs f named = cc f
add_failed-guuid true m g gs f named = split m.payload_guuid named
  where
    split : (o : Option ℕ) → o ≡ some g → member g (elim o [ none ↦ gs | some k ↦ k ∷ gs ]) ≡ true
    split none e = cc e
    split (some k) e = rw (some_injective e, ==_refl g) refl

pub record_results-grows :
    (rs : List (SyncMutation × Wire)) (p : Progress) (g : ℕ)
    → member g p.failed ≡ true
    → member g (record_results rs p).failed ≡ true
unfolding record_results
record_results-grows [] p g h = h
record_results-grows ((m, w) ∷ rs) p g h =
    record_results-grows rs _ g (add_failed-grows (is_failed w) m g p.failed h)

-- A record of other mutations leaves a result.
pub record_results-other :
    (env : MutationEnv) (wave : List SyncMutation) (rs : List (SyncMutation × Wire)) (p : Progress)
    (a : ℕ)
    → Replies env wave rs
    → ((m : SyncMutation) → In m wave → m.mutation_id ≡ a → ⊥)
    → result_of a (record_results rs p).results ≡ result_of a p.results
unfolding record_results
record_results-other env [] [] p a h others = refl
record_results-other env [] (r ∷ rs) p a h others = absurd h
record_results-other env (m ∷ ms) [] p a h others = absurd h
record_results-other env (m ∷ ms) ((m', w) ∷ rs) p a h others =
    record_results-other env ms rs _ a h.2 (λ x k e. others x (inr k) e)
    ∙ miss (m'.mutation_id == a) refl
  where
    miss :
        (c : Bool)
        → (m'.mutation_id == a) ≡ c
        → (if c then some w else result_of a p.results) ≡ result_of a p.results
    miss true e =
        absurd (others m (inl refl) (ap (λ x. x.mutation_id) (sym h.0) ∙ ==→eq m'.mutation_id a e))
    miss false e = refl

-- What is recorded of a mutation that has run.
pub record Outcome (env : MutationEnv) (q : SyncMutation) (p : Progress) : Type 0 where
  pub wire : Wire
  pub recorded : result_of q.mutation_id p.results ≡ some wire
  pub fails : (g : ℕ) → is_failed wire ≡ true → q.payload_guuid ≡ some g → member g p.failed ≡ true
  pub cascades : parent_has_failed q env ≡ true → is_applied wire ≡ false

-- One mutation recorded.
abbrev after : SyncMutation → Wire → Progress → Progress
after m w p = record {
  results = (m.mutation_id, w) ∷ p.results;
  failed = add_failed (is_failed w) m p.failed;
}

fresh-Outcome :
    (env : MutationEnv) (q : SyncMutation) (w : Wire) (p : Progress)
    → (parent_has_failed q env ≡ true → is_applied w ≡ false)
    → Outcome env q (after q w p)
fresh-Outcome env q w p cascades = record {
  wire = w;
  recorded = rw (==_refl q.mutation_id) refl;
  fails = λ g f named. add_failed-guuid (is_failed w) q g p.failed f named;
  cascades = cascades;
}

later-Outcome :
    (env : MutationEnv) (q m : SyncMutation) (w : Wire) (p : Progress)
    → (m.mutation_id == q.mutation_id) ≡ false
    → Outcome env q p
    → Outcome env q (after m w p)
later-Outcome env q m w p miss o = record {
  wire = o.wire;
  recorded = rw miss o.recorded;
  fails = λ g f named. add_failed-grows (is_failed w) m g p.failed (o.fails g f named);
  cascades = o.cascades;
}

-- The record of a wave has the outcome of each of its mutations.
pub record_results-Outcome :
    (env : MutationEnv) (q : SyncMutation) (wave : List SyncMutation)
    (rs : List (SyncMutation × Wire)) (p : Progress)
    → Replies env wave rs
    → ((m : SyncMutation) → In m wave → m.mutation_id ≡ q.mutation_id → m ≡ q)
    → Outcome env q p ⊎ In q wave
    → Outcome env q (record_results rs p)
unfolding record_results
record_results-Outcome env q [] [] p h only (inl o) = o
record_results-Outcome env q [] [] p h only (inr k) = absurd k
record_results-Outcome env q [] (r ∷ rs) p h only start = absurd h
record_results-Outcome env q (m ∷ ms) [] p h only start = absurd h
record_results-Outcome env q (m ∷ ms) ((m', w) ∷ rs) p h only start =
    record_results-Outcome env q ms rs (after m' w p) h.2 (λ x k e. only x (inr k) e)
      (elim (Bool-cases (m'.mutation_id == q.mutation_id)) [
        | inl hit ↦ inl (
            at_last (
              h.0
              ∙ only m (inl refl)
                  (ap (λ x. x.mutation_id) (sym h.0) ∙ ==→eq m'.mutation_id q.mutation_id hit)))
        | inr miss ↦ elim start [
          | inl o ↦ inl (later-Outcome env q m' w p miss o)
          | inr (inl e) ↦ absurd (not_same miss e)
          | inr (inr k) ↦ inr k
        ]
      ])
  where
    at_last : m' ≡ q → Outcome env q (after m' w p)
    at_last e =
        subst (λ x. Outcome env q (after x w p)) (sym e)
          (fresh-Outcome env q w p
            (λ f. h.1 (subst (λ x. parent_has_failed x env ≡ true) (sym e ∙ h.0) f)))

    not_same : (m'.mutation_id == q.mutation_id) ≡ false → q ≡ m → ⊥
    not_same miss e =
        let equal : m'.mutation_id ≡ q.mutation_id = ap (λ x. x.mutation_id) (h.0 ∙ sym e) in
        ground (arith, miss, equal)

abbrev pub Waves : Type 0
Waves = List (Option (List SyncMutation))

-- A run that returns has the property.
abbrev pub Ended : {D : Type 0} → (Progress → Type 0) → Option Progress × ServerState D → Type 0
Ended P (none, s) = Unit
Ended P (some p, s) = P p

pub Ended-some :
    {D : Type 0} (P : Progress → Type 0) (r : Option Progress × ServerState D) (p : Progress)
    → Ended P r
    → r.0 ≡ some p
    → P p
Ended-some P (none, s) p h e = cc e
Ended-some P (some p', s) p h e = subst P (some_injective e) h

module _ {D : Type 0} (handlers : ℕ → Option (Handler D))
    (was_crud_authorized_at : ℕ → ℕ → ℕ → MutationAction → ℕ → Bool) (others : Others D)
    (env : MutationEnv) (Inv : Waves → Progress → Type 0) where
  -- An invariant of the waves that are left and the progress holds in the end.
  pub run_waves-Ended :
      ((wave : List SyncMutation) (ws : Waves) (p : Progress) (rs : List (SyncMutation × Wire))
        → Inv (some wave ∷ ws) p
        → Replies (with_failed env p.failed) wave rs
        → Inv ws (record_results rs p))
      → (ws : Waves) (p : Progress) (s : ServerState D) → Inv ws p
      → Ended (Inv []) (run_waves handlers was_crud_authorized_at others env ws p s)
  unfolding run_waves
  run_waves-Ended keep [] p s h = h
  run_waves-Ended keep (none ∷ ws) p s h = tt
  run_waves-Ended keep (some wave ∷ ws) p s h =
      step (run_wave handlers was_crud_authorized_at others (with_failed env p.failed) wave s)
        (run_wave-Replies handlers was_crud_authorized_at others (with_failed env p.failed) wave s)
        (λ rs s₁ k. run_waves-Ended keep ws (record_results rs p) s₁ (keep wave ws p rs h k))
    where
      step :
          (r : Option (List (SyncMutation × Wire)) × ServerState D)
          → WaveReplies (with_failed env p.failed) wave r
          → ((rs : List (SyncMutation × Wire)) (s₁ : ServerState D)
              → Replies (with_failed env p.failed) wave rs
              → Ended (Inv []) (
                  run_waves handlers was_crud_authorized_at others env ws (record_results rs p) s₁))
          → Ended (Inv []) (elim (r.0) as (λ _. Option Progress × ServerState D) [
            | none ↦ (none, r.1)
            | some rs ↦
                run_waves handlers was_crud_authorized_at others env ws (record_results rs p) (r.1)
          ])
      step (none, s₁) h rec = tt
      step (some rs, s₁) h rec = rec rs s₁ h
