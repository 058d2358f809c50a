-- ===== src/Pull/Retry.antt =====
-- The retry of dead letters and their poison cap:
-- apps/mobile/src/core/sync/engine/retry-failed-applies.ts.
use ayphen_retail_pos.Common.{
  ℕ, zero, suc, ◌≡◌, refl, sym, subst, ◌∙◌, Bool, false, not, ◌&&◌, inl, inr, Option, some, List,
  [], ◌∷◌, ltb, ◌==◌, ==→eq, filter, find, take, All, arith, Bool-cases, Option-cases,
  some_injective,
}
use ayphen_retail_pos.SyncDb.{FailedApply, SyncDb, Result-cases, ApplierLookup}
use ayphen_retail_pos.Pull.{
  retry_poison_cap, retry_batch_size, list_retryable, bump_attempt, record_attempt, delete_by_id,
  retry_apply, retry_row, retry_rows, retry_failed_applies,
}

abbrev letter_at : ℕ → List FailedApply → Option FailedApply
letter_at id fs = find (λ (f : FailedApply). f.id == id) fs

abbrev IsOther : ℕ → FailedApply → Type 0
IsOther id f = (f.id == id) ≡ false

-- `id` is the primary key of the table.
abbrev IsKeyed : List FailedApply → Type 0
IsKeyed [] = Unit
IsKeyed (f ∷ fs) = All (IsOther f.id) fs × IsKeyed fs

All-others :
    (id : ℕ) (p : FailedApply → Bool) (fs : List FailedApply)
    → All (IsOther id) fs
    → All (IsOther id) (filter p fs)
All-others id p [] h = tt
All-others id p (f ∷ fs) h = elim (Bool-cases (p f)) [
  | inl kept ↦ rw kept (h.0, All-others id p fs h.1)
  | inr dropped ↦ rw dropped (All-others id p fs h.1)
]

filter-others :
    (id : ℕ) (p : FailedApply → Bool) (fs : List FailedApply) (f : FailedApply)
    → IsKeyed fs
    → letter_at id fs ≡ some f
    → p f ≡ false
    → All (IsOther id) (filter p fs)
filter-others id p [] f k h no_p = tt
filter-others id p (e ∷ fs) f k h no_p = elim (Bool-cases (e.id == id)) [
  | inl same ↦
      let is_f : e ≡ f = some_injective (rw same at h) in
      let dropped : p e ≡ false = subst (λ x. p x ≡ false) (sym is_f) no_p in
      rw dropped (All-others id p fs (subst (λ n. All (IsOther n) fs) (==→eq e.id id same) k.0))
  | inr other ↦
      let rest = filter-others id p fs f k.1 (rw other at h) no_p in
      elim (Bool-cases (p e)) [ inl kept ↦ rw kept (other, rest) | inr dropped ↦ rw dropped rest ]
]

All-take : (P : FailedApply → Type 0) (n : ℕ) (fs : List FailedApply) → All P fs → All P (take n fs)
All-take P zero fs h = tt
All-take P (suc n) [] h = tt
All-take P (suc n) (f ∷ fs) h = (h.0, All-take P n fs h.1)

letter_at-bump :
    (id other now : ℕ) (fs : List FailedApply)
    → (other == id) ≡ false
    → letter_at id (bump_attempt other now fs) ≡ letter_at id fs
letter_at-bump id other now [] h = refl
letter_at-bump id other now (f ∷ fs) h = ground (arith, letter_at-bump id other now fs h, h)

letter_at-delete :
    (id other : ℕ) (fs : List FailedApply)
    → (other == id) ≡ false
    → letter_at id (filter (λ (f : FailedApply). not (f.id == other)) fs) ≡ letter_at id fs
letter_at-delete id other [] h = refl
letter_at-delete id other (f ∷ fs) h = ground (arith, letter_at-delete id other fs h, h)

module _ {T : Type 0} (registry : ApplierLookup T) (store now id : ℕ) where
  retry_row-letter :
      (e : FailedApply) (db : SyncDb T)
      → IsOther id e
      → letter_at id (retry_row registry store now e db).failed ≡ letter_at id db.failed
  unfolding retry_row record_attempt delete_by_id
  retry_row-letter e db o = elim (Option-cases (registry.get e.entity_type)) [
    | inl unsupported ↦ rw (unsupported, retry_row)
    | inr (applier, registered) ↦ elim (Result-cases (retry_apply store applier e db.tables)) [
      | inl failed ↦
          rw (registered, retry_row) (rw (failed) (letter_at-bump id e.id now db.failed o))
      | inr (t, done) ↦
          rw (registered, retry_row) (rw (done) (letter_at-delete id e.id db.failed o))
    ]
  ]

  retry_rows-letter :
      (es : List FailedApply) (db : SyncDb T)
      → All (IsOther id) es
      → letter_at id (retry_rows registry store now es db).failed ≡ letter_at id db.failed
  unfolding retry_rows
  retry_rows-letter [] db o = refl
  retry_rows-letter (e ∷ es) db o =
      retry_rows-letter es (retry_row registry store now e db) o.1 ∙ retry_row-letter e db o.0

  -- A dead letter that has failed as often as the cap, or that is of another store, is left as it is
  -- by every retry cycle.
  retry_failed_applies-retired :
      (f : FailedApply) (db : SyncDb T)
      → IsKeyed db.failed
      → letter_at id db.failed ≡ some f
      → (f.store_id == store && ltb f.attempts retry_poison_cap) ≡ false
      → letter_at id (retry_failed_applies registry store now db).failed ≡ some f
  unfolding retry_failed_applies list_retryable
  retry_failed_applies-retired f db k h retired =
      retry_rows-letter (list_retryable store retry_poison_cap retry_batch_size db.failed) db (
        All-take (IsOther id) retry_batch_size _ (
          filter-others id
            (λ (e : FailedApply). e.store_id == store && ltb e.attempts retry_poison_cap) db.failed
            f k h retired))
      ∙ h
