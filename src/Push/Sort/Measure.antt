-- ===== src/Push/Sort/Measure.antt =====
-- What is left to visit in a batch of apps/backend/src/sync/push/delta.service.ts: the mutations that
-- a path or a stack does not hold yet.
use ayphen_retail_pos.Common.{
  ℕ, suc, ◌<◌, ◌≤◌, ◌≡◌, Bool, false, inl, inr, ◌⊎◌, Option, none, some, List, [], ◌∷◌, ==_refl,
  if◌then◌else◌, length, find, member, arith, Bool-cases,
}
use ayphen_retail_pos.Push.{SyncMutation}
use ayphen_retail_pos.Push.Waves.{by_guuid, has_guuid}
use ayphen_retail_pos.Push.Sort.{parent_of}

-- A mutation of the batch, as one of its elements.
abbrev pub In : SyncMutation → List SyncMutation → Type 0
In m [] = ⊥
In m (x ∷ xs) = (m ≡ x) ⊎ In m xs

unfoldable pub remaining : List ℕ → List SyncMutation → ℕ
remaining seen [] = 0
remaining seen (m ∷ ms) =
    if member m.mutation_id seen then remaining seen ms else suc (remaining seen ms)

pub remaining-le-length : (seen : List ℕ) (ms : List SyncMutation) → remaining seen ms ≤ length ms
unfolding remaining
remaining-le-length seen [] = omega arith
remaining-le-length seen (m ∷ ms) = ground (arith, remaining-le-length seen ms)

remaining-cons-le :
    (a : ℕ) (seen : List ℕ) (ms : List SyncMutation) → remaining (a ∷ seen) ms ≤ remaining seen ms
unfolding remaining
remaining-cons-le a seen [] = omega arith
remaining-cons-le a seen (m ∷ ms) = ground (arith, remaining-cons-le a seen ms)

-- One more mutation seen is one less to visit.
pub remaining-lt :
    (m : SyncMutation) (seen : List ℕ) (ms : List SyncMutation)
    → In m ms
    → member m.mutation_id seen ≡ false
    → remaining (m.mutation_id ∷ seen) ms < remaining seen ms
unfolding remaining
remaining-lt m seen [] here new = absurd here
remaining-lt m seen (x ∷ xs) (inl same) new =
    rw (← same)
      (rw (new, ==_refl m.mutation_id) (omega (arith, remaining-cons-le m.mutation_id seen xs)))
remaining-lt m seen (x ∷ xs) (inr later) new = ground (arith, remaining-lt m seen xs later new)

find-In :
    (p : SyncMutation → Bool) (ms : List SyncMutation) (m : SyncMutation)
    → find p ms ≡ some m
    → In m ms
find-In p [] m h = cc h
find-In p (x ∷ xs) m h = elim (Bool-cases (p x)) [
  | inl hit ↦ inl (ground (arith, hit))
  | inr miss ↦ inr (find-In p xs m (rw miss at h))
]

pub parent_of-In :
    (batch : List SyncMutation) (m p : SyncMutation) → parent_of batch m ≡ some p → In p batch
unfolding parent_of by_guuid
parent_of-In batch m p h = split m.parent_guuid h
  where
    split :
        (o : Option ℕ)
        → elim o as (λ _. Option SyncMutation) [ none ↦ none | some g ↦ by_guuid batch g ] ≡ some p
        → In p batch
    split none e = cc e
    split (some g) e = find-In (has_guuid g) batch p e
