-- ===== src/Push/Sort/Visit/Output.antt =====
-- The output of topoSort, apps/backend/src/sync/push/delta.service.ts: the chains of parents, and
-- one mutation more.
use ayphen_retail_pos.Common.{
  ℕ, ◌≡◌, refl, sym, true, false, inl, inr, ◌⊎◌, some, List, [], ◌∷◌, ◌++◌, ◌==◌, ==→eq, member,
  arith, Bool-cases,
}
use ayphen_retail_pos.Push.{SyncMutation}
use ayphen_retail_pos.Push.Sort.{ids, parent_of}

-- The chain of parents from the first mutation comes to the second.
pub data Ancestor (batch : List SyncMutation) (m : SyncMutation) : SyncMutation → Type 0 where
  itself : Ancestor batch m m
  up : {a p : SyncMutation} → Ancestor batch m a → parent_of batch a ≡ some p → Ancestor batch m p

-- The parents of `p` come back to `m`.
abbrev pub Loops : List SyncMutation → SyncMutation → SyncMutation → Type 0
Loops batch p m = (s : SyncMutation) × (s.mutation_id ≡ p.mutation_id) × Ancestor batch s m

-- Each mutation of an output has its parent before it, unless the parents loop.
abbrev pub IsOrdered : List SyncMutation → List ℕ → List SyncMutation → Type 0
IsOrdered batch before [] = Unit
IsOrdered batch before (m ∷ ms) =
    ((p : SyncMutation)
      → parent_of batch m ≡ some p
      → (member p.mutation_id before ≡ true) ⊎ Loops batch p m)
    × IsOrdered batch (m.mutation_id ∷ before) ms

-- From every mutation on the stack, the chain of parents comes to the one that is visited.
abbrev pub Stacked : List SyncMutation → SyncMutation → List SyncMutation → Type 0
Stacked batch m [] = Unit
Stacked batch m (s ∷ ss) = Ancestor batch s m × Stacked batch m ss

pub Stacked-up :
    (batch : List SyncMutation) (m p : SyncMutation) (stack : List SyncMutation)
    → parent_of batch m ≡ some p
    → Stacked batch m stack
    → Stacked batch p stack
Stacked-up batch m p [] e h = tt
Stacked-up batch m p (s ∷ ss) e h = (Ancestor.up h.0 e, Stacked-up batch m p ss e h.1)

-- An id on the stack is one of a mutation whose parents come to the visited one.
pub Stacked-Loops :
    (batch : List SyncMutation) (m p : SyncMutation) (stack : List SyncMutation)
    → Stacked batch m stack
    → member p.mutation_id (ids stack) ≡ true
    → Loops batch p m
Stacked-Loops batch m p [] h on = cc on
Stacked-Loops batch m p (s ∷ ss) h on = elim (Bool-cases (p.mutation_id == s.mutation_id)) [
  | inl hit ↦ (s, sym (==→eq p.mutation_id s.mutation_id hit), h.0)
  | inr miss ↦ Stacked-Loops batch m p ss h.1 (rw miss at on)
]

-- A mutation put out after its parent, or on a loop.
abbrev pub Follows : List SyncMutation → SyncMutation → List ℕ → List SyncMutation → Type 0
Follows batch m before out =
    (p : SyncMutation)
    → parent_of batch m ≡ some p
    → ((member p.mutation_id before ≡ true) ⊎ (member p.mutation_id (ids out) ≡ true))
      ⊎ Loops batch p m

pub IsOrdered-append_one :
    (batch out : List SyncMutation) (before : List ℕ) (m : SyncMutation)
    → IsOrdered batch before out
    → Follows batch m before out
    → IsOrdered batch before (out ++ m ∷ [])
IsOrdered-append_one batch [] before m ordered follows = ((λ p e. split p (follows p e)), tt)
  where
    split :
        (p : SyncMutation)
        → ((member p.mutation_id before ≡ true) ⊎ (false ≡ true)) ⊎ Loops batch p m
        → (member p.mutation_id before ≡ true) ⊎ Loops batch p m
    split p (inl (inl b)) = inl b
    split p (inl (inr e)) = cc e
    split p (inr l) = inr l
IsOrdered-append_one batch (x ∷ xs) before m ordered follows = (
  ordered.0,
  IsOrdered-append_one batch xs (x.mutation_id ∷ before) m ordered.1 (λ p e. split p (follows p e)),
)
  where
    split :
        (p : SyncMutation)
        → ((member p.mutation_id before ≡ true) ⊎ (member p.mutation_id (ids (x ∷ xs)) ≡ true))
          ⊎ Loops batch p m
        → ((member p.mutation_id (x.mutation_id ∷ before) ≡ true)
            ⊎ (member p.mutation_id (ids xs) ≡ true))
          ⊎ Loops batch p m
    split p (inl (inl b)) = inl (inl (ground (arith, b)))
    split p (inl (inr o)) = elim (Bool-cases (p.mutation_id == x.mutation_id)) [
      | inl hit ↦ inl (inl (rw hit refl))
      | inr miss ↦ inl (inr (rw miss at o))
    ]
    split p (inr l) = inr l
