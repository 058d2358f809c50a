-- ===== src/Push/Waves/Placed.antt =====
-- The arrays that `computeWaves` of apps/backend/src/sync/push/delta.service.ts builds.
use ayphen_retail_pos.Common.{
  ℕ, zero, suc, ◌≡◌, refl, sym, ap, ◌∙◌, Bool, true, false, Option, none, some, List, [], ◌∷◌, ◌++◌,
  ◌==◌, if◌then◌else◌, filter, arith,
}
use ayphen_retail_pos.Push.{SyncMutation}
use ayphen_retail_pos.Push.Waves.{push_at, place_all, wave_in, compute_waves}

-- The mutations of a wave; a hole has none.
abbrev pub members : ℕ → List (Option (List SyncMutation)) → List SyncMutation
members zero [] = []
members zero (none ∷ ws) = []
members zero (some wave ∷ ws) = wave
members (suc i) [] = []
members (suc i) (w ∷ ws) = members i ws

append-nil : {A : Type 0} (xs : List A) → xs ++ [] ≡ xs
append-nil [] = refl
append-nil (x ∷ xs) = ap (λ l. x ∷ l) (append-nil xs)

members_empty : (i : ℕ) → members i [] ≡ []
members_empty zero = refl
members_empty (suc i) = refl

-- A list with one more element, if the test holds.
abbrev with_last : List SyncMutation → SyncMutation → Bool → List SyncMutation
with_last l m c = l ++ (if c then m ∷ [] else [])

with_last-false :
    (l : List SyncMutation) (m : SyncMutation) (c : Bool) → c ≡ false → l ≡ with_last l m c
with_last-false l m c h = rw h (sym (append-nil l))

suc_eq_suc : (n i : ℕ) → (n == i) ≡ (suc n == suc i)
suc_eq_suc n i = ground arith

members-push_at :
    (i n : ℕ) (m : SyncMutation) (ws : List (Option (List SyncMutation)))
    → members i (push_at n m ws) ≡ with_last (members i ws) m (n == i)
unfolding push_at
members-push_at zero zero m [] = refl
members-push_at zero zero m (none ∷ ws) = refl
members-push_at zero zero m (some wave ∷ ws) = refl
members-push_at zero (suc n) m [] = with_last-false [] m (suc n == 0) (ground arith)
members-push_at zero (suc n) m (none ∷ ws) = with_last-false [] m (suc n == 0) (ground arith)
members-push_at zero (suc n) m (some wave ∷ ws) = with_last-false wave m (suc n == 0) (ground arith)
members-push_at (suc i) zero m [] =
    members_empty i ∙ with_last-false [] m (0 == suc i) (ground arith)
members-push_at (suc i) zero m (none ∷ ws) =
    with_last-false (members i ws) m (0 == suc i) (ground arith)
members-push_at (suc i) zero m (some wave ∷ ws) =
    with_last-false (members i ws) m (0 == suc i) (ground arith)
members-push_at (suc i) (suc n) m [] =
    members-push_at i n m []
    ∙ ap (λ l. with_last l m (n == i)) (members_empty i)
    ∙ ap (with_last [] m) (suc_eq_suc n i)
members-push_at (suc i) (suc n) m (w ∷ ws) =
    members-push_at i n m ws ∙ ap (with_last (members i ws) m) (suc_eq_suc n i)

append-cons :
    (xs : List SyncMutation) (m : SyncMutation) (ys : List SyncMutation)
    → (xs ++ (m ∷ [])) ++ ys ≡ xs ++ (m ∷ ys)
append-cons [] m ys = refl
append-cons (x ∷ xs) m ys = ap (λ l. x ∷ l) (append-cons xs m ys)

members-place_all :
    (wave : SyncMutation → ℕ) (i : ℕ) (ms : List SyncMutation)
    (ws : List (Option (List SyncMutation)))
    → members i (place_all wave ms ws) ≡ members i ws ++ filter (λ m. wave m == i) ms
unfolding place_all
members-place_all wave i [] ws = sym (append-nil (members i ws))
members-place_all wave i (m ∷ ms) ws =
    members-place_all wave i ms (push_at (wave m) m ws)
    ∙ ap (λ l. l ++ filter (λ x. wave x == i) ms) (members-push_at i (wave m) m ws)
    ∙ place-step (wave m == i)
  where
    rest : List SyncMutation
    rest = filter (λ x. wave x == i) ms

    place-step :
        (c : Bool)
        → with_last (members i ws) m c ++ rest ≡ members i ws ++ (if c then m ∷ rest else rest)
    place-step true = append-cons (members i ws) m rest
    place-step false = ap (λ l. l ++ rest) (append-nil (members i ws))

-- The waves of a batch hold each of its mutations once, in its own wave, in the order of the batch.
pub members-compute_waves :
    (batch : List SyncMutation) (i : ℕ)
    → members i (compute_waves batch) ≡ filter (λ m. wave_in batch m == i) batch
unfolding compute_waves
members-compute_waves batch i =
    members-place_all (wave_in batch) i batch []
    ∙ ap (λ l. l ++ filter (λ m. wave_in batch m == i) batch) (members_empty i)
