-- ===== src/Push/Waves.antt =====
-- `computeWaves` of apps/backend/src/sync/push/delta.service.ts: the wave of each mutation of a sorted
-- batch. A map is an association list with the newest entry first.
pub mod Order
pub mod Placed
use ayphen_retail_pos.Common.{
  ℕ, zero, suc, ◌+◌, ◌<◌, ◌≤◌, ◌≡◌, refl, sym, ap, subst, ◌∙◌, Bool, true, false, not, inl, inr,
  Option, none, some, List, [], ◌∷◌, ◌++◌, map, leb, ltb, ◌==◌, ==_refl, ==→eq, if◌then◌else◌,
  or_default, find, member, All, arith, Bool-cases, Option-cases, some_injective,
}
use ayphen_retail_pos.Push.{SyncMutation}

abbrev pub get : ℕ → List (ℕ × ℕ) → Option ℕ
get k [] = none
get k ((j, v) ∷ es) = if j == k then some v else get k es

abbrev pub has_guuid : ℕ → SyncMutation → Bool
has_guuid g m = elim m.payload_guuid [ none ↦ false | some h ↦ h == g ]

-- `byGuuid`: the first mutation of a guuid
unfoldable pub by_guuid : List SyncMutation → ℕ → Option SyncMutation
by_guuid batch g = find (has_guuid g) batch

abbrev pub max : ℕ → ℕ → ℕ
max a b = if leb a b then b else a

-- `waveOf` and `lastWaveForGuuid`
pub record WaveState : Type 0 where
  pub wave_of : List (ℕ × ℕ)
  pub last_wave : List (ℕ × ℕ)

unfoldable pub parent_bound : List SyncMutation → WaveState → SyncMutation → ℕ
parent_bound batch st m = elim m.parent_guuid [
  | none ↦ 0
  | some g ↦ elim (by_guuid batch g) [
    | none ↦ 0
    | some p ↦
        if p.mutation_id == m.mutation_id
        then 0
        else or_default (get p.mutation_id st.wave_of) 0 + 1
  ]
]

unfoldable pub guuid_bound : WaveState → SyncMutation → ℕ
guuid_bound st m = elim m.payload_guuid [
  | none ↦ 0
  | some g ↦ elim (get g st.last_wave) [ none ↦ 0 | some w ↦ w + 1 ]
]

unfoldable pub wave_number : List SyncMutation → WaveState → SyncMutation → ℕ
wave_number batch st m = max (parent_bound batch st m) (guuid_bound st m)

-- One turn of the first loop.
unfoldable pub assign : List SyncMutation → WaveState → SyncMutation → WaveState
assign batch st m =
    let wave = wave_number batch st m in
    record {
      wave_of = (m.mutation_id, wave) ∷ st.wave_of;
      last_wave = elim m.payload_guuid [ none ↦ st.last_wave | some g ↦ (g, wave) ∷ st.last_wave ];
    }

unfoldable pub assign_all : List SyncMutation → WaveState → List SyncMutation → WaveState
assign_all batch st [] = st
assign_all batch st (m ∷ ms) = assign_all batch (assign batch st m) ms

abbrev no_waves : WaveState
no_waves = record { wave_of = []; last_wave = [] }

-- The wave that the second loop puts a mutation of the batch in.
unfoldable pub wave_in : List SyncMutation → SyncMutation → ℕ
wave_in batch m = or_default (get m.mutation_id (assign_all batch no_waves batch).wave_of) 0

-- `(waves[wave] ??= []).push(m)`: `none` is a hole of the array.
unfoldable pub push_at :
    ℕ → SyncMutation → List (Option (List SyncMutation)) → List (Option (List SyncMutation))
push_at zero m [] = some (m ∷ []) ∷ []
push_at zero m (none ∷ ws) = some (m ∷ []) ∷ ws
push_at zero m (some wave ∷ ws) = some (wave ++ m ∷ []) ∷ ws
push_at (suc n) m [] = none ∷ push_at n m []
push_at (suc n) m (w ∷ ws) = w ∷ push_at n m ws

unfoldable pub place_all :
    (SyncMutation → ℕ)
    → List SyncMutation
    → List (Option (List SyncMutation))
    → List (Option (List SyncMutation))
place_all wave [] ws = ws
place_all wave (m ∷ ms) ws = place_all wave ms (push_at (wave m) m ws)

-- `computeWaves`
unfoldable pub compute_waves : List SyncMutation → List (Option (List SyncMutation))
compute_waves batch = place_all (wave_in batch) batch []
