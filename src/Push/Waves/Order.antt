-- ===== src/Push/Waves/Order.antt =====
-- The order that `computeWaves` of apps/backend/src/sync/push/delta.service.ts keeps.
use ayphen_retail_pos.Common.{
  ℕ, ◌<◌, ◌≤◌, ◌≡◌, refl, sym, ap, subst, ◌∙◌, false, inl, inr, ◌⊎◌, Option, none, some, List, [],
  ◌∷◌, ◌++◌, ◌==◌, ==_refl, ==→eq, or_default, All, arith, Bool-cases, some_injective,
}
use ayphen_retail_pos.Push.{SyncMutation}
use ayphen_retail_pos.Push.Waves.{
  get, by_guuid, WaveState, parent_bound, guuid_bound, wave_number, assign, assign_all, no_waves,
  wave_in,
}

abbrev pub IsOther : SyncMutation → SyncMutation → Type 0
IsOther a b = (b.mutation_id == a.mutation_id) ≡ false

-- The batch has been rid of repeated ids.
abbrev pub IsDistinct : List SyncMutation → Type 0
IsDistinct [] = Unit
IsDistinct (m ∷ ms) = All (IsOther m) ms × IsDistinct ms

-- The later mutation has to wait for the earlier: they write the same entity, or the earlier one is
-- the parent of the later.
abbrev pub Waits : List SyncMutation → SyncMutation → SyncMutation → Type 0
Waits batch a m =
    ((g : ℕ) × (a.payload_guuid ≡ some g) × (m.payload_guuid ≡ some g))
    ⊎ ((g : ℕ) × (m.parent_guuid ≡ some g) × (by_guuid batch g ≡ some a))

pub after-IsDistinct :
    (xs ys : List SyncMutation) (a : SyncMutation) → IsDistinct (xs ++ a ∷ ys) → IsDistinct (a ∷ ys)
after-IsDistinct [] ys a h = h
after-IsDistinct (x ∷ xs) ys a h = after-IsDistinct xs ys a h.1

All-split :
    (P : SyncMutation → Type 0) (xs ys : List SyncMutation) (m : SyncMutation)
    → All P (xs ++ m ∷ ys)
    → All P xs × P m × All P ys
All-split P [] ys m h = (tt, h.0, h.1)
All-split P (x ∷ xs) ys m h =
    let (first, here, rest) = All-split P xs ys m h.1 in ((h.0, first), here, rest)

-- The map after a turn, at the entity of the turn and at any entity.
newest-get :
    (wave : ℕ) (last : List (ℕ × ℕ)) (g : ℕ) (o : Option ℕ)
    → o ≡ some g
    → get g (elim o [ none ↦ last | some h ↦ (h, wave) ∷ last ]) ≡ some wave
newest-get wave last g none e = cc e
newest-get wave last g (some h) e =
    subst (λ k. get k ((h, wave) ∷ last) ≡ some wave) (some_injective e) (rw (==_refl h) refl)

newer-get :
    (wave l : ℕ) (last : List (ℕ × ℕ)) (g : ℕ) (o : Option ℕ)
    → get g last ≡ some l
    → (o ≡ some g → l ≤ wave)
    → (l' : ℕ) × (get g (elim o [ none ↦ last | some h ↦ (h, wave) ∷ last ]) ≡ some l') × (l ≤ l')
newer-get wave l last g none seen grows = (l, seen, ground arith)
newer-get wave l last g (some h) seen grows = elim (Bool-cases (h == g)) [
  | inl same ↦ (wave, rw same refl, grows (ap some (==→eq h g same)))
  | inr other ↦ (l, rw other seen, ground arith)
]

module _ (batch : List SyncMutation) where
  assign_all-append :
      (st : WaveState) (xs ys : List SyncMutation)
      → assign_all batch st (xs ++ ys) ≡ assign_all batch (assign_all batch st xs) ys
  unfolding assign_all
  assign_all-append st [] ys = refl
  assign_all-append st (x ∷ xs) ys = assign_all-append (assign batch st x) xs ys

  -- A mutation has the wave `w`, and the last wave of its entity is no earlier.
  record Known (st : WaveState) (a : SyncMutation) (w : ℕ) : Type 0 where
    wave : get a.mutation_id st.wave_of ≡ some w
    last : (g : ℕ) → a.payload_guuid ≡ some g → (l : ℕ) × (get g st.last_wave ≡ some l) × (w ≤ l)

  assign-wave :
      (st : WaveState) (m : SyncMutation)
      → get m.mutation_id (assign batch st m).wave_of ≡ some (wave_number batch st m)
  unfolding assign
  assign-wave st m = rw (==_refl m.mutation_id) refl

  assign-last :
      (st : WaveState) (m : SyncMutation) (g : ℕ)
      → m.payload_guuid ≡ some g
      → get g (assign batch st m).last_wave ≡ some (wave_number batch st m)
  unfolding assign
  assign-last st m g named =
      newest-get (wave_number batch st m) st.last_wave g m.payload_guuid named

  assign-Known :
      (st : WaveState) (m : SyncMutation) → Known (assign batch st m) m (wave_number batch st m)
  assign-Known st m = record {
    wave = assign-wave st m;
    last = λ g named. (_, assign-last st m g named, ground arith);
  }

  -- A later wave of the same entity is larger.
  wave_number-guuid :
      (st : WaveState) (m : SyncMutation) (g l : ℕ)
      → m.payload_guuid ≡ some g
      → get g st.last_wave ≡ some l
      → l < wave_number batch st m
  unfolding wave_number guuid_bound
  wave_number-guuid st m g l named seen = rw (named, guuid_bound) (rw (seen) (ground arith))

  wave_number-parent :
      (st : WaveState) (m p : SyncMutation) (g w : ℕ)
      → m.parent_guuid ≡ some g
      → by_guuid batch g ≡ some p
      → IsOther m p
      → get p.mutation_id st.wave_of ≡ some w
      → w < wave_number batch st m
  unfolding wave_number parent_bound
  wave_number-parent st m p g w named parent other known =
      rw (named, parent_bound) (rw (parent) (rw (other) (rw (known) (ground arith))))

  -- A turn for another mutation keeps what is known.
  assign-keeps :
      (st : WaveState) (m a : SyncMutation) (w : ℕ)
      → IsOther a m
      → Known st a w
      → Known (assign batch st m) a w
  unfolding assign
  assign-keeps st m a w other k = record {
    wave = rw other k.wave;
    last = λ g named.
        let (l, seen, above) = k.last g named in
        let (l', seen', grown) =
          newer-get (wave_number batch st m) l st.last_wave g m.payload_guuid seen
            (λ e. ground (arith, wave_number-guuid st m g l e seen)) in
        (l', seen', ground (arith, above, grown));
  }

  assign_all-keeps :
      (st : WaveState) (ms : List SyncMutation) (a : SyncMutation) (w : ℕ)
      → All (IsOther a) ms
      → Known st a w
      → Known (assign_all batch st ms) a w
  unfolding assign_all
  assign_all-keeps st [] a w others k = k
  assign_all-keeps st (m ∷ ms) a w others k =
      assign_all-keeps (assign batch st m) ms a w others.1 (assign-keeps st m a w others.0 k)

  -- What the loop knows in the end of a mutation at any place.
  Known-at :
      (xs ys : List SyncMutation) (a : SyncMutation)
      → All (IsOther a) ys
      → Known
          (assign_all batch no_waves (xs ++ a ∷ ys))
          a
          (wave_number batch (assign_all batch no_waves xs) a)
  unfolding assign_all
  Known-at xs ys a others =
      subst (λ st. Known st a (wave_number batch (assign_all batch no_waves xs) a))
        (sym (assign_all-append no_waves xs (a ∷ ys)))
        (assign_all-keeps (assign batch (assign_all batch no_waves xs) a) ys a _ others
          (assign-Known (assign_all batch no_waves xs) a))

  wait-lt :
      (st : WaveState) (a m : SyncMutation) (w : ℕ)
      → Known st a w
      → IsOther m a
      → Waits batch a m
      → w < wave_number batch st m
  wait-lt st a m w k other (inl (g, named, same)) =
      let (l, seen, above) = k.last g named in
      ground (arith, above, wave_number-guuid st m g l same seen)
  wait-lt st a m w k other (inr (g, named, parent)) =
      wave_number-parent st m a g w named parent other k.wave

append-after :
    (xs ys : List SyncMutation) (a : SyncMutation) (zs : List SyncMutation)
    → (xs ++ (a ∷ ys)) ++ zs ≡ xs ++ (a ∷ (ys ++ zs))
append-after [] ys a zs = refl
append-after (x ∷ xs) ys a zs = ap (λ l. x ∷ l) (append-after xs ys a zs)

wave_in_lem :
    (batch l : List SyncMutation) (a : SyncMutation) (w : ℕ)
    → batch ≡ l
    → Known batch (assign_all batch no_waves l) a w
    → wave_in batch a ≡ w
unfolding wave_in
wave_in_lem batch l a w e k =
    ap (λ o. or_default o 0)
      (ap (λ ms. get a.mutation_id (assign_all batch no_waves ms).wave_of) e ∙ k.wave)

-- In a batch without repeated ids, a mutation is put in a strictly later wave than an earlier mutation
-- of the batch that writes the same entity or that is its parent.
pub wave_in-lt :
    (batch xs ys zs : List SyncMutation) (a m : SyncMutation)
    → batch ≡ xs ++ a ∷ (ys ++ m ∷ zs)
    → IsDistinct batch
    → Waits batch a m
    → wave_in batch a < wave_in batch m
wave_in-lt batch xs ys zs a m split distinct waits =
    let (others_a, rest) = after-IsDistinct xs (ys ++ m ∷ zs) a (subst IsDistinct split distinct) in
    let (others_ys, other_m, others_zs) = All-split (IsOther a) ys zs m others_a in
    let (others_m, last) = after-IsDistinct ys zs m rest in
    let before = assign_all batch no_waves (xs ++ a ∷ ys) in
    let wave_a = wave_number batch (assign_all batch no_waves xs) a in
    let first : wave_in batch a ≡ wave_a =
      wave_in_lem batch _ a wave_a split (Known-at batch xs (ys ++ m ∷ zs) a others_a) in
    let second : wave_in batch m ≡ wave_number batch before m =
      wave_in_lem batch _ m _ (split ∙ sym (append-after xs ys a (m ∷ zs)))
        (Known-at batch (xs ++ a ∷ ys) zs m others_m) in
    let less : wave_a < wave_number batch before m =
      wait-lt batch before a m wave_a (Known-at batch xs ys a others_ys) (ground (arith, other_m))
        waits in
    subst (λ n. n < wave_in batch m) (sym first) (subst (λ n. wave_a < n) (sym second) less)
