-- ===== src/Cursor/Trusted.antt =====
-- What a cursor has passed that `decode` of apps/backend/src/sync/cursor/sync-cursor.service.ts
-- accepts.
use ayphen_retail_pos.Common.{
  ℕ, ◌+◌, ◌*◌, ◌≤◌, ◌≡◌, refl, ap, subst, Bool, true, false, ◌&&◌, ◌||◌, not, inl, inr, Option,
  none, some, List, [], ◌∷◌, ltb, ==→eq, &&-true, if◌then◌else◌, All, arith, Bool-cases,
  Option-cases,
}
use ayphen_retail_pos.Cursor.{
  sync_cursor_version, sync_horizon_ms, Text, EntityWatermark, SyncCursorPayload, RawMark, absent,
  malformed, mark, RawPayload, Codec, Decoded, valid, invalid, gone, ◌>>=◌, check, split_last,
  is_empty, same_bytes, is_number, clamp, clamp_all, clamp_tombstone, check_payload, decode,
}

pub >>=-eq-valid {ℓ κ} :
    {A : Type ℓ} {B : Type κ} (m : Decoded A) (f : A → Decoded B) {b : B}
    → (m >>= f) ≡ valid b
    → (a : A) × (m ≡ valid a) × (f a ≡ valid b)
>>=-eq-valid (valid a) f h = (a, refl, h)
>>=-eq-valid invalid f h = cc
>>=-eq-valid gone f h = cc

value_of {ℓ} : {A : Type ℓ} → A → Decoded A → A
value_of a (valid b) = b
value_of a _ = a

pub valid-injective {ℓ} : {A : Type ℓ} {a b : A} → valid a ≡ valid b → a ≡ b
unfolding value_of
valid-injective {a} h = ap (value_of a) h

-- The watermarks are no later than now.
abbrev pub IsPast : ℕ → EntityWatermark → Type 0
IsPast now w = w.ts ≤ now * 1000

abbrev pub EntityIsPast : ℕ → ℕ × EntityWatermark → Type 0
EntityIsPast now e = (e.1).ts ≤ now * 1000

abbrev pub TombstoneIsPast : ℕ → Option EntityWatermark → Type 0
TombstoneIsPast now none = Unit
TombstoneIsPast now (some w) = w.ts ≤ now * 1000

clamp-IsPast :
    (now : ℕ) (m : RawMark) (w : EntityWatermark) → clamp (now * 1000) m ≡ valid w → IsPast now w
unfolding clamp
clamp-IsPast now absent w h = cc h
clamp-IsPast now malformed w h = cc h
clamp-IsPast now (mark x) w h =
    subst (IsPast now) (valid-injective h) (elim (Bool-cases (ltb (now * 1000) x.ts)) [
      | inl future ↦ rw future (omega arith)
      | inr past ↦ rw past (ground (arith, past))
    ])

clamp_all-IsPast :
    (now : ℕ) (ms : List (ℕ × RawMark)) (ws : List (ℕ × EntityWatermark))
    → clamp_all (now * 1000) ms ≡ valid ws
    → All (EntityIsPast now) ws
unfolding clamp_all
clamp_all-IsPast now [] ws h = subst (All (EntityIsPast now)) (valid-injective h) tt
clamp_all-IsPast now ((entity, m) ∷ ms) ws h =
    let (w, first, h₁) = >>=-eq-valid (clamp (now * 1000) m) _ h in
    let (rest, others, h₂) = >>=-eq-valid (clamp_all (now * 1000) ms) _ h₁ in
    subst (All (EntityIsPast now)) (valid-injective h₂)
      (clamp-IsPast now m w first, clamp_all-IsPast now ms rest others)

clamp_tombstone-IsPast :
    (now : ℕ) (m : RawMark) (t : Option EntityWatermark)
    → clamp_tombstone (now * 1000) m ≡ valid t
    → TombstoneIsPast now t
unfolding clamp_tombstone
clamp_tombstone-IsPast now absent t h = subst (TombstoneIsPast now) (valid-injective h) tt
clamp_tombstone-IsPast now malformed t h =
    let (w, first, h₁) = >>=-eq-valid (clamp (now * 1000) malformed) _ h in
    subst (TombstoneIsPast now) (valid-injective h₁) (clamp-IsPast now malformed w first)
clamp_tombstone-IsPast now (mark x) t h =
    let (w, first, h₁) = >>=-eq-valid (clamp (now * 1000) (mark x)) _ h in
    subst (TombstoneIsPast now) (valid-injective h₁) (clamp-IsPast now (mark x) w first)

check-true : (b : Bool) {u : Unit {0}} → check b ≡ valid u → b ≡ true
check-true true h = refl
check-true false h = cc h

is_number-true : (o : Option ℕ) (n : ℕ) → is_number o n ≡ true → o ≡ some n
is_number-true none n h = cc h
is_number-true (some m) n h = ap some (==→eq m n h)

-- The payload of the user and the store, minted within the horizon, with no watermark in the future.
pub record IsTrusted (raw : RawPayload) (user store now : ℕ) (p : SyncCursorPayload) : Type 0 where
  pub version : raw.v ≡ some sync_cursor_version
  pub user_bound : raw.u ≡ some user
  pub store_bound : raw.s ≡ some store
  pub minted : (ia : ℕ) × (raw.ia ≡ some ia) × (now ≤ ia + sync_horizon_ms)
  pub entities_past : All (EntityIsPast now) p.e
  pub tombstone_past : TombstoneIsPast now p.t

check_payload-IsTrusted :
    (raw : RawPayload) (user store now : ℕ) (p : SyncCursorPayload)
    → check_payload raw user store now ≡ valid p
    → IsTrusted raw user store now p
unfolding check_payload
check_payload-IsTrusted raw user store now p h =
    let (_, version, h₁) = >>=-eq-valid (check (is_number raw.v sync_cursor_version)) _ h in
    let (_, tenant, h₂) =
      >>=-eq-valid (check (is_number raw.u user && is_number raw.s store)) _ h₁ in
    let (ia, minted, h₃) = >>=-eq-valid _ _ h₂ in
    let (e, entities, h₄) = >>=-eq-valid _ _ h₃ in
    let (t, tombstone, h₅) = >>=-eq-valid (clamp_tombstone (now * 1000) raw.t) _ h₄ in
    let both = &&-true (is_number raw.u user) (is_number raw.s store) (check-true _ tenant) in
    let shape = valid-injective h₅ in
    record {
      version = is_number-true raw.v sync_cursor_version (check-true _ version);
      user_bound = is_number-true raw.u user both.0;
      store_bound = is_number-true raw.s store both.1;
      minted = within raw.ia ia minted;
      entities_past =
          subst (λ (x : SyncCursorPayload). All (EntityIsPast now) x.e) shape
            (all_past raw.e e entities);
      tombstone_past =
          subst (λ (x : SyncCursorPayload). TombstoneIsPast now x.t) shape
            (clamp_tombstone-IsPast now raw.t t tombstone);
    }
  where
    within :
        (o : Option ℕ) (ia : ℕ)
        → elim o as (λ _. Decoded ℕ) [
          | none ↦ invalid
          | some i ↦ if ltb (i + sync_horizon_ms) now then gone else valid i
        ]
          ≡ valid ia
        → (i : ℕ) × (o ≡ some i) × (now ≤ i + sync_horizon_ms)
    within none ia e = cc e
    within (some i) ia e = elim (Bool-cases (ltb (i + sync_horizon_ms) now)) [
      | inl old ↦ cc (rw old at e)
      | inr fresh ↦ (i, refl, ground (arith, fresh))
    ]

    all_past :
        (o : Option (List (ℕ × RawMark))) (e : List (ℕ × EntityWatermark))
        → elim o as (λ _. Decoded (List (ℕ × EntityWatermark))) [
          | none ↦ invalid
          | some es ↦ clamp_all (now * 1000) es
        ]
          ≡ valid e
        → All (EntityIsPast now) e
    all_past none e h' = cc h'
    all_past (some es) e h' = clamp_all-IsPast now es e h'

-- A cursor that is accepted is signed: its last dot parts a body from bytes that are those of the
-- body's own signature. The body is the payload of the user and the store, minted within the horizon,
-- and no watermark of the result is in the future.
pub decode-IsTrusted :
    (codec : Codec) (cursor : Text) (user store now : ℕ) (p : SyncCursorPayload)
    → decode codec cursor user store now ≡ valid p
    → (body : Text) × (mac : Text) × (raw : RawPayload) × (split_last cursor ≡ some (body, mac))
      × (same_bytes (codec.bytes mac) (codec.bytes (codec.mac body)) ≡ true)
      × (codec.parse body ≡ some raw)
      × IsTrusted raw user store now p
unfolding decode
decode-IsTrusted codec cursor user store now p h = elim (Option-cases (split_last cursor)) [
  | inl no_dot ↦ cc (rw (no_dot, decode) at h)
  | inr ((body, mac), parts) ↦
      elim (Bool-cases (
        is_empty body
        || is_empty mac
        || not (same_bytes (codec.bytes mac) (codec.bytes (codec.mac body))))) [
          | inl refused ↦ cc (rw refused at (rw (parts, decode) at h))
          | inr signed ↦ elim (Option-cases (codec.parse body)) [
            | inl garbage ↦ cc (rw (garbage, decode) at (rw signed at (rw (parts, decode) at h)))
            | inr (raw, parsed) ↦ (
              body,
              mac,
              raw,
              parts,
              signed_lem (is_empty body) (is_empty mac) _ signed,
              parsed,
              check_payload-IsTrusted raw user store now p
                  (rw (parsed, decode) at (rw signed at (rw (parts, decode) at h))),
            )
          ]
        ]
]
  where
    signed_lem : (a b c : Bool) → (a || b || not c) ≡ false → c ≡ true
    signed_lem a b c e = ground (arith, e)
