-- ===== src/Cursor/RoundTrip.antt =====
-- What `decode` of apps/backend/src/sync/cursor/sync-cursor.service.ts makes of a cursor that `mint` has
-- made.
use ayphen_retail_pos.Common.{
  ℕ, ◌+◌, ◌*◌, ◌≤◌, ◌≡◌, refl, ◌∙◌, true, false, ◌&&◌, Option, none, some, List, [], ◌∷◌, ◌++◌, ltb,
  ◌==◌, ==_refl, min, All, arith,
}
use ayphen_retail_pos.Cursor.{
  sync_cursor_version, sync_horizon_ms, Text, dot, EntityWatermark, SyncCursorPayload, RawMark,
  absent, mark, RawPayload, Codec, valid, invalid, split_last, is_empty, same_bytes, clamp,
  clamp_all, clamp_tombstone, check_payload, mint, decode,
}
use ayphen_retail_pos.Cursor.Trusted.{IsPast, EntityIsPast, TombstoneIsPast}

-- The parsed form of a payload.
abbrev pub raw_marks : List (ℕ × EntityWatermark) → List (ℕ × RawMark)
raw_marks [] = []
raw_marks ((entity, w) ∷ ws) = (entity, mark w) ∷ raw_marks ws

abbrev pub raw_tombstone : Option EntityWatermark → RawMark
raw_tombstone none = absent
raw_tombstone (some w) = mark w

abbrev pub raw_of : SyncCursorPayload → RawPayload
raw_of p = record {
  v = some p.v;
  u = some p.u;
  s = some p.s;
  ia = some p.ia;
  e = some (raw_marks p.e);
  t = raw_tombstone p.t;
}

-- What is known of the codecs: JSON text in base64url is read back, and neither it nor a signature is
-- empty; a signature has no dot, since the alphabet of base64url has none.
pub record IsCodec (codec : Codec) : Type 0 where
  pub parses : (p : SyncCursorPayload) → codec.parse (codec.encode p) ≡ some (raw_of p)
  pub encodes : (p : SyncCursorPayload) → is_empty (codec.encode p) ≡ false
  pub signs : (body : Text) → is_empty (codec.mac body) ≡ false
  pub undotted : (body : Text) → All (λ c. (c == dot) ≡ false) (codec.mac body)

split_last-undotted : (mac : Text) → All (λ c. (c == dot) ≡ false) mac → split_last mac ≡ none
unfolding split_last
split_last-undotted [] h = refl
split_last-undotted (c ∷ cs) h = rw (split_last-undotted cs h.1, split_last) (rw h.0 refl)

split_last-append :
    (body mac : Text)
    → All (λ c. (c == dot) ≡ false) mac
    → split_last (body ++ dot ∷ mac) ≡ some (body, mac)
unfolding split_last
split_last-append [] mac h = rw (split_last-undotted mac h, split_last) refl
split_last-append (c ∷ cs) mac h = rw (split_last-append cs mac h, split_last) refl

same_bytes_refl : (xs : List ℕ) → same_bytes xs xs ≡ true
same_bytes_refl [] = refl
same_bytes_refl (x ∷ xs) = rw (==_refl x) (same_bytes_refl xs)

clamp_lem : (now : ℕ) (w : EntityWatermark) → IsPast now w → clamp (now * 1000) (mark w) ≡ valid w
unfolding clamp
clamp_lem now w h = let past : ltb (now * 1000) w.ts ≡ false = ground (arith, h) in rw past refl

clamp_all_lem :
    (now : ℕ) (ws : List (ℕ × EntityWatermark))
    → All (EntityIsPast now) ws
    → clamp_all (now * 1000) (raw_marks ws) ≡ valid ws
unfolding clamp_all
clamp_all_lem now [] h = refl
clamp_all_lem now ((entity, w) ∷ ws) h =
    rw (clamp_lem now w h.0) (rw (clamp_all_lem now ws h.1) refl)

clamp_tombstone_lem :
    (now : ℕ) (t : Option EntityWatermark)
    → TombstoneIsPast now t
    → clamp_tombstone (now * 1000) (raw_tombstone t) ≡ valid t
unfolding clamp_tombstone
clamp_tombstone_lem now none h = refl
clamp_tombstone_lem now (some w) h = rw (clamp_lem now w h) refl

module _ (codec : Codec) (laws : IsCodec codec) (user store : ℕ)
    (entities : List (ℕ × EntityWatermark)) (tombstone : Option EntityWatermark) (minted : ℕ) where
  abbrev payload : SyncCursorPayload
  payload = record {
    v = sync_cursor_version;
    u = user;
    s = store;
    ia = minted;
    e = entities;
    t = tombstone;
  }

  -- A minted cursor is decoded by the checks on its payload.
  decode-mint_payload :
      (user' store' now : ℕ)
      → decode codec (mint codec user store entities tombstone minted) user' store' now
        ≡ check_payload (raw_of payload) user' store' now
  unfolding decode mint
  decode-mint_payload user' store' now =
      let body = codec.encode payload in
      rw (split_last-append body (codec.mac body) (laws.undotted body), decode)
        (rw (laws.encodes payload, laws.signs body, same_bytes_refl (codec.bytes (codec.mac body)))
          (rw (laws.parses payload, decode) refl))

  -- Within the horizon, and with no watermark in the future, a cursor gives back the payload that was
  -- minted.
  pub decode-mint :
      (now : ℕ)
      → minted ≤ now
      → now ≤ minted + sync_horizon_ms
      → All (EntityIsPast now) entities
      → TombstoneIsPast now tombstone
      → decode codec (mint codec user store entities tombstone minted) user store now
        ≡ valid payload
  unfolding check_payload
  decode-mint now later fresh past past_tombstone =
      let recent : ltb (minted + sync_horizon_ms) now ≡ false = ground (arith, fresh) in
      let earliest : min minted now ≡ minted = omega arith in
      decode-mint_payload user store now
      ∙ rw (==_refl user, ==_refl store)
          (rw recent (
            rw (clamp_all_lem now entities past)
              (rw (clamp_tombstone_lem now tombstone past_tombstone) (rw earliest refl))))

  -- A minted cursor is refused for any other user or store, whenever it comes.
  pub decode-mint_foreign :
      (user' store' now : ℕ)
      → ((user == user') && (store == store')) ≡ false
      → decode codec (mint codec user store entities tombstone minted) user' store' now ≡ invalid
  unfolding check_payload
  decode-mint_foreign user' store' now foreign =
      decode-mint_payload user' store' now ∙ rw foreign refl
