-- ===== src/Cursor.antt =====
-- The signed sync cursor of apps/backend/src/sync/cursor/sync-cursor.service.ts. Texts are lists of
-- character codes, and a timestamp is its microseconds, since the fixed-width strings compare as time.
-- The JSON and base64url codecs and the HMAC are parameters.
pub mod Trusted
pub mod RoundTrip
mod Tests
use ayphen_retail_pos.Common.{
  ℕ, ◌+◌, ◌*◌, Bool, true, false, ◌&&◌, ◌||◌, not, Option, none, some, List, [], ◌∷◌, ◌++◌, ltb,
  ◌==◌, if◌then◌else◌, min,
}

abbrev pub sync_cursor_version : ℕ
sync_cursor_version = 4

abbrev pub sync_horizon_ms : ℕ
sync_horizon_ms = 180 * 24 * 60 * 60 * 1000

abbrev pub Text : Type 0
Text = List ℕ

abbrev pub dot : ℕ
dot = b'.'

pub record EntityWatermark : Type 0 where
  pub ts : ℕ
  pub id : ℕ

pub record SyncCursorPayload : Type 0 where
  pub v : ℕ
  pub u : ℕ
  pub s : ℕ
  pub ia : ℕ
  pub e : List (ℕ × EntityWatermark)
  pub t : Option EntityWatermark

-- A parsed JSON payload: a field is `none` where it is missing or of another type, and a watermark
-- also where its timestamp does not match `MICRO_ISO_RE`. `absent` is `t` left out.
pub data RawMark : Type 0 where
  absent : RawMark
  malformed : RawMark
  mark : EntityWatermark → RawMark

pub record RawPayload : Type 0 where
  pub v : Option ℕ
  pub u : Option ℕ
  pub s : Option ℕ
  pub ia : Option ℕ
  pub e : Option (List (ℕ × RawMark))
  pub t : RawMark

pub record Codec : Type 0 where
  pub encode : SyncCursorPayload → Text
  pub parse : Text → Option RawPayload
  pub mac : Text → Text
  pub bytes : Text → List ℕ

pub data Decoded {ℓ} (A : Type ℓ) : Type ℓ where
  valid : A → Decoded A
  invalid : Decoded A
  gone : Decoded A

infixl 5 ◌>>=◌ ◌>>◌
abbrev pub ◌>>=◌ {ℓ κ} : {A : Type ℓ} {B : Type κ} → Decoded A → (A → Decoded B) → Decoded B
valid a >>= f = f a
invalid >>= f = invalid
gone >>= f = gone

abbrev pub ◌>>◌ {ℓ κ} : {A : Type ℓ} {B : Type κ} → Decoded A → Decoded B → Decoded B
m >> k = m >>= λ _. k

abbrev pub check : Bool → Decoded (Unit {0})
check true = valid tt
check false = invalid

-- `cursor.lastIndexOf('.')`, with the parts on its two sides
unfoldable pub split_last : Text → Option (Text × Text)
split_last [] = none
split_last (c ∷ cs) = elim (split_last cs) [
  | some (body, mac) ↦ some (c ∷ body, mac)
  | none ↦ if c == dot then some ([], cs) else none
]

abbrev pub is_empty : Text → Bool
is_empty [] = true
is_empty (c ∷ cs) = false

abbrev pub same_bytes : List ℕ → List ℕ → Bool
same_bytes [] [] = true
same_bytes [] (y ∷ ys) = false
same_bytes (x ∷ xs) [] = false
same_bytes (x ∷ xs) (y ∷ ys) = x == y && same_bytes xs ys

abbrev pub is_number : Option ℕ → ℕ → Bool
is_number none n = false
is_number (some m) n = m == n

-- `clamp`
unfoldable pub clamp : ℕ → RawMark → Decoded EntityWatermark
clamp now_micro absent = invalid
clamp now_micro malformed = invalid
clamp now_micro (mark w) =
    valid (if ltb now_micro w.ts then record { ts = now_micro; id = w.id } else w)

unfoldable pub clamp_all : ℕ → List (ℕ × RawMark) → Decoded (List (ℕ × EntityWatermark))
clamp_all now_micro [] = valid []
clamp_all now_micro ((entity, m) ∷ ms) = do
  w ← clamp now_micro m
  ws ← clamp_all now_micro ms
  valid ((entity, w) ∷ ws)

unfoldable pub clamp_tombstone : ℕ → RawMark → Decoded (Option EntityWatermark)
clamp_tombstone now_micro absent = valid none
clamp_tombstone now_micro m = clamp now_micro m >>= λ w. valid (some w)

-- What follows the parse: version, tenant, horizon, and the clamps.
unfoldable pub check_payload : RawPayload → ℕ → ℕ → ℕ → Decoded SyncCursorPayload
check_payload raw user store now = do
  check (is_number raw.v sync_cursor_version)
  check (is_number raw.u user && is_number raw.s store)
  ia ← elim raw.ia as (λ _. Decoded ℕ) [
    | none ↦ invalid
    | some ia ↦ if ltb (ia + sync_horizon_ms) now then gone else valid ia
  ]
  e ← elim raw.e as (λ _. Decoded (List (ℕ × EntityWatermark))) [
    | none ↦ invalid
    | some es ↦ clamp_all (now * 1000) es
  ]
  t ← clamp_tombstone (now * 1000) raw.t
  valid (record { v = sync_cursor_version; u = user; s = store; ia = min ia now; e = e; t = t })

module _ (codec : Codec) where
  -- `mint`
  unfoldable pub mint : ℕ → ℕ → List (ℕ × EntityWatermark) → Option EntityWatermark → ℕ → Text
  mint user store entities tombstone now =
      let body = codec.encode (record {
        v = sync_cursor_version;
        u = user;
        s = store;
        ia = now;
        e = entities;
        t = tombstone;
      }) in
      body ++ dot ∷ codec.mac body

  -- `decode`
  unfoldable pub decode : Text → ℕ → ℕ → ℕ → Decoded SyncCursorPayload
  decode cursor user store now = elim (split_last cursor) [
    | none ↦ invalid
    | some (body, mac) ↦
        if is_empty body
          || is_empty mac
          || not (same_bytes (codec.bytes mac) (codec.bytes (codec.mac body)))
        then invalid
        else elim (codec.parse body) as (λ _. Decoded SyncCursorPayload) [
          | none ↦ invalid
          | some raw ↦ check_payload raw user store now
        ]
  ]
