-- ===== src/Cursor/Tests.antt =====
-- Tests of the cursor with a small codec: a text of numbers, and a signature that adds them up.
use ayphen_retail_pos.Common.{
  ℕ, zero, suc, ◌+◌, ◌*◌, ◌≤◌, ◌≡◌, refl, ap, true, false, ◌==◌, Option, none, some, List, [], ◌∷◌,
  arith, sum_by,
}
use ayphen_retail_pos.Cursor.{
  sync_horizon_ms, Text, dot, EntityWatermark, SyncCursorPayload, RawMark, absent, mark, RawPayload,
  Codec, valid, gone, split_last, same_bytes, clamp, clamp_all, clamp_tombstone, check_payload,
  mint, decode,
}
use ayphen_retail_pos.Cursor.Trusted.{IsTrusted, decode-IsTrusted}
use ayphen_retail_pos.Cursor.RoundTrip.{raw_marks, raw_tombstone, raw_of, IsCodec, decode-mint}

abbrev print_marks : List (ℕ × EntityWatermark) → Text
print_marks [] = []
print_marks ((entity, w) ∷ ws) = entity ∷ w.ts ∷ w.id ∷ print_marks ws

abbrev parse_marks : Text → List (ℕ × RawMark)
parse_marks (entity ∷ ts ∷ id ∷ rest) =
    (entity, mark (record { ts = ts; id = id })) ∷ parse_marks rest
parse_marks _ = []

abbrev print_tail : Option EntityWatermark → List (ℕ × EntityWatermark) → Text
print_tail none e = 0 ∷ print_marks e
print_tail (some w) e = 1 ∷ w.ts ∷ w.id ∷ print_marks e

abbrev print : SyncCursorPayload → Text
print p = p.v ∷ p.u ∷ p.s ∷ p.ia ∷ print_tail p.t p.e

abbrev raw : ℕ → ℕ → ℕ → ℕ → RawMark → List (ℕ × RawMark) → RawPayload
raw v u s ia t e = record { v = some v; u = some u; s = some s; ia = some ia; e = some e; t = t }

abbrev parse : Text → Option RawPayload
parse (v ∷ u ∷ s ∷ ia ∷ zero ∷ rest) = some (raw v u s ia absent (parse_marks rest))
parse (v ∷ u ∷ s ∷ ia ∷ suc n ∷ ts ∷ id ∷ rest) =
    some (raw v u s ia (mark (record { ts = ts; id = id })) (parse_marks rest))
parse _ = none

abbrev small : Codec
small = record {
  encode = print;
  parse = parse;
  mac = λ body. (100 + sum_by (λ c. c) body) ∷ [];
  bytes = λ mac. mac;
}

parse_marks-print_marks :
    (ws : List (ℕ × EntityWatermark)) → parse_marks (print_marks ws) ≡ raw_marks ws
parse_marks-print_marks [] = refl
parse_marks-print_marks ((entity, w) ∷ ws) =
    ap (λ ms. (entity, mark w) ∷ ms) (parse_marks-print_marks ws)

parse-print : (p : SyncCursorPayload) → parse (print p) ≡ some (raw_of p)
parse-print p = split p.t
  where
    split :
        (t : Option EntityWatermark)
        → parse (p.v ∷ p.u ∷ p.s ∷ p.ia ∷ print_tail t p.e)
          ≡ some (raw p.v p.u p.s p.ia (raw_tombstone t) (raw_marks p.e))
    split none = ap (λ ms. some (raw p.v p.u p.s p.ia absent ms)) (parse_marks-print_marks p.e)
    split (some w) =
        ap (λ ms. some (raw p.v p.u p.s p.ia (mark w) ms)) (parse_marks-print_marks p.e)

no_dot : (n : ℕ) → (100 + n == dot) ≡ false
no_dot n = ground arith

small-IsCodec : IsCodec small
small-IsCodec = record {
  parses = parse-print;
  encodes = λ p. refl;
  signs = λ body. refl;
  undotted = λ body. (no_dot (sum_by (λ c. c) body), tt);
}

abbrev products : List (ℕ × EntityWatermark)
products = (1, record { ts = 5000000; id = 9 }) ∷ []

minted_now : 6000 ≤ 7000
minted_now = ground arith

in_horizon : 7000 ≤ 6000 + sync_horizon_ms
in_horizon = ground arith

in_past : 5000000 ≤ 7000 * 1000
in_past = ground arith

abbrev payload : SyncCursorPayload
payload = record { v = 4; u = 2; s = 1; ia = 6000; e = products; t = none }

decode-mint_example : decode small (mint small 2 1 products none 6000) 2 1 7000 ≡ valid payload
decode-mint_example =
    decode-mint small small-IsCodec 2 1 products none 6000 7000 minted_now in_horizon (in_past, tt)
      tt

-- A cursor of the past half year is gone, and a watermark of the future is clamped.
too_old : decode small (mint small 2 1 products none 6000) 2 1 (7000 + sync_horizon_ms) ≡ gone
unfolding decode mint split_last check_payload
too_old = refl

clamped :
    decode small (mint small 2 1 products none 3000) 2 1 4000
    ≡ valid (record {
      v = 4;
      u = 2;
      s = 1;
      ia = 3000;
      e = (1, record { ts = 4000000; id = 9 }) ∷ [];
      t = none;
    })
unfolding decode mint split_last check_payload clamp_all clamp clamp_tombstone
clamped = refl

decode-IsTrusted_example :
    (body : Text) × (signature : Text) × (read : RawPayload) × (split_last
        (mint small 2 1 products none 6000)
      ≡ some (body, signature))
    × (same_bytes signature (small.mac body) ≡ true)
    × (parse body ≡ some read)
    × IsTrusted read 2 1 7000 payload
decode-IsTrusted_example =
    decode-IsTrusted small (mint small 2 1 products none 6000) 2 1 7000 payload decode-mint_example
