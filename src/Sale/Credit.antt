-- ===== src/Sale/Credit.antt =====
-- The credit limit of the sale handler (apps/backend/src/sync/push/handlers/sale.handler.ts):
-- `creditLimitPaise`, which reads the limit's text, and the comparison with the projected balance.
use ayphen_retail_pos.Common.{
  ℕ, ◌+◌, ◌-◌, ◌*◌, Bool, true, false, ◌&&◌, ◌||◌, not, Option, none, some, List, [], ◌∷◌, ltb, leb,
  ◌==◌, if◌then◌else◌, or_default,
}
use ayphen_retail_pos.Ledger.{Books}
use ayphen_retail_pos.Ledger.Balance.{owed, settled}
use ayphen_retail_pos.StoreDb.{CustomerRow, Exec, done, thrown}

abbrev max_safe : ℕ
max_safe = 9007199254740991

-- The code units that `trim` removes from the ends of a text.
abbrev is_space : ℕ → Bool
is_space c =
    (leb 9 c && leb c 13)
    || c == 32
    || c == 160
    || c == 0x1680
    || (leb 0x2000 c && leb c 0x200a)
    || c == 0x2028
    || c == 0x2029
    || c == 0x202f
    || c == 0x205f
    || c == 0x3000
    || c == 0xfeff

abbrev is_digit : ℕ → Bool
is_digit c = leb b'0' c && leb c b'9'

trim_start : List ℕ → List ℕ
trim_start [] = []
trim_start (c ∷ cs) = if is_space c then trim_start cs else c ∷ cs

-- Only spaces are left.
all_spaces : List ℕ → Bool
all_spaces [] = true
all_spaces (c ∷ cs) = is_space c && all_spaces cs

-- `padEnd(2, '0')` of a fraction of one or two digits, read as a number: `.5` is 50 paise.
fraction_after : ℕ → List ℕ → Option ℕ
fraction_after a [] = some (a * 10)
fraction_after a (b ∷ more) =
    if is_digit b
    then (if all_spaces more then some (a * 10 + (b - b'0')) else none)
    else if all_spaces (b ∷ more)
    then some (a * 10)
    else none

fraction : List ℕ → Option ℕ
unfolding fraction_after
fraction [] = none
fraction (a ∷ rest) = if is_digit a then fraction_after (a - b'0') rest else none

-- The rest of `^(\d+)(?:\.(\d{1,2}))?$` after at least one digit, with the rupees so far.
rupees_from : ℕ → List ℕ → Option ℕ
rupees_from n [] = some (n * 100)
rupees_from n (c ∷ cs) =
    let rest = rupees_from (n * 10 + (c - b'0')) cs in
    if is_digit c
    then rest
    else if c == b'.'
    then (elim (fraction cs) [ none ↦ none | some p ↦ some (n * 100 + p) ])
    else if all_spaces (c ∷ cs)
    then some (n * 100)
    else none

match_limit : List ℕ → Option ℕ
match_limit [] = none
match_limit (c ∷ cs) = if is_digit c then rupees_from (c - b'0') cs else none

-- 0 is "no limit": null, empty, malformed or too large.
unfoldable pub credit_limit_paise : Option (List ℕ) → ℕ
unfolding match_limit rupees_from trim_start all_spaces fraction
credit_limit_paise none = 0
credit_limit_paise (some raw) = elim (match_limit (trim_start raw)) [
  | none ↦ 0
  | some total ↦ if leb total max_safe then total else 0
]

-- The balance is `bought - paid`, so the tests on it are written with the sums on both sides.
unfoldable pub passes_limit : CustomerRow → ℕ → ℕ → ℕ → Bool
passes_limit c bought paid portion =
    let limit = credit_limit_paise c.credit_limit in
    not (or_default c.override_credit_limit false)
    && ltb 0 limit
    && ltb (limit + paid) (bought + portion)

unfoldable pub credit_exceeded : ℕ → CustomerRow → ℕ → Books → Exec Bool
credit_exceeded store c portion b =
    let bought = owed store c.id b.customer_ledger_events in
    let paid = settled store c.id b.customer_ledger_events in
    if not (leb bought (paid + max_safe) && leb paid (bought + max_safe))
    then thrown
    else if not (leb (bought + portion) (paid + max_safe))
    then thrown
    else done (passes_limit c bought paid portion)
