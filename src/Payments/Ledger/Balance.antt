-- ===== src/Payments/Ledger/Balance.antt =====
-- What assertBalancedLedger accepts.
use mathlib.Core.Path.{ap₂}
use text.Mathlib.Text.{◌==◌ as str_eq}
use text.Mathlib.TextEquality.{eq_iff}
use nodex_v.Prelude.{
  ◌≤◌, ◌≡◌, ◌≢◌, ◌↔◌, refl, sym, Bool, true, false, not, List, [], ◌∷◌, String, ltb, length, All,
  ok, if◌then◌else◌, arith, ◌∙◌, throw_if-ok, >>=-ok,
}
use nodex_v.Prelude.Int.{ℤ, pos, ◌+ℤ◌, eq_ℤ, +ℤ_parts, eq_of_parts}
use nodex_v.Payments.Money.{
  too_few_entries, currency_required, mixed_currencies, entry_not_positive,
}
use nodex_v.Payments.Ledger.{
  LedgerEntry, is_debit, is_positive, add_entries, first_currency, assert_balanced_ledger,
  sum_debits,
}

unfoldable pub sum_credits : List LedgerEntry → ℤ
sum_credits [] = pos 0
sum_credits (e ∷ es) =
    if is_debit e.entry_type then sum_credits es else e.amount_minor +ℤ sum_credits es

-- What an entry has to be beside entries in a currency.
abbrev pub IsPostable : String → LedgerEntry → Type 0
IsPostable currency e = (e.currency ≡ currency) × (is_positive e ≡ true)

abbrev pub IsBalanced : List LedgerEntry → Type 0
IsBalanced es =
    (2 ≤ length es)
    × (first_currency es ≢ "")
    × All (IsPostable (first_currency es)) es
    × (sum_debits es ≡ sum_credits es)

+ℤ_assoc : (a b c : ℤ) → a +ℤ b +ℤ c ≡ a +ℤ (b +ℤ c)
+ℤ_assoc a b c = omega (arith, +ℤ_parts, eq_of_parts)

+ℤ_zero : (a : ℤ) → a +ℤ pos 0 ≡ a
+ℤ_zero a = omega (arith, +ℤ_parts, eq_of_parts)

of_not : (b : Bool) → not b ≡ false → b ≡ true
of_not true h = refl
of_not false h = cc

add_entries-ok :
    (currency : String) (es : List LedgerEntry) (d c : ℤ)
    → All (IsPostable currency) es
    → add_entries currency es d c ≡ ok (d +ℤ sum_debits es, c +ℤ sum_credits es)
unfolding add_entries sum_debits sum_credits
add_entries-ok currency [] d c h = rw (+ℤ_zero d, +ℤ_zero c)
add_entries-ok currency (e ∷ es) d c h = ground (
  arith,
  eq_iff e.currency currency,
  +ℤ_assoc d e.amount_minor (sum_debits es),
  +ℤ_assoc c e.amount_minor (sum_credits es),
  add_entries-ok currency es (d +ℤ e.amount_minor) c h.1,
  add_entries-ok currency es d (c +ℤ e.amount_minor) h.1,
)

add_entries-IsPostable :
    (currency : String) (es : List LedgerEntry) (d c : ℤ) {r : ℤ × ℤ}
    → add_entries currency es d c ≡ ok r
    → All (IsPostable currency) es
unfolding add_entries
add_entries-IsPostable currency [] d c h = tt
add_entries-IsPostable currency (e ∷ es) d c h =
    let (same_currency, h') = throw_if-ok (not (str_eq e.currency currency)) mixed_currencies _ h in
    let (above_zero, h'') = throw_if-ok (not (is_positive e)) entry_not_positive _ h' in
    (
      ((eq_iff e.currency currency).0 (of_not _ same_currency), of_not (is_positive e) above_zero),
      add_entries-IsPostable currency es _ _ h'',
    )

from_zero : (a : ℤ) → pos 0 +ℤ a ≡ a
from_zero a = omega (arith, +ℤ_parts, eq_of_parts)

sums_from_zero :
    (es : List LedgerEntry)
    → All (IsPostable (first_currency es)) es
    → add_entries (first_currency es) es (pos 0) (pos 0) ≡ ok (sum_debits es, sum_credits es)
sums_from_zero es h =
    add_entries-ok (first_currency es) es (pos 0) (pos 0) h
    ∙ ap₂ (λ a b. ok (a, b)) (from_zero (sum_debits es)) (from_zero (sum_credits es))

eq_ℤ-eq : (a b : ℤ) → eq_ℤ a b ≡ true → a ≡ b
eq_ℤ-eq a b h = ground (arith, eq_of_parts a b)

accepted-IsBalanced : (es : List LedgerEntry) → assert_balanced_ledger es ≡ ok tt → IsBalanced es
unfolding assert_balanced_ledger
accepted-IsBalanced es h =
    let (enough, h') = throw_if-ok (ltb (length es) 2) too_few_entries _ h in
    let (named, h'') = throw_if-ok (str_eq (first_currency es) "") currency_required _ h' in
    let (sums, added, equal) = >>=-ok (add_entries (first_currency es) es (pos 0) (pos 0)) _ h'' in
    let postable = add_entries-IsPostable (first_currency es) es (pos 0) (pos 0) added in
    (
      ground arith,
      (λ e. cc (sym named, (eq_iff (first_currency es) "").1 e)),
      postable,
      ground (arith, sums_from_zero es postable, eq_of_parts (sum_debits es) (sum_credits es)),
    )

IsBalanced-accepted : (es : List LedgerEntry) → IsBalanced es → assert_balanced_ledger es ≡ ok tt
unfolding assert_balanced_ledger
IsBalanced-accepted es (enough, named, postable, equal) =
    rw (sums_from_zero es postable, equal) (ground (arith, eq_iff (first_currency es) ""))

-- A list of entries passes exactly if it has two entries or more, the first has a currency, all have
-- that currency and an amount above zero, and the debits add up to what the credits add up to.
pub assert_balanced_ledger_iff :
    (es : List LedgerEntry) → (assert_balanced_ledger es ≡ ok tt) ↔ IsBalanced es
assert_balanced_ledger_iff es = (accepted-IsBalanced es, IsBalanced-accepted es)
