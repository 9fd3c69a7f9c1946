-- ===== src/Payments/Ledger.antt =====
-- packages/payments/src/index.ts: assertBalancedLedger; apps/api/src/main.ts: ledgerPost.
pub mod Balance
use text.Mathlib.Text.{◌==◌ as str_eq}
use nodex_v.Prelude.{
  ℕ, Bool, true, false, not, List, [], ◌∷◌, String, Option, none, some, ltb, length, keep, map,
  Result, ok, err, ◌>>=◌, ◌>>◌, throw_if, if◌then◌else◌, same, ℕ_discrete,
}
use nodex_v.Prelude.Int.{ℤ, pos, ◌+ℤ◌, ltb_ℤ, eq_ℤ}
use nodex_v.Payments.Money.{
  PaymentError, too_few_entries, currency_required, mixed_currencies, entry_not_positive,
  not_balanced,
}

pub data EntryType : Type 0 where
  debit credit : EntryType

pub record LedgerEntry : Type 0 where
  pub account : String
  pub entry_type : EntryType
  pub amount_minor : ℤ
  pub currency : String

abbrev pub is_debit : EntryType → Bool
is_debit debit = true
is_debit credit = false

-- `entry.amountMinor > 0n`.
abbrev pub is_positive : LedgerEntry → Bool
is_positive e = ltb_ℤ (pos 0) e.amount_minor

-- The loop of assertBalancedLedger, from given sums of both sides.
unfoldable pub add_entries : String → List LedgerEntry → ℤ → ℤ → Result PaymentError (ℤ × ℤ)
add_entries currency [] d c = ok (d, c)
add_entries currency (entry ∷ entries) d c = do
  throw_if (not (str_eq entry.currency currency)) mixed_currencies
  throw_if (not (is_positive entry)) entry_not_positive
  add_entries currency entries (if is_debit entry.entry_type then d +ℤ entry.amount_minor else d)
      (if is_debit entry.entry_type then c else c +ℤ entry.amount_minor)

abbrev pub first_currency : List LedgerEntry → String
first_currency [] = ""
first_currency (entry ∷ entries) = entry.currency

unfoldable pub assert_balanced_ledger : List LedgerEntry → Result PaymentError (Unit {0})
unfolding add_entries
assert_balanced_ledger entries = do
  throw_if (ltb (length entries) 2) too_few_entries
  throw_if (str_eq (first_currency entries) "") currency_required
  sums ← add_entries (first_currency entries) entries (pos 0) (pos 0)
  throw_if (not (eq_ℤ sums.0 sums.1)) not_balanced

pub data FinancialTransactionType : Type 0 where
  payment payout refund : FinancialTransactionType

-- The texts `payment:<id>:success`, `payout:<id>:paid` and `refund:<id>:ledger`.
pub data LedgerKey : Type 0 where
  payment_success payout_paid refund_ledger : ℕ → LedgerKey

unfoldable pub LedgerKey-discrete : Discrete LedgerKey
LedgerKey-discrete = hlevel ℕ_discrete

-- `entries` without the payment that each row repeats.
pub record FinancialTransaction : Type 0 where
  pub type : FinancialTransactionType
  pub reference_id : ℕ
  pub currency : String
  pub amount_minor : ℤ
  pub idempotency_key : LedgerKey
  pub entries : List LedgerEntry

pub record LedgerInput : Type 0 where
  pub type : FinancialTransactionType
  pub reference_id : ℕ
  pub currency : String
  pub idempotency_key : LedgerKey
  pub entries : List (String × EntryType × ℤ)

unfoldable pub find_transaction :
    LedgerKey → List FinancialTransaction → Option FinancialTransaction
find_transaction key [] = none
find_transaction key (t ∷ ts) =
    if same LedgerKey-discrete t.idempotency_key key then some t else find_transaction key ts

unfoldable pub sum_debits : List LedgerEntry → ℤ
sum_debits [] = pos 0
sum_debits (e ∷ es) =
    if is_debit e.entry_type then e.amount_minor +ℤ sum_debits es else sum_debits es

-- The entries that are posted: those above zero, in the currency of the input.
abbrev pub posted_entries : LedgerInput → List LedgerEntry
posted_entries input = keep is_positive (map entry input.entries)
  where
    entry : String × EntryType × ℤ → LedgerEntry
    entry (account, entry_type, amount_minor) = record {
      account = account;
      entry_type = entry_type;
      amount_minor = amount_minor;
      currency = input.currency;
    }

abbrev pub transaction_of : LedgerInput → FinancialTransaction
transaction_of input = record {
  type = input.type;
  reference_id = input.reference_id;
  currency = input.currency;
  amount_minor = sum_debits (posted_entries input);
  idempotency_key = input.idempotency_key;
  entries = posted_entries input;
}

-- The table of transactions afterwards, and the transaction that is returned.
unfoldable pub ledger_post :
    List FinancialTransaction
    → LedgerInput
    → Result PaymentError (FinancialTransaction × List FinancialTransaction)
unfolding assert_balanced_ledger find_transaction
ledger_post table input = elim (find_transaction input.idempotency_key table) [
  | some existing ↦ ok (existing, table)
  | none ↦ do
    assert_balanced_ledger (posted_entries input)
    ok (transaction_of input, transaction_of input ∷ table)
]
