-- ===== src/Payments/Payouts.antt =====
-- The payouts of drivers: POST /admin/finance/payouts and POST /admin/finance/payouts/:payoutId/status
-- of apps/api/src/main.ts, and the release of earnings in the finance job of apps/worker/src/main.ts.
-- Every currency is UZS. Reasons, times of payment and the audit are left out. An `err` rolls the
-- transaction back.
pub mod Payable
pub mod Stranded
pub mod Funding
use nodex_v.Prelude.{
  ℕ, suc, ◌==◌, leb, Bool, true, false, not, ◌&&◌, List, [], ◌∷◌, ◌++◌, Option, none, some, any,
  map, keep, length, Result, ok, err, ◌>>=◌, ◌>>◌, throw_if, if◌then◌else◌,
}
use nodex_v.Prelude.Int.{ℤ, pos, ◌+ℤ◌}
use nodex_v.Payments.Money.{PaymentError}
use nodex_v.Payments.Ledger.{
  FinancialTransaction, FinancialTransactionType, LedgerInput, debit, credit, payout_paid,
  ledger_post,
}

pub data EarningStatus : Type 0 where
  pending available paid reversed on_hold : EarningStatus

pub data PayoutStatus : Type 0 where
  draft ready processing paid failed cancelled on_hold : PayoutStatus

pub data PayoutError : Type 0 where
  duplicate_earning_selected earning_not_payable record_not_found : PayoutError
  ledger_error : PaymentError → PayoutError

pub record Earning : Type 0 where
  pub id : ℕ
  pub driver_profile_id : ℕ
  pub payout_id : Option ℕ
  pub status : EarningStatus
  pub net_minor : ℤ
  pub available_at : ℕ

-- `items` are the ids and amounts of the DriverPayoutItem rows.
pub record Payout : Type 0 where
  pub id : ℕ
  pub driver_profile_id : ℕ
  pub status : PayoutStatus
  pub gross_minor : ℤ
  pub items : List (ℕ × ℤ)

pub record PayoutStore : Type 0 where
  pub earnings : List Earning
  pub payouts : List Payout
  pub ledger : List FinancialTransaction
  pub next_id : ℕ

-- `{ in: ids }`.
abbrev pub among : List ℕ → ℕ → Bool
among ids id = any (λ i. i == id) ids

-- `[...new Set(ids)]`.
unfoldable pub unique : List ℕ → List ℕ
unique [] = []
unique (id ∷ ids) = id ∷ keep (λ i. not (i == id)) (unique ids)

abbrev pub is_available : EarningStatus → Bool
is_available EarningStatus.available = true
is_available _ = false

abbrev pub is_null : Option ℕ → Bool
is_null none = true
is_null (some id) = false

-- The rows that the lock is for, and those that may be locked.
abbrev pub is_selected : ℕ → List ℕ → Earning → Bool
is_selected driver ids e = among ids e.id && e.driver_profile_id == driver

abbrev pub is_payable : ℕ → List ℕ → Earning → Bool
is_payable driver ids e =
    among ids e.id
    && (e.driver_profile_id == driver && (is_available e.status && is_null e.payout_id))

abbrev pub lock : ℕ → List ℕ → Earning → Earning
lock driver ids e =
    if is_payable driver ids e then record e { status = EarningStatus.on_hold } else e

-- `reduce((sum, earning) => sum + earning.netMinor, 0n)`.
unfoldable pub sum_net : List Earning → ℤ
sum_net [] = pos 0
sum_net (e ∷ es) = e.net_minor +ℤ sum_net es

abbrev pub assign : ℕ → List ℕ → Earning → Earning
assign payout ids e = if among ids e.id then record e { payout_id = some payout } else e

-- The writes after the lock has counted as many rows as were asked for.
unfoldable pub write_payout : ℕ → List ℕ → PayoutStore → PayoutStore
unfolding sum_net
write_payout driver ids s =
    let locked = map (lock driver ids) s.earnings in
    let chosen = keep (is_selected driver ids) locked in
    record s {
      earnings = map (assign s.next_id (map (λ e. e.id) chosen)) locked;
      payouts =
          record {
            id = s.next_id;
            driver_profile_id = driver;
            status = PayoutStatus.ready;
            gross_minor = sum_net chosen;
            items = map (λ e. (e.id, e.net_minor)) chosen;
          }
          ∷ s.payouts;
      next_id = suc s.next_id;
    }

unfoldable pub create_payout : ℕ → List ℕ → PayoutStore → Result PayoutError PayoutStore
unfolding unique write_payout
create_payout driver ids s = do
  throw_if (not (length (unique ids) == length ids)) duplicate_earning_selected
  throw_if (not (length (keep (is_payable driver (unique ids)) s.earnings) == length (unique ids)))
      earning_not_payable
  ok (write_payout driver (unique ids) s)

-- What the schema of the route allows.
pub data RequestedStatus : Type 0 where
  paid failed cancelled on_hold : RequestedStatus

abbrev pub is_of_payout : ℕ → Option ℕ → Bool
is_of_payout id none = false
is_of_payout id (some p) = p == id

unfoldable pub find_payout : ℕ → List Payout → Option Payout
find_payout id [] = none
find_payout id (p ∷ ps) = let rest = find_payout id ps in if p.id == id then some p else rest

abbrev pub payout_posting : Payout → LedgerInput
payout_posting p = record {
  type = FinancialTransactionType.payout;
  reference_id = p.id;
  currency = "UZS";
  idempotency_key = payout_paid p.id;
  entries =
      ("driver_earnings_payable", debit, p.gross_minor)
      ∷ ("cash_or_bank", credit, p.gross_minor)
      ∷ [];
}

abbrev pub pay : ℕ → Earning → Earning
pay id e = if is_of_payout id e.payout_id then record e { status = EarningStatus.paid } else e

abbrev pub mark_payout : ℕ → PayoutStatus → Payout → Payout
mark_payout id status p = if p.id == id then record p { status = status } else p

abbrev pub posted :
    Result PaymentError (FinancialTransaction × List FinancialTransaction)
    → PayoutStore
    → Result PayoutError PayoutStore
posted (ok (transaction, ledger)) s = ok (record s { ledger = ledger })
posted (err e) s = err (ledger_error e)

-- The writes to the payout `p`, which was found under `id`.
unfoldable pub write_status :
    ℕ → Payout → RequestedStatus → PayoutStore → Result PayoutError PayoutStore
unfolding ledger_post
write_status id p RequestedStatus.paid s =
    posted (ledger_post s.ledger (payout_posting p)) (record s {
      earnings = map (pay id) s.earnings;
      payouts = map (mark_payout id PayoutStatus.paid) s.payouts;
    })
write_status id p RequestedStatus.failed s =
    ok (record s { payouts = map (mark_payout id PayoutStatus.failed) s.payouts })
write_status id p RequestedStatus.cancelled s =
    ok (record s { payouts = map (mark_payout id PayoutStatus.cancelled) s.payouts })
write_status id p RequestedStatus.on_hold s =
    ok (record s { payouts = map (mark_payout id PayoutStatus.on_hold) s.payouts })

unfoldable pub set_payout_status :
    ℕ → RequestedStatus → PayoutStore → Result PayoutError PayoutStore
unfolding find_payout write_status
set_payout_status id status s = elim (find_payout id s.payouts) [
  | none ↦ err record_not_found
  | some p ↦ write_status id p status s
]

abbrev pub is_pending : EarningStatus → Bool
is_pending EarningStatus.pending = true
is_pending _ = false

abbrev pub release_earning : ℕ → Earning → Earning
release_earning now e =
    if is_pending e.status && leb e.available_at now
    then record e { status = EarningStatus.available }
    else e

-- The worker's `updateMany({ where: { status: PENDING, availableAt: { lte: now } } })`.
unfoldable pub release_earnings : ℕ → PayoutStore → PayoutStore
release_earnings now s = record s { earnings = map (release_earning now) s.earnings }
