-- ===== src/Payments/Settlement/Split.antt =====
-- What a payment is split into, and what a second notice of it changes.
use nodex_v.Prelude.{
  ℕ, zero, suc, ◌+◌, ◌*◌, ◌≤◌, ◌<◌, ◌-◌, ◌≡◌, refl, sym, subst, ap, ◌∙◌, arith, true, false, List,
  [], ◌∷◌, String, Option, none, Bool-cases, inl, inr, Result, ok, >>=-ok,
}
use nodex_v.Prelude.Int.{ℤ, pos, ◌+ℤ◌, ◌-ℤ◌, ltb_ℤ}
use nodex_v.Payments.Money.{PaymentError, money, assert_currency}
use nodex_v.Payments.Pricing.{PricingResult, integer, calculate_pricing, calculate_bps}
use nodex_v.Payments.Pricing.Laws.{calculate_bps_ceiling}
use nodex_v.Payments.Ledger.{
  FinancialTransaction, find_transaction, payment_success, posted_entries, transaction_of,
  assert_balanced_ledger, ledger_post, LedgerEntry, EntryType, debit, credit, sum_debits,
}
use nodex_v.Payments.Ledger.Balance.{IsBalanced, assert_balanced_ledger_iff, sum_credits}
use nodex_v.Payments.Status.{PaymentStatus, PaymentStatus-discrete, transition_payment_status}
use nodex_v.Payments.Settlement.{
  PaymentRow, SettlementStore, is_paid, settlement_pricing, capped_fee, payment_account,
  settlement_posting, settled_rows, mark_payment_succeeded,
}

settled_is_paid :
    (driver : Option ℕ) (fee net : ℤ) (ledger : List FinancialTransaction) (s t : SettlementStore)
    → ◌≡◌ {A = Result PaymentError SettlementStore}
        (ok (settled_rows driver fee net ledger s))
        (ok t)
    → is_paid t.payment.status ≡ true
unfolding settled_rows PaymentStatus-discrete
settled_is_paid driver fee net ledger s t e =
    let status : PaymentStatus.succeeded ≡ t.payment.status = ground arith in rw (sym status) refl

-- A notice for a payment that was marked before changes nothing, whoever the driver is.
pub mark_payment_succeeded_twice :
    (driver driver' : Option ℕ) (s t : SettlementStore)
    → mark_payment_succeeded driver s ≡ ok t
    → mark_payment_succeeded driver' t ≡ ok t
unfolding mark_payment_succeeded
mark_payment_succeeded_twice driver driver' s t e = elim (Bool-cases (is_paid s.payment.status)) [
  | inl paid ↦
      let same : s ≡ t = ground arith in rw (sym same) (rw (paid, mark_payment_succeeded) refl)
  | inr unpaid ↦
      let (n, e1, e2) =
        >>=-ok (transition_payment_status s.payment.status PaymentStatus.succeeded) _
          (rw (unpaid, mark_payment_succeeded) at e) in
      let (p, e3, e4) = >>=-ok (calculate_pricing (settlement_pricing s.payment)) _ e2 in
      let (l, e5, e6) =
        >>=-ok
          (ledger_post s.ledger (
            settlement_posting s.payment (capped_fee s.payment p.fee_minor)
              (s.payment.amount_minor -ℤ capped_fee s.payment p.fee_minor)))
          _ e4 in
      let paid : is_paid t.payment.status ≡ true = settled_is_paid driver _ _ l.1 s t e6 in
      rw (paid, mark_payment_succeeded) refl
]

+_zero : (n : ℕ) → n + 0 ≡ n
+_zero n = omega arith

not_below : (n : ℕ) → ltb_ℤ (pos n) (pos 0) ≡ false
not_below n = ground arith

is_above : (n : ℕ) → 0 < n → ltb_ℤ (pos 0) (pos n) ≡ true
is_above n p = ground arith

-- The entries of a posting that has something for the driver, and of one that has not.
abbrev posted_with : PaymentRow → ℕ → ℕ → List LedgerEntry
posted_with payment fee net =
    entry (payment_account payment.method) debit (fee + net)
    ∷ entry "platform_fee_revenue" credit fee
    ∷ entry "driver_earnings_payable" credit net
    ∷ []
  where
    entry : String → EntryType → ℕ → LedgerEntry
    entry account entry_type amount = record {
      account = account;
      entry_type = entry_type;
      amount_minor = pos amount;
      currency = "UZS";
    }

abbrev posted_without : PaymentRow → ℕ → List LedgerEntry
posted_without payment fee =
    entry (payment_account payment.method) debit ∷ entry "platform_fee_revenue" credit ∷ []
  where
    entry : String → EntryType → LedgerEntry
    entry account entry_type = record {
      account = account;
      entry_type = entry_type;
      amount_minor = pos fee;
      currency = "UZS";
    }

with-IsBalanced :
    (payment : PaymentRow) (fee net : ℕ)
    → 0 < fee
    → 0 < net
    → IsBalanced (posted_with payment fee net)
unfolding ◌+ℤ◌ sum_debits sum_credits
with-IsBalanced payment fee net p q = (
  ground arith,
  (λ e. cc e),
  ground (arith, is_above (fee + net) (omega arith), is_above fee p, is_above net q),
  ground arith,
)

without-IsBalanced :
    (payment : PaymentRow) (fee : ℕ) → 0 < fee → IsBalanced (posted_without payment fee)
unfolding ◌+ℤ◌ sum_debits sum_credits
without-IsBalanced payment fee p =
    (ground arith, (λ e. cc e), ground (arith, is_above fee p), ground arith)

-- The posting of a payment of `fee` and `net` is balanced.
posting_balanced :
    (payment : PaymentRow) (fee net : ℕ)
    → payment.currency ≡ "UZS"
    → payment.amount_minor ≡ pos (fee + net)
    → 0 < fee
    → assert_balanced_ledger (posted_entries (settlement_posting payment (pos fee) (pos net)))
      ≡ ok tt
posting_balanced payment fee zero c a p =
    subst (λ es. assert_balanced_ledger es ≡ ok tt)
      (sym (rw (a ∙ ap pos (+_zero fee), c) (ground (arith, is_above fee p))))
      ((assert_balanced_ledger_iff _).1 (without-IsBalanced payment fee p))
posting_balanced payment fee (suc net) c a p =
    subst (λ es. assert_balanced_ledger es ≡ ok tt)
      (sym (rw (a, c) (ground (arith, is_above (fee + suc net) (omega arith), is_above fee p))))
      ((assert_balanced_ledger_iff _).1 (with-IsBalanced payment fee (suc net) p (omega arith)))

add_pos : (a b : ℕ) → pos a +ℤ pos b ≡ pos (a + b)
unfolding ◌+ℤ◌
add_pos a b = ground arith

pub pricing_of :
    (payment : PaymentRow) (amount fee : ℕ)
    → payment.currency ≡ "UZS"
    → payment.amount_minor ≡ pos amount
    → calculate_bps (pos amount) (integer (pos 1000)) ≡ ok (pos fee)
    → calculate_pricing (settlement_pricing payment)
      ≡ ok (record {
        subtotal_minor = pos amount;
        fee_minor = pos fee;
        total_minor = pos (amount + fee);
        currency = "UZS";
      })
unfolding calculate_pricing money assert_currency
pricing_of payment amount fee c a e =
    rw (a, c, not_below amount, e, add_pos fee 0, +_zero fee, add_pos amount fee) refl

net_amount :
    (x : ℤ) (amount fee net : ℕ) → x ≡ pos amount → fee + net ≡ amount → x -ℤ pos fee ≡ pos net
unfolding ◌-ℤ◌
net_amount x amount fee net a total = ground arith

-- With a balanced posting the payment is settled with these two amounts.
abbrev Settles : Option ℕ → SettlementStore → ℤ → ℤ → Type 0
Settles driver s fee net =
    assert_balanced_ledger (posted_entries (settlement_posting s.payment fee net)) ≡ ok tt
    → mark_payment_succeeded driver s
      ≡ ok (
          settled_rows driver fee net
            (transaction_of (settlement_posting s.payment fee net) ∷ s.ledger) s)

marked-Settles :
    (driver : Option ℕ) (s : SettlementStore) (p : PricingResult)
    → is_paid s.payment.status ≡ false
    → transition_payment_status s.payment.status PaymentStatus.succeeded
      ≡ ok PaymentStatus.succeeded
    → calculate_pricing (settlement_pricing s.payment) ≡ ok p
    → find_transaction (payment_success s.payment.id) s.ledger ≡ none
    → Settles driver s
        (capped_fee s.payment p.fee_minor)
        (s.payment.amount_minor -ℤ capped_fee s.payment p.fee_minor)
unfolding mark_payment_succeeded ledger_post
marked-Settles driver s p unpaid allowed priced new balanced =
    rw (unpaid, allowed, priced, new, balanced, mark_payment_succeeded, ledger_post) refl

-- A payment in UZS of more than nothing that may succeed and has no posting yet does succeed: a tenth
-- of it, rounded up, is the fee, the rest is net, and a balanced posting of the two is added to the
-- ledger.
pub mark_payment_succeeded_split :
    (driver : Option ℕ) (s : SettlementStore) (amount : ℕ)
    → s.payment.currency ≡ "UZS"
    → s.payment.amount_minor ≡ pos amount
    → 0 < amount
    → is_paid s.payment.status ≡ false
    → transition_payment_status s.payment.status PaymentStatus.succeeded
      ≡ ok PaymentStatus.succeeded
    → find_transaction (payment_success s.payment.id) s.ledger ≡ none
    → (fee : ℕ) × (net : ℕ) × (fee + net ≡ amount)
      × (amount ≤ fee * 10)
      × (fee * 10 < amount + 10)
      × (assert_balanced_ledger (posted_entries (settlement_posting s.payment (pos fee) (pos net)))
          ≡ ok tt)
      × (mark_payment_succeeded driver s
          ≡ ok (
              settled_rows driver
                (pos fee)
                (pos net)
                (transaction_of (settlement_posting s.payment (pos fee) (pos net)) ∷ s.ledger)
                s))
mark_payment_succeeded_split driver s amount c a positive unpaid allowed new =
    let (fee, e, least, most) = calculate_bps_ceiling amount 1000 in
    let le : fee ≤ amount = omega arith in
    let net = amount - fee in
    let total : fee + net ≡ amount = omega arith in
    let balanced = posting_balanced s.payment fee net c (a ∙ ap pos (sym total)) (omega arith) in
    let capped : capped_fee s.payment (pos fee) ≡ pos fee = rw a (ground arith) in
    let netted : s.payment.amount_minor -ℤ pos fee ≡ pos net =
      net_amount s.payment.amount_minor amount fee net a total in
    (
      fee,
      net,
      total,
      omega arith,
      omega arith,
      balanced,
      subst (λ n. Settles driver s (pos fee) n) netted
          (subst (λ f. Settles driver s f (s.payment.amount_minor -ℤ f)) capped
            (marked-Settles driver s _ unpaid allowed (pricing_of s.payment amount fee c a e) new))
          balanced,
    )
