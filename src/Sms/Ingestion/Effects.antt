-- ===== src/Sms/Ingestion/Effects.antt =====
-- What one run leaves of the orders, the numbers, the earnings and the ledger.
use mathlib.Core.Path.{subst}
use kirimkode_partner.Base.{
  ℕ, ◌≤◌, ◌≡◌, refl, ap, sym, ◌∙◌, Bool, true, false, ◌||◌, Option, none, some, List, [], ◌∷◌, ◌++◌,
  map, any, arith, inl, inr, Bool-cases, Result, ok, bind_returns,
}
use kirimkode_partner.Number.{num, max_safe}
use kirimkode_partner.Text.{Text, eq_text, eq_text_iff}
use kirimkode_partner.Ledger.{LedgerTransaction}
use kirimkode_partner.Earning.{EarningState, EarningStatus, CreateEarningInput}
use kirimkode_partner.Earning.Lifecycle.{success_transfer}
use kirimkode_partner.Order.Status.{OrderStatus, NumberStatus, eq_order_iff}
use kirimkode_partner.Order.Listening.{is_null}
use kirimkode_partner.Order.Transition.{DecisionBase}
use kirimkode_partner.Sms.Rows.{
  OrderRow, NumberRow, SmsStore, Platform, IngestSmsInput, IngestError,
}
use kirimkode_partner.Sms.Gateway.{
  update_row, contended, mark_sms_matched, awaits_success, succeeded_row, insert_earning,
  insert_transaction, insert_key, release_number, apply_success, payout_of,
}
use kirimkode_partner.Sms.Ingestion.Creates.{Creates}

pub same_value {ℓ} : {A : Type ℓ} (a b : A) → ◌≡◌ {A = Result IngestError A} (ok a) (ok b) → a ≡ b
same_value a b h = cc

-- What the books say of an order.
abbrev pub order_key : OrderRow → Text × OrderStatus
order_key o = (o.id, o.status)

-- One row was updated.
pub record Updates {ℓ} {A : Type ℓ} (p : A → Bool) (f : A → A) (xs ys : List A) : Type ℓ where
  pub before : List A
  pub row : A
  pub after : List A
  pub place : xs ≡ before ++ (row ∷ after)
  pub updated : ys ≡ before ++ (f row ∷ after)
  pub test : p row ≡ true

abbrev Updated {ℓ} :
    {A : Type ℓ} (p : A → Bool) (f : A → A) (xs : List A) → Option (List A) → Type ℓ
Updated p f xs none = Unit
Updated p f xs (some ys) = Updates p f xs ys

module _ {ℓ} {A : Type ℓ} (p : A → Bool) (f : A → A) where
  behind-Updated :
      (x : A) (xs : List A) (o : Option (List A))
      → Updated p f xs o
      → Updated p f (x ∷ xs) (elim o [ none ↦ none | some ys ↦ some (x ∷ ys) ])
  behind-Updated x xs none u = tt
  behind-Updated x xs (some ys) u = record {
    before = x ∷ u.before;
    row = u.row;
    after = u.after;
    place = ap (λ z. x ∷ z) u.place;
    updated = ap (λ z. x ∷ z) u.updated;
    test = u.test;
  }

  update_row-Updated : (xs : List A) → Updated p f xs (update_row p f xs)
  unfolding update_row
  update_row-Updated [] = tt
  update_row-Updated (x ∷ xs) = elim (Bool-cases (p x)) [
    | inl h ↦
        rw h (record { before = []; row = x; after = xs; place = refl; updated = refl; test = h })
    | inr h ↦ rw h (behind-Updated x xs (update_row p f xs) (update_row-Updated xs))
  ]

  taken-Updates :
      (xs ys : List A) (o : Option (List A))
      → Updated p f xs o
      → contended o ≡ ok ys
      → Updates p f xs ys
  taken-Updates xs ys none u e = cc
  taken-Updates xs ys (some zs) u e = subst (Updates p f xs) (same_value zs ys e) u

  pub contended-Updates :
      (xs ys : List A) → contended (update_row p f xs) ≡ ok ys → Updates p f xs ys
  contended-Updates xs ys e = taken-Updates xs ys (update_row p f xs) (update_row-Updated xs) e

-- No change of an order's status, an earning, the ledger or a number.
pub record KeepsRows (os : List OrderRow) (es : List EarningState) (ts : List LedgerTransaction)
    (ns : List NumberRow) (s' : SmsStore) : Type 0 where
  pub orders : map order_key s'.orders ≡ map order_key os
  pub earnings : s'.earnings ≡ es
  pub ledger : s'.ledger ≡ ts
  pub numbers : s'.numbers ≡ ns

abbrev pub Keeps : SmsStore → SmsStore → Type 0
Keeps s s' = KeepsRows s.orders s.earnings s.ledger s.numbers s'

-- The order succeeds, with the one earning of its snapshot's payout and the transaction of that earning;
-- the number stays with the order.
pub record PaysRows (platform : Platform) (i : IngestSmsInput) (order_id : Text)
    (os : List OrderRow) (es : List EarningState) (ts : List LedgerTransaction)
    (ns : List NumberRow) (s' : SmsStore) : Type 0 where
  pub before : List OrderRow
  pub order : OrderRow
  pub after : List OrderRow
  pub succeeded : OrderRow
  pub place : os ≡ before ++ (order ∷ after)
  pub updated : s'.orders ≡ before ++ (succeeded ∷ after)
  pub id : (order.id ≡ order_id) × (succeeded.id ≡ order_id)
  pub waits : (order.status ≡ OrderStatus.waiting_sms) × (order.otp ≡ none)
  pub success : succeeded.status ≡ OrderStatus.success
  pub amount : ℕ
  pub payout : payout_of (platform.snapshot_of order_id) ≡ num amount
  pub positive : 1 ≤ amount
  pub safe : amount ≤ max_safe
  pub earning : EarningState
  pub fresh : any (λ e. eq_text e.order_id order_id) es ≡ false
  pub named : earning.id ≡ i.earning_id
  pub new : any (λ e. eq_text e.id i.earning_id) es ≡ false
  pub earned :
      (earning.order_id ≡ order_id)
      × (earning.amount_idr ≡ num amount)
      × (earning.status ≡ EarningStatus.pending)
  pub earnings : s'.earnings ≡ earning ∷ es
  pub ledger : s'.ledger ≡ success_transfer order_id amount ∷ ts
  pub numbers : s'.numbers ≡ ns

abbrev pub Pays : Platform → IngestSmsInput → Text → SmsStore → SmsStore → Type 0
Pays platform i order_id s s' =
    PaysRows platform i order_id s.orders s.earnings s.ledger s.numbers s'

any-first :
    {A : Type 0} (p q : A → Bool) (xs : List A)
    → any (λ x. p x || q x) xs ≡ false
    → any p xs ≡ false
any-first p q [] h = refl
any-first p q (x ∷ xs) h = ground (arith, h, any-first p q xs)

any-second :
    {A : Type 0} (p q : A → Bool) (xs : List A)
    → any (λ x. p x || q x) xs ≡ false
    → any q xs ≡ false
any-second p q [] h = refl
any-second p q (x ∷ xs) h = ground (arith, h, any-second p q xs)

insert_earning_once :
    (e : EarningState) (es es' : List EarningState)
    → insert_earning e es ≡ ok es'
    → (any (λ x. eq_text x.id e.id) es ≡ false)
      × (any (λ x. eq_text x.order_id e.order_id) es ≡ false)
      × (es' ≡ e ∷ es)
unfolding insert_earning
insert_earning_once e es es' h =
    elim (Bool-cases (any (λ x. eq_text x.id e.id || eq_text x.order_id e.order_id) es)) [
      | inl y ↦ absurd (ground (arith, y, h))
      | inr n ↦ (
        any-first (λ x. eq_text x.id e.id) (λ x. eq_text x.order_id e.order_id) es n,
        any-second (λ x. eq_text x.id e.id) (λ x. eq_text x.order_id e.order_id) es n,
        ground (arith, n, h),
      )
    ]

insert_transaction_once :
    (t : LedgerTransaction) (ts ts' : List LedgerTransaction)
    → insert_transaction t ts ≡ ok ts'
    → ts' ≡ t ∷ ts
unfolding insert_transaction
insert_transaction_once t ts ts' h =
    elim (Bool-cases (any (λ x. eq_text x.event_key t.event_key) ts)) [
      | inl y ↦ absurd (ground (arith, y, h))
      | inr n ↦ ground (arith, n, h)
    ]

module _ (platform : Platform) (i : IngestSmsInput) (otp : Text) (seen : OrderRow) where
  kept_number :
      (changed : Bool) (from to : NumberStatus) (ns ns' : List NumberRow)
      → changed ≡ false
      → release_number changed seen from to ns ≡ ok ns'
      → ns' ≡ ns
  unfolding release_number
  kept_number true from to ns ns' c h = absurd (ground (arith, c))
  kept_number false from to ns ns' c h = ground (arith, h)

  written-Pays :
      (input : CreateEarningInput) (e : EarningState) (t : LedgerTransaction) (s s' : SmsStore)
      → Updates
          (awaits_success seen)
          (succeeded_row (platform.encrypt_otp otp) i.now)
          s.orders
          s'.orders
      → (any (λ x. eq_text x.id e.id) s.earnings ≡ false)
        × (any (λ x. eq_text x.order_id e.order_id) s.earnings ≡ false)
        × (s'.earnings ≡ e ∷ s.earnings)
      → s'.ledger ≡ t ∷ s.ledger
      → s'.numbers ≡ s.numbers
      → Creates input e t
      → input.earning_id ≡ i.earning_id
      → input.order_id ≡ seen.id
      → input.payout_idr ≡ payout_of (platform.snapshot_of seen.id)
      → Pays platform i seen.id s s'
  written-Pays input e t s s' u (new, fresh, es) l n d m o p = record {
    before = u.before;
    order = u.row;
    after = u.after;
    succeeded = succeeded_row (platform.encrypt_otp otp) i.now u.row;
    place = u.place;
    updated = u.updated;
    id = (same_id u.row u.test, same_id u.row u.test);
    waits = waits_of u.row u.test;
    success = refl;
    amount = d.amount;
    payout = sym p ∙ d.payout;
    positive = d.positive;
    safe = d.safe;
    earning = e;
    named = d.named ∙ m;
    new = subst (λ z. any (λ x. eq_text x.id z) s.earnings ≡ false) (d.named ∙ m) new;
    fresh = subst (λ z. any (λ x. eq_text x.order_id z) s.earnings ≡ false) (d.order ∙ o) fresh;
    earned = (d.order ∙ o, d.earned, d.status);
    earnings = es;
    ledger = l ∙ ap (λ z. z ∷ s.ledger) (d.moved ∙ ap (λ z. success_transfer z d.amount) o);
    numbers = n;
  }
    where
      same_id : (o : OrderRow) → awaits_success seen o ≡ true → o.id ≡ seen.id
      same_id o h = ground (arith, eq_text_iff o.id seen.id, h)

      none_of : (x : Option Text) → is_null x ≡ true → x ≡ none
      none_of none h = refl
      none_of (some y) h = cc

      waits_of :
          (o : OrderRow)
          → awaits_success seen o ≡ true
          → (o.status ≡ OrderStatus.waiting_sms) × (o.otp ≡ none)
      waits_of o h = (
        ground (arith, eq_order_iff o.status OrderStatus.waiting_sms, h),
        none_of o.otp (ground (arith, h)),
      )

  pub apply_success-Pays :
      (from : NumberStatus) (base : DecisionBase) (changed : Bool) (input : CreateEarningInput)
      (earning : EarningState) (transaction : LedgerTransaction) (s s' : SmsStore)
      → changed ≡ false
      → Creates input earning transaction
      → input.earning_id ≡ i.earning_id
      → input.order_id ≡ seen.id
      → input.payout_idr ≡ payout_of (platform.snapshot_of seen.id)
      → apply_success platform i otp seen from base changed earning transaction s ≡ ok s'
      → Pays platform i seen.id s s'
  unfolding apply_success
  apply_success-Pays from base changed input earning transaction s s' c d m o p h =
      let (orders, e1, h1) =
        bind_returns
          (contended (
            update_row (awaits_success seen) (succeeded_row (platform.encrypt_otp otp) i.now)
              s.orders))
          _ h in
      let (keys, e2, h2) = bind_returns (insert_key base.operation_key s.transitions) _ h1 in
      let (sms, e3, h3) =
        bind_returns (contended (mark_sms_matched i.sms_id seen.id i.now s.sms)) _ h2 in
      let (es, e4, h4) = bind_returns (insert_earning earning s.earnings) _ h3 in
      let (ts, e5, h5) = bind_returns (insert_transaction transaction s.ledger) _ h4 in
      let (ns, e6, h6) =
        bind_returns (release_number changed seen from base.next_number_status s.numbers) _ h5 in
      subst (Pays platform i seen.id s) (same_value _ s' h6) (
        written-Pays input earning transaction s _
          (contended-Updates (awaits_success seen) (succeeded_row (platform.encrypt_otp otp) i.now)
            s.orders orders e1)
          (insert_earning_once earning s.earnings es e4)
          (insert_transaction_once transaction s.ledger ts e5)
          (kept_number changed from base.next_number_status s.numbers ns c e6) d m o p)
