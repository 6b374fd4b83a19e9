-- ===== src/Sms/Ingestion/Runs.antt =====
-- Runs of the ingestion among the other services: every order is paid for once.
use mathlib.Core.Path.{subst}
use mathlib.Core.List.{append_assoc}
use kirimkode_partner.Base.{
  ℕ, suc, ◌≡◌, refl, ap, sym, ◌∙◌, Bool, true, false, List, [], ◌∷◌, ◌++◌, map, any, arith, inl,
  inr, if◌then◌else◌, Bool-cases, All, All-map, All-append, All-parts, ok,
}
use kirimkode_partner.Number.{Number, num}
use kirimkode_partner.Text.{Text, eq_text, eq_text_iff, eq_text_refl}
use kirimkode_partner.Ledger.{LedgerTransaction}
use kirimkode_partner.Earning.{EarningState}
use kirimkode_partner.Earning.Lifecycle.{success_transfer}
use kirimkode_partner.Order.Status.{OrderStatus, eq_order}
use kirimkode_partner.Sms.{first, repeat}
use kirimkode_partner.Sms.Rows.{OrderRow, SmsStore, Platform, IngestSmsInput, SmsIngestionResult}
use kirimkode_partner.Sms.Gateway.{payout_of}
use kirimkode_partner.Sms.Ingestion.{run_ingest}
use kirimkode_partner.Sms.Ingestion.Effects.{order_key, Keeps, Pays}
use kirimkode_partner.Sms.Ingestion.Unpaid.{Effect, map-append}
use kirimkode_partner.Sms.Ingestion.Stages.{run_ingest-Effect}

abbrev pub success_key : OrderRow → Text × Bool
success_key o = (o.id, eq_order o.status OrderStatus.success)

abbrev pub earning_key : EarningState → Text × Number
earning_key e = (e.order_id, e.amount_idr)

-- How many earnings an order has.
abbrev pub count_for : Text → List (Text × Number) → ℕ
count_for id [] = 0
count_for id (e ∷ es) = let rest = count_for id es in if eq_text e.0 id then suc rest else rest

-- An order has one earning if it is successful, and none otherwise.
abbrev pub IsPaidOnce : List (Text × Number) → Text × Bool → Type 0
IsPaidOnce es o = count_for o.0 es ≡ (if o.1 then 1 else 0)

-- The earning is of the payout of its order's snapshot, and its transaction stands in the ledger.
abbrev pub IsBacked : Platform → List LedgerTransaction → Text × Number → Type 0
IsBacked platform ts e =
    (amount : ℕ) × (before : List LedgerTransaction) × (after : List LedgerTransaction) × (e.1
      ≡ num amount)
    × (e.1 ≡ payout_of (platform.snapshot_of e.0))
    × (ts ≡ before ++ (success_transfer e.0 amount ∷ after))

abbrev pub AreDifferent : List (Text × Bool) → Type 0
AreDifferent [] = Unit
AreDifferent (o ∷ os) = All (λ p. eq_text o.0 p.0 ≡ false) os × AreDifferent os

-- The orders have different ids, each is paid for exactly if it is successful, and only once, and every
-- earning is backed.
pub record IsAccounted (platform : Platform) (s : SmsStore) : Type 0 where
  pub different : AreDifferent (map success_key s.orders)
  pub once : All (IsPaidOnce (map earning_key s.earnings)) (map success_key s.orders)
  pub backed : All (IsBacked platform s.ledger) (map earning_key s.earnings)

eq_text_sym : (s t : Text) → eq_text s t ≡ false → eq_text t s ≡ false
eq_text_sym s t h = elim (Bool-cases (eq_text t s)) [
  | inl y ↦ absurd (ground (arith, h, (eq_text_iff s t).1 (sym ((eq_text_iff t s).0 y))))
  | inr n ↦ n
]

none_counted :
    (id : Text) (es : List EarningState)
    → any (λ e. eq_text e.order_id id) es ≡ false
    → count_for id (map earning_key es) ≡ 0
none_counted id [] h = refl
none_counted id (e ∷ es) h = ground (arith, h, none_counted id es)

-- A new earning of another order leaves the count.
still_once :
    (id : Text) (amount : Number) (es : List (Text × Number)) (o : Text × Bool)
    → eq_text id o.0 ≡ false
    → IsPaidOnce es o
    → IsPaidOnce ((id, amount) ∷ es) o
still_once id amount es o h p = rw h p

-- The order in the middle becomes successful with a new earning.
module _ (id : Text) (amount : Number) (es : List (Text × Number)) where
  others_once :
      (os : List (Text × Bool))
      → All (λ o. eq_text id o.0 ≡ false) os
      → All (IsPaidOnce es) os
      → All (IsPaidOnce ((id, amount) ∷ es)) os
  others_once [] d p = tt
  others_once (o ∷ os) d p = (still_once id amount es o d.0 p.0, others_once os d.1 p.1)

  paid_middle :
      (before after : List (Text × Bool))
      → count_for id es ≡ 0
      → AreDifferent (before ++ ((id, false) ∷ after))
      → All (IsPaidOnce es) (before ++ ((id, false) ∷ after))
      → All (IsPaidOnce ((id, amount) ∷ es)) (before ++ ((id, true) ∷ after))
  paid_middle [] after c d p = (ground (arith, c, eq_text_refl id), others_once after d.0 p.1)
  paid_middle (o ∷ before) after c d p = (
    still_once id amount es o
        (eq_text_sym o.0 id
          (All-parts (λ p. eq_text o.0 p.0 ≡ false) before ((id, false) ∷ after) d.0).1.0)
        p.0,
    paid_middle before after c d.1 p.1,
  )

  different_middle :
      (before after : List (Text × Bool))
      → AreDifferent (before ++ ((id, false) ∷ after))
      → AreDifferent (before ++ ((id, true) ∷ after))
  different_middle [] after d = d
  different_middle (o ∷ before) after d =
      let (b, a) = All-parts (λ p. eq_text o.0 p.0 ≡ false) before ((id, false) ∷ after) d.0 in
      (
        All-append (λ p. eq_text o.0 p.0 ≡ false) before ((id, true) ∷ after) b (a.0, a.1),
        different_middle before after d.1,
      )

IsBacked-later :
    (platform : Platform) (more ts : List LedgerTransaction) (e : Text × Number)
    → IsBacked platform ts e
    → IsBacked platform (more ++ ts) e
IsBacked-later platform more ts e (n, before, after, a, p, t) =
    (n, more ++ before, after, a, p, ap (λ z. more ++ z) t ∙ sym (append_assoc more before _))

-- A new order: its id is none of the others', it is not successful, and it has no earning.
abbrev pub IsNew : List (Text × Number) → List (Text × Bool) → Text × Bool → Type 0
IsNew earnings known o =
    (o.1 ≡ false) × (count_for o.0 earnings ≡ 0) × All (λ p. eq_text o.0 p.0 ≡ false) known

abbrev pub AreNew : List (Text × Number) → List (Text × Bool) → List (Text × Bool) → Type 0
AreNew earnings [] known = Unit
AreNew earnings (o ∷ created) known =
    IsNew earnings (created ++ known) o × AreNew earnings created known

-- What the other services do between two runs: they create orders, whose ids are new and which are not
-- successful and have no earning; no order is removed, none becomes successful or stops being so, no earning is
-- created or changes its order or amount, and the ledger only grows.
pub record Leaves (s s' : SmsStore) : Type 0 where
  pub created : List (Text × Bool)
  pub orders : map success_key s'.orders ≡ created ++ map success_key s.orders
  pub new : AreNew (map earning_key s.earnings) created (map success_key s.orders)
  pub earnings : map earning_key s'.earnings ≡ map earning_key s.earnings
  pub more : List LedgerTransaction
  pub ledger : s'.ledger ≡ more ++ s.ledger

pub data Run (platform : Platform) : SmsStore → SmsStore → Type 0 where
  done : {s : SmsStore} → Run platform s s
  ingests :
      {s t s' : SmsStore} (i : IngestSmsInput) (seen : SmsStore) (out : SmsIngestionResult)
      → Run platform s t
      → run_ingest platform i seen t ≡ ok (out, s')
      → Run platform s s'
  others : {s t s' : SmsStore} → Run platform s t → Leaves t s' → Run platform s s'

created_different :
    (earnings : List (Text × Number)) (created known : List (Text × Bool))
    → AreNew earnings created known
    → AreDifferent known
    → AreDifferent (created ++ known)
created_different earnings [] known n d = d
created_different earnings (o ∷ created) known n d =
    (n.0.2, created_different earnings created known n.1 d)

created_once :
    (earnings : List (Text × Number)) (created known : List (Text × Bool))
    → AreNew earnings created known
    → All (IsPaidOnce earnings) known
    → All (IsPaidOnce earnings) (created ++ known)
created_once earnings [] known n p = p
created_once earnings (o ∷ created) known n p =
    (rw (n.0.0) (n.0.1), created_once earnings created known n.1 p)

Leaves-IsAccounted :
    (platform : Platform) (s s' : SmsStore)
    → Leaves s s'
    → IsAccounted platform s
    → IsAccounted platform s'
Leaves-IsAccounted platform s s' l a = record {
  different = subst AreDifferent (sym l.orders) (
      created_different (map earning_key s.earnings) l.created (map success_key s.orders) l.new
        a.different);
  once =
      subst (λ z. All (IsPaidOnce z) (map success_key s'.orders)) (sym l.earnings)
        (subst (All (IsPaidOnce (map earning_key s.earnings))) (sym l.orders) (
          created_once (map earning_key s.earnings) l.created (map success_key s.orders) l.new
            a.once));
  backed =
      subst (λ z. All (IsBacked platform z) (map earning_key s'.earnings)) (sym l.ledger)
        (subst (All (IsBacked platform (l.more ++ s.ledger))) (sym l.earnings) (
          All-map (IsBacked platform s.ledger) (IsBacked platform (l.more ++ s.ledger))
            (map earning_key s.earnings) (IsBacked-later platform l.more s.ledger) a.backed));
}

success_keys-same :
    (os ps : List OrderRow)
    → map order_key os ≡ map order_key ps
    → map success_key os ≡ map success_key ps
success_keys-same os ps e =
    sym (through os) ∙ ap (map (λ k. (k.0, eq_order k.1 OrderStatus.success))) e ∙ through ps
  where
    through :
        (os : List OrderRow)
        → map (λ k. (k.0, eq_order k.1 OrderStatus.success)) (map order_key os) ≡ map success_key os
    through [] = refl
    through (o ∷ os) = ap (λ z. success_key o ∷ z) (through os)

Keeps-Leaves : (s s' : SmsStore) → Keeps s s' → Leaves s s'
Keeps-Leaves s s' k = record {
  created = [];
  orders = success_keys-same s'.orders s.orders k.orders;
  new = tt;
  earnings = ap (map earning_key) k.earnings;
  more = [];
  ledger = k.ledger;
}

-- The keys of the orders around one of them.
keys_around :
    (before after : List OrderRow) (o : OrderRow) (k : Text × Bool) (os : List OrderRow)
    → os ≡ before ++ (o ∷ after)
    → success_key o ≡ k
    → map success_key os ≡ map success_key before ++ (k ∷ map success_key after)
keys_around before after o k os e h =
    ap (map success_key) e
    ∙ map-append success_key before (o ∷ after)
    ∙ ap (λ z. map success_key before ++ (z ∷ map success_key after)) h

Pays-IsAccounted :
    (platform : Platform) (i : IngestSmsInput) (id : Text) (s s' : SmsStore)
    → Pays platform i id s s'
    → IsAccounted platform s
    → IsAccounted platform s'
Pays-IsAccounted platform i id s s' p a =
    let was =
      keys_around p.before p.after p.order (id, false) s.orders p.place
        (rw (p.id.0, p.waits.0) refl) in
    let now =
      keys_around p.before p.after p.succeeded (id, true) s'.orders p.updated
        (rw (p.id.1, p.success) refl) in
    let money : map earning_key s'.earnings ≡ (id, num p.amount) ∷ map earning_key s.earnings =
      ap (map earning_key) p.earnings
      ∙ ap (λ z. z ∷ map earning_key s.earnings) (rw (p.earned.0, p.earned.1) refl) in
    record {
      different = subst AreDifferent (sym now) (
          different_middle id (num p.amount) (map earning_key s.earnings) (map success_key p.before)
            (map success_key p.after) (subst AreDifferent was a.different));
      once =
          subst (λ z. All (IsPaidOnce z) (map success_key s'.orders)) (sym money)
            (subst (All (IsPaidOnce ((id, num p.amount) ∷ map earning_key s.earnings))) (sym now) (
              paid_middle id (num p.amount) (map earning_key s.earnings) (map success_key p.before)
                (map success_key p.after) (none_counted id s.earnings p.fresh)
                (subst AreDifferent was a.different)
                (subst (All (IsPaidOnce (map earning_key s.earnings))) was a.once)));
      backed = subst (All (IsBacked platform s'.ledger)) (sym money) (
        (p.amount, [], s.ledger, refl, sym p.payout, p.ledger),
        subst (λ z. All (IsBacked platform z) (map earning_key s.earnings)) (sym p.ledger)
            (All-map (IsBacked platform s.ledger)
              (IsBacked platform (success_transfer id p.amount ∷ s.ledger))
              (map earning_key s.earnings)
              (IsBacked-later platform (success_transfer id p.amount ∷ []) s.ledger) a.backed),
      );
    }

Effect-IsAccounted :
    (platform : Platform) (i : IngestSmsInput) (out : SmsIngestionResult) (s s' : SmsStore)
    → Effect platform i out s s'
    → IsAccounted platform s
    → IsAccounted platform s'
Effect-IsAccounted platform i (SmsIngestionResult.matched id first) s s' e a =
    Pays-IsAccounted platform i id s s' e a
Effect-IsAccounted platform i (SmsIngestionResult.matched id repeat) s s' e a =
    Leaves-IsAccounted platform s s' (Keeps-Leaves s s' e) a
Effect-IsAccounted platform i (SmsIngestionResult.duplicate key) s s' e a =
    Leaves-IsAccounted platform s s' (Keeps-Leaves s s' e) a
Effect-IsAccounted platform i (SmsIngestionResult.unmatched reason) s s' e a =
    Leaves-IsAccounted platform s s' (Keeps-Leaves s s' e) a
Effect-IsAccounted platform i (SmsIngestionResult.ambiguous ids) s s' e a =
    Leaves-IsAccounted platform s s' (Keeps-Leaves s s' e) a

-- However ingestions are interleaved with each other and with services that may create orders with new
-- ids, not successful and without an earning, but remove no order, neither make nor undo a success, create
-- no earning, change no earning's order or amount and only append to the ledger, and whatever rows each of the
-- ingestions has read: from accounted books, a run reaches accounted books only. Each order has one
-- earning if it is successful and none otherwise, and every earning is of the payout of its order's
-- snapshot and has its transaction of that amount in the ledger.
pub run-IsAccounted :
    (platform : Platform) (s s' : SmsStore)
    → Run platform s s'
    → IsAccounted platform s
    → IsAccounted platform s'
run-IsAccounted platform s s' done a = a
run-IsAccounted platform s s' (ingests {t = t} i seen out r e) a =
    Effect-IsAccounted platform i out t s' (run_ingest-Effect platform i seen t out s' e)
      (run-IsAccounted platform s t r a)
run-IsAccounted platform s s' (others {t = t} r l) a =
    Leaves-IsAccounted platform t s' l (run-IsAccounted platform s t r a)
