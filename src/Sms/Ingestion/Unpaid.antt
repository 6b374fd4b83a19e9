-- ===== src/Sms/Ingestion/Unpaid.antt =====
-- The effect of the stages of a run that pay for no order.
use mathlib.Core.Path.{subst}
use kirimkode_partner.Base.{
  ◌≡◌, refl, ap, sym, ◌∙◌, Bool, true, false, Option, none, some, List, [], ◌∷◌, ◌++◌, map,
  if◌then◌else◌, Result, ok, err, ◌>>=◌, bind_returns,
}
use kirimkode_partner.Text.{Text}
use kirimkode_partner.Sms.{first, repeat}
use kirimkode_partner.Sms.Rows.{
  OrderRow, SmsStore, Platform, IngestSmsInput, IngestError, SmsUnmatchedReason, SmsIngestionResult,
}
use kirimkode_partner.Sms.Gateway.{
  update_row, contended, mark_sms_matched, awaits_repeat, repeated_row, apply_repeat_otp,
}
use kirimkode_partner.Sms.Delivery.{audit, apply_repeat}
use kirimkode_partner.Sms.Ingestion.Effects.{
  same_value, order_key, Updates, contended-Updates, Keeps, Pays,
}

pub map-append :
    {A B : Type 0} (f : A → B) (xs ys : List A) → map f (xs ++ ys) ≡ map f xs ++ map f ys
map-append f [] ys = refl
map-append f (x ∷ xs) ys = ap (λ z. f x ∷ z) (map-append f xs ys)

-- An update that keeps every order's id and status.
same_keys :
    (p : OrderRow → Bool) (f : OrderRow → OrderRow) (xs ys : List OrderRow)
    → ((o : OrderRow) → order_key (f o) ≡ order_key o)
    → Updates p f xs ys
    → map order_key ys ≡ map order_key xs
same_keys p f xs ys k u =
    ap (map order_key) u.updated
    ∙ map-append order_key u.before (f u.row ∷ u.after)
    ∙ ap (λ z. map order_key u.before ++ (z ∷ map order_key u.after)) (k u.row)
    ∙ sym (map-append order_key u.before (u.row ∷ u.after))
    ∙ ap (map order_key) (sym u.place)

-- What a result says of the orders, the numbers and the money.
abbrev pub Effect : Platform → IngestSmsInput → SmsIngestionResult → SmsStore → SmsStore → Type 0
Effect platform i (SmsIngestionResult.matched id first) s s' = Pays platform i id s s'
Effect platform i (SmsIngestionResult.matched id repeat) s s' = Keeps s s'
Effect platform i (SmsIngestionResult.duplicate key) s s' = Keeps s s'
Effect platform i (SmsIngestionResult.unmatched reason) s s' = Keeps s s'
Effect platform i (SmsIngestionResult.ambiguous ids) s s' = Keeps s s'

-- The effect of a run that returns.
abbrev pub Leaves :
    Platform
    → IngestSmsInput
    → SmsStore
    → Result IngestError (SmsIngestionResult × SmsStore)
    → Type 0
Leaves platform i s (err e) = Unit
Leaves platform i s (ok (out, s')) = Effect platform i out s s'

module _ (platform : Platform) (i : IngestSmsInput) where
  pub audit-Leaves :
      (reason : SmsUnmatchedReason) (s : SmsStore) → Leaves platform i s (audit i reason s)
  unfolding audit
  audit-Leaves reason s = record { orders = refl; earnings = refl; ledger = refl; numbers = refl }

  repeat-Keeps :
      (otp : Text) (seen : OrderRow) (s s' : SmsStore)
      → apply_repeat_otp platform i otp seen s ≡ ok s'
      → Keeps s s'
  unfolding apply_repeat_otp
  repeat-Keeps otp seen s s' h =
      let (orders, e1, h1) =
        bind_returns
          (contended
            (update_row (awaits_repeat seen) (repeated_row (platform.encrypt_otp otp)) s.orders))
          _ h in
      let (sms, e2, h2) =
        bind_returns (contended (mark_sms_matched i.sms_id seen.id i.now s.sms)) _ h1 in
      subst (Keeps s) (same_value _ s' h2) (record {
        orders =
            same_keys (awaits_repeat seen) (repeated_row (platform.encrypt_otp otp)) s.orders orders
              (λ o. refl)
              (contended-Updates (awaits_repeat seen) (repeated_row (platform.encrypt_otp otp))
                s.orders orders e1);
        earnings = refl;
        ledger = refl;
        numbers = refl;
      })

  applied_repeat-Leaves :
      (otp : Text) (seen : OrderRow) (s : SmsStore) (r : Result IngestError SmsStore)
      → apply_repeat_otp platform i otp seen s ≡ r
      → Leaves platform i s (r >>= λ s'. ok (SmsIngestionResult.matched seen.id repeat, s'))
  applied_repeat-Leaves otp seen s (err e) h = tt
  applied_repeat-Leaves otp seen s (ok s') h = repeat-Keeps otp seen s s' h

  pub if-Leaves :
      (b : Bool) (s : SmsStore) (x y : Result IngestError (SmsIngestionResult × SmsStore))
      → Leaves platform i s x
      → Leaves platform i s y
      → Leaves platform i s (if b then x else y)
  if-Leaves true s x y l m = l
  if-Leaves false s x y l m = m

  pub apply_repeat-Leaves :
      (otp : Text) (o : Option OrderRow) (s : SmsStore)
      → Leaves platform i s (apply_repeat platform i otp o s)
  unfolding apply_repeat
  apply_repeat-Leaves otp none s = audit-Leaves _ s
  apply_repeat-Leaves otp (some seen) s =
      if-Leaves _ s _ _
        (applied_repeat-Leaves otp seen s (apply_repeat_otp platform i otp seen s) refl)
        (audit-Leaves _ s)
