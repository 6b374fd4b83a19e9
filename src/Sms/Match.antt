-- ===== src/Sms/Match.antt =====
-- Which order a message is matched with, and what becomes of a message that is sent again.
use mathlib.Core.Path.{subst}
use kirimkode_partner.Base.{
  ◌≡◌, refl, ap, ◌∙◌, ◌↔◌, ◌⊎◌, inl, inr, Bool, true, ◌&&◌, ◌||◌, Option, List, [], ◌∷◌, ◌++◌, keep,
  arith, Bool-cases,
}
use kirimkode_partner.Number.{Number, int, nan, infinity, neg_infinity, num, is_finite, le_number}
use kirimkode_partner.Text.{Text, codes, eq_text, eq_text_iff}
use kirimkode_partner.Order.Status.{OrderStatus, order_status_text, eq_order}
use kirimkode_partner.Order.Listening.{is_null, is_listening_order}
use kirimkode_partner.Sms.{
  SmsOrderCandidate, SmsMatchMode, matched, is_eligible, awaits_code, mode_of, match_among,
  match_sms_to_active_order,
}

-- The match is with the one eligible order of the list.
pub record IsOnlyEligible (number : Text) (at : Number) (orders : List SmsOrderCandidate)
    (id code : Text) (mode : SmsMatchMode) : Type 0 where
  pub before : List SmsOrderCandidate
  pub order : SmsOrderCandidate
  pub after : List SmsOrderCandidate
  pub place : orders ≡ before ++ (order ∷ after)
  pub eligible : is_eligible number at order ≡ true
  pub others :
      (keep (is_eligible number at) before ≡ []) × (keep (is_eligible number at) after ≡ [])
  pub id_of : id ≡ order.id
  pub code_of : code ≡ order.service_code
  pub mode_is : mode ≡ mode_of order

module _ {ℓ} {A : Type ℓ} (p : A → Bool) where
  keep_one :
      (xs : List A) (y : A)
      → keep p xs ≡ y ∷ []
      → (before : List A) × (after : List A) × (xs ≡ before ++ (y ∷ after))
        × (p y ≡ true)
        × (keep p before ≡ [])
        × (keep p after ≡ [])
  keep_one [] y e = cc
  keep_one (x ∷ xs) y e = elim (Bool-cases (p x)) [
    | inl h ↦ ([], xs, ap (λ z. z ∷ xs) (same h), subst (λ z. p z ≡ true) (same h) h, refl, rest h)
    | inr h ↦
        let (before, after, place, y_in, b, a) = keep_one xs y (ground (arith, h, e)) in
        (x ∷ before, after, ap (λ z. x ∷ z) place, y_in, ground (arith, h, b), a)
  ]
    where
      same : p x ≡ true → x ≡ y
      same h = ground (arith, h, e)

      rest : p x ≡ true → keep p xs ≡ []
      rest h = ground (arith, h, e)

  keep-around :
      (before after : List A) (y : A)
      → p y ≡ true
      → keep p before ≡ []
      → keep p after ≡ []
      → keep p (before ++ (y ∷ after)) ≡ y ∷ []
  keep-around [] after y h b a = ground (arith, h, a)
  keep-around (x ∷ before) after y h b a = elim (Bool-cases (p x)) [
    | inl k ↦ ground (arith, k, b)
    | inr k ↦ rw k (keep-around before after y h (ground (arith, k, b)) a)
  ]

awaits_text :
    (status : OrderStatus) (completed : Option Number)
    → (eq_text (order_status_text status) (codes "waiting_sms")
        || (eq_text (order_status_text status) (codes "success") && is_null completed))
      ≡ (eq_order status OrderStatus.waiting_sms
          || (eq_order status OrderStatus.success && is_null completed))
awaits_text OrderStatus.created c = refl
awaits_text OrderStatus.reserved c = refl
awaits_text OrderStatus.waiting_sms c = refl
awaits_text OrderStatus.success c = refl
awaits_text OrderStatus.cancelled c = refl
awaits_text OrderStatus.timeout c = refl
awaits_text OrderStatus.failed c = refl

awaits_code_iff :
    (o : SmsOrderCandidate) (status : OrderStatus)
    → o.status ≡ order_status_text status
    → awaits_code o ≡ (
        eq_order status OrderStatus.waiting_sms
        || (eq_order status OrderStatus.success && is_null o.completed_at_ms))
awaits_code_iff o status e = rw e (awaits_text status o.completed_at_ms)

between :
    (a b c : Number)
    → is_finite b ≡ true
    → le_number a b ≡ true
    → le_number b c ≡ true
    → le_number a c ≡ true
between (int a) (int b) (int c) f l u = ground arith
between (int a) (int b) infinity f l u = refl
between neg_infinity (int b) (int c) f l u = refl
between neg_infinity (int b) infinity f l u = refl
between (int a) (int b) nan f l u = cc
between (int a) (int b) neg_infinity f l u = cc
between neg_infinity (int b) nan f l u = cc
between neg_infinity (int b) neg_infinity f l u = cc
between nan (int b) c f l u = cc
between infinity (int b) c f l u = cc
between a nan c f l u = cc
between a infinity c f l u = cc
between a neg_infinity c f l u = cc

-- The order is on the number, its window is open, and it waits for its first code or listens.
abbrev pub IsDue : Text → Number → SmsOrderCandidate → OrderStatus → Type 0
IsDue number at o status =
    (o.number_id ≡ number)
    × (is_finite o.window_starts_at_ms ≡ true)
    × (le_number o.window_starts_at_ms at ≡ true)
    × (((status ≡ OrderStatus.waiting_sms)
          × (is_finite at ≡ true)
          × (is_finite o.window_ends_at_ms ≡ true)
          × (le_number at o.window_ends_at_ms ≡ true))
        ⊎ (is_listening_order
              (record {
                order_id = o.id;
                order_status = status;
                completed_at_ms = o.completed_at_ms;
                expires_at_ms = o.window_ends_at_ms;
              })
              at
            ≡ true))

-- With times since the epoch, an order on the number is eligible exactly if its window is open at the time and it waits for its first
-- code or is a listening order.
pub eligible_iff :
    (number : Text) (at : Number) (o : SmsOrderCandidate) (status : OrderStatus)
    → o.status ≡ order_status_text status
    → le_number (num 0) o.window_starts_at_ms ≡ true
    → (is_eligible number at o ≡ true) ↔ IsDue number at o status
unfolding is_eligible is_listening_order
eligible_iff number at o status e z = ground (
  arith,
  eq_text_iff o.number_id number,
  awaits_code_iff o status e,
  between o.window_starts_at_ms at o.window_ends_at_ms,
  between (num 0) o.window_starts_at_ms at,
  between (num 0) at o.window_ends_at_ms,
)

match_among_iff :
    (found : List SmsOrderCandidate) {id code : Text} {mode : SmsMatchMode}
    → match_among found ≡ matched id code mode
    → (o : SmsOrderCandidate) × (found ≡ o ∷ [])
      × (id ≡ o.id)
      × (code ≡ o.service_code)
      × (mode ≡ mode_of o)
unfolding match_among
match_among_iff [] e = cc
match_among_iff (o ∷ []) e = (o, refl, cc, cc, cc)
match_among_iff (o ∷ p ∷ os) e = cc

-- A message is matched with an order exactly if the order is the only eligible one of the list; the
-- match is a repeat exactly if that order is successful.
pub match_iff :
    (number : Text) (at : Number) (orders : List SmsOrderCandidate) (id code : Text)
    (mode : SmsMatchMode)
    → (match_sms_to_active_order number at orders ≡ matched id code mode)
      ↔ IsOnlyEligible number at orders id code mode
unfolding match_sms_to_active_order match_among
match_iff number at orders id code mode = (there, back)
  where
    there :
        match_sms_to_active_order number at orders ≡ matched id code mode
        → IsOnlyEligible number at orders id code mode
    there e =
        let (o, one, i, c, m) = match_among_iff (keep (is_eligible number at) orders) e in
        let (before, after, place, h, b, a) = keep_one (is_eligible number at) orders o one in
        record {
          before = before;
          order = o;
          after = after;
          place = place;
          eligible = h;
          others = (b, a);
          id_of = i;
          code_of = c;
          mode_is = m;
        }

    back :
        IsOnlyEligible number at orders id code mode
        → match_sms_to_active_order number at orders ≡ matched id code mode
    back w =
        ap (λ z. match_among (keep (is_eligible number at) z)) w.place
        ∙ ap match_among (
            keep-around (is_eligible number at) w.before w.after w.order w.eligible w.others.0
              w.others.1)
        ∙ rw (w.id_of, w.code_of, w.mode_is) refl
