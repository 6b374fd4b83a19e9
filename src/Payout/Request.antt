-- ===== src/Payout/Request.antt =====
-- The theorems about the earnings that a payout request locks.
use kirimkode_partner.Base.{
  ℕ, ◌≤◌, ◌≡◌, refl, sym, ap, ◌∙◌, ◌≢◌, true, false, none, List, [], ◌∷◌, map, arith, ◌==◌, length,
  any, All, Result, ok, err,
}
use kirimkode_partner.Int.{ℤ, pos, ◌+ℤ◌, +ℤ_assoc, zero-+ℤ, +ℤ-zero}
use kirimkode_partner.Number.{
  Number, int, nan, infinity, neg_infinity, num, is_finite, lt_number, add_number, max_safe,
}
use kirimkode_partner.Text.{Text, codes, eq_text, eq_text_iff, is_blank}
use kirimkode_partner.Ledger.{
  event_keys_nonblank, DomainError, LedgerTransaction, payout_lock, partner_available,
  partner_payout_locked, create_transfer_transaction, payout_lock_event_key, assert_identifier,
}
use kirimkode_partner.Ledger.Transaction.{transfer_of, ok-transfer, transfer_ok, amount_of}
use kirimkode_partner.Earning.{EarningStatus, EarningState, or_default}
use kirimkode_partner.Payout.{
  RequestPayoutInput, lock, PayoutAllocation, allocation_of, check_selection, is_available,
  sum_allocations, lock_selection, decide_request_payout, payout_minimum_idr,
}

-- No id of `seen` is the earning's.
abbrev IsFresh : List Text → EarningState → Type 0
IsFresh seen e = All (λ s. e.id ≢ s) seen

abbrev pub Distinct : List EarningState → Type 0
Distinct [] = Unit
Distinct (e ∷ es) = All (λ x. x.id ≢ e.id) es × Distinct es

abbrev pub IsAvailable : EarningState → Type 0
IsAvailable e = e.status ≡ EarningStatus.available

All-split {ℓ κ μ} :
    {A : Type ℓ} (P : A → Type κ) (Q : A → Type μ) (xs : List A)
    → All (λ x. P x × Q x) xs
    → All P xs × All Q xs
All-split P Q [] h = (tt, tt)
All-split P Q (x ∷ xs) h = let (p, q) = All-split P Q xs h.1 in ((h.0.0, p), (h.0.1, q))

All-join {ℓ κ μ} :
    {A : Type ℓ} (P : A → Type κ) (Q : A → Type μ) (xs : List A)
    → All P xs
    → All Q xs
    → All (λ x. P x × Q x) xs
All-join P Q [] h k = tt
All-join P Q (x ∷ xs) h k = ((h.0, k.0), All-join P Q xs h.1 k.1)

fresh_of : (id : Text) (seen : List Text) → any (eq_text id) seen ≡ false → All (λ s. id ≢ s) seen
fresh_of id [] h = tt
fresh_of id (s ∷ seen) h =
    ((λ e. ground (arith, eq_text_iff id s)), fresh_of id seen (ground arith))

of_fresh : (id : Text) (seen : List Text) → All (λ s. id ≢ s) seen → any (eq_text id) seen ≡ false
of_fresh id [] h = refl
of_fresh id (s ∷ seen) h = ground (arith, eq_text_iff id s, of_fresh id seen h.1, h.0)

check-IsAvailable : (e : EarningState) → is_available e.status ≡ true → IsAvailable e
check-IsAvailable e h = ground arith

checked-selection :
    (seen : List Text) (es : List EarningState)
    → check_selection seen es ≡ none
    → All IsAvailable es × All (IsFresh seen) es × Distinct es
unfolding check_selection
checked-selection seen [] h = (tt, tt, tt)
checked-selection seen (e ∷ es) h =
    let (a, f, d) = checked-selection (e.id ∷ seen) es (ground arith) in
    let (ne, old) = All-split (λ (x : EarningState). x.id ≢ e.id) (IsFresh seen) es f in
    ((ground arith, a), (fresh_of e.id seen (ground arith), old), (ne, d))

selection-checked :
    (seen : List Text) (es : List EarningState)
    → All IsAvailable es
    → All (IsFresh seen) es
    → Distinct es
    → check_selection seen es ≡ none
unfolding check_selection
selection-checked seen [] a f d = refl
selection-checked seen (e ∷ es) a f d = ground (
  arith,
  of_fresh e.id seen f.0,
  a.0,
  selection-checked (e.id ∷ seen) es a.1
      (All-join (λ (x : EarningState). x.id ≢ e.id) (IsFresh seen) es d.0 f.1) d.1,
)

nil-IsFresh : (es : List EarningState) → All (IsFresh []) es
nil-IsFresh [] = tt
nil-IsFresh (e ∷ es) = (tt, nil-IsFresh es)

-- The exact sum of the amounts.
abbrev pub earning_sum : List EarningState → ℤ
earning_sum [] = pos 0
earning_sum (e ∷ es) = amount_of e.amount_idr +ℤ earning_sum es

abbrev pub IsExact : EarningState → Type 0
IsExact e = is_finite e.amount_idr ≡ true

finite_parts :
    (x y : Number) → is_finite (add_number x y) ≡ true → (is_finite x ≡ true) × (is_finite y ≡ true)
unfolding add_number
finite_parts (int a) y h = ground arith
finite_parts nan y h = ground arith
finite_parts infinity y h = ground arith
finite_parts neg_infinity y h = ground arith

sum-IsExact :
    (x : Number) (es : List EarningState) (w : ℤ)
    → sum_allocations x (map allocation_of es) ≡ int w
    → (is_finite x ≡ true) × All IsExact es
unfolding sum_allocations
sum-IsExact x [] w h = (ground arith, tt)
sum-IsExact x (e ∷ es) w h =
    let (f, rest) = sum-IsExact (add_number x e.amount_idr) es w h in
    let (fx, fe) = finite_parts x e.amount_idr f in (fx, (fe, rest))

exact_amount : (x : Number) → is_finite x ≡ true → x ≡ int (amount_of x)
exact_amount (int z) h = refl
exact_amount x h = cc

sum_exact :
    (z : ℤ) (es : List EarningState)
    → All IsExact es
    → sum_allocations (int z) (map allocation_of es) ≡ int (z +ℤ earning_sum es)
unfolding sum_allocations
sum_exact z [] h = ap int (sym (+ℤ-zero z))
sum_exact z (e ∷ es) h = rw (exact_amount e.amount_idr h.0) (
    sum_exact (z +ℤ amount_of e.amount_idr) es h.1
    ∙ ap int (+ℤ_assoc z (amount_of e.amount_idr) (earning_sum es)))

unfoldable pub lock_transfer : Text → ℕ → LedgerTransaction
lock_transfer id n =
    transfer_of payout_lock (payout_lock_event_key id) (codes "payout") id partner_available
      partner_payout_locked n

abbrev pub minimum_of : RequestPayoutInput → Number
minimum_of i = or_default i.minimum_idr (num payout_minimum_idr)

locked_parts :
    (i : RequestPayoutInput) (r : Result DomainError LedgerTransaction) {k : Text} {amount : Number}
    {as' : List PayoutAllocation} {t : LedgerTransaction}
    → create_transfer_transaction payout_lock
        (payout_lock_event_key i.payout_id)
        (codes "payout")
        i.payout_id
        partner_available
        partner_payout_locked
        (sum_allocations (num 0) (map allocation_of i.earnings))
      ≡ r
    → lock_selection i ≡ ok (lock k amount as' t)
    → (n : ℕ) × (amount ≡ num n)
      × (1 ≤ n)
      × (n ≤ max_safe)
      × (lt_number amount (minimum_of i) ≡ false)
      × All IsExact i.earnings
      × (earning_sum i.earnings ≡ pos n)
      × (as' ≡ map allocation_of i.earnings)
      × (t ≡ lock_transfer i.payout_id n)
unfolding lock_selection lock_transfer
locked_parts i (err x) e h = absurd (ground arith)
locked_parts i (ok u) {k} {amount} {as'} {t} e h =
    let (n, sum, low, high, moved, _) =
      ok-transfer payout_lock (payout_lock_event_key i.payout_id) (codes "payout") i.payout_id
        partner_available partner_payout_locked
        (sum_allocations (num 0) (map allocation_of i.earnings)) u e in
    let (_, exact) = sum-IsExact (num 0) i.earnings (pos n) sum in
    (
      n,
      ground arith,
      low,
      high,
      ground arith,
      exact,
      ground (arith, sum_exact (pos 0) i.earnings exact, zero-+ℤ (earning_sum i.earnings)),
      ground arith,
      ground arith,
    )

-- What a request that locks has locked.
pub record LocksWhole (i : RequestPayoutInput) (amount : Number) (as' : List PayoutAllocation)
    (t : LedgerTransaction) : Type 0 where
  pub total : ℕ
  pub amount_eq : amount ≡ num total
  pub positive : 1 ≤ total
  pub safe : total ≤ max_safe
  pub enough : lt_number amount (minimum_of i) ≡ false
  pub available : All IsAvailable i.earnings
  pub distinct : Distinct i.earnings
  pub exact : All IsExact i.earnings
  pub sum : earning_sum i.earnings ≡ pos total
  pub whole : as' ≡ map allocation_of i.earnings
  pub moved : t ≡ lock_transfer i.payout_id total

-- A request that locks, locks available earnings only, no two with one id, each for its whole amount;
-- the payout's amount is their exact sum, a safe integer of one at least and not below the minimum, and
-- the ledger moves just that amount from the available to the locked bucket.
pub request-LocksWhole :
    (i : RequestPayoutInput) {k : Text} {amount : Number} {as' : List PayoutAllocation}
    {t : LedgerTransaction}
    → decide_request_payout i ≡ ok (lock k amount as' t)
    → LocksWhole i amount as' t
unfolding decide_request_payout assert_identifier
request-LocksWhole i {k} {amount} {as'} {t} h =
    let passed : check_selection [] i.earnings ≡ none = ground arith in
    let locked : lock_selection i ≡ ok (lock k amount as' t) = ground arith in
    let (a, _, d) = checked-selection [] i.earnings passed in
    let (n, eq, low, high, enough, exact, sum, whole, moved) = locked_parts i _ refl locked in
    record {
      total = n;
      amount_eq = eq;
      positive = low;
      safe = high;
      enough = enough;
      available = a;
      distinct = d;
      exact = exact;
      sum = sum;
      whole = whole;
      moved = moved;
    }

nonempty :
    (es : List EarningState) (n : ℕ) → 1 ≤ n → earning_sum es ≡ pos n → (length es == 0) ≡ false
nonempty [] n l e = ground arith
nonempty (x ∷ es) n l e = ground arith

-- A request of available earnings with distinct ids and finite amounts goes through if the payout id is
-- not blank and the sum is a safe integer, one at least and not below the minimum.
pub request_succeeds :
    (i : RequestPayoutInput) (n : ℕ)
    → is_blank i.payout_id ≡ false
    → All IsAvailable i.earnings
    → Distinct i.earnings
    → All IsExact i.earnings
    → earning_sum i.earnings ≡ pos n
    → 1 ≤ n
    → n ≤ max_safe
    → lt_number (num n) (minimum_of i) ≡ false
    → decide_request_payout i
      ≡ ok (
          lock
            (payout_lock_event_key i.payout_id)
            (num n)
            (map allocation_of i.earnings)
            (lock_transfer i.payout_id n))
unfolding decide_request_payout assert_identifier lock_selection lock_transfer is_blank
request_succeeds i n b a d x s low high m =
    let sum : sum_allocations (num 0) (map allocation_of i.earnings) ≡ num n =
      sum_exact (pos 0) i.earnings x ∙ ap int (zero-+ℤ (earning_sum i.earnings)) ∙ ap int s in
    let made =
      transfer_ok payout_lock (payout_lock_event_key i.payout_id) (codes "payout") i.payout_id
        partner_available partner_payout_locked n (event_keys_nonblank i.payout_id).3 refl b refl
        refl low high in
    ground (
      arith,
      nonempty i.earnings n low s,
      selection-checked [] i.earnings a (nil-IsFresh i.earnings) d,
      sum,
      made,
    )
