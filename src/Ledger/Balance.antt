-- ===== src/Ledger/Balance.antt =====
-- Balances derived from the ledger (computeBucketBalances, computeBalancesFromTransactions and
-- isLedgerBalanced of src/domain/task-5-6/ledger.ts) against the sums over exact integers.
use mathlib.Core.Path.{fun_ext}
use kirimkode_partner.Base.{
  Bool-cases, inl, inr, ◌≡◌, refl, sym, ap, ◌∙◌, true, List, [], ◌∷◌, ◌++◌, arith, if◌then◌else◌,
  All, ok,
}
use kirimkode_partner.Int.{ℤ, pos, ◌+ℤ◌, int_laws, +ℤ_assoc, zero-+ℤ, +ℤ-zero}
use kirimkode_partner.Number.{int, num}
use kirimkode_partner.Double.{IsExact, add_double, add_double-exact}
use kirimkode_partner.Ledger.{
  LedgerBucket, platform_partner_payable, partner_pending, partner_available, partner_payout_locked,
  partner_paid, partner_reversed, unknown_bucket, LedgerEntry, LedgerTransaction, is_known_bucket,
  eq_bucket, BucketBalances, add_to_bucket, balances_from, compute_bucket_balances, all_entries,
  compute_balances_from_transactions, is_ledger_balanced, sum_buckets,
}
use kirimkode_partner.Ledger.Transaction.{amount_of, entry_sum, IsSound, IsDoubleEntry, safe_amount}

-- The exact balance of a bucket: the sum of its entries.
abbrev pub bucket_sum : LedgerBucket → List LedgerEntry → ℤ
bucket_sum b [] = pos 0
bucket_sum b (e ∷ es) =
    let rest = bucket_sum b es in
    if eq_bucket b e.bucket then amount_of e.amount_idr_signed +ℤ rest else rest

abbrev pub exact_balances : List LedgerEntry → BucketBalances
exact_balances es b = int (bucket_sum b es)

abbrev pub add_exact : (LedgerBucket → ℤ) → LedgerEntry → LedgerBucket → ℤ
add_exact acc e b = if eq_bucket b e.bucket then acc b +ℤ amount_of e.amount_idr_signed else acc b

-- From `acc` on, no running balance of a bucket leaves the integers that a double holds exactly.
abbrev pub BalancesStayExact : (LedgerBucket → ℤ) → List LedgerEntry → Type 0
BalancesStayExact acc [] = Unit
BalancesStayExact acc (e ∷ es) =
    ((b : LedgerBucket) → IsExact (add_exact acc e b)) × BalancesStayExact (add_exact acc e) es

add_to_bucket-exact :
    (acc : LedgerBucket → ℤ) (e : LedgerEntry) (b : LedgerBucket)
    → IsExact (add_exact acc e b)
    → IsSound e
    → add_to_bucket (λ x. int (acc x)) e b ≡ int (add_exact acc e b)
add_to_bucket-exact acc e b x h = elim (Bool-cases (eq_bucket b e.bucket)) [
  | inl y ↦
      let w : IsExact (acc b +ℤ amount_of e.amount_idr_signed) = ground (arith, y, x) in
      ground (
        arith,
        y,
        safe_amount e.amount_idr_signed h.1,
        add_double-exact (acc b) (amount_of e.amount_idr_signed) w,
      )
  | inr n ↦ ground (arith, n)
]

add_exact-bucket_sum :
    (acc : LedgerBucket → ℤ) (e : LedgerEntry) (es : List LedgerEntry) (b : LedgerBucket)
    → add_exact acc e b +ℤ bucket_sum b es ≡ acc b +ℤ bucket_sum b (e ∷ es)
add_exact-bucket_sum acc e es b =
    ground (arith, +ℤ_assoc (acc b) (amount_of e.amount_idr_signed) (bucket_sum b es))

balances_from-exact :
    (acc : LedgerBucket → ℤ) (es : List LedgerEntry)
    → BalancesStayExact acc es
    → All IsSound es
    → balances_from (λ b. int (acc b)) es ≡ ok (λ b. int (acc b +ℤ bucket_sum b es))
unfolding balances_from
balances_from-exact acc [] x h = ap ok (fun_ext λ b. ap int (sym (+ℤ-zero (acc b))))
balances_from-exact acc (e ∷ es) x h =
    rw (h.0.0, fun_ext (λ b. add_to_bucket-exact acc e b (x.0 b) h.0))
      (balances_from-exact (add_exact acc e) es x.1 h.1
        ∙ ap ok (fun_ext λ b. ap int (add_exact-bucket_sum acc e es b)))

compute-exact :
    (es : List LedgerEntry)
    → BalancesStayExact (λ _. pos 0) es
    → All IsSound es
    → compute_bucket_balances es ≡ ok (exact_balances es)
unfolding compute_bucket_balances
compute-exact es x h =
    balances_from-exact (λ _. pos 0) es x h
    ∙ ap ok (fun_ext λ b. ap int (zero-+ℤ (bucket_sum b es)))

-- All six buckets together.
abbrev pub total_sum : List LedgerEntry → ℤ
total_sum es =
    bucket_sum platform_partner_payable es
    +ℤ bucket_sum partner_pending es
    +ℤ bucket_sum partner_available es
    +ℤ bucket_sum partner_payout_locked es
    +ℤ bucket_sum partner_paid es
    +ℤ bucket_sum partner_reversed es

total_step :
    (b : LedgerBucket) (a p q r s t u z : ℤ)
    → is_known_bucket b ≡ true
    → p +ℤ q +ℤ r +ℤ s +ℤ t +ℤ u ≡ z
    → (if eq_bucket platform_partner_payable b then a +ℤ p else p)
        +ℤ (if eq_bucket partner_pending b then a +ℤ q else q)
        +ℤ (if eq_bucket partner_available b then a +ℤ r else r)
        +ℤ (if eq_bucket partner_payout_locked b then a +ℤ s else s)
        +ℤ (if eq_bucket partner_paid b then a +ℤ t else t)
        +ℤ (if eq_bucket partner_reversed b then a +ℤ u else u)
      ≡ a +ℤ z
total_step platform_partner_payable a p q r s t u z k h = rw (← h) (omega int_laws)
total_step partner_pending a p q r s t u z k h = rw (← h) (omega int_laws)
total_step partner_available a p q r s t u z k h = rw (← h) (omega int_laws)
total_step partner_payout_locked a p q r s t u z k h = rw (← h) (omega int_laws)
total_step partner_paid a p q r s t u z k h = rw (← h) (omega int_laws)
total_step partner_reversed a p q r s t u z k h = rw (← h) (omega int_laws)
total_step (unknown_bucket _) a p q r s t u z k h = cc

total_sum-entry_sum : (es : List LedgerEntry) → All IsSound es → total_sum es ≡ entry_sum es
total_sum-entry_sum [] h = omega int_laws
total_sum-entry_sum (e ∷ es) h =
    total_step e.bucket (amount_of e.amount_idr_signed) _ _ _ _ _ _ (entry_sum es) h.0.0
      (total_sum-entry_sum es h.1)

All-append : (xs ys : List LedgerEntry) → All IsSound xs → All IsSound ys → All IsSound (xs ++ ys)
All-append [] ys h k = k
All-append (x ∷ xs) ys h k = (h.0, All-append xs ys h.1 k)

entry_sum-append : (xs ys : List LedgerEntry) → entry_sum (xs ++ ys) ≡ entry_sum xs +ℤ entry_sum ys
entry_sum-append [] ys = sym (zero-+ℤ (entry_sum ys))
entry_sum-append (x ∷ xs) ys =
    rw (entry_sum-append xs ys) (sym (+ℤ_assoc _ (entry_sum xs) (entry_sum ys)))

pub bucket_sum-append :
    (b : LedgerBucket) (xs ys : List LedgerEntry)
    → bucket_sum b (xs ++ ys) ≡ bucket_sum b xs +ℤ bucket_sum b ys
bucket_sum-append b [] ys = sym (zero-+ℤ (bucket_sum b ys))
bucket_sum-append b (x ∷ xs) ys = ground (
  arith,
  bucket_sum-append b xs ys,
  +ℤ_assoc (amount_of x.amount_idr_signed) (bucket_sum b xs) (bucket_sum b ys),
)

pub all_entries-IsSound :
    (ts : List LedgerTransaction) → All IsDoubleEntry ts → All IsSound (all_entries ts)
unfolding all_entries
all_entries-IsSound [] h = tt
all_entries-IsSound (t ∷ ts) h =
    All-append t.entries (all_entries ts) h.0.sound (all_entries-IsSound ts h.1)

entry_sum-all_entries :
    (ts : List LedgerTransaction) → All IsDoubleEntry ts → entry_sum (all_entries ts) ≡ pos 0
unfolding all_entries
entry_sum-all_entries [] h = refl
entry_sum-all_entries (t ∷ ts) h =
    rw (entry_sum-append t.entries (all_entries ts), h.0.zero_sum, entry_sum-all_entries ts h.1)
      (zero-+ℤ (pos 0))

-- The running total over the buckets, in the order in which the code adds them, is never rounded.
abbrev pub TotalsStayExact : List LedgerEntry → Type 0
TotalsStayExact es =
    let p = bucket_sum platform_partner_payable es in
    let q = bucket_sum partner_pending es in
    let r = bucket_sum partner_available es in
    let s = bucket_sum partner_payout_locked es in
    let t = bucket_sum partner_paid es in
    IsExact p
    × IsExact (p +ℤ q)
    × IsExact (p +ℤ q +ℤ r)
    × IsExact (p +ℤ q +ℤ r +ℤ s)
    × IsExact (p +ℤ q +ℤ r +ℤ s +ℤ t)

added_up :
    (p q r s t u : ℤ)
    → IsExact p
    → IsExact (p +ℤ q)
    → IsExact (p +ℤ q +ℤ r)
    → IsExact (p +ℤ q +ℤ r +ℤ s)
    → IsExact (p +ℤ q +ℤ r +ℤ s +ℤ t)
    → p +ℤ q +ℤ r +ℤ s +ℤ t +ℤ u ≡ pos 0
    → add_double
        (add_double
          (add_double
            (add_double (add_double (add_double (num 0) (int p)) (int q)) (int r))
            (int s))
          (int t))
        (int u)
      ≡ num 0
added_up p q r s t u a b c d e z =
    let a' : IsExact (pos 0 +ℤ p) = rw (zero-+ℤ p) a in
    let z' : IsExact (p +ℤ q +ℤ r +ℤ s +ℤ t +ℤ u) = rw z (omega arith, omega arith) in
    rw
      (
        add_double-exact (pos 0) p a',
        zero-+ℤ p,
        add_double-exact p q b,
        add_double-exact (p +ℤ q) r c,
        add_double-exact (p +ℤ q +ℤ r) s d,
        add_double-exact (p +ℤ q +ℤ r +ℤ s) t e,
        add_double-exact (p +ℤ q +ℤ r +ℤ s +ℤ t) u z',
        z,
      )
      refl

balanced-exact :
    (es : List LedgerEntry)
    → TotalsStayExact es
    → total_sum es ≡ pos 0
    → is_ledger_balanced (exact_balances es) ≡ true
unfolding is_ledger_balanced sum_buckets
balanced-exact es x z = rw (added_up _ _ _ _ _ _ x.0 x.1 x.2 x.3 x.4 z) refl

-- In a ledger of double entries whose running balances, and whose running total over the buckets, stay
-- within 2^53 in magnitude, so that none is rounded, the computed balances are the exact sums of each
-- bucket's entries, and the ledger as a whole is balanced, however many transactions there are and whatever
-- buckets they name.
pub ledger_balanced :
    (ts : List LedgerTransaction)
    → All IsDoubleEntry ts
    → BalancesStayExact (λ _. pos 0) (all_entries ts)
    → TotalsStayExact (all_entries ts)
    → (compute_balances_from_transactions ts ≡ ok (exact_balances (all_entries ts)))
      × (is_ledger_balanced (exact_balances (all_entries ts)) ≡ true)
unfolding compute_balances_from_transactions
ledger_balanced ts h balances totals =
    let sound = all_entries-IsSound ts h in
    let total = total_sum-entry_sum (all_entries ts) sound ∙ entry_sum-all_entries ts h in
    (compute-exact (all_entries ts) balances sound, balanced-exact (all_entries ts) totals total)
