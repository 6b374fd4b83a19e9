-- ===== src/Ledger/Transaction.antt =====
-- What a ledger transaction is: the checks of createLedgerTransaction (src/domain/task-5-6/ledger.ts)
-- against the double-entry rule over exact integers.
use kirimkode_partner.Base.{
  ℕ, ◌≤◌, ◌≡◌, refl, sym, ap, ◌∙◌, ◌↔◌, true, false, List, [], ◌∷◌, arith, length, All, Result, ok,
  err,
}
use kirimkode_partner.Int.{neg, ℤ, pos, ◌+ℤ◌, int_laws, neg_parts, +ℤ_assoc, zero-+ℤ, +ℤ-zero}
use kirimkode_partner.Number.{Number, int, num, is_safe_integer, neg_number, max_safe}
use kirimkode_partner.Double.{IsExact, add_double, add_double-exact}
use kirimkode_partner.Text.{Text, is_blank}
use kirimkode_partner.Ledger.{
  DomainError, LedgerBucket, LedgerEventType, LedgerEntry, LedgerTransaction, is_known_bucket,
  assert_zero_sum_entries, sum_checked, create_ledger_transaction, create_transfer_transaction,
  transfer_entries, assert_safe_amount, assert_identifier,
}

-- The exact value of a finite amount.
abbrev pub amount_of : Number → ℤ
amount_of (int z) = z
amount_of _ = pos 0

abbrev pub entry_sum : List LedgerEntry → ℤ
entry_sum [] = pos 0
entry_sum (e ∷ es) = amount_of e.amount_idr_signed +ℤ entry_sum es

-- An entry of a declared bucket and a safe amount.
abbrev pub IsSound : LedgerEntry → Type 0
IsSound e = (is_known_bucket e.bucket ≡ true) × (is_safe_integer e.amount_idr_signed ≡ true)

-- A double-entry transaction: it is identified, it has two sound entries at least, and the entries
-- add up to zero.
pub record IsDoubleEntry (t : LedgerTransaction) : Type 0 where
  pub keyed : is_blank t.event_key ≡ false
  pub typed : is_blank t.reference_type ≡ false
  pub referenced : is_blank t.reference_id ≡ false
  pub paired : 2 ≤ length t.entries
  pub sound : All IsSound t.entries
  pub zero_sum : entry_sum t.entries ≡ pos 0

pub safe_amount : (n : Number) → is_safe_integer n ≡ true → n ≡ int (amount_of n)
safe_amount (int z) h = refl
safe_amount n h = cc

-- From `z` on, no running sum of the entries leaves the integers that a double holds exactly.
abbrev pub StaysExact : ℤ → List LedgerEntry → Type 0
StaysExact z [] = Unit
StaysExact z (e ∷ es) = let w = z +ℤ amount_of e.amount_idr_signed in IsExact w × StaysExact w es

sum_checked_sound :
    (z : ℤ) (es : List LedgerEntry)
    → StaysExact z es
    → All IsSound es
    → sum_checked (int z) es ≡ ok (int (z +ℤ entry_sum es))
unfolding sum_checked
sum_checked_sound z [] x h = ap (λ w. ok (int w)) (sym (+ℤ-zero z))
sum_checked_sound z (e ∷ es) x h =
    let a = amount_of e.amount_idr_signed in
    ground (
      arith,
      safe_amount e.amount_idr_signed h.0.1,
      add_double-exact z a x.0,
      sum_checked_sound (z +ℤ a) es x.1 h.1,
      +ℤ_assoc z a (entry_sum es),
    )

checked-IsSound : (s w : Number) (es : List LedgerEntry) → sum_checked s es ≡ ok w → All IsSound es
unfolding sum_checked
checked-IsSound s w [] h = tt
checked-IsSound s w (e ∷ es) h =
    let rest : All IsSound es =
      checked-IsSound (add_double s e.amount_idr_signed) w es (ground arith) in
    (ground arith, rest)

pub zero_sum_checked :
    (es : List LedgerEntry)
    → 2 ≤ length es
    → StaysExact (pos 0) es
    → All IsSound es
    → entry_sum es ≡ pos 0
    → assert_zero_sum_entries es ≡ ok tt
unfolding assert_zero_sum_entries
zero_sum_checked es l x s z =
    ground (arith, sum_checked_sound (pos 0) es x s, zero-+ℤ (entry_sum es))

checked_zero_sum :
    (es : List LedgerEntry) (r : Result DomainError Number)
    → StaysExact (pos 0) es
    → sum_checked (num 0) es ≡ r
    → assert_zero_sum_entries es ≡ ok tt
    → (2 ≤ length es) × All IsSound es × (entry_sum es ≡ pos 0)
unfolding assert_zero_sum_entries
checked_zero_sum es (err y) x e h = absurd (ground arith)
checked_zero_sum es (ok w) x e h =
    let s : All IsSound es = checked-IsSound (num 0) w es e in
    (ground arith, s, ground (arith, sum_checked_sound (pos 0) es x s, zero-+ℤ (entry_sum es)))

create-IsDoubleEntry :
    (t u : LedgerTransaction) (r : Result DomainError Number)
    → StaysExact (pos 0) t.entries
    → sum_checked (num 0) t.entries ≡ r
    → create_ledger_transaction t ≡ ok u
    → (u ≡ t) × IsDoubleEntry t
unfolding create_ledger_transaction assert_identifier
create-IsDoubleEntry t u r x e h =
    let checked : assert_zero_sum_entries t.entries ≡ ok tt = ground arith in
    let (l, s, z) = checked_zero_sum t.entries r x e checked in
    (
      ground arith,
      record {
        keyed = ground arith;
        typed = ground arith;
        referenced = ground arith;
        paired = l;
        sound = s;
        zero_sum = z;
      },
    )

IsDoubleEntry-create :
    (t : LedgerTransaction)
    → StaysExact (pos 0) t.entries
    → IsDoubleEntry t
    → create_ledger_transaction t ≡ ok t
unfolding create_ledger_transaction assert_identifier
IsDoubleEntry-create t x h =
    ground (arith, zero_sum_checked t.entries h.paired x h.sound h.zero_sum)

-- A ledger transaction whose entries' running sums stay within 2^53 in magnitude, so that none is rounded, is
-- built exactly if it is a double entry: its keys are not blank, it has two entries at least, each of a
-- declared bucket and a safe amount, and they add up to zero. What is built is the input; any other such
-- input is refused.
pub create_iff :
    (t u : LedgerTransaction)
    → StaysExact (pos 0) t.entries
    → (create_ledger_transaction t ≡ ok u) ↔ ((u ≡ t) × IsDoubleEntry t)
create_iff t u x =
    (create-IsDoubleEntry t u _ x refl, λ h. IsDoubleEntry-create t x h.1 ∙ ap ok (sym h.0))

module _ (event_type : LedgerEventType) (key reference_type id : Text)
    (from to : LedgerBucket) where
  abbrev pub transfer_of : ℕ → LedgerTransaction
  transfer_of n = record {
    event_type = event_type;
    event_key = key;
    reference_type = reference_type;
    reference_id = id;
    entries = transfer_entries from to (num n);
  }

  pub transfer-IsDoubleEntry :
      (n : ℕ)
      → is_blank key ≡ false
      → is_blank reference_type ≡ false
      → is_blank id ≡ false
      → is_known_bucket from ≡ true
      → is_known_bucket to ≡ true
      → n ≤ max_safe
      → IsDoubleEntry (transfer_of n)
  unfolding neg_number
  transfer-IsDoubleEntry n k r i f t m = record {
    keyed = k;
    typed = r;
    referenced = i;
    paired = omega arith;
    sound = ground (arith, neg_parts (pos n));
    zero_sum = omega int_laws;
  }

  pub transfer-StaysExact : (n : ℕ) → n ≤ max_safe → StaysExact (pos 0) (transfer_of n).entries
  unfolding neg_number
  transfer-StaysExact n m = (taken, (back, tt))
    where
      taken : IsExact (pos 0 +ℤ neg (pos n))
      taken = rw (zero-+ℤ (neg (pos n))) (omega (arith, neg_parts), omega (arith, neg_parts))

      home : pos 0 +ℤ neg (pos n) +ℤ pos n ≡ pos 0
      home = omega int_laws

      back : IsExact (pos 0 +ℤ neg (pos n) +ℤ pos n)
      back = rw home (omega arith, omega arith)

  pub transfer_ok :
      (n : ℕ)
      → is_blank key ≡ false
      → is_blank reference_type ≡ false
      → is_blank id ≡ false
      → is_known_bucket from ≡ true
      → is_known_bucket to ≡ true
      → 1 ≤ n
      → n ≤ max_safe
      → create_transfer_transaction event_type key reference_type id from to (num n)
        ≡ ok (transfer_of n)
  unfolding create_transfer_transaction assert_safe_amount
  transfer_ok n k r i f t p m = ground (
    arith,
    IsDoubleEntry-create (transfer_of n) (transfer-StaysExact n m)
        (transfer-IsDoubleEntry n k r i f t m),
  )

  -- What a transfer returns, if it returns: the amount was a safe integer of one at least.
  pub ok-transfer :
      (amount : Number) (u : LedgerTransaction)
      → create_transfer_transaction event_type key reference_type id from to amount ≡ ok u
      → (n : ℕ) × (amount ≡ num n)
        × (1 ≤ n)
        × (n ≤ max_safe)
        × (u ≡ transfer_of n)
        × IsDoubleEntry u
  unfolding create_transfer_transaction assert_safe_amount
  ok-transfer (int (pos n)) u h =
      let made : create_ledger_transaction (transfer_of n) ≡ ok u = ground arith in
      let (e, d) = (create_iff (transfer_of n) u (transfer-StaysExact n (ground arith))).0 made in
      (n, refl, ground arith, ground arith, e, rw e d)
  ok-transfer a u h = absurd (ground arith)
