-- ===== src/Audit/Loop.antt =====
-- The loop of `verify_chain`: what it has done when it comes to its end.
use teecam.Prelude.{
  ℕ, ◌+◌, ◌≡◌, refl, ap, ◌∙◌, inl, inr, arith, Bool, true, false, ◌==◌, ==_iff, none, some, Option,
  Bool-cases, List, [], ◌∷◌, length, Bytes, Text, text_eq→eq, Result, ok, Result-cases, >>=-eq-ok,
}
use teecam.Audit.Hex.{hex}
use teecam.Audit.Crypto.{Crypto, zero_hash}
use teecam.Audit.Store.{State, Record, check_record, check_records, verify_chain, is_current}
use teecam.Audit.Links.{head_text}

is_current-eq-true :
    (st : State) (n : ℕ) (t : Text)
    → is_current st true (some (n, t)) ≡ true
    → (n ≡ st.sequence) × (t ≡ st.head)
unfolding is_current
is_current-eq-true st n t e = elim (Bool-cases (n == st.sequence)) [
  | inl x ↦ ((==_iff n st.sequence).0 x, text_eq→eq t st.head (rw x at e))
  | inr x ↦ absurd (let k = rw x at e in cc)
]

is_current-some :
    (st : State) (current : Bool) (o : Option (ℕ × Text))
    → is_current st current o ≡ true
    → (p : ℕ × Text) × (o ≡ some p)
unfolding is_current
is_current-some st current none e = cc
is_current-some st current (some p) e = (p, refl)

abbrev finished : ℕ × Text → Result (Option (ℕ × Text))
finished p = ok (some p)

finished-injective : {p q : ℕ × Text} → finished p ≡ finished q → p.0 ≡ q.0
finished-injective e = cc

module _ (crypto : Crypto) {Alert : Type 0} (canonical_json : Alert → Bytes)
    (no_alert : Alert) where
  pub check_records-cons :
      (st : State) (previous : Text) (n : ℕ) (last : Text) (r : Record Alert)
      (rs : List (Record Alert)) {p : ℕ × Text}
      → check_records crypto canonical_json no_alert st previous n last (r ∷ rs) ≡ ok (some p)
      → (check_record crypto canonical_json no_alert st previous (n + 1) r ≡ ok true)
        × (check_records crypto canonical_json no_alert st (head_text r) (n + 1) (head_text r) rs
            ≡ ok (some p))
  unfolding check_records
  check_records-cons st previous n last r rs e =
      elim (Result-cases (check_record crypto canonical_json no_alert st previous (n + 1) r)) [
        | inr (x, h) ↦ absurd (let k = rw (check_records, h) at e in cc)
        | inl (true, h) ↦ (h, rw (check_records, h) at e)
        | inl (false, h) ↦ absurd (let k = rw (check_records, h) at e in cc)
      ]

  pub check_records-count :
      (st : State) (previous : Text) (n : ℕ) (last : Text) (rs : List (Record Alert)) {p : ℕ × Text}
      → check_records crypto canonical_json no_alert st previous n last rs ≡ ok (some p)
      → p.0 ≡ n + length rs
  unfolding check_records
  check_records-count st previous n last [] e = omega (arith, finished-injective e)
  check_records-count st previous n last (r ∷ rs) e = omega (
    arith,
    check_records-count st (head_text r) (n + 1) (head_text r) rs
        (check_records-cons st previous n last r rs e).1,
  )

  -- An accepted chain has come to the sequence number and the head of the store.
  pub verify_chain-eq-true :
      (st : State) (rs : List (Record Alert))
      → verify_chain crypto canonical_json no_alert st rs true ≡ ok true
      → check_records crypto canonical_json no_alert st (hex zero_hash) 0 (hex zero_hash) rs
        ≡ ok (some (st.sequence, st.head))
  unfolding verify_chain
  verify_chain-eq-true st rs e =
      let run =
        >>=-eq-ok
          (check_records crypto canonical_json no_alert st (hex zero_hash) 0 (hex zero_hash) rs) _
          e in
      let current : is_current st true run.0 ≡ true = cc run.2 in
      let reached = is_current-some st true run.0 current in
      let ends = is_current-eq-true st reached.0.0 reached.0.1 (rw reached.1 at current) in
      run.1 ∙ ap ok (reached.1 ∙ ap some (pair ends.0 ends.1))
    where
      pair : {p q : ℕ × Text} → p.0 ≡ q.0 → p.1 ≡ q.1 → p ≡ q
      pair x y = cc

  -- If `verify_chain` accepts records as the current chain, there are as many as the store has
  -- appended: a chain that is cut at its end is not accepted.
  pub verify_chain-length :
      (st : State) (rs : List (Record Alert))
      → verify_chain crypto canonical_json no_alert st rs true ≡ ok true
      → length rs ≡ st.sequence
  verify_chain-length st rs e = omega (
    arith,
    check_records-count st (hex zero_hash) 0 (hex zero_hash) rs (verify_chain-eq-true st rs e),
  )
