-- ===== src/Audit/Tamper.antt =====
-- The receipt chain binds what was appended: two record files that one store accepts say the same,
-- or contain two inputs that SHA-256 or HMAC-SHA-256 does not tell apart.
use teecam.Prelude.{
  ℕ, ◌+◌, ◌≡◌, ◌≢◌, ◌⊎◌, refl, sym, ap, ◌∙◌, inl, inr, arith, true, some, Bool-cases, List, [], ◌∷◌,
  map, length, append-eq-append, Bytes, Text, text_eq, text_eq→eq, text_eq-false, ok,
}
use teecam.Protocol.Wire.{packed}
use teecam.Audit.Hex.{hex}
use teecam.Audit.Crypto.{Crypto, message, domain, zero_hash}
use teecam.Audit.Store.{State, Record, check_records, verify_chain, decoded, text_of, get_or}
use teecam.Audit.Chain.{decoded-hex, zero_hash-IsDigest}
use teecam.Audit.Links.{head_text, alert_bytes, Link, decoded-text_of, check_record-Link}
use teecam.Audit.Loop.{check_records-cons, check_records-count, verify_chain-eq-true}

-- At some place of the two lists stand different inputs with one digest.
abbrev pub Clash : (Bytes → Bytes) → List Bytes → List Bytes → Type 0
Clash digest [] ys = ⊥
Clash digest (x ∷ xs) [] = ⊥
Clash digest (x ∷ xs) (y ∷ ys) = ((x ≢ y) × (digest x ≡ digest y)) ⊎ Clash digest xs ys

-- The bytes that a text spells, none where it spells none.
abbrev pub bytes_of : Text → Bytes
bytes_of t = get_or [] (decoded (some t))

-- Messages of one number are of one previous head and one alert.
message-injective :
    (n p q a b m l : Bytes)
    → length p ≡ length q
    → length a ≡ length b
    → message n p a m ≡ message n q b l
    → (p ≡ q) × (a ≡ b)
unfolding message
message-injective n p q a b m l hp ha e =
    let tail = (append-eq-append domain domain refl e).1 in
    let body = (append-eq-append n n refl tail).1 in
    let first = append-eq-append p q hp body in (first.0, (append-eq-append a b ha first.1).0)

bytes_of-some : (t : Text) {bs : Bytes} → decoded (some t) ≡ some bs → bytes_of t ≡ bs
bytes_of-some t e = ap (get_or []) e

module _ (crypto : Crypto) {Alert : Type 0} (canonical_json : Alert → Bytes)
    (no_alert : Alert) where
  open crypto use {sha256, hmac, length-sha256, length-hmac}

  -- The canonical bytes of the alerts of a records file, in order.
  abbrev pub contents : List (Record Alert) → List Bytes
  contents = map (alert_bytes crypto canonical_json no_alert)

  -- The messages that the receipts of a records file authenticate after `n` records with a last
  -- head of the text `previous`.
  abbrev pub messages : State → Text → ℕ → List (Record Alert) → List Bytes
  messages st previous n [] = []
  messages st previous n (r ∷ rs) =
      message (packed (8 ∷ []) ((n + 1) ∷ [])) (bytes_of previous)
        (sha256 (alert_bytes crypto canonical_json no_alert r)) (bytes_of (text_of st.model_hash))
      ∷ messages st (head_text r) (n + 1) rs

  -- Two rests of chains agree from their starting heads on, or contain a clash.
  abbrev Agree : State → Text → Text → ℕ → List (Record Alert) → List (Record Alert) → Type 0
  Agree st p q n rs ss =
      ((bytes_of p ≡ bytes_of q) × (contents rs ≡ contents ss))
      ⊎ (Clash (hmac st.key) (messages st p n rs) (messages st q n ss)
          ⊎ Clash sha256 (contents rs) (contents ss))

  -- What a link says in terms of `bytes_of`.
  Link-authentic :
      (st : State) (n : ℕ) (p : Text) (r : Record Alert)
      → Link crypto canonical_json no_alert st n p r
      → hmac st.key (
          message
            (packed (8 ∷ []) (n ∷ []))
            (bytes_of p)
            (sha256 (alert_bytes crypto canonical_json no_alert r))
            (bytes_of (text_of st.model_hash)))
        ≡ bytes_of (head_text r)
  Link-authentic st n p r l =
      rw
        (
          bytes_of-some p l.decodes_previous,
          bytes_of-some (text_of st.model_hash) (decoded-text_of st.model_hash l.decodes_model),
          bytes_of-some (head_text r) l.decodes_head,
        )
        l.authentic

  -- One record more in front of rests that agree.
  Agree-cons :
      (st : State) (n : ℕ) (p q : Text) (r s : Record Alert) (rs ss : List (Record Alert))
      → length (bytes_of p) ≡ length (bytes_of q)
      → Link crypto canonical_json no_alert st (n + 1) p r
      → Link crypto canonical_json no_alert st (n + 1) q s
      → Agree st (head_text r) (head_text s) (n + 1) rs ss
      → Agree st p q n (r ∷ rs) (s ∷ ss)
  Agree-cons st n p q r s rs ss size l k (inr (inl c)) = inr (inl (inr c))
  Agree-cons st n p q r s rs ss size l k (inr (inr c)) = inr (inr (inr c))
  Agree-cons st n p q r s rs ss size l k (inl (heads, rest)) =
      let same : hmac st.key (message counter (bytes_of p) (sha256 (alert r)) model)
          ≡ hmac st.key (message counter (bytes_of q) (sha256 (alert s)) model) =
        Link-authentic st (n + 1) p r l ∙ heads ∙ sym (Link-authentic st (n + 1) q s k) in
      elim (Bool-cases (
        text_eq (message counter (bytes_of p) (sha256 (alert r)) model)
          (message counter (bytes_of q) (sha256 (alert s)) model))) [
            | inr x ↦ inr (inl (inl (text_eq-false _ _ x, same)))
            | inl x ↦
                let parts =
                  message-injective counter (bytes_of p) (bytes_of q) (sha256 (alert r))
                    (sha256 (alert s)) model model size
                    (length-sha256 (alert r) ∙ sym (length-sha256 (alert s))) (text_eq→eq _ _ x) in
                elim (Bool-cases (text_eq (alert r) (alert s))) [
                  | inl y ↦ inl (parts.0, cons (text_eq→eq _ _ y) rest)
                  | inr y ↦ inr (inr (inl (text_eq-false _ _ y, parts.1)))
                ]
          ]
    where
      alert : Record Alert → Bytes
      alert t = alert_bytes crypto canonical_json no_alert t

      counter : Bytes
      counter = packed (8 ∷ []) ((n + 1) ∷ [])

      model : Bytes
      model = bytes_of (text_of st.model_hash)

      cons : {x y : Bytes} {xs ys : List Bytes} → x ≡ y → xs ≡ ys → x ∷ xs ≡ y ∷ ys
      cons e f = cc

  length-head_text :
      (st : State) (n : ℕ) (p : Text) (r : Record Alert)
      → Link crypto canonical_json no_alert st n p r
      → length (bytes_of (head_text r)) ≡ 32
  length-head_text st n p r l = sym (ap length (Link-authentic st n p r l)) ∙ length-hmac _ _

  check_records-Agree :
      (st : State) (n : ℕ) (p q : Text) (rs ss : List (Record Alert)) {end : ℕ × Text}
      → length (bytes_of p) ≡ 32
      → length (bytes_of q) ≡ 32
      → check_records crypto canonical_json no_alert st p n p rs ≡ ok (some end)
      → check_records crypto canonical_json no_alert st q n q ss ≡ ok (some end)
      → Agree st p q n rs ss
  unfolding check_records
  check_records-Agree st n p q [] [] hp hq e f =
      let same : p ≡ q = cc (e ∙ sym f) in inl (ap bytes_of same, refl)
  check_records-Agree st n p q [] (s ∷ ss) hp hq e f = absurd (
      omega (
        arith,
        check_records-count crypto canonical_json no_alert st p n p [] e,
        check_records-count crypto canonical_json no_alert st q n q (s ∷ ss) f,
      ))
  check_records-Agree st n p q (r ∷ rs) [] hp hq e f = absurd (
      omega (
        arith,
        check_records-count crypto canonical_json no_alert st p n p (r ∷ rs) e,
        check_records-count crypto canonical_json no_alert st q n q [] f,
      ))
  check_records-Agree st n p q (r ∷ rs) (s ∷ ss) hp hq e f =
      let left = check_records-cons crypto canonical_json no_alert st p n p r rs e in
      let right = check_records-cons crypto canonical_json no_alert st q n q s ss f in
      let l = check_record-Link crypto canonical_json no_alert st p (n + 1) r left.0 in
      let k = check_record-Link crypto canonical_json no_alert st q (n + 1) s right.0 in
      Agree-cons st n p q r s rs ss (hp ∙ sym hq) l k (
        check_records-Agree st (n + 1) (head_text r) (head_text s) rs ss
          (length-head_text st (n + 1) p r l) (length-head_text st (n + 1) q s k) left.1 right.1)

  -- If a store accepts two lists of records as its current chain, they carry the same alerts, byte
  -- for byte and in order, or their authenticated messages differ at some record with one HMAC, or
  -- their alerts differ at some record with one SHA-256 digest.
  pub verify_chain-binds :
      (st : State) (rs ss : List (Record Alert))
      → verify_chain crypto canonical_json no_alert st rs true ≡ ok true
      → verify_chain crypto canonical_json no_alert st ss true ≡ ok true
      → (contents rs ≡ contents ss)
        ⊎ (Clash (hmac st.key) (messages st (hex zero_hash) 0 rs) (messages st (hex zero_hash) 0 ss)
            ⊎ Clash sha256 (contents rs) (contents ss))
  verify_chain-binds st rs ss e f =
      let zero = bytes_of-some (hex zero_hash) (decoded-hex zero_hash (zero_hash-IsDigest.bytes)) in
      let size = ap length zero ∙ zero_hash-IsDigest.size in
      elim (check_records-Agree st 0 (hex zero_hash) (hex zero_hash) rs ss size size
        (verify_chain-eq-true crypto canonical_json no_alert st rs e)
        (verify_chain-eq-true crypto canonical_json no_alert st ss f)) [
          | inl (heads, same) ↦ inl same
          | inr c ↦ inr c
        ]
