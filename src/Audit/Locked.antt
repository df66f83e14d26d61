-- ===== src/Audit/Locked.antt =====
-- The life of an audit store: registrations and alerts in any order, the refused ones included.
use teecam.Prelude.{
  ◌+◌, ◌≤◌, ◌≡◌, ◌≢◌, refl, sym, ◌∙◌, inl, inr, arith, false, ◌==◌, some, Bool-cases, List, [], ◌∷◌,
  Bytes, Result, ok, err, Result-cases,
}
use teecam.Protocol.Wire.{pack}
use teecam.Audit.Hex.{hex, from_hex}
use teecam.Audit.Crypto.{Crypto}
use teecam.Audit.Store.{State, register_model, append, option_eq, is_unset, text_of}
use teecam.Audit.Links.{option_eq→eq}

-- A call of the store.
pub data Command (Alert : Type 0) : Type 0 where
  register : Bytes → Command Alert
  record_alert : Alert → Command Alert

-- The store after a call; a call that raises an exception does so before it assigns to the state.
abbrev pub state_of : {A : Type 0} → State → Result (A × State) → State
state_of st (ok (a, after)) = after
state_of st (err e) = st

-- The second state is of the same store with the same model, and no alert is lost from the count.
pub record Extends (before after : State) : Type 0 where
  pub key : after.key ≡ before.key
  pub model_hash : after.model_hash ≡ before.model_hash
  pub sequence : before.sequence ≤ after.sequence

same : (st : State) → Extends st st
same st = record { key = refl; model_hash = refl; sequence = omega arith }

module _ (crypto : Crypto) {Alert : Type 0} (canonical_json : Alert → Bytes) where
  open crypto use {sha256}

  unfoldable pub obey : Command Alert → State → State
  unfolding register_model append
  obey (register payload) st = state_of st (register_model crypto payload st)
  obey (record_alert a) st = state_of st (append crypto canonical_json a st)

  unfoldable pub obey_all : List (Command Alert) → State → State
  unfolding obey
  obey_all [] st = st
  obey_all (c ∷ cs) st = obey_all cs (obey c st)

  -- What an alert leaves as it is, and what it counts.
  append-Extends :
      (a : Alert) (st : State) → Extends st (state_of st (append crypto canonical_json a st))
  unfolding append
  append-Extends a st = elim (Bool-cases (is_unset st.model_hash)) [
    | inl y ↦ rw (append, y) (same st)
    | inr n ↦ elim (Result-cases (from_hex st.head)) [
      | inr (x, e) ↦ rw (append, n, e) (same st)
      | inl (previous, e) ↦ elim (Result-cases (from_hex (text_of st.model_hash))) [
        | inr (x, f) ↦ rw (append, n, e, f) (same st)
        | inl (model, f) ↦ elim (Result-cases (pack (8 ∷ []) ((st.sequence + 1) ∷ []))) [
          | inr (x, g) ↦ rw (append, n, e, f, g) (same st)
          | inl (counter, g) ↦
              rw (append, n, e, f, g)
                (record { key = refl; model_hash = refl; sequence = omega arith })
        ]
      ]
    ]
  ]

  register_model-Extends :
      (payload : Bytes) (st : State)
      → st.sequence ≢ 0
      → Extends st (state_of st (register_model crypto payload st))
  unfolding register_model
  register_model-Extends payload st h =
      let used : (st.sequence == 0) ≡ false = ground arith in
      elim (Bool-cases (option_eq st.model_hash (some (hex (sha256 payload))))) [
        | inr x ↦ rw (register_model, used, x) (same st)
        | inl x ↦
            rw (register_model, used, x)
              (record { key = refl; model_hash = sym (option_eq→eq _ _ x); sequence = omega arith })
      ]

  obey-Extends : (c : Command Alert) (st : State) → st.sequence ≢ 0 → Extends st (obey c st)
  unfolding obey
  obey-Extends (register payload) st h = register_model-Extends payload st h
  obey-Extends (record_alert a) st h = append-Extends a st

  -- If a store has appended an alert, its key and its model never change and its sequence number
  -- never falls, whatever models are registered and alerts appended after that, in any order.
  pub obey_all-locked :
      (cs : List (Command Alert)) (st : State) → st.sequence ≢ 0 → Extends st (obey_all cs st)
  unfolding obey_all
  obey_all-locked [] st h = same st
  obey_all-locked (c ∷ cs) st h =
      let step = obey-Extends c st h in
      let more : (obey c st).sequence ≢ 0 = λ e. h (omega (arith, step.sequence)) in
      let rest = obey_all-locked cs (obey c st) more in
      record {
        key = rest.key ∙ step.key;
        model_hash = rest.model_hash ∙ step.model_hash;
        sequence = omega (arith, step.sequence, rest.sequence);
      }
