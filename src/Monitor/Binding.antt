-- ===== src/Monitor/Binding.antt =====
-- What the program's answers bind: the alerts of the records that `verify_chain` of
-- `OpteeAuditBackend` accepts.
use teecam.Prelude.{ℕ, ◌≡◌, arith, Bool, true, ◌&&◌, Option, none, some, Bytes, Text}
use teecam.Audit.Crypto.{Crypto}
use teecam.Audit.Store.{Record}
use teecam.Monitor.Optee.{is_digest_text, Fields, Program, alert_hash_of}

-- The previous head, the alert hash and the head are digests in lower case, each text the only one of
-- its digest.
pub record AreDigests (f : Fields) : Type 0 where
  pub previous_digest : is_digest_text f.previous_head ≡ true
  pub alert_digest : is_digest_text f.alert_hash ≡ true
  pub head_digest : is_digest_text f.head ≡ true

-- The program does not print VALID for two receipts of digests in lower case with one number and one
-- head unless they agree in the previous head and in the alert. Nothing is asked of its answers to
-- other texts: the client of the repository reads upper-case digits as well.
abbrev pub Binds : Program → Type 0
Binds program =
    (f g : Fields)
    → AreDigests f
    → AreDigests g
    → program.prints_valid f ≡ true
    → program.prints_valid g ≡ true
    → f.sequence ≡ g.sequence
    → f.head ≡ g.head
    → (f.previous_head ≡ g.previous_head) × (f.alert_hash ≡ g.alert_hash)

both : (a b : Bool) → (a && b) ≡ true → (a ≡ true) × (b ≡ true)
both a b h = ground arith

module _ (crypto : Crypto) {Alert : Type 0} (canonical_json : Alert → Bytes)
    (program : Program) where
  -- The alert hash that a record should have.
  abbrev pub hash_of : Record Alert → Option Text
  hash_of r = elim r.alert [
    | none ↦ none
    | some a ↦ some (alert_hash_of crypto canonical_json program a)
  ]

  record Passed (previous : Text) (n : ℕ) (r : Record Alert) (f : Fields) : Type 0 where
    number : f.sequence ≡ n
    previous_head : f.previous_head ≡ previous
    alert_hash : hash_of r ≡ some f.alert_hash
    valid : program.prints_valid f ≡ true
    digests : AreDigests f
