-- ===== src/Audit/Crypto.antt =====
-- What cote3mon/audit_store.py takes from `hashlib`, `hmac` and `json`, and the message that a
-- receipt authenticates.
use teecam.Prelude.{◌≡◌, ◌≢◌, ◌++◌, length, replicate, Bytes, codes, IsBytes}

-- SHA-256 and HMAC-SHA-256: functions into 32 bytes.
pub record Crypto : Type 0 where
  pub sha256 : Bytes → Bytes
  pub hmac : Bytes → Bytes → Bytes
  pub length-sha256 : (m : Bytes) → length (sha256 m) ≡ 32
  pub sha256-IsBytes : (m : Bytes) → IsBytes (sha256 m)
  pub length-hmac : (k m : Bytes) → length (hmac k m) ≡ 32
  pub hmac-IsBytes : (k m : Bytes) → IsBytes (hmac k m)

-- Two different inputs with one digest.
abbrev pub Collides : (Bytes → Bytes) → Type 0
Collides digest = (x : Bytes) × (y : Bytes) × (x ≢ y) × (digest x ≡ digest y)

-- b"C3MAUDIT1"
abbrev pub domain : Bytes
domain = codes "C3MAUDIT1"

-- ZERO_HASH = bytes(32)
unfoldable pub zero_hash : Bytes
unfolding replicate
zero_hash = replicate 32 0

-- `DOMAIN + struct.pack("!Q", sequence) + previous + alert_hash + model_hash`, after the packing
unfoldable pub message : Bytes → Bytes → Bytes → Bytes → Bytes
message sequence previous alert_hash model_hash =
    domain ++ (sequence ++ (previous ++ (alert_hash ++ model_hash)))
