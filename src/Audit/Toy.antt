-- ===== src/Audit/Toy.antt =====
-- Toy digests for the tests, in place of SHA-256 and HMAC-SHA-256.
use teecam.Prelude.{ℕ, ◌+◌, ◌*◌, [], ◌∷◌, ◌++◌, Bytes}
use teecam.Protocol.Wire.{be, length-be, be-IsBytes}
use teecam.Audit.Crypto.{Crypto}

unfoldable pub polynomial : Bytes → ℕ
polynomial [] = 7
polynomial (b ∷ bs) = b + 31 * polynomial bs

abbrev pub toy_crypto : Crypto
toy_crypto = record {
  sha256 = λ m. be 32 (polynomial m);
  hmac = λ k m. be 32 (polynomial (k ++ m));
  length-sha256 = λ m. length-be 32 _;
  sha256-IsBytes = λ m. be-IsBytes 32 _;
  length-hmac = λ k m. length-be 32 _;
  hmac-IsBytes = λ k m. be-IsBytes 32 _;
}
