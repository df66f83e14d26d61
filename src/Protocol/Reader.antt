-- ===== src/Protocol/Reader.antt =====
-- Functions that read from a socket and may raise.
use teecam.Prelude.{◌≡◌, refl, ap, ◌∙◌, Bool, if◌then◌else◌, Error, Result, ok, err}
use teecam.Protocol.Stream.{Stream}

abbrev pub Read : Type 0 → Type 0
Read A = Stream → Result A × Stream

module _ {A : Type 0} where
  abbrev pub pure : A → Read A
  pure a s = (ok a, s)

  abbrev pub raise : Error → Read A
  raise e s = (err e, s)

  abbrev pub lift : Result A → Read A
  lift r s = (r, s)

infixl 5 ◌>>=◌ ◌>>◌
abbrev pub ◌>>=◌ : {A B : Type 0} → Read A → (A → Read B) → Read B
◌>>=◌ m f s = let (r, s') = m s in elim r [ ok a ↦ f a s' | err e ↦ (err e, s') ]

abbrev pub ◌>>◌ : {A B : Type 0} → Read A → Read B → Read B
m >> k = m >>= λ _. k

abbrev pub raise_if : Bool → Error → Read (Unit {0})
raise_if test e = lift (if test then err e else ok tt)

pub bind-ok :
    {A B : Type 0} (m : Read A) (f : A → Read B) (s : Stream) {a : A} {t : Stream}
    {p : Result B × Stream}
    → m s ≡ (ok a, t)
    → f a t ≡ p
    → (m >>= f) s ≡ p
bind-ok {A} {B} m f s e g =
    ap {A = Result A × Stream} {B = Result B × Stream}
      (λ r. elim r.0 [ ok a ↦ f a r.1 | err x ↦ (err x, r.1) ]) e
    ∙ g

pub bind-err :
    {A B : Type 0} (m : Read A) (f : A → Read B) (s : Stream) {x : Error}
    → (m s).0 ≡ err x
    → ((m >>= f) s).0 ≡ err x
bind-err m f s e = rw (◌>>=◌, e)

-- A bind that returned has run both parts.
pub bind_inv :
    {A B : Type 0} (m : Read A) (f : A → Read B) (s : Stream) {b : B} {u : Stream}
    → (m >>= f) s ≡ (ok b, u)
    → (a : A) × (t : Stream) × (m s ≡ (ok a, t)) × (f a t ≡ (ok b, u))
bind_inv {A} {B} m f s {b} {u} e = split (m s).0 (m s).1 refl e
  where
    split :
        (r : Result A) (t : Stream)
        → m s ≡ (r, t)
        → ◌≡◌ {A = Result B × Stream} (elim r [ ok a ↦ f a t | err x ↦ (err x, t) ]) (ok b, u)
        → (a : A) × (t : Stream) × (m s ≡ (ok a, t)) × (f a t ≡ (ok b, u))
    split (ok a) t read rest = (a, t, read, rest)
    split (err x) t read rest = absurd (cc (ap (λ (p : Result B × Stream). p.0) rest))
