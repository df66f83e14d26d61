-- ===== src/Gateway/Storage.antt =====
-- The gateway's storage as a map from keys to values, and the bounds on what it holds.
use teecam.Prelude.{
  ◌≤◌, ◌≡◌, refl, ap, inl, inr, arith, if◌then◌else◌, Option, none, some, [], ◌∷◌, length, Bytes,
  All, Option-cases, text_eq, text_eq_iff, text_eq→eq, Dict, lookup, IsDict, lookup-insert,
  lookup-erase, insert-IsDict, erase-IsDict, All-insert, All-erase,
}
use teecam.Protocol.Message.{
  Operation, put, get, delete, Status, status_ok, not_found, max_key_bytes, max_value_bytes,
}
use teecam.Protocol.Encoding.{IsAllowed}
use teecam.Gateway.Handler.{perform}

-- The map that the storage stands for, and what each operation does to it.
abbrev pub Store : Type 0
Store = Bytes → Option Bytes

abbrev pub view : Dict Bytes → Store
view d k = lookup k d

abbrev pub found_status : Option Bytes → Status
found_status none = not_found
found_status (some v) = status_ok

abbrev pub found_value : Option Bytes → Bytes
found_value none = []
found_value (some v) = v

-- The status of a request, its response's value, and the store at `j` afterwards.
abbrev pub status_of_store : Operation → Bytes → Store → Status
status_of_store put k m = status_ok
status_of_store get k m = found_status (m k)
status_of_store delete k m = found_status (m k)

abbrev pub value_of_store : Operation → Bytes → Store → Bytes
value_of_store put k m = []
value_of_store get k m = found_value (m k)
value_of_store delete k m = []

abbrev pub store_after : Operation → Bytes → Bytes → Store → Store
store_after put k v m j = if text_eq k j then some v else m j
store_after get k v m j = m j
store_after delete k v m j = if text_eq k j then none else m j

-- If no key stands twice in the storage, the branches of `_handle` implement the store: the answer
-- is the store's, and so is the storage that they leave, at every key.
pub perform-store :
    (o : Operation) (k v : Bytes) (d : Dict Bytes)
    → IsDict d
    → ((perform o k v d).status ≡ status_of_store o k (view d))
      × ((perform o k v d).response_value ≡ value_of_store o k (view d))
      × ((j : Bytes) → view (perform o k v d).storage j ≡ store_after o k v (view d) j)
unfolding perform
perform-store put k v d h = (refl, refl, λ j. lookup-insert k j v d)
perform-store get k v d h = elim (Option-cases (lookup k d)) [
  | inl e ↦ rw (perform, e) (refl, refl, λ j. refl)
  | inr (w, e) ↦ rw (perform, e) (refl, refl, λ j. refl)
]
perform-store delete k v d h = elim (Option-cases (lookup k d)) [
  | inl e ↦
      rw (perform, e)
        (refl, refl, λ j. ground (arith, text_eq_iff k j, ap (λ (x : Bytes). lookup x d)))
  | inr (w, e) ↦ rw (perform, e) (refl, refl, λ j. lookup-erase k j d h)
]

-- An entry that the protocol lets in.
abbrev IsEntry : Bytes × Bytes → Type 0
IsEntry (k, v) = (1 ≤ length k) × (length k ≤ max_key_bytes) × (length v ≤ max_value_bytes)

pub record IsValid (d : Dict Bytes) : Type 0 where
  pub no_key_twice : IsDict d
  pub bounded : All IsEntry d

pub perform-IsValid :
    (o : Operation) (k v : Bytes) (d : Dict Bytes)
    → IsAllowed o k v
    → IsValid d
    → IsValid (perform o k v d).storage
unfolding perform
perform-IsValid put k v d a h = record {
  no_key_twice = insert-IsDict k v d h.no_key_twice;
  bounded =
      let entry : IsEntry (k, v) = (a.key_pos, a.key_le, a.value_le) in
      All-insert IsEntry k v d (λ j e. rw (text_eq→eq j k e) entry) entry h.bounded;
}
perform-IsValid get k v d a h = elim (Option-cases (lookup k d)) [
  | inl e ↦ rw (perform, e) h
  | inr (w, e) ↦ rw (perform, e) h
]
perform-IsValid delete k v d a h = elim (Option-cases (lookup k d)) [
  | inl e ↦ rw (perform, e) h
  | inr (w, e) ↦
      rw (perform, e)
        (record {
          no_key_twice = erase-IsDict k d h.no_key_twice;
          bounded = All-erase IsEntry k d h.bounded;
        })
]

lookup-bounded :
    (k v : Bytes) (d : Dict Bytes)
    → All IsEntry d
    → lookup k d ≡ some v
    → length v ≤ max_value_bytes
unfolding lookup
lookup-bounded k v [] h e = cc
lookup-bounded k v ((j, w) ∷ d) h e = ground (arith, lookup-bounded k v d h.1)

-- A value that is answered fits a response.
pub perform-bounded :
    (o : Operation) (k v : Bytes) (d : Dict Bytes)
    → IsValid d
    → length (perform o k v d).response_value ≤ max_value_bytes
unfolding perform
perform-bounded put k v d h = omega arith
perform-bounded get k v d h = elim (Option-cases (lookup k d)) [
  | inl e ↦ rw (perform, e) (omega arith)
  | inr (w, e) ↦ rw (perform, e) (lookup-bounded k w d h.bounded e)
]
perform-bounded delete k v d h = elim (Option-cases (lookup k d)) [
  | inl e ↦ rw (perform, e) (omega arith)
  | inr (w, e) ↦ rw (perform, e) (omega arith)
]
