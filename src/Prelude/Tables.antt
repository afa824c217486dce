-- ===== src/Prelude/Tables.antt =====
-- `std::unordered_map` from strings, as an association list. Its order is not looked at.
use c_book.Prelude.{
  ℕ, ◌≡◌, refl, false, List, [], ◌∷◌, Option, none, some, bytes_eq, bytes_eq_refl, bytes_eq_iff,
  if◌then◌else◌, arith,
}

abbrev pub Table {ℓ} : Type ℓ → Type ℓ
Table V = List (List ℕ × V)

module _ {ℓ} {V : Type ℓ} where
  -- `find`, and the value where the key is there.
  abbrev pub find_key : List ℕ → Table V → Option V
  find_key k [] = none
  find_key k ((j, v) ∷ t) = if bytes_eq j k then some v else find_key k t

  -- `m[k] = v`, and a write through a pointer to the value of a key that is there.
  abbrev pub assign : List ℕ → V → Table V → Table V
  assign k v [] = (k, v) ∷ []
  assign k v ((j, w) ∷ t) =
      let rest = assign k v t in if bytes_eq j k then (j, v) ∷ t else (j, w) ∷ rest

  pub find_key-assign : (k : List ℕ) (v : V) (t : Table V) → find_key k (assign k v t) ≡ some v
  find_key-assign k v [] = rw (bytes_eq_refl k) refl
  find_key-assign k v ((j, w) ∷ t) = ground (arith, find_key-assign k v t)

  pub find_key-assign-other :
      (k : List ℕ) (v : V) (i : List ℕ) (t : Table V)
      → bytes_eq k i ≡ false
      → find_key i (assign k v t) ≡ find_key i t
  find_key-assign-other k v i [] h = rw h refl
  find_key-assign-other k v i ((j, w) ∷ t) h =
      ground (arith, find_key-assign-other k v i t h, (bytes_eq_iff j k).0)
