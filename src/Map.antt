-- ===== src/Map.antt =====
-- `std::collections::HashMap` with a number as its key, as an association list. A statement about
-- every such list holds for every order in which Rust may iterate over the map.
use mathlib.Core.Path.{subst}
use tap_tunnel.Prelude.{
  ℕ, ◌≡◌, Option, none, some, List, [], ◌∷◌, ◌==◌, if◌then◌else◌, arith, All, Bool-cases, inl, inr,
}

abbrev pub Map {ℓ} : Type ℓ → Type ℓ
Map V = List (ℕ × V)

module _ {ℓ} {V : Type ℓ} where
  unfoldable pub get : ℕ → Map V → Option V
  get k [] = none
  get k ((j, v) ∷ m) = if j == k then some v else get k m

  unfoldable pub remove : ℕ → Map V → Map V
  remove k [] = []
  remove k ((j, v) ∷ m) = let rest = remove k m in if j == k then rest else (j, v) ∷ rest

  unfoldable pub insert : ℕ → V → Map V → Map V
  insert k v m = (k, v) ∷ remove k m

  unfoldable pub keys : Map V → List ℕ
  keys [] = []
  keys ((k, v) ∷ m) = k ∷ keys m

  pub get-remove : (k j : ℕ) (m : Map V) → get j (remove k m) ≡ (if k == j then none else get j m)
  unfolding get remove
  get-remove k j [] = ground arith
  get-remove k j ((i, v) ∷ m) = ground (arith, get-remove k j m)

  pub get-insert :
      (k j : ℕ) (v : V) (m : Map V) → get j (insert k v m) ≡ (if k == j then some v else get j m)
  unfolding get insert
  get-insert k j v m = ground (arith, get-remove k j m)

module _ {ℓ κ} {V : Type ℓ} (P : ℕ × V → Type κ) where
  pub All-remove : (k : ℕ) (m : Map V) → All P m → All P (remove k m)
  unfolding remove
  All-remove k [] h = tt
  All-remove k ((j, v) ∷ m) h = elim (Bool-cases (j == k)) [
    | inl same ↦ rw same (All-remove k m h.1)
    | inr other ↦ rw other (h.0, All-remove k m h.1)
  ]

  pub All-insert : (k : ℕ) (v : V) (m : Map V) → P (k, v) → All P m → All P (insert k v m)
  unfolding insert
  All-insert k v m p h = (p, All-remove k m h)

  pub All-get : (k : ℕ) (v : V) (m : Map V) → All P m → get k m ≡ some v → P (k, v)
  unfolding get
  All-get k v [] h e = absurd (ground arith)
  All-get k v ((j, w) ∷ m) h e = elim (Bool-cases (j == k)) [
    | inl same ↦ let here : ◌≡◌ {A = ℕ × V} (j, w) (k, v) = ground arith in subst P here h.0
    | inr other ↦ All-get k v m h.1 (rw other at e)
  ]

pub All-mono {ℓ κ} :
    {A : Type ℓ} (P Q : A → Type κ) (xs : List A) → ((a : A) → P a → Q a) → All P xs → All Q xs
All-mono P Q [] f h = tt
All-mono P Q (x ∷ xs) f h = (f x h.0, All-mono P Q xs f h.1)
