-- ===== src/Base/Maps.antt =====
-- Go's `map` with numeric keys: an association list in which a key stands once.
use Prim.Native.Nat.{ℕ, ◌+◌, ◌≤◌}
use mathlib.Core.Path.{◌≡◌, refl}
use mathlib.Core.Logic.{inl, inr}
use mathlib.Core.List.{List, [], ◌∷◌}
use mathlib.Core.Option.{Option, none, some}
use native.Mathlib.Omega.{arith}
use car_video_game_backend.Base.Tests.{◌==◌, if◌then◌else◌, Bool-cases}
use car_video_game_backend.Base.Lists.{length}

abbrev pub Dict {ℓ} : Type ℓ → Type ℓ
Dict V = List (ℕ × V)

module _ {ℓ} {V : Type ℓ} where
  -- v, ok := m[k]
  unfoldable pub lookup : ℕ → Dict V → Option V
  lookup k [] = none
  lookup k ((j, v) ∷ m) = if j == k then some v else lookup k m

  -- m[k] = v
  unfoldable pub insert : ℕ → V → Dict V → Dict V
  insert k v [] = (k, v) ∷ []
  insert k v ((j, w) ∷ m) = if j == k then (k, v) ∷ m else (j, w) ∷ insert k v m

  -- delete(m, k)
  unfoldable pub delete : ℕ → Dict V → Dict V
  delete k [] = []
  delete k ((j, w) ∷ m) = let rest = delete k m in if j == k then rest else (j, w) ∷ rest

  pub lookup-insert :
      (k j : ℕ) (v : V) (m : Dict V)
      → lookup j (insert k v m) ≡ (if k == j then some v else lookup j m)
  unfolding lookup insert
  lookup-insert key other v [] = refl
  lookup-insert key other v ((at, old) ∷ rest) = ground (arith, lookup-insert key other v rest)

  pub lookup-insert_same : (k : ℕ) (v : V) (m : Dict V) → lookup k (insert k v m) ≡ some v
  lookup-insert_same k v m = rw (lookup-insert k k v m) (ground arith)

  -- Writing leaves an entry at every key that had one.
  pub insert_keeps :
      (k j : ℕ) (v : V) (m : Dict V)
      → (w : V) × (lookup j m ≡ some w)
      → (w : V) × (lookup j (insert k v m) ≡ some w)
  insert_keeps k j v m (w, e) = elim (Bool-cases (k == j)) [
    | inl h ↦ (v, rw (lookup-insert k j v m) (ground arith))
    | inr h ↦ (w, rw (lookup-insert k j v m) (ground arith))
  ]

  pub lookup-delete :
      (k j : ℕ) (m : Dict V) → lookup j (delete k m) ≡ (if k == j then none else lookup j m)
  unfolding lookup delete
  lookup-delete k j [] = ground arith
  lookup-delete k j ((i, w) ∷ m) = ground (arith, lookup-delete k j m)

  -- Writing a key that is there keeps the size; writing a new one adds one entry.
  pub length-insert :
      (k : ℕ) (v : V) (m : Dict V)
      → length (insert k v m) ≡ (elim (lookup k m) [ none ↦ length m + 1 | some _ ↦ length m ])
  unfolding lookup insert
  length-insert k v [] = refl
  length-insert k v ((i, w) ∷ m) = ground (arith, length-insert k v m)

  pub length-delete : (k : ℕ) (m : Dict V) → length (delete k m) ≤ length m
  unfolding delete
  length-delete k [] = omega arith
  length-delete k ((i, w) ∷ m) = ground (arith, length-delete k m)

  -- Every entry meets a condition on its key and its value.
  abbrev pub Every {κ} : (ℕ → V → Type κ) → Dict V → Type κ
  Every P [] = Unit
  Every P ((k, v) ∷ m) = P k v × Every P m

  module _ {κ} (P : ℕ → V → Type κ) where
    pub Every-lookup : (k : ℕ) (m : Dict V) {v : V} → Every P m → lookup k m ≡ some v → P k v
    unfolding lookup
    Every-lookup k [] h e = absurd (ground arith)
    Every-lookup k ((i, w) ∷ m) {v} h e = ground (arith, Every-lookup k m {v = v} h.1)

    pub Every-insert : (k : ℕ) (v : V) (m : Dict V) → P k v → Every P m → Every P (insert k v m)
    unfolding insert
    Every-insert k v [] p h = (p, tt)
    Every-insert k v ((i, w) ∷ m) p h = ground (arith, Every-insert k v m p h.1)

    pub Every-delete : (k : ℕ) (m : Dict V) → Every P m → Every P (delete k m)
    unfolding delete
    Every-delete k [] h = tt
    Every-delete k ((i, w) ∷ m) h = ground (arith, Every-delete k m h.1)

  module _ {κ μ} {P : ℕ → V → Type κ} {Q : ℕ → V → Type μ} where
    pub Every-map : ((k : ℕ) (v : V) → P k v → Q k v) → (m : Dict V) → Every P m → Every Q m
    Every-map f [] h = tt
    Every-map f ((i, w) ∷ m) h = (f i w h.0, Every-map f m h.1)

pub ruleset dict_laws = (lookup-insert, lookup-delete)
