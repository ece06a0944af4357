-- ===== src/Prelude/Dict.antt =====
-- Maps by strings as lists of pairs, and how often a text stands in a list.
use Prim.Native.Nat.{ℕ, suc, ◌≤◌}
use Prim.Native.String.{String}
use mathlib.Core.Path.{◌≡◌, refl}
use mathlib.Core.Option.{Option, none, some}
use mathlib.Core.List.{List, [], ◌∷◌}
use native.Mathlib.Omega.{arith}
use github_action_runners_mu.Prelude.Tests.{if◌then◌else◌, ◌==◌}
use github_action_runners_mu.Prelude.Lists.{length}

-- `map[string]A`; `make(map[string]A)` is the empty list.
abbrev pub Dict {ℓ} : Type ℓ → Type ℓ
Dict A = List (String × A)

module _ {ℓ} {A : Type ℓ} where
  -- `a, ok := m[k]`
  unfoldable pub lookup : String → Dict A → Option A
  lookup k [] = none
  lookup k ((j, a) ∷ m) = if j == k then some a else lookup k m

  -- `m[k] = a`
  unfoldable pub store : String → A → Dict A → Dict A
  store k a [] = (k, a) ∷ []
  store k a ((j, b) ∷ m) = if j == k then (k, a) ∷ m else (j, b) ∷ store k a m

  -- `delete(m, k)`
  unfoldable pub discard : String → Dict A → Dict A
  discard k [] = []
  discard k ((j, a) ∷ m) = if j == k then discard k m else (j, a) ∷ discard k m

  -- How often a key stands in a map; a map of the program has each key at most once.
  unfoldable pub occurs : String → Dict A → ℕ
  occurs k [] = 0
  occurs k ((j, a) ∷ m) = if j == k then suc (occurs k m) else occurs k m

  pub occurs-discard :
      (j k : String) (m : Dict A) → occurs j (discard k m) ≡ (if k == j then 0 else occurs j m)
  unfolding occurs discard
  occurs-discard j k [] = ground arith
  occurs-discard j k ((i, a) ∷ m) = ground (arith, occurs-discard j k m)

  pub occurs_of_lookup : (k : String) (m : Dict A) (a : A) → lookup k m ≡ some a → 1 ≤ occurs k m
  unfolding occurs lookup
  occurs_of_lookup k [] a h = ground arith
  occurs_of_lookup k ((j, b) ∷ m) a h = ground (arith, occurs_of_lookup k m a)

  pub occurs-store_new :
      (j k : String) (a : A) (m : Dict A)
      → occurs k m ≡ 0
      → occurs j (store k a m) ≡ (if k == j then suc (occurs j m) else occurs j m)
  unfolding occurs store
  occurs-store_new j k a [] h = ground arith
  occurs-store_new j k a ((i, b) ∷ m) h = ground (arith, occurs-store_new j k a m)

  pub length-store_new :
      (k : String) (a : A) (m : Dict A) → occurs k m ≡ 0 → length (store k a m) ≡ suc (length m)
  unfolding occurs store
  length-store_new k a [] h = refl
  length-store_new k a ((i, b) ∷ m) h = ground (arith, length-store_new k a m)

  pub discard_absent : (k : String) (m : Dict A) → occurs k m ≡ 0 → discard k m ≡ m
  unfolding occurs discard
  discard_absent k [] h = refl
  discard_absent k ((i, b) ∷ m) h = ground (arith, discard_absent k m)

  pub length-discard_one :
      (k : String) (m : Dict A) → occurs k m ≡ 1 → suc (length (discard k m)) ≡ length m
  unfolding occurs discard
  length-discard_one k [] h = ground arith
  length-discard_one k ((i, b) ∷ m) h = ground (arith, length-discard_one k m, discard_absent k m)

  pub occurs-store_old :
      (j k : String) (a : A) (m : Dict A) → 1 ≤ occurs k m → occurs j (store k a m) ≡ occurs j m
  unfolding occurs store
  occurs-store_old j k a [] h = ground arith
  occurs-store_old j k a ((i, b) ∷ m) h = ground (arith, occurs-store_old j k a m)

  pub lookup-store :
      (j k : String) (a : A) (m : Dict A)
      → lookup j (store k a m) ≡ (if k == j then some a else lookup j m)
  unfolding lookup store
  lookup-store j k a [] = refl
  lookup-store j k a ((i, b) ∷ m) = ground (arith, lookup-store j k a m)

  pub lookup-discard :
      (j k : String) (m : Dict A) → lookup j (discard k m) ≡ (if k == j then none else lookup j m)
  unfolding lookup discard
  lookup-discard j k [] = ground arith
  lookup-discard j k ((i, b) ∷ m) = ground (arith, lookup-discard j k m)

  pub length-store : (k : String) (a : A) (m : Dict A) → length (store k a m) ≤ suc (length m)
  unfolding store
  length-store k a [] = omega arith
  length-store k a ((i, b) ∷ m) = ground (arith, length-store k a m)

  pub length-store_old :
      (k : String) (a b : A) (m : Dict A) → lookup k m ≡ some b → length (store k a m) ≡ length m
  unfolding store lookup
  length-store_old k a b [] h = ground arith
  length-store_old k a b ((i, c) ∷ m) h = ground (arith, length-store_old k a b m)

  pub length-discard : (k : String) (m : Dict A) → length (discard k m) ≤ length m
  unfolding discard
  length-discard k [] = omega arith
  length-discard k ((i, b) ∷ m) = ground (arith, length-discard k m)

  pub length-discard_found :
      (k : String) (a : A) (m : Dict A)
      → lookup k m ≡ some a
      → suc (length (discard k m)) ≤ length m
  unfolding discard lookup
  length-discard_found k a [] h = ground arith
  length-discard_found k a ((i, b) ∷ m) h =
      ground (arith, length-discard k m, length-discard_found k a m)

  pub lookup-store_same : (k : String) (a : A) (m : Dict A) → lookup k (store k a m) ≡ some a
  lookup-store_same k a m = ground (arith, lookup-store k k a m)
