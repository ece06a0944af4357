-- ===== src/Browser/Sets.antt =====
-- `Set<string>` as a list without repetition in insertion order, and `Record<string, string>` as a
-- list of pairs.
use github_action_runners_mu.Prelude.{
  String, false, not, ◌||◌, ◌&&◌, List, [], ◌∷◌, ◌++◌, Option, none, some, ◌≡◌, refl, arith,
  contains, filter, ◌==◌, if◌then◌else◌, contains-append,
}

-- `s.has(x)` is `contains s x`.
-- `s.add(x)`
unfoldable pub add : String → List String → List String
add x s = if contains s x then s else s ++ (x ∷ [])

-- `s.delete(x)`
unfoldable pub delete : String → List String → List String
delete x s = filter (λ y. not (y == x)) s

-- `new Set(xs)`
unfoldable pub set_of : List String → List String → List String
set_of s [] = s
set_of s (x ∷ xs) = set_of (add x s) xs

-- No member twice.
abbrev pub Nodup : List String → Type 0
Nodup [] = Unit
Nodup (x ∷ s) = (contains s x ≡ false) × Nodup s

-- `r[key]` and `{ ...r, [key]: value }`
unfoldable pub get : String → List (String × String) → Option String
get key [] = none
get key ((k, v) ∷ r) = if k == key then some v else get key r

unfoldable pub put : String → String → List (String × String) → List (String × String)
put key value [] = (key, value) ∷ []
put key value ((k, v) ∷ r) = if k == key then (k, value) ∷ r else (k, v) ∷ put key value r

pub contains-add :
    (x y : String) (s : List String) → contains (add x s) y ≡ (contains s y || (x == y))
unfolding add
contains-add x y s = ground (arith, contains-append s (x ∷ []) y)

pub contains-delete :
    (x y : String) (s : List String) → contains (delete x s) y ≡ (contains s y && not (y == x))
unfolding delete
contains-delete x y [] = refl
contains-delete x y (z ∷ s) = ground (arith, contains-delete x y s)

pub contains-set_of :
    (s xs : List String) (y : String) → contains (set_of s xs) y ≡ (contains s y || contains xs y)
unfolding set_of
contains-set_of s [] y = ground arith
contains-set_of s (x ∷ xs) y = ground (arith, contains-set_of (add x s) xs y, contains-add x y s)

Nodup-snoc : (s : List String) (x : String) → Nodup s → contains s x ≡ false → Nodup (s ++ (x ∷ []))
Nodup-snoc [] x h n = (refl, tt)
Nodup-snoc (y ∷ s) x (fresh, h) n = ground (arith, Nodup-snoc s x h, contains-append s (x ∷ []) y)

pub add-Nodup : (x : String) (s : List String) → Nodup s → Nodup (add x s)
unfolding add
add-Nodup x s h = ground (arith, Nodup-snoc s x h)

pub get-put :
    (j k v : String) (r : List (String × String))
    → get j (put k v r) ≡ (if k == j then some v else get j r)
unfolding get put
get-put j k v [] = refl
get-put j k v ((i, w) ∷ r) = ground (arith, get-put j k v r)
