-- ===== src/GoMap.antt =====
-- Go's built-in `map[K]V` as an association list, and `map[K]struct{}` as the list of its keys. A
-- loop over a map visits the entries in the order of the list.
pub mod Laws
use ipfs_crawler.Prelude.{Bool, true, false, List, [], ◌∷◌, map, Option, none, some, ite}

module _ {K : Type 0} (dec : Discrete K) where
  -- `_, ok := s[k]` on a set
  unfoldable pub contains : K → List K → Bool
  contains k [] = false
  contains k (x ∷ xs) = ite (dec x k) true (contains k xs)

  -- `s[k] = struct{}{}`
  unfoldable pub add : K → List K → List K
  add k [] = k ∷ []
  add k (x ∷ xs) = ite (dec x k) (x ∷ xs) (x ∷ add k xs)

  -- `delete(s, k)`
  unfoldable pub remove : K → List K → List K
  remove k [] = []
  remove k (x ∷ xs) = ite (dec x k) (remove k xs) (x ∷ remove k xs)

module _ {K V : Type 0} (dec : Discrete K) where
  -- `v, ok := m[k]`
  unfoldable pub lookup : K → List (K × V) → Option V
  lookup k [] = none
  lookup k ((j, v) ∷ m) = ite (dec j k) (some v) (lookup k m)

  -- `m[k] = v`
  unfoldable pub insert : K → V → List (K × V) → List (K × V)
  insert k v [] = (k, v) ∷ []
  insert k v ((j, w) ∷ m) = ite (dec j k) ((k, v) ∷ m) ((j, w) ∷ insert k v m)

  -- `delete(m, k)`
  unfoldable pub delete : K → List (K × V) → List (K × V)
  delete k [] = []
  delete k ((j, w) ∷ m) = ite (dec j k) (delete k m) ((j, w) ∷ delete k m)

abbrev pub keys : {K V : Type 0} → List (K × V) → List K
keys = map (λ e. e.0)
