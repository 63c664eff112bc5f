-- ===== src/GoMap/Laws.antt =====
-- What a map and a set hold after an update.
use ipfs_crawler.Prelude.{
  ◌+◌, ◌≡◌, refl, true, false, List, [], ◌∷◌, ◌++◌, none, some, ite, is_some, arith, ◌||◌, length,
}
use ipfs_crawler.GoMap.{contains, add, remove, lookup, insert, delete, keys}

module _ {K : Type 0} (dec : Discrete K) where
  -- No key stands twice.
  abbrev pub Distinct : List K → Type 0
  Distinct [] = Unit
  Distinct (x ∷ xs) = (contains dec x xs ≡ false) × Distinct xs

  pub contains-add :
      (k j : K) (s : List K) → contains dec k (add dec j s) ≡ ite (dec j k) true (contains dec k s)
  unfolding contains add
  contains-add k j [] = refl
  contains-add k j (x ∷ s) = ground (arith, contains-add k j s)

  pub contains-remove :
      (k j : K) (s : List K)
      → contains dec k (remove dec j s) ≡ ite (dec j k) false (contains dec k s)
  unfolding contains remove
  contains-remove k j [] = ground arith
  contains-remove k j (x ∷ s) = ground (arith, contains-remove k j s)

  pub contains-append :
      (k : K) (s t : List K) → contains dec k (s ++ t) ≡ (contains dec k s || contains dec k t)
  unfolding contains
  contains-append k [] t = refl
  contains-append k (x ∷ s) t = ground (arith, contains-append k s t)

  pub Distinct-add : (k : K) (s : List K) → Distinct s → Distinct (add dec k s)
  unfolding contains add
  Distinct-add k [] h = (refl, tt)
  Distinct-add k (x ∷ s) h = ground (arith, Distinct-add k s, contains-add x k s)

  pub Distinct-concat :
      (k : K) (s : List K) → contains dec k s ≡ false → Distinct s → Distinct (s ++ k ∷ [])
  unfolding contains
  Distinct-concat k [] e h = (refl, tt)
  Distinct-concat k (x ∷ s) e h = ground (arith, Distinct-concat k s, contains-append x s (k ∷ []))

  pub remove_absent : (k : K) (s : List K) → contains dec k s ≡ false → remove dec k s ≡ s
  unfolding contains remove
  remove_absent k [] e = refl
  remove_absent k (x ∷ s) e = ground (arith, remove_absent k s)

  pub length-remove :
      (k : K) (s : List K)
      → Distinct s
      → contains dec k s ≡ true
      → length (remove dec k s) + 1 ≡ length s
  unfolding contains remove
  length-remove k [] d h = cc
  length-remove k (x ∷ s) d h = ground (arith, length-remove k s, remove_absent k s)

module _ {K V : Type 0} (dec : Discrete K) where
  pub lookup-insert :
      (k j : K) (v : V) (m : List (K × V))
      → lookup dec k (insert dec j v m) ≡ ite (dec j k) (some v) (lookup dec k m)
  unfolding lookup insert
  lookup-insert k j v [] = refl
  lookup-insert k j v ((i, w) ∷ m) = ground (arith, lookup-insert k j v m)

  pub lookup-delete :
      (k j : K) (m : List (K × V))
      → lookup dec k (delete dec j m) ≡ ite (dec j k) none (lookup dec k m)
  unfolding lookup delete
  lookup-delete k j [] = ground arith
  lookup-delete k j ((i, w) ∷ m) = ground (arith, lookup-delete k j m)

  pub contains-keys :
      (k : K) (m : List (K × V)) → contains dec k (keys m) ≡ is_some (lookup dec k m)
  unfolding lookup contains
  contains-keys k [] = refl
  contains-keys k ((i, w) ∷ m) = ground (arith, contains-keys k m)

  pub keys-insert :
      (k : K) (v : V) (m : List (K × V)) → keys (insert dec k v m) ≡ add dec k (keys m)
  unfolding insert add
  keys-insert k v [] = refl
  keys-insert k v ((i, w) ∷ m) = ground (arith, keys-insert k v m)
