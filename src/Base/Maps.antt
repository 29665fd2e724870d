-- ===== src/Base/Maps.antt =====
-- The SDK's maps from accounts (`LookupMap`, `UnorderedMap`), as association lists in the order of
-- insertion. A write to a key that is present replaces its value in place.
use usn.Base.{
  ℕ, suc, ◌+◌, ◌≡◌, refl, ◌≢◌, Option, none, some, List, [], ◌∷◌, arith, AccountId, same_account,
  same_account_iff, if◌then◌else◌,
}

abbrev pub AccountMap {ℓ} : Type ℓ → Type ℓ
AccountMap V = List (AccountId × V)

-- The number of items, as a native number.
abbrev pub length {ℓ} : {A : Type ℓ} → List A → ℕ
length [] = 0
length (x ∷ xs) = suc (length xs)

module _ {ℓ} {V : Type ℓ} where
  abbrev pub get : AccountId → AccountMap V → Option V
  get k [] = none
  get k ((j, v) ∷ m) = if same_account k j then some v else get k m

  abbrev pub insert : AccountId → V → AccountMap V → AccountMap V
  insert k v [] = (k, v) ∷ []
  insert k v (e ∷ m) = if same_account k e.0 then (k, v) ∷ m else e ∷ insert k v m

  abbrev pub remove : AccountId → AccountMap V → AccountMap V
  remove k [] = []
  remove k (e ∷ m) = if same_account k e.0 then m else e ∷ remove k m

  -- No key stands twice.
  abbrev pub HasDistinctKeys : AccountMap V → Type ℓ
  HasDistinctKeys [] = Unit
  HasDistinctKeys ((k, v) ∷ m) = (get k m ≡ none) × HasDistinctKeys m

  pub get-insert_self : (k : AccountId) (v : V) (m : AccountMap V) → get k (insert k v m) ≡ some v
  get-insert_self k v [] = ground (arith, same_account_iff k k)
  get-insert_self k v (e ∷ m) =
      ground (arith, same_account_iff k k, same_account_iff k e.0, get-insert_self k v m)

  pub get-insert_ne :
      (j k : AccountId) (v : V) (m : AccountMap V) → j ≢ k → get j (insert k v m) ≡ get j m
  get-insert_ne j k v [] h = ground (arith, same_account_iff j k)
  get-insert_ne j k v (e ∷ m) h = ground (
    arith,
    same_account_iff j k,
    same_account_iff k e.0,
    same_account_iff j e.0,
    get-insert_ne j k v m h,
  )

  pub get-insert :
      (j k : AccountId) (v : V) (m : AccountMap V)
      → get j (insert k v m) ≡ (if same_account j k then some v else get j m)
  get-insert j k v [] = refl
  get-insert j k v (e ∷ m) = ground (
    arith,
    same_account_iff j k,
    same_account_iff k e.0,
    same_account_iff j e.0,
    get-insert j k v m,
  )

  pub get-remove_ne : (j k : AccountId) (m : AccountMap V) → j ≢ k → get j (remove k m) ≡ get j m
  get-remove_ne j k [] h = refl
  get-remove_ne j k (e ∷ m) h = ground (
    arith,
    same_account_iff j k,
    same_account_iff k e.0,
    same_account_iff j e.0,
    get-remove_ne j k m h,
  )

  pub get-remove_self :
      (k : AccountId) (m : AccountMap V) → HasDistinctKeys m → get k (remove k m) ≡ none
  get-remove_self k [] h = refl
  get-remove_self k (e ∷ m) h = ground (arith, same_account_iff k e.0, get-remove_self k m h.1)

  pub insert-HasDistinctKeys :
      (k : AccountId) (v : V) (m : AccountMap V)
      → HasDistinctKeys m
      → HasDistinctKeys (insert k v m)
  insert-HasDistinctKeys k v [] h = (refl, tt)
  insert-HasDistinctKeys k v (e ∷ m) h = ground (
    arith,
    same_account_iff k e.0,
    same_account_iff e.0 k,
    insert-HasDistinctKeys k v m h.1,
    get-insert e.0 k v m,
  )

  pub remove-HasDistinctKeys :
      (k : AccountId) (m : AccountMap V) → HasDistinctKeys m → HasDistinctKeys (remove k m)
  remove-HasDistinctKeys k [] h = tt
  remove-HasDistinctKeys k (e ∷ m) h = ground (
    arith,
    same_account_iff k e.0,
    same_account_iff e.0 k,
    remove-HasDistinctKeys k m h.1,
    get-remove_ne e.0 k m,
  )

  -- Writing back the value that was there changes nothing, and of two writes the last stays.
  pub insert-get : (k : AccountId) (v : V) (m : AccountMap V) → get k m ≡ some v → insert k v m ≡ m
  insert-get k v [] h = cc
  insert-get k v (e ∷ m) h = ground (arith, same_account_iff k e.0, insert-get k v m)

  pub insert-insert :
      (k : AccountId) (v w : V) (m : AccountMap V) → insert k w (insert k v m) ≡ insert k w m
  insert-insert k v w [] = ground (arith, same_account_iff k k)
  insert-insert k v w (e ∷ m) =
      ground (arith, same_account_iff k k, same_account_iff k e.0, insert-insert k v w m)

  -- The sum of a number read off each value.
  abbrev pub sum_of : (V → ℕ) → AccountMap V → ℕ
  sum_of f [] = 0
  sum_of f ((_, v) ∷ m) = f v + sum_of f m

  -- The number at a key, 0 where the key is missing.
  abbrev pub at : (V → ℕ) → AccountId → AccountMap V → ℕ
  at f k m = elim (get k m) [ none ↦ 0 | some v ↦ f v ]

  pub sum_of-insert :
      (f : V → ℕ) (k : AccountId) (v : V) (m : AccountMap V)
      → sum_of f (insert k v m) + at f k m ≡ sum_of f m + f v
  sum_of-insert f k v [] = omega arith
  sum_of-insert f k v (e ∷ m) = ground (arith, same_account_iff k e.0, sum_of-insert f k v m)

  pub sum_of-remove :
      (f : V → ℕ) (k : AccountId) (m : AccountMap V) → sum_of f (remove k m) + at f k m ≡ sum_of f m
  sum_of-remove f k [] = omega arith
  sum_of-remove f k (e ∷ m) = ground (arith, same_account_iff k e.0, sum_of-remove f k m)
