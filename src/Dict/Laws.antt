-- ===== src/Dict/Laws.antt =====
-- What a look-up finds after each operation of a map, and that keys stay in order.
use dpp_bot.Base.{
  ℕ, ◌<◌, ◌≡◌, refl, none, some, [], ◌∷◌, true, arith, ◌==◌, Bool-cases, inl, inr, if◌then◌else◌,
  ◌≢◌,
}
use mathlib.Core.Option
use dpp_bot.Dict.{Map, find, assign, emplace, erase, update, Above, IsOrdered, contains}

module _ {ℓ} {V : Type ℓ} where
  pub find-assign :
      (j k : ℕ) (v : V) (m : Map V) → find j (assign k v m) ≡ (if k == j then some v else find j m)
  unfolding find assign
  find-assign j k v [] = refl
  find-assign j k v ((i, w) ∷ m) = ground (arith, find-assign j k v m)

  pub find-nil : (k : ℕ) → find {V = V} k [] ≡ none
  unfolding find
  find-nil k = refl

  pub find-emplace :
      (j k : ℕ) (v : V) (m : Map V)
      → find j (emplace k v m)
        ≡ (if k == j then some (elim (find k m) [ none ↦ v | some w ↦ w ]) else find j m)
  unfolding emplace
  find-emplace j k v m = ground (arith, find-assign j k v m)

  pub find-erase : (j k : ℕ) (m : Map V) → find j (erase k m) ≡ (if k == j then none else find j m)
  unfolding find erase
  find-erase j k [] = ground arith
  find-erase j k ((i, w) ∷ m) = ground (arith, find-erase j k m)

  pub find-update :
      (j k : ℕ) (f : V → V) (m : Map V)
      → find j (update k f m) ≡ (if k == j then Option.map f (find k m) else find j m)
  unfolding find update
  find-update j k f [] = ground arith
  find-update j k f ((i, w) ∷ m) = ground (arith, find-update j k f m)

  pub update-missing : (k : ℕ) (f : V → V) (m : Map V) → find k m ≡ none → update k f m ≡ m
  unfolding find update
  update-missing k f [] h = refl
  update-missing k f ((i, w) ∷ m) h = ground (arith, update-missing k f m)

  pub erase-missing : (k : ℕ) (m : Map V) → find k m ≡ none → erase k m ≡ m
  unfolding erase find
  erase-missing k [] h = refl
  erase-missing k ((i, w) ∷ m) h = ground (arith, erase-missing k m)

  pub erase-erase : (k : ℕ) (m : Map V) → erase k (erase k m) ≡ erase k m
  unfolding erase
  erase-erase k [] = refl
  erase-erase k ((i, w) ∷ m) = ground (arith, erase-erase k m)

  pub erase-update : (k : ℕ) (f : V → V) (m : Map V) → erase k (update k f m) ≡ erase k m
  unfolding erase update
  erase-update k f [] = refl
  erase-update k f ((i, w) ∷ m) = ground (arith, erase-update k f m)

  -- A write may be replaced by another that agrees with it on the value that is there.
  pub update-agree :
      (k : ℕ) (v : V) (f h : V → V) (m : Map V)
      → find k m ≡ some v
      → f v ≡ h v
      → update k f m ≡ update k h m
  unfolding find update
  update-agree k v f h [] e p = refl
  update-agree k v f h ((i, w) ∷ m) e p = ground (arith, update-agree k v f h m)

  pub update-ext :
      (k : ℕ) (f h : V → V) (m : Map V) → ((v : V) → f v ≡ h v) → update k f m ≡ update k h m
  unfolding update
  update-ext k f h [] p = refl
  update-ext k f h ((i, w) ∷ m) p = ground (arith, update-ext k f h m p, p w)

  pub update-id : (k : ℕ) (f : V → V) (m : Map V) → ((v : V) → f v ≡ v) → update k f m ≡ m
  unfolding update
  update-id k f [] p = refl
  update-id k f ((i, w) ∷ m) p = ground (arith, update-id k f m p, p w)

  pub update-update :
      (k : ℕ) (f h : V → V) (m : Map V) → update k h (update k f m) ≡ update k (λ v. h (f v)) m
  unfolding update
  update-update k f h [] = refl
  update-update k f h ((i, w) ∷ m) = ground (arith, update-update k f h m)

  Above-weaken : {n k : ℕ} (m : Map V) → n < k → Above k m → Above n m
  Above-weaken [] h a = tt
  Above-weaken (e ∷ m) h a = (omega arith, a.1)

  assign-Above : (n k : ℕ) (v : V) (m : Map V) → n < k → Above n m → Above n (assign k v m)
  unfolding assign
  assign-Above n k v [] h a = (h, tt)
  assign-Above n k v ((j, w) ∷ m) h a = ground (arith, assign-Above j k v m)

  pub assign-IsOrdered : (k : ℕ) (v : V) (m : Map V) → IsOrdered m → IsOrdered (assign k v m)
  unfolding assign
  assign-IsOrdered k v [] a = tt
  assign-IsOrdered k v ((j, w) ∷ m) a = ground (arith, assign-Above j k v m)

  pub Above-IsOrdered : (n : ℕ) (m : Map V) → Above n m → IsOrdered m
  Above-IsOrdered n [] a = tt
  Above-IsOrdered n (e ∷ m) a = a.1

  erase-Above : (n k : ℕ) (m : Map V) → Above n m → Above n (erase k m)
  unfolding erase
  erase-Above n k [] a = tt
  erase-Above n k ((j, w) ∷ m) a =
      ground (arith, erase-Above j k m, erase-Above n k m (Above-weaken m a.0 a.1))

  pub erase-IsOrdered : (k : ℕ) (m : Map V) → IsOrdered m → IsOrdered (erase k m)
  unfolding erase
  erase-IsOrdered k [] a = tt
  erase-IsOrdered k ((j, w) ∷ m) a = elim (Bool-cases (j == k)) [
    | inl hit ↦ rw hit (Above-IsOrdered j (erase k m) (erase-Above j k m a))
    | inr miss ↦ rw miss (erase-Above j k m a)
  ]

  pub emplace-IsOrdered : (k : ℕ) (v : V) (m : Map V) → IsOrdered m → IsOrdered (emplace k v m)
  unfolding emplace
  emplace-IsOrdered k v m a = ground (arith, assign-IsOrdered k v m a)

  update-Above : (n k : ℕ) (f : V → V) (m : Map V) → Above n m → Above n (update k f m)
  unfolding update
  update-Above n k f [] a = tt
  update-Above n k f ((j, w) ∷ m) a = ground (arith, update-Above j k f m)

  pub update-IsOrdered : (k : ℕ) (f : V → V) (m : Map V) → IsOrdered m → IsOrdered (update k f m)
  unfolding update
  update-IsOrdered k f [] a = tt
  update-IsOrdered k f ((j, w) ∷ m) a = ground (arith, update-Above j k f m a)

  pub contains_iff_find : (k : ℕ) (m : Map V) → contains k m ≡ true → find k m ≢ none
  unfolding contains
  contains_iff_find k m h = ground arith
