-- ===== src/Transactions/Updates.antt =====
-- What a write at an index leaves as it was.
use anzen.Prelude.{
  ℕ, zero, suc, ◌≡◌, ◌≢◌, refl, some, List, [], ◌∷◌, map, arith, get_elem?, length, nat_eq,
}
use anzen.Bitcoin.{key_leaf_eq}
use anzen.Transactions.Construct.{update_at}

module _ {ℓ} {A : Type ℓ} where
  pub update_at-same :
      (xs : List A) (i : ℕ) (f : A → A) (ys : List A) (x : A)
      → update_at xs i f ≡ some ys
      → get_elem? xs i ≡ some x
      → get_elem? ys i ≡ some (f x)
  update_at-same [] i f ys x h e = cc
  update_at-same (a ∷ xs) zero f ys x h e = ground arith
  update_at-same (a ∷ xs) (suc i) f ys x h e =
      grind (arith, λ (zs : List A). update_at-same xs i f zs x)

  pub update_at-other :
      (xs : List A) (i : ℕ) (f : A → A) (ys : List A) (j : ℕ)
      → update_at xs i f ≡ some ys
      → j ≢ i
      → get_elem? ys j ≡ get_elem? xs j
  update_at-other [] i f ys j h n = cc
  update_at-other (a ∷ xs) zero f ys zero h n = absurd (n refl)
  update_at-other (a ∷ xs) zero f ys (suc j) h n = ground arith
  update_at-other (a ∷ xs) (suc i) f ys zero h n = ground arith
  update_at-other (a ∷ xs) (suc i) f ys (suc j) h n =
      grind (arith, λ (zs : List A). update_at-other xs i f zs j)

  pub update_at-map {κ} :
      {B : Type κ} (g : A → B) (xs : List A) (i : ℕ) (f : A → A) (ys : List A)
      → ((x : A) → g (f x) ≡ g x)
      → update_at xs i f ≡ some ys
      → map g ys ≡ map g xs
  update_at-map g [] i f ys keeps h = cc
  update_at-map g (a ∷ xs) zero f ys keeps h = ground (arith, keeps a)
  update_at-map g (a ∷ xs) (suc i) f ys keeps h =
      grind (arith, λ (zs : List A). update_at-map g xs i f zs keeps)

  pub update_at-length :
      (xs : List A) (i : ℕ) (f : A → A) (ys : List A)
      → update_at xs i f ≡ some ys
      → length ys ≡ length xs
  update_at-length [] i f ys h = cc
  update_at-length (a ∷ xs) zero f ys h = ground arith
  update_at-length (a ∷ xs) (suc i) f ys h =
      grind (arith, λ (zs : List A). update_at-length xs i f zs)

  -- A write seen through a function of the elements.
  pub update_at-through {κ} :
      {B : Type κ} (g : A → B) (xs : List A) (i : ℕ) (f : A → A) (y : B) (ys : List A)
      → ((x : A) → g (f x) ≡ y)
      → update_at xs i f ≡ some ys
      → update_at (map g xs) i (λ (b : B). y) ≡ some (map g ys)
  update_at-through g [] i f y ys gives h = cc
  update_at-through g (a ∷ xs) zero f y ys gives h = ground (arith, gives a)
  update_at-through g (a ∷ xs) (suc i) f y ys gives h =
      grind (arith, λ (zs : List A). update_at-through g xs i f y zs gives)
