-- ===== src/Transactions/Partition.antt =====
-- The test of the input roles accepts exact partitions alone.
use anzen.Prelude.{
  ℕ, zero, suc, ◌+◌, ◌≤◌, ◌<◌, ◌≡◌, Bool, true, false, ◌||◌, List, [], ◌∷◌, ◌++◌, arith, refl, leb,
  ltb, nat_eq, if◌then◌else◌, length, any, Bool-cases, inl, inr, ◌∙◌, sym,
}
use anzen.Transactions.Roles.{contains, to_set, breaks_partition}

-- No index is listed twice.
abbrev pub NodupIndexes : List ℕ → Type 0
NodupIndexes [] = Unit
NodupIndexes (x ∷ xs) = (contains xs x ≡ false) × NodupIndexes xs

-- Every input has one role, and every index names an input.
pub record IsPartition (count : ℕ) (vault controller : List ℕ) : Type 0 where
  pub vault_nodup : NodupIndexes vault
  pub controller_nodup : NodupIndexes controller
  pub covered : (i : ℕ) → i < count → (contains vault i || contains controller i) ≡ true
  pub disjoint : (i : ℕ) → contains vault i ≡ true → contains controller i ≡ false
  pub vault_below : (i : ℕ) → contains vault i ≡ true → i < count
  pub controller_below : (i : ℕ) → contains controller i ≡ true → i < count

length-to_set-le : (xs : List ℕ) → length (to_set xs) ≤ length xs
length-to_set-le [] = omega arith
length-to_set-le (x ∷ xs) = ground (arith, length-to_set-le xs)

to_set-eq_self : (xs : List ℕ) → length (to_set xs) ≡ length xs → (to_set xs ≡ xs) × NodupIndexes xs
to_set-eq_self [] h = (refl, tt)
to_set-eq_self (x ∷ xs) h = elim (Bool-cases (contains (to_set xs) x)) [
  | inl e ↦ absurd (ground (arith, length-to_set-le xs))
  | inr e ↦
      let (same, nodup) = to_set-eq_self xs (ground arith) in (rw (e, same), (rw same at e, nodup))
]

contains-append :
    (xs ys : List ℕ) (i : ℕ) → contains (xs ++ ys) i ≡ (contains xs i || contains ys i)
contains-append [] ys i = refl
contains-append (x ∷ xs) ys i = ground (arith, contains-append xs ys i)

any-false :
    (p : ℕ → Bool) (xs : List ℕ) (i : ℕ) → any p xs ≡ false → contains xs i ≡ true → p i ≡ false
any-false p [] i h m = cc
any-false p (x ∷ xs) i h m = ground (arith, any-false p xs i)

-- How many numbers below `n` are listed.
count : List ℕ → ℕ → ℕ
count xs zero = 0
count xs (suc n) = (if contains xs n then 1 else 0) + count xs n

count-nil : (n : ℕ) → count [] n ≡ 0
unfolding count
count-nil zero = refl
count-nil (suc n) = omega (arith, count-nil n)

count-cons :
    (x : ℕ) (xs : List ℕ) (n : ℕ)
    → contains xs x ≡ false
    → count (x ∷ xs) n ≡ count xs n + (if ltb x n then 1 else 0)
unfolding count
count-cons x xs zero h = ground arith
count-cons x xs (suc n) h = ground (arith, count-cons x xs n h)

count-eq-length :
    (xs : List ℕ) (n : ℕ)
    → NodupIndexes xs
    → ((i : ℕ) → contains xs i ≡ true → i < n)
    → count xs n ≡ length xs
count-eq-length [] n nodup below = count-nil n
count-eq-length (x ∷ xs) n nodup below =
    let first : x < n = below x (ground arith) in
    ground (
      arith,
      count-cons x xs n nodup.0,
      count-eq-length xs n nodup.1 (λ i h. below i (ground arith)),
    )

count-le : (xs : List ℕ) (n : ℕ) → count xs n ≤ n
unfolding count
count-le xs zero = omega arith
count-le xs (suc n) = ground (arith, count-le xs n)

count_full : (xs : List ℕ) (n i : ℕ) → count xs n ≡ n → i < n → contains xs i ≡ true
unfolding count
count_full xs zero i h lt = absurd (omega arith)
count_full xs (suc n) i h lt = elim (Bool-cases (contains xs n)) [
  | inl e ↦ ground (arith, e, count_full xs n i)
  | inr e ↦ absurd (ground (arith, e, count-le xs n))
]

nodup-append :
    (xs ys : List ℕ)
    → NodupIndexes xs
    → NodupIndexes ys
    → ((i : ℕ) → contains xs i ≡ true → contains ys i ≡ false)
    → NodupIndexes (xs ++ ys)
nodup-append [] ys nx ny d = ny
nodup-append (x ∷ xs) ys nx ny d = (
  ground (arith, contains-append xs ys x, d x, nx.0),
  nodup-append xs ys nx.1 ny (λ i h. d i (ground arith)),
)

length-append : (xs ys : List ℕ) → length (xs ++ ys) ≡ length xs + length ys
length-append [] ys = omega arith
length-append (x ∷ xs) ys = omega (arith, length-append xs ys)

-- What the test has computed when it does not refuse.
accepted_parts :
    (count : ℕ) (vault controller : List ℕ)
    → breaks_partition count vault controller ≡ false
    → (length (to_set vault) ≡ length vault)
      × (length (to_set controller) ≡ length controller)
      × (any (contains (to_set controller)) (to_set vault) ≡ false)
      × (length (to_set vault) + length (to_set controller) ≡ count)
      × (any (λ index. leb count index) (to_set vault ++ to_set controller) ≡ false)
unfolding breaks_partition
accepted_parts count vault controller h = ground arith

IsPartition-of_parts :
    (count' : ℕ) (vault controller : List ℕ)
    → NodupIndexes vault
    → NodupIndexes controller
    → any (contains controller) vault ≡ false
    → length vault + length controller ≡ count'
    → any (λ index. leb count' index) (vault ++ controller) ≡ false
    → IsPartition count' vault controller
IsPartition-of_parts count' vault controller nv nc apart total below =
    let disjoint : (i : ℕ) → contains vault i ≡ true → contains controller i ≡ false =
      λ i h. any-false (contains controller) vault i apart h in
    let under : (i : ℕ) → contains (vault ++ controller) i ≡ true → i < count' = λ i h.
      ground (arith, any-false (λ index. leb count' index) (vault ++ controller) i below h) in
    let full : count (vault ++ controller) count' ≡ count' =
      count-eq-length (vault ++ controller) count' (nodup-append vault controller nv nc disjoint)
        under
      ∙ length-append vault controller
      ∙ total in
    record {
      vault_nodup = nv;
      controller_nodup = nc;
      covered = λ i h.
          sym (contains-append vault controller i)
          ∙ count_full (vault ++ controller) count' i full h;
      disjoint = disjoint;
      vault_below = λ i h. under i (ground (arith, contains-append vault controller i));
      controller_below = λ i h. under i (ground (arith, contains-append vault controller i));
    }

-- Indexes that the test does not refuse give every input of the transaction exactly one role.
pub breaks_partition-IsPartition :
    (count' : ℕ) (vault controller : List ℕ)
    → breaks_partition count' vault controller ≡ false
    → IsPartition count' vault controller
breaks_partition-IsPartition count' vault controller h =
    let (sv, sc, apart, total, below) = accepted_parts count' vault controller h in
    let (ev, nv) = to_set-eq_self vault sv in
    let (ec, nc) = to_set-eq_self controller sc in
    IsPartition-of_parts count' vault controller nv nc (rw (ev, ec) at apart) (rw (ev, ec) at total)
      (rw (ev, ec) at below)
