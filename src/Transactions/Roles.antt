-- ===== src/Transactions/Roles.antt =====
-- Which inputs of a policy transaction belong to the vault and which to the controller.
-- `BTreeSet<usize>` is a list without duplicates; only its size and its members are read.
use anzen.Prelude.{
  ℕ, ◌+◌, Bool, not, ◌||◌, List, [], ◌∷◌, ◌++◌, leb, ◌==◌, ◌!=◌, nat_eq, if◌then◌else◌, length, any,
}

abbrev pub contains : List ℕ → ℕ → Bool
contains xs a = any (λ x. a == x) xs

-- `iter().copied().collect::<BTreeSet<_>>()`
abbrev pub to_set : List ℕ → List ℕ
to_set [] = []
to_set (x ∷ xs) = let rest = to_set xs in if contains rest x then rest else x ∷ rest

abbrev pub is_disjoint : List ℕ → List ℕ → Bool
is_disjoint xs ys = not (any (contains ys) xs)

-- The test of `create_policy_psbt` and of `validate_input_partition`, whether the roles are no
-- exact partition of the inputs.
unfoldable pub breaks_partition : ℕ → List ℕ → List ℕ → Bool
breaks_partition input_count vault_indexes controller_indexes =
    let vault = to_set vault_indexes in
    let controller = to_set controller_indexes in
    length vault != length vault_indexes
    || (length controller != length controller_indexes
        || (not (is_disjoint vault controller)
            || (length vault + length controller != input_count
                || any (λ index. leb input_count index) (vault ++ controller))))
