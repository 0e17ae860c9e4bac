-- ===== src/Social/Finds.antt =====
-- Sorting and deduplicating friends keeps which wrapper is found for a fingerprint.

use anzen.Prelude.{
  ◌≡◌, ◌≢◌, String, true, false, some, List, [], ◌∷◌, ◌++◌, arith, refl, any, ◌==◌, string_eq,
  nat_eq,
}
use anzen.Social.Friends.{
  FriendKeyWrapper, text_leb, insert_friend, sort_by_fingerprint, dedup_after, dedup_by_fingerprint,
  find_friend,
}

text_leb_refl : (s : String) → text_leb s s ≡ true
text_leb_refl String.[] = refl
text_leb_refl (String.◌∷◌ c s) = let rest = text_leb_refl s in ground arith

find_friend-insert_friend :
    (fingerprint : String) (friend : FriendKeyWrapper) (friends : List FriendKeyWrapper)
    → find_friend fingerprint (insert_friend friend friends)
      ≡ find_friend fingerprint (friend ∷ friends)
unfolding find_friend insert_friend
find_friend-insert_friend fingerprint friend [] = refl
find_friend-insert_friend fingerprint friend (f ∷ friends) =
    let rest = find_friend-insert_friend fingerprint friend friends in
    let same = text_leb_refl friend.fingerprint in grind arith

pub find_friend-sort_by_fingerprint :
    (fingerprint : String) (friends : List FriendKeyWrapper)
    → find_friend fingerprint (sort_by_fingerprint friends) ≡ find_friend fingerprint friends
unfolding sort_by_fingerprint find_friend
find_friend-sort_by_fingerprint fingerprint [] = refl
find_friend-sort_by_fingerprint fingerprint (friend ∷ friends) =
    let rest = find_friend-sort_by_fingerprint fingerprint friends in
    let put = find_friend-insert_friend fingerprint friend (sort_by_fingerprint friends) in
    grind arith

find_friend-dedup_after :
    (last fingerprint : String) (friends : List FriendKeyWrapper)
    → last ≢ fingerprint
    → find_friend fingerprint (dedup_after last friends) ≡ find_friend fingerprint friends
unfolding find_friend dedup_after
find_friend-dedup_after last fingerprint [] differ = refl
find_friend-dedup_after last fingerprint (friend ∷ friends) differ =
    let skipped = find_friend-dedup_after last fingerprint friends differ in
    let rest = find_friend-dedup_after friend.fingerprint fingerprint friends in grind arith

pub find_friend-dedup_by_fingerprint :
    (fingerprint : String) (friends : List FriendKeyWrapper)
    → find_friend fingerprint (dedup_by_fingerprint friends) ≡ find_friend fingerprint friends
unfolding find_friend dedup_by_fingerprint
find_friend-dedup_by_fingerprint fingerprint [] = refl
find_friend-dedup_by_fingerprint fingerprint (friend ∷ friends) =
    let rest = find_friend-dedup_after friend.fingerprint fingerprint friends in grind arith

-- A friend whose fingerprint is new is found behind the others.
pub find_friend-append :
    (friend : FriendKeyWrapper) (friends : List FriendKeyWrapper)
    → any (λ f. f.fingerprint == friend.fingerprint) friends ≡ false
    → find_friend friend.fingerprint (friends ++ (friend ∷ [])) ≡ some friend
unfolding find_friend
find_friend-append friend [] fresh = grind arith
find_friend-append friend (f ∷ friends) fresh =
    let rest = find_friend-append friend friends in grind arith

-- The other friends are found as before.
pub find_friend-keeps :
    (fingerprint : String) (friend : FriendKeyWrapper) (friends : List FriendKeyWrapper)
    → friend.fingerprint ≢ fingerprint
    → find_friend fingerprint (friends ++ (friend ∷ [])) ≡ find_friend fingerprint friends
unfolding find_friend
find_friend-keeps fingerprint friend [] differ = grind arith
find_friend-keeps fingerprint friend (f ∷ friends) differ =
    let rest = find_friend-keeps fingerprint friend friends differ in grind arith
