-- ===== src/Social/Friends.antt =====
-- The friends of a backup, ordered by their fingerprints.
use Prim.Native.Char.{code}
use anzen.Prelude.{
  String, Bool, true, false, ◌&&◌, ◌||◌, Option, none, some, List, [], ◌∷◌, ltb, ◌==◌, nat_eq,
  string_eq, if◌then◌else◌,
}

pub record FriendKeyWrapper : Type 0 where
  pub fingerprint : String
  pub public_key_armored : String
  pub encrypted_symmetric_key : String

-- `left.cmp(right).is_le()` on texts, which compares code points.
abbrev pub text_leb : String → String → Bool
text_leb String.[] t = true
text_leb (String.◌∷◌ c s) String.[] = false
text_leb (String.◌∷◌ c s) (String.◌∷◌ d t) =
    ltb (code c) (code d) || (code c == code d && text_leb s t)

-- An insertion after the friends of equal fingerprints: a stable sort.
unfoldable pub insert_friend : FriendKeyWrapper → List FriendKeyWrapper → List FriendKeyWrapper
insert_friend friend [] = friend ∷ []
insert_friend friend (f ∷ friends) =
    let later = insert_friend friend friends in
    if text_leb friend.fingerprint f.fingerprint then friend ∷ f ∷ friends else f ∷ later

-- `sort_by(|left, right| left.fingerprint.cmp(&right.fingerprint))`
unfoldable pub sort_by_fingerprint : List FriendKeyWrapper → List FriendKeyWrapper
unfolding insert_friend
sort_by_fingerprint [] = []
sort_by_fingerprint (friend ∷ friends) = insert_friend friend (sort_by_fingerprint friends)

-- The friends after `last` without those that repeat the fingerprint before them.
unfoldable pub dedup_after : String → List FriendKeyWrapper → List FriendKeyWrapper
dedup_after last [] = []
dedup_after last (friend ∷ friends) =
    let rest = dedup_after friend.fingerprint friends in
    let skipped = dedup_after last friends in
    if friend.fingerprint == last then skipped else friend ∷ rest

-- `dedup_by(|left, right| left.fingerprint == right.fingerprint)`
unfoldable pub dedup_by_fingerprint : List FriendKeyWrapper → List FriendKeyWrapper
unfolding dedup_after
dedup_by_fingerprint [] = []
dedup_by_fingerprint (friend ∷ friends) = friend ∷ dedup_after friend.fingerprint friends

-- `friends.iter().find(|friend| friend.fingerprint == fingerprint)`
unfoldable pub find_friend : String → List FriendKeyWrapper → Option FriendKeyWrapper
find_friend fingerprint [] = none
find_friend fingerprint (friend ∷ friends) =
    let rest = find_friend fingerprint friends in
    if friend.fingerprint == fingerprint then some friend else rest
