-- ===== src/Merge/Staged.antt =====
-- internal/merge/merge.go: `updateIndex` and `removeFromIndex` as the updates of a map.
use vara.Base.{
  ◌≡◌, refl, Option, none, some, List, [], ◌∷◌, arith, if◌then◌else◌, Bytes, bytes_eq, bytes_eq_iff,
}
use vara.Hash.{BaseId}
use vara.Index.{Entry}
use vara.Merge.{update_index, remove_from_index}

-- The blob of the first entry for a path.
unfoldable pub staged : Bytes → List Entry → Option BaseId
staged path [] = none
staged path (e ∷ es) = if bytes_eq e.path path then some e.object_id else staged path es

pub staged-update_index :
    (p q : Bytes) (id : BaseId) (es : List Entry)
    → staged q (update_index es p id) ≡ (if bytes_eq p q then some id else staged q es)
unfolding staged update_index
staged-update_index p q id [] = refl
staged-update_index p q id (e ∷ es) = ground (
  arith,
  bytes_eq_iff p q,
  bytes_eq_iff e.path p,
  bytes_eq_iff e.path q,
  staged-update_index p q id es,
)

pub staged-remove_from_index :
    (p q : Bytes) (es : List Entry)
    → staged q (remove_from_index es p) ≡ (if bytes_eq p q then none else staged q es)
unfolding staged remove_from_index
staged-remove_from_index p q [] = ground arith
staged-remove_from_index p q (e ∷ es) = ground (
  arith,
  bytes_eq_iff p q,
  bytes_eq_iff e.path p,
  bytes_eq_iff e.path q,
  staged-remove_from_index p q es,
)
