-- ===== src/Object/Store/Paths.antt =====
-- pkg/object/store.go: an object file is found by its identifier and by no other.
use vara.Base.{
  ◌≡◌, ◌≢◌, sym, ap, ◌∙◌, [], ◌∷◌, ◌++◌, arith, Bytes, codes, length, take, drop, length-append,
  length-take, length-drop, take-append-drop, ap₂, take-append_eq, drop-append_eq,
}
use vara.Hash.{BaseId, IsId, to_string, to_string-injective, length-to_string}
use vara.Object.Store.{object_path, tmp_path}

tail_of : Bytes → Bytes
tail_of [] = []
tail_of (x ∷ xs) = xs

length-head : (id : BaseId) → length id ≡ 32 → length (take 2 (to_string id)) ≡ 2
length-head id h = length-take 2 (to_string id) (omega (arith, length-to_string id))

length-object_path : (id : BaseId) → length id ≡ 32 → length (object_path id) ≡ 65
unfolding object_path
length-object_path id h = omega (
  arith,
  length-append (take 2 (to_string id)) (b'/' ∷ drop 2 (to_string id)),
  length-head id h,
  length-drop 2 (to_string id),
  length-to_string id,
)

-- The path determines the identifier.
pub object_path-injective : (a b : BaseId) → IsId a → IsId b → object_path a ≡ object_path b → a ≡ b
unfolding object_path tail_of
object_path-injective a b ha hb e =
    let heads =
      sym
        (take-append_eq 2 (take 2 (to_string a)) (b'/' ∷ drop 2 (to_string a)) (length-head a ha.0))
      ∙ ap (take 2) e
      ∙ take-append_eq 2 (take 2 (to_string b)) (b'/' ∷ drop 2 (to_string b))
          (length-head b hb.0) in
    let tails =
      sym
        (drop-append_eq 2 (take 2 (to_string a)) (b'/' ∷ drop 2 (to_string a)) (length-head a ha.0))
      ∙ ap (drop 2) e
      ∙ drop-append_eq 2 (take 2 (to_string b)) (b'/' ∷ drop 2 (to_string b))
          (length-head b hb.0) in
    to_string-injective a b ha hb (
      sym (take-append-drop 2 (to_string a))
      ∙ ap₂ (λ (x y : Bytes). x ++ y) heads (ap tail_of tails)
      ∙ take-append-drop 2 (to_string b))

-- A temporary file is no object file.
pub tmp-ne-object : (a b : BaseId) → length a ≡ 32 → length b ≡ 32 → tmp_path a ≢ object_path b
unfolding tmp_path
tmp-ne-object a b ha hb e = omega (
  arith,
  ap length e,
  length-append (object_path a) (codes ".tmp"),
  length-object_path a ha,
  length-object_path b hb,
)
