-- ===== src/Refs/Tests.antt =====
-- pkg/refs: the theorems on a small repository, and runs of the name check.
use vara.Base.{
  ◌⊎◌, failure, if◌then◌else◌, ◌==◌, ◌≡◌, refl, true, false, none, some, [], ◌∷◌, ◌++◌, arith,
  Bytes, codes, lookup, insert, erase, bytes_eq, Result, ok, err, ref_not_found, ref_validation,
}
use vara.Lines.{has_prefix, trim_left, trim_right, trim_space, trim_prefix}
use vara.Hash.{BaseId, to_string}
use vara.Fsutil.{Files, rename_from, rename_file, write_file, write_file_atomic}
use vara.Refs.{
  symbolic, create, validate_name, has_substring, any_byte, last_is_edge, Calls, read_ref, resolve,
  follow, store_ref, update,
}
use vara.Refs.Returns.{resolve_returns, update_loops}
use vara.Refs.Chain.{resolve-update}
use vara.Refs.Locks.{update_removes_lock}

abbrev vara_path : Bytes → Bytes
vara_path name = codes ".vara/" ++ name

abbrev some_id : BaseId
some_id =
    1 ∷ 2 ∷ 3 ∷ 4 ∷ 5 ∷ 6 ∷ 7 ∷ 8 ∷ 1 ∷ 2 ∷ 3 ∷ 4 ∷ 5 ∷ 6 ∷ 7 ∷ 8 ∷ 1 ∷ 2 ∷ 3 ∷ 4 ∷ 5 ∷ 6 ∷ 7 ∷ 8
    ∷ 1 ∷ 2 ∷ 3 ∷ 4 ∷ 5 ∷ 6 ∷ 7 ∷ 255 ∷ []

-- `HEAD` points to the branch `main`, and there is a branch `dev.lock`, symbolic too.
abbrev head_main : Files
head_main =
    (codes ".vara/HEAD", codes "ref: refs/heads/main" ++ 10 ∷ [])
    ∷ (codes ".vara/refs/heads/dev.lock", codes "ref: HEAD" ++ 10 ∷ [])
    ∷ []

abbrev head_loop : Files
head_loop = (codes ".vara/HEAD", codes "ref: HEAD" ++ 10 ∷ []) ∷ []

-- Every call succeeds, the rename at its second attempt.
abbrev all_succeed : Calls
all_succeed = record {
  mkdir = true;
  retries = 40;
  writing = record {
    open_ = true;
    write = none;
    sync = none;
    close = none;
    rename = λ i. i == 1;
    left_over = none;
  };
}

abbrev head_updated : Files
head_updated = head_main ++ (codes ".vara/refs/heads/main", to_string some_id ++ 10 ∷ []) ∷ []

follow-head : follow vara_path head_main 3 (codes "HEAD") ≡ some (codes "refs/heads/main")
unfolding follow read_ref lookup bytes_eq trim_space trim_left trim_right has_prefix trim_prefix
follow-head = refl

update-head :
    update vara_path all_succeed 3 (codes "HEAD") some_id head_main ≡ some (head_updated, none)
unfolding update follow store_ref write_file rename_file rename_from read_ref lookup bytes_eq
    trim_space trim_left trim_right has_prefix trim_prefix insert erase
update-head = refl

resolve-update_example : resolve vara_path head_updated 3 (codes "HEAD") ≡ some (ok some_id)
unfolding lookup bytes_eq
resolve-update_example =
    resolve-update vara_path all_succeed head_main head_updated 3 (codes "HEAD")
      (codes "refs/heads/main") some_id (omega arith) follow-head refl update-head

resolve_returns_example :
    (r : Result BaseId) × (resolve vara_path head_loop 3 (codes "HEAD") ≡ some r)
resolve_returns_example = resolve_returns vara_path head_loop 3 (codes "HEAD") (omega arith)

head_symbolic : read_ref vara_path head_loop (codes "HEAD") ≡ symbolic (codes "HEAD")
unfolding read_ref lookup bytes_eq trim_space trim_left trim_right has_prefix trim_prefix
head_symbolic = refl

update_loops_example : update vara_path all_succeed 1000 (codes "HEAD") some_id head_loop ≡ none
update_loops_example =
    update_loops vara_path all_succeed head_loop 0 (codes "HEAD") some_id
      (codes "HEAD", head_symbolic, refl) 1000

abbrev dev_updated : Files
dev_updated =
    (codes ".vara/HEAD", codes "ref: refs/heads/main" ++ 10 ∷ [])
    ∷ (codes ".vara/refs/heads/dev", to_string some_id ++ 10 ∷ [])
    ∷ []

follow-dev : follow vara_path head_main 1 (codes "refs/heads/dev") ≡ some (codes "refs/heads/dev")
unfolding follow read_ref lookup bytes_eq
follow-dev = refl

update-dev :
    update vara_path all_succeed 1 (codes "refs/heads/dev") some_id head_main
    ≡ some (dev_updated, none)
unfolding update follow store_ref write_file rename_file rename_from read_ref lookup bytes_eq insert
    erase
update-dev = refl

-- Such a name is valid.
validate-dev_lock : validate_name (codes "dev.lock") ≡ none
unfolding validate_name has_substring any_byte last_is_edge has_prefix
validate-dev_lock = refl

validate-dots : validate_name (codes "a..b") ≡ some ref_validation
unfolding validate_name has_substring any_byte last_is_edge has_prefix
validate-dots = refl

update_removes_lock_example :
    resolve vara_path dev_updated 5 (codes "refs/heads/dev.lock") ≡ some (err ref_not_found)
update_removes_lock_example =
    update_removes_lock vara_path all_succeed head_main dev_updated 1 4 (codes "refs/heads/dev")
      (codes "refs/heads/dev") (codes "refs/heads/dev.lock") some_id follow-dev refl update-dev

off_tmp : bytes_eq (codes "a.tmp") (codes "a") ≡ false
unfolding bytes_eq
off_tmp = refl

write_file_atomic_example :
    ((write_file 40 all_succeed.writing (codes "a.tmp") (codes "a") (codes "x") head_main).1 ≡ none)
      × (lookup
            (codes "a")
            (write_file 40 all_succeed.writing (codes "a.tmp") (codes "a") (codes "x") head_main).0
          ≡ (if bytes_eq (codes "a") (codes "a")
              then some (codes "x")
              else lookup (codes "a") head_main))
    ⊎ ((write_file 40 all_succeed.writing (codes "a.tmp") (codes "a") (codes "x") head_main).1
        ≡ some failure)
      × (lookup
            (codes "a")
            (write_file 40 all_succeed.writing (codes "a.tmp") (codes "a") (codes "x") head_main).0
          ≡ lookup (codes "a") head_main)
write_file_atomic_example =
    write_file_atomic 40 all_succeed.writing (codes "a.tmp") (codes "a") (codes "x") (codes "a")
      head_main off_tmp

abbrev empty_created : Files
empty_created = (codes ".vara/refs/heads/main", to_string some_id ++ 10 ∷ []) ∷ []

create-main :
    create vara_path all_succeed (codes "refs/heads/main") some_id [] ≡ (empty_created, none)
unfolding create store_ref write_file rename_file rename_from lookup bytes_eq insert erase
create-main = refl
