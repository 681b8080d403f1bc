-- ===== src/MergeState/Kept.antt =====
-- internal/mergestate/mergestate.go: what `Write` leaves to `Read`.
use vara.Base.{
  ◌≡◌, refl, ap, ◌∙◌, Bool, true, Option, none, some, [], ◌∷◌, ◌++◌, Bytes, bytes_eq, lookup, erase,
  lookup-insert, lookup-erase, Bool-cases, Error, ok, inl, inr,
}
use vara.Fsutil.{Files}
use vara.Merge.{WriteOutcome, complete, unopened, torn}
use vara.MergeState.{
  State, StateCalls, file_name, tmp_name, versioned, write_data, write_state, decoded, read_content,
  read_state,
}

module _ (marshal : State → Bytes) (unmarshal : Bytes → Option State) where
  -- What is under the name of the record.
  abbrev Written : Bytes → Files → Files × Option Error → Type 0
  Written content before (files, none) = lookup file_name files ≡ some content
  Written content before (files, some x) = lookup file_name files ≡ lookup file_name before

  write_data-Written :
      (calls : StateCalls) (content : Bytes) (files : Files)
      → Written content files (write_data marshal unmarshal calls content files)
  unfolding write_data bytes_eq
  write_data-Written calls content files = go calls.write_file refl
    where
      go :
          (o : WriteOutcome)
          → calls.write_file ≡ o
          → Written content files (write_data marshal unmarshal calls content files)
      go unopened e = rw e refl
      go (torn left) e = rw e (lookup-insert tmp_name file_name left files)
      go complete e = elim (Bool-cases calls.rename) [
        | inl moved ↦
            rw (e, moved) (lookup-insert file_name file_name content (erase tmp_name files))
        | inr stays ↦ elim (Bool-cases calls.remove) [
          | inl gone ↦ rw (e, stays, gone) (lookup-erase tmp_name file_name files)
          | inr left ↦ rw (e, stays, left) (lookup-insert tmp_name file_name content files)
        ]
      ]

  -- What a `Read` gives after a `Write`, which gives an error or none.
  abbrev pub ReadBack : Bool → State → Files → State × Files × Option Error → Type 0
  ReadBack reads s before (s', files, none) =
      read_state marshal unmarshal true files ≡ ok (some (versioned s))
  ReadBack reads s before (s', files, some x) =
      read_state marshal unmarshal reads files ≡ read_state marshal unmarshal reads before

  -- If the JSON codec reads this state back from what it writes with a newline behind it, then,
  -- whatever the calls of the operating system do: after a `Write` without an error, a `Read` whose
  -- `ReadFile` succeeds gives the state that was written, with its version filled in; after one with
  -- an error, every `Read` gives what it gave before.
  pub read_state-write_state :
      (reads : Bool) (calls : StateCalls) (s : State) (files : Files)
      → unmarshal (marshal (versioned s) ++ 10 ∷ []) ≡ some (versioned s)
      → ReadBack reads s files (write_state marshal unmarshal calls s files)
  unfolding read_state
  read_state-write_state reads calls s files codec =
      let content = marshal (versioned s) ++ 10 ∷ [] in
      go (write_data marshal unmarshal calls content files) (write_data-Written calls content files)
    where
      go :
          (out : Files × Option Error)
          → Written (marshal (versioned s) ++ 10 ∷ []) files out
          → ReadBack reads s files (versioned s, out.0, out.1)
      go (f, none) w =
          ap (read_content marshal unmarshal true) w ∙ ap (decoded marshal unmarshal) codec
      go (f, some x) w = ap (read_content marshal unmarshal reads) w
