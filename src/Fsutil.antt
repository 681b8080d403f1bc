-- ===== src/Fsutil.antt =====
-- internal/fsutil/fsutil.go: the write of a file through a temporary file and a rename. What each
-- call of the operating system does is a parameter.
use vara.Base.{
  refl, ℕ, zero, suc, ◌+◌, ◌≤◌, ◌≡◌, ◌↔◌, ◌⊎◌, Bool, true, false, not, Option, none, some, List,
  arith, if◌then◌else◌, Bytes, bytes_eq, lookup, insert, erase, lookup-insert, lookup-erase, Error,
  failure, inl, inr, Option-cases, ◌++◌, ap, codes, length, length-append, bytes_eq-false,
  bytes_eq_refl, Bool-cases, ◌∙◌,
}

-- The files by their path.
abbrev pub Files : Type 0
Files = List (Bytes × Bytes)

-- What the calls of one `WriteFile` do: whether the file can be opened, what is in it where `Write`,
-- `Sync` or `Close` fails, whether the n-th attempt to rename succeeds, and what is in the temporary
-- file where `os.Remove` fails.
pub record WriteCalls : Type 0 where
  pub open_ : Bool
  pub write : Option Bytes
  pub sync : Option Bytes
  pub close : Option Bytes
  pub rename : ℕ → Bool
  pub left_over : Option Bytes

-- The loop of `renameFile`, with the number of retries that are left.
unfoldable pub rename_from : (ℕ → Bool) → ℕ → ℕ → Bool
rename_from rename attempt zero = rename attempt
rename_from rename attempt (suc left) =
    let again = rename_from rename (attempt + 1) left in if rename attempt then true else again

unfoldable pub rename_file : (ℕ → Bool) → ℕ → Bool
rename_file rename retries = rename_from rename 0 retries

-- `os.Remove(tmp)`, whose error is dropped.
abbrev pub remove_tmp : WriteCalls → Bytes → Files → Files
remove_tmp calls tmp files = elim calls.left_over [
  | none ↦ erase tmp files
  | some left ↦ insert tmp left files
]

-- What a rename does: the content of the one file goes to the other.
abbrev pub move_file : Bytes → Bytes → Files → Files
move_file tmp final files = elim (lookup tmp files) [
  | none ↦ files
  | some content ↦ insert final content (erase tmp files)
]

-- The end of a `WriteFile` of which a call fails with these bytes in the temporary file.
abbrev pub fail_with : WriteCalls → Bytes → Bytes → Files → Files × Option Error
fail_with calls tmp left files = (remove_tmp calls tmp (insert tmp left files), some failure)

-- What is in the temporary file behind a call: what was there or, if the call fails, what it left.
abbrev pub after_call : Option Bytes → Bytes → Bytes
after_call none content = content
after_call (some left) content = left

-- `WriteFile`; a file that cannot be opened is not changed.
unfoldable pub write_file : ℕ → WriteCalls → Bytes → Bytes → Bytes → Files → Files × Option Error
write_file retries calls tmp final content files =
    let written = after_call calls.write content in
    let synced = after_call calls.sync written in
    let closed = after_call calls.close synced in
    if not calls.open_ then (files, some failure) else elim calls.write [
      | some _ ↦ fail_with calls tmp written files
      | none ↦ elim calls.sync [
        | some _ ↦ fail_with calls tmp synced files
        | none ↦ elim calls.close [
          | some _ ↦ fail_with calls tmp closed files
          | none ↦
              if not (rename_file calls.rename retries)
              then fail_with calls tmp closed files
              else (move_file tmp final (insert tmp closed files), none)
        ]
      ]
    ]

Nat-split : (i attempt : ℕ) → attempt ≤ i → (i ≡ attempt) ⊎ (attempt + 1 ≤ i)
Nat-split i attempt ge = omega arith

rename_from_fails :
    (rename : ℕ → Bool) (attempt left : ℕ)
    → (rename_from rename attempt left ≡ false)
      ↔ ((i : ℕ) → attempt ≤ i → i ≤ attempt + left → rename i ≡ false)
unfolding rename_from
rename_from_fails rename attempt zero = (
  λ h i ge le. let e : i ≡ attempt = omega arith in cc,
  λ h. h attempt (omega arith) (omega arith),
)
rename_from_fails rename attempt (suc left) =
    let later = rename_from_fails rename (attempt + 1) left in
    (
      λ h i ge le. elim (Nat-split i attempt ge) [
        | inl e ↦ ground arith
        | inr lt ↦ later.0 (ground arith) i lt (omega arith)
      ],
      λ h. ground (
        arith,
        h attempt (omega arith) (omega arith),
        later.1 (λ i ge le. h i (omega arith) (omega arith)),
      ),
    )

-- `renameFile` fails exactly if each of the attempts fails: one more than the retries.
pub rename_file_fails :
    (rename : ℕ → Bool) (retries : ℕ)
    → (rename_file rename retries ≡ false) ↔ ((i : ℕ) → i ≤ retries → rename i ≡ false)
unfolding rename_file
rename_file_fails rename retries = (
  λ h i le. (rename_from_fails rename 0 retries).0 h i (omega arith) (omega arith),
  λ h. (rename_from_fails rename 0 retries).1 (λ i ge le. h i (omega arith)),
)

remove_tmp_keeps :
    (calls : WriteCalls) (tmp p : Bytes) (files : Files)
    → bytes_eq tmp p ≡ false
    → lookup p (remove_tmp calls tmp files) ≡ lookup p files
remove_tmp_keeps calls tmp p files h = elim (Option-cases calls.left_over) [
  | inl e ↦ ground (arith, lookup-erase tmp p files)
  | inr (left, e) ↦ ground (arith, lookup-insert tmp p left files)
]

pub tmp_off : (path : Bytes) → bytes_eq (path ++ codes ".tmp") path ≡ false
tmp_off path =
    bytes_eq-false (path ++ codes ".tmp") path
      (λ e. omega (arith, ap length e, length-append path (codes ".tmp")))

move_file-insert :
    (tmp final content : Bytes) (files : Files)
    → move_file tmp final (insert tmp content files)
      ≡ insert final content (erase tmp (insert tmp content files))
move_file-insert tmp final content files =
    let written = insert tmp content files in
    let there : lookup tmp written ≡ some content =
      ground (arith, lookup-insert tmp tmp content files, bytes_eq_refl tmp) in
    rw (there, move_file) refl

lookup-move_file :
    (tmp final p content : Bytes) (files : Files)
    → bytes_eq tmp p ≡ false
    → lookup p (move_file tmp final (insert tmp content files))
      ≡ (if bytes_eq final p then some content else lookup p files)
lookup-move_file tmp final p content files h =
    let written = insert tmp content files in
    ap (lookup p) (move_file-insert tmp final content files)
    ∙ ground (
      arith,
      lookup-insert final p content (erase tmp written),
      lookup-erase tmp p written,
      lookup-insert tmp p content files,
    )

-- A `WriteFile` without an error leaves no temporary file, at another path than the final one.
pub write_file-tmp :
    (retries : ℕ) (calls : WriteCalls) (tmp final content : Bytes) (files : Files)
    → bytes_eq final tmp ≡ false
    → (write_file retries calls tmp final content files).1 ≡ none
    → lookup tmp (write_file retries calls tmp final content files).0 ≡ none
unfolding write_file
write_file-tmp retries calls tmp final content files off e =
    let written = insert tmp content files in
    let gone : lookup tmp (move_file tmp final written) ≡ none =
      ap (lookup tmp) (move_file-insert tmp final content files)
      ∙ ground (
        arith,
        lookup-insert final tmp content (erase tmp written),
        lookup-erase tmp tmp written,
        bytes_eq_refl tmp,
      ) in
    elim (Bool-cases calls.open_) [
      | inr closed ↦ absurd (ground arith)
      | inl opened ↦ elim (Option-cases calls.write) [
        | inr (left, w) ↦ absurd (ground arith)
        | inl w ↦ elim (Option-cases calls.sync) [
          | inr (left, s) ↦ absurd (ground arith)
          | inl s ↦ elim (Option-cases calls.close) [
            | inr (left, c) ↦ absurd (ground arith)
            | inl c ↦ elim (Bool-cases (rename_file calls.rename retries)) [
              | inl done ↦ ground (arith, gone)
              | inr stuck ↦ absurd (ground arith)
            ]
          ]
        ]
      ]
    ]

-- Whatever the calls of the operating system do, `WriteFile` replaces the content of the final
-- file as a whole or, with an error, leaves it as it was, and leaves each file at another path
-- than the temporary one.
pub write_file_atomic :
    (retries : ℕ) (calls : WriteCalls) (tmp final content p : Bytes) (files : Files)
    → bytes_eq tmp p ≡ false
    → ((write_file retries calls tmp final content files).1 ≡ none)
        × (lookup p (write_file retries calls tmp final content files).0
            ≡ (if bytes_eq final p then some content else lookup p files))
      ⊎ ((write_file retries calls tmp final content files).1 ≡ some failure)
        × (lookup p (write_file retries calls tmp final content files).0 ≡ lookup p files)
unfolding write_file
write_file_atomic retries calls tmp final content p files h =
    let written = insert tmp content files in
    let failed = λ (left : Bytes).
      remove_tmp_keeps calls tmp p (insert tmp left files) h
      ∙ lookup-insert tmp p left files
      ∙ ap (λ (b : Bool). if b then some left else lookup p files) h in
    let moved : lookup p (move_file tmp final written)
        ≡ (if bytes_eq final p then some content else lookup p files) =
      lookup-move_file tmp final p content files h in
    elim (Bool-cases calls.open_) [
      | inr closed ↦ ground arith
      | inl opened ↦ elim (Option-cases calls.write) [
        | inr (left, w) ↦ inr (ground (arith, failed left))
        | inl w ↦ elim (Option-cases calls.sync) [
          | inr (left, s) ↦ inr (ground (arith, failed left))
          | inl s ↦ elim (Option-cases calls.close) [
            | inr (left, c) ↦ inr (ground (arith, failed left))
            | inl c ↦ elim (Bool-cases (rename_file calls.rename retries)) [
              | inl done ↦ inl (ground (arith, moved))
              | inr stuck ↦ inr (ground (arith, failed content))
            ]
          ]
        ]
      ]
    ]
