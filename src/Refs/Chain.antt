-- ===== src/Refs/Chain.antt =====
-- pkg/refs/refs.go: what `Update` writes, `Resolve` reads.
use vara.Base.{
  ℕ, zero, suc, ◌/◌, ◌%◌, ◌≤◌, ◌<◌, ◌≡◌, ◌≢◌, inl, inr, refl, sym, ap, subst, false, none, some,
  List, [], ◌∷◌, ◌++◌, arith, ◌==◌, Bytes, IsBytes, codes, length, length-append, contains, lookup,
  bytes_eq, bytes_eq_iff, bytes_eq_refl, if◌then◌else◌, bytes_eq-false, Bool-cases, ok,
}
use vara.Lines.{has_prefix, trim_left, trim_right, trim_space, is_space}
use vara.Hash.{BaseId, IsId, to_string, hex_digit, parse_hex, parse_hex-to_string}
use vara.Fsutil.{Files, write_file_atomic}
use vara.Refs.{
  symbolic, direct, content_of, read_ref, resolve_from, resolve, follow, update, Calls, store_ref,
  ref_prefix,
}
use vara.Refs.Returns.{Leads, Content-cases}

-- No byte is white space, nor the letter that "ref: " starts with.
abbrev AreDigits : Bytes → Type 0
AreDigits [] = Unit {0}
AreDigits (b ∷ s) = (is_space b ≡ false) × ((b == b'r') ≡ false) × AreDigits s

digit_plain : (n : ℕ) → n < 16 → (is_space (hex_digit n) ≡ false) × ((hex_digit n == b'r') ≡ false)
unfolding hex_digit
digit_plain n h = (ground arith, ground arith)

to_string-AreDigits : (id : BaseId) → IsBytes id → AreDigits (to_string id)
unfolding to_string
to_string-AreDigits [] h = tt
to_string-AreDigits (b ∷ id) h =
    let high = digit_plain (b / 16) (ground arith) in
    let low = digit_plain (b % 16) (ground arith) in
    (high.0, high.1, (low.0, low.1, to_string-AreDigits id h.1))

trim_right-digits : (s : Bytes) → AreDigits s → trim_right (s ++ 10 ∷ []) ≡ s
unfolding trim_right
trim_right-digits [] h = ground arith
trim_right-digits (b ∷ s) h = ground (arith, trim_right-digits s h.2)

trim_space-digits : (b : ℕ) (s : Bytes) → AreDigits (b ∷ s) → trim_space (b ∷ s ++ 10 ∷ []) ≡ b ∷ s
unfolding trim_space trim_left
trim_space-digits b s h = ground (arith, trim_right-digits (b ∷ s) h)

has_prefix-digits : (b : ℕ) (s : Bytes) → AreDigits (b ∷ s) → has_prefix (b ∷ s) ref_prefix ≡ false
unfolding has_prefix
has_prefix-digits b s h = ground arith

-- What is read from the file that holds an identifier and a newline.
pub content-to_string :
    (ref_path : Bytes → Bytes) (id : BaseId)
    → IsId id
    → content_of ref_path (some (to_string id ++ 10 ∷ [])) ≡ direct (to_string id)
unfolding to_string
content-to_string ref_path [] h = absurd (omega arith)
content-to_string ref_path (b ∷ id) h =
    let digits = to_string-AreDigits (b ∷ id) h.1 in
    let rest = hex_digit (b % 16) ∷ to_string id in
    ground (
      arith,
      trim_space-digits (hex_digit (b / 16)) rest digits,
      has_prefix-digits (hex_digit (b / 16)) rest digits,
    )

module _ (ref_path : Bytes → Bytes) where
  follow-Leads :
      (files : Files) (fuel : ℕ) (name last : Bytes)
      → follow ref_path files fuel name ≡ some last
      → (n : ℕ) × (n < fuel)
        × Leads ref_path files n name last
        × ((t : Bytes) → read_ref ref_path files last ≢ symbolic t)
  unfolding follow
  follow-Leads files zero name last e = cc e
  follow-Leads files (suc fuel) name last e = elim (Content-cases (read_ref ref_path files name)) [
    | inl (t, c) ↦
        let (n, lt, l, final) = follow-Leads files fuel t last (ground arith) in
        (suc n, omega arith, (t, c, l), final)
    | inr (inl c) ↦ let k : name ≡ last = ground arith in (0, omega arith, k, λ t x. cc (k, x, c))
    | inr (inr (s, c)) ↦
        let k : name ≡ last = ground arith in (0, omega arith, k, λ t x. cc (k, x, c))
  ]

  -- A chain that ends has one length.
  Leads-length :
      (files : Files) (n m : ℕ) (name last : Bytes) (s : Bytes)
      → read_ref ref_path files last ≡ direct s
      → Leads ref_path files n name last
      → Leads ref_path files m name last
      → n ≡ m
  Leads-length files zero zero name last s e l k = refl
  Leads-length files zero (suc m) name last s e l (t, c, k) = cc (e, l, c)
  Leads-length files (suc n) zero name last s e (t, c, l) k = cc (e, k, c)
  Leads-length files (suc n) (suc m) name last s e (t, c, l) (t', c', k) =
      let same : t ≡ t' = ground arith in
      ap (λ (x : ℕ). suc x)
        (Leads-length files n m t last s e l
          (subst (λ x. Leads ref_path files m x last) (sym same) k))

  -- The visited names are further from the end.
  abbrev AreBefore : Files → ℕ → Bytes → List Bytes → Type 0
  AreBefore files n last [] = Unit {0}
  AreBefore files n last (v ∷ vs) =
      ((m : ℕ) × (n < m) × Leads ref_path files m v last) × AreBefore files n last vs

  before_all :
      (files : Files) (n k : ℕ) (last : Bytes) (vs : List Bytes)
      → k ≤ n
      → AreBefore files n last vs
      → AreBefore files k last vs
  before_all files n k last [] le b = tt
  before_all files n k last (v ∷ vs) le ((m, lt, l), b) =
      ((m, omega arith, l), before_all files n k last vs le b)

  not_visited :
      (files : Files) (n : ℕ) (name last s : Bytes) (vs : List Bytes)
      → read_ref ref_path files last ≡ direct s
      → Leads ref_path files n name last
      → AreBefore files n last vs
      → contains vs name ≡ false
  unfolding contains
  not_visited files n name last s [] e l b = refl
  not_visited files n name last s (v ∷ vs) e l ((m, lt, k), b) =
      elim (Bool-cases (bytes_eq v name)) [
        | inr away ↦ ground (arith, not_visited files n name last s vs e l b)
        | inl here ↦
            let same : v ≡ name = (bytes_eq_iff v name).0 here in
            absurd (
              omega (
                arith,
                Leads-length files n m name last s e l
                    (subst (λ x. Leads ref_path files m x last) same k),
              ))
      ]

  resolve_from-Leads :
      (files : Files) (n fuel : ℕ) (visited : List Bytes) (name last s : Bytes) (id : BaseId)
      → read_ref ref_path files last ≡ direct s
      → parse_hex s ≡ ok id
      → Leads ref_path files n name last
      → AreBefore files n last visited
      → n < fuel
      → resolve_from ref_path files fuel visited name ≡ some (ok id)
  unfolding resolve_from
  resolve_from-Leads files n zero visited name last s id e p l b lt = absurd (omega arith)
  resolve_from-Leads files zero (suc fuel) visited name last s id e p l b lt =
      let fresh = not_visited files zero name last s visited e l b in
      let r : read_ref ref_path files name ≡ direct s = cc (e, l) in ground arith
  resolve_from-Leads files (suc n) (suc fuel) visited name last s id e p (t, c, l) b lt =
      let fresh = not_visited files (suc n) name last s visited e (t, c, l) b in
      let rest =
        resolve_from-Leads files n fuel (name ∷ visited) t last s id e p l
          ((suc n, omega arith, (t, c, l)), before_all files (suc n) n last visited (omega arith) b)
          (omega arith) in
      ground arith

  -- The same chain in the files after a write at another path than those of its symbolic names.
  Leads-kept :
      (files files' : Files) (n : ℕ) (name last : Bytes)
      → ((k t : Bytes)
          → read_ref ref_path files k ≡ symbolic t
          → read_ref ref_path files' k ≡ symbolic t)
      → Leads ref_path files n name last
      → Leads ref_path files' n name last
  Leads-kept files files' zero name last kept l = l
  Leads-kept files files' (suc n) name last kept (t, c, l) =
      (t, kept name t c, Leads-kept files files' n t last kept l)

  -- What a write without an error leaves at each path but that of the lock file.
  pub stored :
      (calls : Calls) (files files' : Files) (name content p : Bytes)
      → store_ref ref_path calls name content files ≡ (files', none)
      → bytes_eq (ref_path name ++ codes ".lock") p ≡ false
      → lookup p files' ≡ (if bytes_eq (ref_path name) p then some content else lookup p files)
  unfolding store_ref
  stored calls files files' name content p e off =
      let atomic =
        write_file_atomic calls.retries calls.writing (ref_path name ++ codes ".lock")
          (ref_path name) content p files off in
      elim (Bool-cases calls.mkdir) [
        | inr m ↦ absurd (ground arith)
        | inl m ↦ elim atomic [
          | inl (done, at) ↦ ground arith
          | inr (failed, at) ↦ absurd (ground arith)
        ]
      ]

  pub lock_off : (path : Bytes) → bytes_eq (path ++ codes ".lock") path ≡ false
  lock_off path =
      bytes_eq-false (path ++ codes ".lock") path
        (λ e. omega (arith, ap length e, length-append path (codes ".lock")))

  lock_unused :
      (files : Files) (tmp k t : Bytes)
      → lookup tmp files ≡ none
      → read_ref ref_path files k ≡ symbolic t
      → bytes_eq tmp (ref_path k) ≡ false
  unfolding read_ref
  lock_unused files tmp k t unused c = elim (Bool-cases (bytes_eq tmp (ref_path k))) [
    | inr off ↦ off
    | inl same ↦
        let e = (bytes_eq_iff tmp (ref_path k)).0 same in
        let gone : lookup (ref_path k) files ≡ none = cc (e, unused) in absurd (ground arith)
  ]

  keeps_symbolic :
      (calls : Calls) (files files' : Files) (current content : Bytes)
      → lookup (ref_path current ++ codes ".lock") files ≡ none
      → store_ref ref_path calls current content files ≡ (files', none)
      → ((t : Bytes) → read_ref ref_path files current ≢ symbolic t)
      → (k t : Bytes) → read_ref ref_path files k ≡ symbolic t
      → read_ref ref_path files' k ≡ symbolic t
  unfolding read_ref
  keeps_symbolic calls files files' current content unused e final k t c =
      let off = lock_unused files (ref_path current ++ codes ".lock") k t unused c in
      let kept = stored calls files files' current content (ref_path k) e off in
      elim (Bool-cases (bytes_eq (ref_path current) (ref_path k))) [
        | inr away ↦ ground arith
        | inl same ↦
            let path = (bytes_eq_iff (ref_path current) (ref_path k)).0 same in
            absurd (final t (rw path c))
      ]

  -- If `Update` finds a reference to write, no lock file of it is there, and the write gives no
  -- error, then `Resolve` of the updated name gives the new identifier, with the same fuel.
  pub resolve-update :
      (calls : Calls) (files files' : Files) (fuel : ℕ) (name current : Bytes) (id : BaseId)
      → IsId id
      → follow ref_path files fuel name ≡ some current
      → lookup (ref_path current ++ codes ".lock") files ≡ none
      → update ref_path calls fuel name id files ≡ some (files', none)
      → resolve ref_path files' fuel name ≡ some (ok id)
  unfolding resolve update
  resolve-update calls files files' fuel name current id is_id f unused u =
      let (n, lt, l, final) = follow-Leads files fuel name current f in
      let content = to_string id ++ 10 ∷ [] in
      let e : store_ref ref_path calls current content files ≡ (files', none) = ground arith in
      let kept = keeps_symbolic calls files files' current content unused e final in
      let written =
        stored calls files files' current content (ref_path current) e
          (lock_off (ref_path current)) in
      let here : read_ref ref_path files' current ≡ direct (to_string id) =
        unfold read_ref in
        ground (arith, bytes_eq_refl (ref_path current), content-to_string ref_path id is_id) in
      resolve_from-Leads files' n fuel [] name current (to_string id) id here
        (parse_hex-to_string id is_id) (Leads-kept files files' n name current kept l) tt lt
