-- ===== src/Recovery/Undone.antt =====
-- pkg/recovery/recovery.go: `UndoTarget` as the top of a stack of changes.
use vara.Base.{
  ℕ, zero, suc, ◌+◌, ◌-◌, ◌≡◌, refl, sym, ap, ◌∙◌, true, false, List, [], ◌∷◌, ◌++◌, arith, length,
  drop, if◌then◌else◌, Bool-cases, inl, inr, ltb, length-append, subst,
}
use mathlib.Core.List.{reverse, reverse-append}
use vara.Recovery.{LogEntry, Target, first_commit, is_undo, target_of, walk_log, undo_target}

abbrev pop : List LogEntry → List LogEntry
pop [] = []
pop (e ∷ es) = es

-- The changes that are not undone, newest first, from a reflog that is newest first: an entry of
-- undo takes the last one off.
abbrev pub changes : List LogEntry → List LogEntry
changes [] = []
changes (e ∷ older) = if is_undo e then pop (changes older) else e ∷ changes older

abbrev pub top : List LogEntry → Target
top [] = first_commit
top (e ∷ es) = target_of e

abbrev pub AllUndo : List LogEntry → Type 0
AllUndo [] = Unit {0}
AllUndo (e ∷ es) = (is_undo e ≡ true) × AllUndo es

drop-pop : (n : ℕ) (es : List LogEntry) → drop n (pop es) ≡ drop (n + 1) es
drop-pop zero [] = refl
drop-pop (suc n) [] = ground arith
drop-pop n (e ∷ es) = ground arith

drop-nil : (n : ℕ) → drop {A = LogEntry} n [] ≡ []
drop-nil zero = refl
drop-nil (suc n) = refl

walk_log-changes :
    (skip : ℕ) (log : List LogEntry) → walk_log skip log ≡ top (drop skip (changes log))
unfolding walk_log
walk_log-changes skip [] = ap top (sym (drop-nil skip))
walk_log-changes skip (e ∷ es) = elim (Bool-cases (is_undo e)) [
  | inl undo ↦
      rw (undo, walk_log)
        (walk_log-changes (skip + 1) es ∙ ap top (sym (drop-pop skip (changes es))))
  | inr change ↦ rw (change, walk_log) (at skip (λ k. walk_log-changes k es))
]
  where
    at :
        (n : ℕ)
        → ((k : ℕ) → walk_log k es ≡ top (drop k (changes es)))
        → ◌≡◌ {A = Target}
            (elim (ltb 0 n) [ true ↦ walk_log (n - 1) es | false ↦ target_of e ])
            (top (drop n (e ∷ changes es)))
    at zero later = refl
    at (suc n) later = ground (arith, later n)

changes-append_undos :
    (undos log : List LogEntry)
    → AllUndo undos
    → changes (undos ++ log) ≡ drop (length undos) (changes log)
changes-append_undos [] log all = refl
changes-append_undos (u ∷ us) log (undo, all) =
    rw undo (ap pop (changes-append_undos us log all) ∙ pop-drop (length us) (changes log))
  where
    pop-drop : (n : ℕ) (es : List LogEntry) → pop (drop n es) ≡ drop (suc n) es
    pop-drop zero [] = refl
    pop-drop zero (e ∷ es) = refl
    pop-drop (suc n) [] = refl
    pop-drop (suc n) (e ∷ es) = pop-drop n es

AllUndo-append : (xs ys : List LogEntry) → AllUndo xs → AllUndo ys → AllUndo (xs ++ ys)
AllUndo-append [] ys a b = b
AllUndo-append (x ∷ xs) ys (u, a) b = (u, AllUndo-append xs ys a b)

AllUndo-reverse : (xs : List LogEntry) → AllUndo xs → AllUndo (reverse xs)
AllUndo-reverse [] a = tt
AllUndo-reverse (x ∷ xs) (u, a) =
    subst AllUndo (sym (reverse-append (x ∷ []) xs))
      (AllUndo-append (reverse xs) (x ∷ []) (AllUndo-reverse xs a) (u, tt))

length-reverse : (xs : List LogEntry) → length (reverse xs) ≡ length xs
length-reverse [] = refl
length-reverse (x ∷ xs) =
    ap length (reverse-append (x ∷ []) xs)
    ∙ omega (arith, length-append (reverse xs) (x ∷ []), length-reverse xs)

-- With a reflog that is not empty, after any number of entries of undo behind it, `UndoTarget` gives
-- the change that lies as deep in the stack of changes, on which each change is a push and each
-- earlier entry of undo a pop; it gives `ErrFirstCommit` where the stack is not so deep, or where
-- that change is from the zero commit.
pub undo_target-undone :
    (first : LogEntry) (log undos : List LogEntry)
    → AllUndo undos
    → undo_target (first ∷ log ++ undos)
      ≡ top (drop (length undos) (changes (reverse (first ∷ log))))
unfolding undo_target
undo_target-undone first log undos all =
    walk_log-changes 0 (reverse (first ∷ log ++ undos))
    ∙ ap (λ (l : List LogEntry). top (changes l)) (reverse-append (first ∷ log) undos)
    ∙ ap top
        (changes-append_undos (reverse undos) (reverse (first ∷ log)) (AllUndo-reverse undos all))
    ∙ ap (λ (n : ℕ). top (drop n (changes (reverse (first ∷ log))))) (length-reverse undos)
