-- ===== src/Conflict/ResolveTests.antt =====
-- internal/conflict: runs of `Resolve` on a small file.
use vara.Base.{◌≡◌, ◌+◌, ◌⊎◌, refl, List, [], ◌∷◌, ◌++◌, Bytes, bytes_eq, codes, ok}
use vara.Lines.{join, split_lines, split_from, has_prefix, trim_end, lines_eq}
use vara.Conflict.{is_begin, is_end, is_sep, count}
use vara.Conflict.Resolve.{ours, auto, Stats, read_side, resolve_hunk, resolve_lines, resolve}
use vara.Conflict.Settled.{resolve-count}

abbrev line : Bytes → Bytes
line s = s ++ 10 ∷ []

abbrev lines : List Bytes
lines =
    line (codes "a")
    ∷ line (codes "<<<<<<< me")
    ∷ line (codes "b")
    ∷ line (codes "=======")
    ∷ line (codes "c")
    ∷ line (codes ">>>>>>> you")
    ∷ []

abbrev conflicted : Bytes
conflicted =
    line (codes "a")
    ++ (line (codes "<<<<<<< me")
        ++ (line (codes "b")
            ++ (line (codes "=======") ++ (line (codes "c") ++ line (codes ">>>>>>> you")))))

abbrev one_open : Stats
one_open = record { total = 1; resolved = 0; remaining = 1 }

resolve-auto : resolve conflicted auto ≡ ok (conflicted, one_open)
unfolding resolve resolve_lines read_side resolve_hunk lines_eq is_begin is_end is_sep join
    split_lines split_from has_prefix trim_end bytes_eq
resolve-auto = refl

resolve-ours :
    resolve conflicted ours
    ≡ ok (line (codes "a") ++ line (codes "b"), record { total = 1; resolved = 1; remaining = 0 })
unfolding resolve resolve_lines read_side resolve_hunk is_begin is_end is_sep join split_lines
    split_from has_prefix trim_end bytes_eq
resolve-ours = refl

resolve-count_example :
    (one_open.total ≡ count conflicted)
    × (one_open.total ≡ one_open.resolved + one_open.remaining)
    × ((auto ≡ auto) ⊎ (one_open.remaining ≡ 0))
resolve-count_example = resolve-count conflicted conflicted auto one_open resolve-auto
