-- ===== src/Cluster/Nodes/Lines.antt =====
-- The lines that `from_str_to_cluster` keeps, and the end of its loop.
use mathlib.Core.List.{append-nil, append_assoc}
use da_bao.Base.{
  ℕ, zero, suc, ◌+◌, ◌≤◌, ◌<◌, ◌≡◌, ◌≢◌, refl, ap, ◌∙◌, arith, List, [], ◌∷◌, ◌++◌, Option, some,
  none, length, drop, All, length-append, lt→ltb, ◌==◌, if◌then◌else◌,
}
use da_bao.Cluster.{nodes_max}
use da_bao.Cluster.Text.{codes, strchr, strstr, between}
use da_bao.Cluster.Text.Laws.{strchr-append, between-append}
use da_bao.Cluster.Nodes.{lines_loop, from_str_to_cluster}

-- A text of lines, each with its end.
abbrev pub print_lines : List (List ℕ) → List ℕ
print_lines [] = []
print_lines (line ∷ lines) = line ++ (b'\n' ∷ print_lines lines)

-- The lines without the word "slave".
abbrev pub without_slaves : List (List ℕ) → List (List ℕ)
without_slaves [] = []
without_slaves (line ∷ lines) = elim (strstr line (codes "slave")) [
  | some _ ↦ without_slaves lines
  | none ↦ line ∷ without_slaves lines
]

length-print_lines : (lines : List (List ℕ)) → length lines ≤ length (print_lines lines)
length-print_lines [] = omega arith
length-print_lines (line ∷ lines) =
    omega (arith, length-append line (b'\n' ∷ print_lines lines), length-print_lines lines)

-- One line, that is kept or dropped.
lines_round :
    (found : Option (List ℕ)) {copied line : List ℕ} (argv more : List (List ℕ))
    (next : List (List ℕ) → Option (List (List ℕ)))
    → copied ≡ line
    → ((argv' : List (List ℕ))
        → length argv' + length more < nodes_max
        → next argv' ≡ some (argv' ++ more))
    → length argv + length (elim found [ some _ ↦ more | none ↦ line ∷ more ]) < nodes_max
    → elim found [ some _ ↦ next argv | none ↦ next (argv ++ (copied ∷ [])) ]
      ≡ some (argv ++ elim found [ some _ ↦ more | none ↦ line ∷ more ])
lines_round (some _) argv more next e ih room = ih argv room
lines_round none {line} argv more next e ih room =
    ap (λ l. next (argv ++ (l ∷ []))) e
    ∙ ih (argv ++ (line ∷ [])) (omega (arith, length-append argv (line ∷ [])))
    ∙ ap some (append_assoc argv (line ∷ []) more)

lines_loop_lem :
    (heap : ℕ → List ℕ) (fuel i : ℕ) (lines argv : List (List ℕ))
    → ((j : ℕ) → heap j ≡ [])
    → length lines < fuel
    → All (All (λ x. x ≢ b'\n')) lines
    → length argv + length (without_slaves lines) < nodes_max
    → lines_loop heap fuel i (print_lines lines) argv ≡ some (argv ++ without_slaves lines)
unfolding lines_loop
lines_loop_lem heap zero i lines argv fresh enough plain room = absurd (omega arith)
lines_loop_lem heap (suc fuel) i [] argv fresh enough plain room = ground (arith, append-nil argv)
lines_loop_lem heap (suc fuel) i (line ∷ lines) argv fresh enough plain room =
    rw (lt→ltb (length argv) nodes_max (omega arith)) (
      rw (strchr-append line (print_lines lines) b'\n' plain.0) (
        rw (fresh i) (
          rw (between-append line (b'\n' ∷ print_lines lines)) (
            rw (append-nil line) (
              lines_round (strstr line (codes "slave")) argv (without_slaves lines)
                (lines_loop heap fuel (suc i) (print_lines lines))
                (between-append line (b'\n' ∷ print_lines lines))
                (λ argv' room'.
                  lines_loop_lem heap fuel (suc i) lines argv' fresh (omega arith) plain.1 room')
                room)))))

pub from_str_to_cluster_lem :
    (heap : ℕ → List ℕ) (lines : List (List ℕ))
    → ((j : ℕ) → heap j ≡ [])
    → All (All (λ x. x ≢ b'\n')) lines
    → length (without_slaves lines) < nodes_max
    → from_str_to_cluster heap (print_lines lines) ≡ some (without_slaves lines)
unfolding from_str_to_cluster
from_str_to_cluster_lem heap lines fresh plain room =
    lines_loop_lem heap (suc (length (print_lines lines))) 0 lines [] fresh
      (omega (arith, length-print_lines lines)) plain (omega arith)

-- How many lines end in a text.
abbrev pub line_ends : List ℕ → ℕ
line_ends [] = 0
line_ends (x ∷ s) = if x == b'\n' then suc (line_ends s) else line_ends s

-- A line end that is found leaves a shorter text with one line end less.
strchr_shorter :
    (s point : List ℕ)
    → strchr s b'\n' ≡ some point
    → (length (drop 1 point) < length s) × (suc (line_ends (drop 1 point)) ≡ line_ends s)
unfolding strchr
strchr_shorter [] point e = cc
strchr_shorter (x ∷ s) point e = ground (arith, strchr_shorter s point)

-- A loop that ends with at most `n` lines.
abbrev pub Ends : Option (List (List ℕ)) → ℕ → Type 0
Ends o n = (kept : List (List ℕ)) × (o ≡ some kept) × (length kept ≤ n)

next-Ends :
    (point : Option (List ℕ)) (argv : List (List ℕ)) (n : ℕ)
    (next : List ℕ → Option (List (List ℕ)))
    → length argv ≤ n
    → ((rest : List ℕ) → point ≡ some rest → Ends (next rest) n)
    → Ends (elim point [ none ↦ some argv | some rest ↦ next rest ]) n
next-Ends none argv n next le h = (argv, refl, le)
next-Ends (some rest) argv n next le h = h rest refl

kept-Ends :
    (found : Option (List ℕ)) (kept dropped : Option (List (List ℕ))) (n : ℕ)
    → Ends kept n
    → Ends dropped n
    → Ends (elim found [ some _ ↦ dropped | none ↦ kept ]) n
kept-Ends none kept dropped n h h' = h
kept-Ends (some _) kept dropped n h h' = h'

Ends-le : (o : Option (List (List ℕ))) (m n : ℕ) → m ≤ n → Ends o m → Ends o n
Ends-le o m n le (kept, e, h) = (kept, e, omega arith)

lines_loop-Ends :
    (heap : ℕ → List ℕ) (fuel i : ℕ) (temp : List ℕ) (argv : List (List ℕ))
    → length temp < fuel
    → length argv + line_ends temp < nodes_max
    → Ends (lines_loop heap fuel i temp argv) (length argv + line_ends temp)
unfolding lines_loop
lines_loop-Ends heap zero i temp argv h room = absurd (omega arith)
lines_loop-Ends heap (suc fuel) i temp argv h room =
    rw (lt→ltb (length argv) nodes_max (omega arith)) (
      next-Ends (strchr temp b'\n') argv (length argv + line_ends temp) _ (omega arith) (λ rest e.
        let (shorter, ends) = strchr_shorter temp rest e in
        let line = between temp rest in
        kept-Ends (strstr (line ++ heap i) (codes "slave")) _ _ _
          (Ends-le _ (length (argv ++ (line ∷ [])) + line_ends (drop 1 rest)) _
            (omega (arith, length-append argv (line ∷ [])))
            (lines_loop-Ends heap fuel (suc i) (drop 1 rest) (argv ++ (line ∷ [])) (omega arith)
              (omega (arith, length-append argv (line ∷ [])))))
          (Ends-le _ (length argv + line_ends (drop 1 rest)) _ (omega arith)
            (lines_loop-Ends heap fuel (suc i) (drop 1 rest) argv (omega arith) (omega arith)))))

-- On every text with fewer than 50 line ends, and whatever the memory holds, the loop over its
-- lines ends within the array, with no more lines than line ends.
pub from_str_to_cluster-ends :
    (heap : ℕ → List ℕ) (temp : List ℕ)
    → line_ends temp < nodes_max
    → (argv : List (List ℕ)) × (from_str_to_cluster heap temp ≡ some argv)
      × (length argv ≤ line_ends temp)
unfolding from_str_to_cluster
from_str_to_cluster-ends heap temp room =
    Ends-le _ (0 + line_ends temp) _ (omega arith)
      (lines_loop-Ends heap (suc (length temp)) 0 temp [] (omega arith) (omega arith))
