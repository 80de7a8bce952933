-- ===== src/Pipeline/Walk.antt =====
-- What parseargs makes of a pipeline that is written down word by word.
use cs.Base.{
  ℕ, ◌+◌, ◌≡◌, refl, ap, ◌∙◌, List, [], ◌∷◌, ◌++◌, map, Option, none, some, length, All, arith,
  length-append, append_assoc, append-nil, length-map,
}
use cs.CString.{Bytes, codes, str_eq}
use cs.Pipeline.{Cmd, plain, kind, new_cmd, last_word, walk, parseargs}

-- A command: its first word, the others, and the files of its redirections.
pub record Command : Type 0 where
  pub first : Bytes
  pub others : List Bytes
  pub reads : Option Bytes
  pub writes : Option Bytes

abbrev pub redirection : Bytes → Option Bytes → List Bytes
redirection op none = []
redirection op (some f) = op ∷ f ∷ []

abbrev pub behind_first : Command → List Bytes
behind_first c = c.others ++ (redirection (codes "<") c.reads ++ redirection (codes ">") c.writes)

-- The words of further commands, each behind a bar.
abbrev pub piped : List Command → List Bytes
piped [] = []
piped (c ∷ cs) = codes "|" ∷ (c.first ∷ (behind_first c ++ piped cs))

abbrev pub IsPlain : Bytes → Type 0
IsPlain a = kind a ≡ plain

-- What argv holds for them.
abbrev pub redirected : Option Bytes → List (Option Bytes)
redirected none = []
redirected (some f) = none ∷ some f ∷ []

abbrev pub entries : Command → List (Option Bytes)
entries c =
    some c.first
    ∷ (map (λ (a : Bytes). some a) c.others ++ (redirected c.reads ++ redirected c.writes))

abbrev pub piped_entries : List Command → List (Option Bytes)
piped_entries [] = []
piped_entries (c ∷ cs) = none ∷ (entries c ++ piped_entries cs)

abbrev pub place : ℕ → Option Bytes → Option ℕ
place k none = none
place k (some f) = some (k + 1)

-- The command by its indices, where its first word has index `k`.
abbrev pub cmd_at : ℕ → Command → Cmd
cmd_at k c = record {
  cmd = k;
  stdin_redir = place (k + 1 + length c.others) c.reads;
  stdout_redir = place (k + 1 + length c.others + length (redirected c.reads)) c.writes;
}

abbrev pub cmds_at : ℕ → List Command → List Cmd
cmds_at k [] = []
cmds_at k (c ∷ cs) = cmd_at k c ∷ cmds_at (k + length (entries c) + 1) cs

walk-plain :
    (a : Bytes) (r : List Bytes) (argv : List (Option Bytes)) (cur : Cmd) (before : List Cmd)
    → IsPlain a
    → walk (a ∷ r) argv cur before ≡ walk r (argv ++ some a ∷ []) cur before
unfolding walk last_word
walk-plain a [] argv cur before h = rw (h, last_word) refl
walk-plain a (f ∷ r) argv cur before h = rw (h, walk) refl

walk-others :
    (ws r : List Bytes) (argv : List (Option Bytes)) (cur : Cmd) (before : List Cmd)
    → All IsPlain ws
    → walk (ws ++ r) argv cur before ≡ walk r (argv ++ map (λ (a : Bytes). some a) ws) cur before
walk-others [] r argv cur before h = rw (append-nil argv) refl
walk-others (a ∷ ws) r argv cur before (p, h) =
    walk-plain a (ws ++ r) argv cur before p
    ∙ (walk-others ws r (argv ++ some a ∷ []) cur before h
        ∙ rw (append_assoc argv (some a ∷ []) (map (λ (b : Bytes). some b) ws)) refl)

walk-reads :
    (o : Option Bytes) (r : List Bytes) (argv : List (Option Bytes)) (k : ℕ) (before : List Cmd)
    → walk (redirection (codes "<") o ++ r) argv (new_cmd k) before
      ≡ walk r
          (argv ++ redirected o)
          (record (new_cmd k) { stdin_redir = place (length argv) o })
          before
unfolding walk kind str_eq
walk-reads none r argv k before = rw (append-nil argv) refl
walk-reads (some f) r argv k before = refl

walk-writes :
    (o : Option Bytes) (r : List Bytes) (argv : List (Option Bytes)) (k : ℕ) (i : Option ℕ)
    (before : List Cmd)
    → walk (redirection (codes ">") o ++ r) argv (record (new_cmd k) { stdin_redir = i }) before
      ≡ walk r
          (argv ++ redirected o)
          (record { cmd = k; stdin_redir = i; stdout_redir = place (length argv) o })
          before
unfolding walk kind str_eq
walk-writes none r argv k i before = rw (append-nil argv) refl
walk-writes (some f) r argv k i before = refl

-- One command, from behind its first word, which stands last in argv.
walk-command :
    (c : Command) (r : List Bytes) (argv : List (Option Bytes)) (before : List Cmd)
    → All IsPlain c.others
    → walk (behind_first c ++ r) (argv ++ some c.first ∷ []) (new_cmd (length argv)) before
      ≡ walk r (argv ++ entries c) (cmd_at (length argv) c) before
walk-command c r argv before h =
    let R = redirection (codes "<") c.reads in
    let W = redirection (codes ">") c.writes in
    let ws = map (λ (a : Bytes). some a) c.others in
    let k = length argv in
    let v1 = argv ++ some c.first ∷ [] in
    let v2 = v1 ++ ws in
    let v3 = v2 ++ redirected c.reads in
    let n1 = length-append argv (some c.first ∷ []) in
    let n2 = length-append v1 ws in
    let n3 = length-append v2 (redirected c.reads) in
    let m = length-map c.others (λ (a : Bytes). some a) in
    let l2 : length v2 ≡ k + 1 + length c.others = omega (arith, n1, n2, m) in
    let l3 : length v3 ≡ k + 1 + length c.others + length (redirected c.reads) =
      omega (arith, n3, l2) in
    let whole : v3 ++ redirected c.writes ≡ argv ++ entries c =
      rw
        (
          append_assoc v2 (redirected c.reads) (redirected c.writes),
          append_assoc v1 ws (redirected c.reads ++ redirected c.writes),
          append_assoc argv (some c.first ∷ []) (ws ++ (redirected c.reads ++ redirected c.writes)),
        )
        refl in
    rw (append_assoc c.others (R ++ W) r, append_assoc R W r)
      (walk-others c.others (R ++ (W ++ r)) v1 (new_cmd k) before h
        ∙ (walk-reads c.reads (W ++ r) v2 k before
            ∙ (walk-writes c.writes r v3 k (place (length v2) c.reads) before
                ∙ rw (l2, l3, whole) refl)))

walk-bar :
    (c : Bytes) (r : List Bytes) (argv : List (Option Bytes)) (cur : Cmd) (before : List Cmd)
    → walk (codes "|" ∷ (c ∷ r)) argv cur before
      ≡ walk r
          ((argv ++ none ∷ []) ++ some c ∷ [])
          (new_cmd (length (argv ++ none ∷ [])))
          (before ++ cur ∷ [])
unfolding walk kind str_eq
walk-bar c r argv cur before =
    let n : length (argv ++ none ∷ []) ≡ length argv + 1 = length-append argv (none ∷ []) in
    rw (n, append_assoc argv (none ∷ []) (some c ∷ [])) refl

abbrev pub AllPlain : Command → Type 0
AllPlain c = All IsPlain c.others

walk-piped :
    (cs : List Command) (argv : List (Option Bytes)) (cur : Cmd) (before : List Cmd)
    → All AllPlain cs
    → walk (piped cs) argv cur before ≡ record {
      argv = argv ++ piped_entries cs;
      cmds = before ++ cur ∷ cmds_at (length argv + 1) cs;
    }
walk-piped [] argv cur before h = rw (append-nil argv) (unfold walk in refl)
walk-piped (c ∷ cs) argv cur before (p, h) =
    let v = argv ++ none ∷ [] in
    let n1 : length v ≡ length argv + 1 = length-append argv (none ∷ []) in
    let n2 : length (v ++ entries c) ≡ length argv + 1 + length (entries c) =
      omega (arith, length-append v (entries c), n1) in
    let whole : v ++ entries c ++ piped_entries cs ≡ argv ++ piped_entries (c ∷ cs) =
      rw
        (
          append_assoc v (entries c) (piped_entries cs),
          append_assoc argv (none ∷ []) (entries c ++ piped_entries cs),
        )
        refl in
    walk-bar c.first (behind_first c ++ piped cs) argv cur before
    ∙ (walk-command c (piped cs) v (before ++ cur ∷ []) p
        ∙ (walk-piped cs (v ++ entries c) (cmd_at (length v) c) (before ++ cur ∷ []) h
            ∙ rw
                (
                  whole,
                  n2,
                  n1,
                  append_assoc before (cur ∷ []) (
                      cmd_at (length argv + 1) c
                      ∷ cmds_at (length argv + 1 + length (entries c) + 1) cs),
                )
                refl))

-- The commands of a pipeline, written word by word, in argv and by their indices.
pub parseargs-pipeline :
    (c : Command) (cs : List Command)
    → AllPlain c
    → All AllPlain cs
    → parseargs (c.first ∷ (behind_first c ++ piped cs))
      ≡ record { argv = entries c ++ piped_entries cs; cmds = cmds_at 0 (c ∷ cs) }
unfolding parseargs
parseargs-pipeline c cs p h =
    walk-command c (piped cs) [] [] p
    ∙ (walk-piped cs (entries c) (cmd_at 0 c) [] h
        ∙ ap
            (λ (n : ℕ). record {
              argv = entries c ++ piped_entries cs;
              cmds = cmd_at 0 c ∷ cmds_at n cs;
            })
            (omega arith))
