-- ===== src/Shell/Control/BgFg.antt =====
-- `do_bgfg` leaves no job in the foreground.
use cs.Base.{
  ℕ, ◌≤◌, ◌≡◌, refl, subst, ◌⊎◌, inl, inr, List, [], ◌∷◌, some, arith, ◌==◌, Bool-cases,
  Option-cases, get_or, ltb, All, not,
}
use cs.Base.Int.{ℤ, pos, negsuc, neg}
use cs.CString.{Bytes, codes, str_eq, isdigit, atoi}
use cs.Shell.State.{fg, bg, Job, Shell, Interrupt, print, running, kills, sigcont}
use cs.Shell.Jobs.{has_jid, getjobjid, getjobpid, pid_at, jid_at, cmdline_at, set_state}
use cs.Shell.Jobs.Slots.{index_of-some, All-get, IsSlot}
use cs.Shell.Signals.{deliver, waitfg}
use cs.Shell.Signals.Foreground.{
  FgIs, deliver-Ok, deliver-NoFg, deliver-OnlyAt, waitfg-NoFg, waitfg_zero,
}
use cs.Shell.Control.{World, resume_jid, resume_pid, bgfg_arg, behind_first, do_bgfg}
use cs.Shell.Control.Quiet.{
  AtPrompt, Returns, returned, then_run-Returns, wait_at, set_state-Ok, set_state-NoFg,
  set_state-OnlyAt, FgIs-set_state, print-Ok, print-AtPrompt,
}

-- What `fg` and `bg` do with a job, found by its id or by its process.
pub resume_jid-fg :
    (i : ℕ) (w : World) (s : Shell)
    → AtPrompt s
    → 1 ≤ pid_at s.jobs i
    → Returns AtPrompt (resume_jid (codes "fg") i w s)
unfolding resume_jid str_eq
resume_jid-fg i w s a n = then_run-Returns AtPrompt _ _ λ s3 e.
    wait_at i (pid_at s.jobs i) w.later s3
      (deliver-Ok w.at_call _ s3 e (print-Ok _ _ (set_state-Ok s i fg (inl n) (λ x. cc) a.ok)))
      (deliver-OnlyAt i (pid_at s.jobs i) w.at_call _ s3 e (set_state-OnlyAt s i fg a.quiet))

resume_jid-bg :
    (i : ℕ) (w : World) (s : Shell) → AtPrompt s → Returns AtPrompt (resume_jid (codes "bg") i w s)
unfolding resume_jid str_eq
resume_jid-bg i w s a = then_run-Returns AtPrompt _ _ λ s3 e. returned AtPrompt s3 w.later (record {
  ok =
      deliver-Ok w.at_call _ s3 e
        (print-Ok _ _ (print-Ok _ _ (set_state-Ok s i bg (inr refl) (λ x. cc) a.ok)));
  quiet = deliver-NoFg w.at_call _ s3 e (set_state-NoFg s i bg refl a.quiet);
})

-- The signals come first: the slot may be free by then, and then `waitfg 0` never returns.
fg_after :
    (i : ℕ) (xs : List Interrupt) (s : Shell)
    → AtPrompt s
    → Returns AtPrompt (waitfg (pid_at s.jobs i) xs (set_state i fg s))
fg_after i xs s a t rest e = elim (Bool-cases (pid_at s.jobs i == 0)) [
  | inl free ↦
      let is_zero : pid_at s.jobs i ≡ 0 = ground arith in
      let only = subst (λ p. FgIs p (set_state i fg s).jobs) is_zero (FgIs-set_state s i a.quiet) in
      absurd (waitfg_zero xs (set_state i fg s) t rest only (rw (← is_zero) e))
  | inr held ↦
      let (v, q) =
        waitfg-NoFg (pid_at s.jobs i) xs (set_state i fg s) t rest e
          (set_state-Ok s i fg (inl (ground arith)) (λ x. cc) a.ok) (FgIs-set_state s i a.quiet) in
      record { ok = v; quiet = q }
]

resume_pid-fg :
    (i : ℕ) (w : World) (s : Shell) → AtPrompt s → Returns AtPrompt (resume_pid (codes "fg") i w s)
unfolding resume_pid str_eq
resume_pid-fg i w s a = then_run-Returns AtPrompt _ _ λ s1 e. fg_after i w.later s1 (record {
  ok = deliver-Ok w.at_call _ s1 e (print-Ok _ _ a.ok);
  quiet = deliver-NoFg w.at_call _ s1 e a.quiet;
})

resume_pid-bg :
    (i : ℕ) (w : World) (s : Shell) → AtPrompt s → Returns AtPrompt (resume_pid (codes "bg") i w s)
unfolding resume_pid str_eq
resume_pid-bg i w s a =
    let continued = print (kills (neg (pid_at s.jobs i)) sigcont) s in
    then_run-Returns AtPrompt (deliver w.at_call continued) _ λ s1 e.
      let s2 = set_state i bg s1 in
      let line = running (jid_at s2.jobs i) (pid_at s.jobs i) (cmdline_at s2.jobs i) in
      let still = deliver-Ok w.at_call continued s1 e (print-Ok s _ a.ok) in
      returned AtPrompt (print line s2) w.later (record {
        ok = print-Ok s2 line (set_state-Ok s1 i bg (inr refl) (λ x. cc) still);
        quiet = set_state-NoFg s1 i bg refl (deliver-NoFg w.at_call continued s1 e a.quiet);
      })

-- A slot with a positive job id holds a process.
getjobjid-held :
    (js : List Job) (z : ℤ) (i : ℕ) → All IsSlot js → getjobjid js z ≡ some i → 1 ≤ pid_at js i
unfolding getjobjid
getjobjid-held js (negsuc n) i h e = cc
getjobjid-held js (pos n) i h e = elim (Bool-cases (ltb n 1)) [
  | inl t ↦ absurd (ground arith)
  | inr f ↦
      let (j, g, b) = index_of-some (has_jid n) js i (ground arith) in
      ground (arith, All-get IsSlot js i j h g)
]

-- `fg` and `bg` with an argument.
module _ (cmd arg : Bytes) (w : World) (s : Shell) (a : AtPrompt s) where
  bgfg_arg-AtPrompt :
      ((i : ℕ) → 1 ≤ pid_at s.jobs i → Returns AtPrompt (resume_jid cmd i w s))
      → ((i : ℕ) → Returns AtPrompt (resume_pid cmd i w s))
      → Returns AtPrompt (bgfg_arg cmd arg w s)
  unfolding bgfg_arg
  bgfg_arg-AtPrompt by_jid by_pid = elim (Bool-cases (get_or arg 0 0 == b'%')) [
    | inl jid ↦ elim (Option-cases (getjobjid s.jobs (atoi (behind_first arg)))) [
      | inl e ↦ rw (jid, e, bgfg_arg) (returned AtPrompt _ w.later (print-AtPrompt s _ a))
      | inr (i, e) ↦ rw (jid, e, bgfg_arg) (by_jid i (getjobjid-held s.jobs _ i a.ok.valid.slots e))
    ]
    | inr pid ↦ elim (Bool-cases (not (isdigit (get_or arg 1 0)))) [
      | inl bad ↦ rw (pid, bad, bgfg_arg) (returned AtPrompt _ w.later (print-AtPrompt s _ a))
      | inr good ↦ elim (Option-cases (getjobpid s.jobs (atoi arg))) [
        | inl e ↦ rw (pid, good, e, bgfg_arg) (returned AtPrompt _ w.later (print-AtPrompt s _ a))
        | inr (i, e) ↦ rw (pid, good, e, bgfg_arg) (by_pid i)
      ]
    ]
  ]

pub do_bgfg-AtPrompt :
    (cmd : Bytes) (args : List Bytes) (w : World) (s : Shell)
    → (cmd ≡ codes "fg") ⊎ (cmd ≡ codes "bg")
    → AtPrompt s
    → Returns AtPrompt (do_bgfg cmd args w s)
unfolding do_bgfg
do_bgfg-AtPrompt cmd [] w s c a = returned AtPrompt _ w.later (print-AtPrompt s _ a)
do_bgfg-AtPrompt cmd (arg ∷ args) w s (inl e) a = rw e (
    bgfg_arg-AtPrompt (codes "fg") arg w s a (λ i n. resume_jid-fg i w s a n)
      (λ i. resume_pid-fg i w s a))
do_bgfg-AtPrompt cmd (arg ∷ args) w s (inr e) a = rw e (
    bgfg_arg-AtPrompt (codes "bg") arg w s a (λ i n. resume_jid-bg i w s a)
      (λ i. resume_pid-bg i w s a))
