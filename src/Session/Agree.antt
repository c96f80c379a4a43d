-- ===== src/Session/Agree.antt =====
-- Two sessions (src/TimerBase.h) with the same calls, both with an Update that leaves no due
-- timer.
use mathlib.Core.List.Perm
use mathlib.Core.List.{append-nil}
use timer_benchmarks.Common.{
  ℕ, ◌≤◌, ◌<◌, ◌≡◌, refl, sym, ◌∙◌, List, [], ◌∷◌, ◌++◌, Perm, Each-map, Bool, not, arith, ltb,
  Each,
}
use timer_benchmarks.Timer.Action.{Entry}
use timer_benchmarks.Timer.Emptied.{IsOrdered}
use timer_benchmarks.Timer.Ids.{
  select, select-perm, select-append, select-all, select-none, contains-perm,
}
use timer_benchmarks.Timer.Contract.{without-perm}
use timer_benchmarks.Session.{
  Call, Answer, given, known, called, Allows, may_start, may_cancel, may_update, Follows, stays,
  goes,
}

-- Update calls the timers in the order of their deadlines, and leaves none that is due.
abbrev pub IsPrompt : ℕ → List Entry → List Entry → Type 0
IsPrompt now calls rest = IsOrdered calls × Each (λ e. now < e.deadline) rest

-- the same id, the same answer to Cancel, the same timers called
abbrev pub IsSame : Answer → Answer → Type 0
IsSame (given i) (given j) = i ≡ j
IsSame (known b) (known c) = b ≡ c
IsSame (called es) (called fs) = Perm es fs
IsSame _ _ = ⊥

abbrev pub AllSame : List Answer → List Answer → Type 0
AllSame [] [] = Unit
AllSame (a ∷ as') (b ∷ bs) = IsSame a b × AllSame as' bs
AllSame _ _ = ⊥

late : ℕ → Entry → Bool
late now e = ltb now e.deadline

module _ (now : ℕ) (calls rest : List Entry) (due : Each (λ e. e.deadline ≤ now) calls)
    (none_due : Each (λ e. now < e.deadline) rest) where
  select-late : select (late now) (calls ++ rest) ≡ rest
  unfolding late
  select-late = rw (
    select-append (late now) calls rest,
    select-none (late now) calls (Each-map (λ e h. ground arith) due),
    select-all (late now) rest (Each-map (λ e h. ground arith) none_due),
  )

  select-due : select (λ e. not (late now e)) (calls ++ rest) ≡ calls
  unfolding late
  select-due = rw (
    select-append (λ e. not (late now e)) calls rest,
    select-all (λ e. not (late now e)) calls (Each-map (λ e h. ground arith) due),
    select-none (λ e. not (late now e)) rest (Each-map (λ e h. ground arith) none_due),
    append-nil,
  )

-- the calls, and the timers that stay, are determined by those that were pending
module _ (now : ℕ) (calls rest calls' rest' : List Entry) (due : Each (λ e. e.deadline ≤ now) calls)
    (none_due : Each (λ e. now < e.deadline) rest) (due' : Each (λ e. e.deadline ≤ now) calls')
    (none_due' : Each (λ e. now < e.deadline) rest')
    (same : Perm (calls ++ rest) (calls' ++ rest')) where
  same_calls : Perm calls calls'
  same_calls =
      rw (select-due now calls rest due none_due, select-due now calls' rest' due' none_due') at
        (select-perm (λ e. not (late now e)) same)

  same_rest : Perm rest rest'
  same_rest =
      rw (select-late now calls rest due none_due, select-late now calls' rest' due' none_due') at
        (select-perm (late now) same)

one_agrees :
    {c d d' : ℕ} {es es' fs fs' : List Entry} {a b : Answer} {call : Call}
    → Perm es es'
    → Allows IsPrompt c es call a d fs
    → Allows IsPrompt c es' call b d' fs'
    → IsSame a b × (d ≡ d') × Perm fs fs'
one_agrees p (may_start n q) (may_start n' q') =
    (refl, n ∙ sym n', Perm.trans q (Perm.trans (Perm.cons _ p) (Perm.symm q')))
one_agrees p (may_cancel {id} f q) (may_cancel f' q') = (
  f ∙ contains-perm id (Perm.map (λ e. e.id) p) ∙ sym f',
  refl,
  Perm.trans q (Perm.trans (without-perm id p) (Perm.symm q')),
)
one_agrees p (may_update {now} {calls} {fs} due q (_, left))
      (may_update {calls = calls'} {fs = fs'} due' q' (_, left')) =
    let same = Perm.trans q (Perm.trans p (Perm.symm q')) in
    (
      same_calls now calls fs calls' fs' due left due' left' same,
      refl,
      same_rest now calls fs calls' fs' due left due' left' same,
    )

-- Two runs of the same calls, from one counter and the same pending timers, both with prompt
-- Updates, give the same answers and leave the same timers pending.
pub sessions_agree :
    {calls : List Call} {c d d' : ℕ} {es es' fs fs' : List Entry} {as' bs : List Answer}
    → Perm es es'
    → Follows IsPrompt c es calls as' d fs
    → Follows IsPrompt c es' calls bs d' fs'
    → AllSame as' bs × (d ≡ d') × Perm fs fs'
sessions_agree p stays stays = (tt, refl, p)
sessions_agree p (goes a f) (goes b g) =
    let (same, count, q) = one_agrees p a b in
    let (all, count', left) = sessions_agree q (rw count at f) g in ((same, all), count', left)
