-- ===== src/Protocol/Aggregate/Weight.antt =====
-- The aggregate is the row of the greatest weight.
use agent_comm_hub.Prelude.{
  ℕ, max, ◌≡◌, refl, List, [], ◌∷◌, Bool, true, false, ◌||◌, ◌&&◌, ltb, any, all, filter,
  if◌then◌else◌, arith, sym, ◌∙◌, ap,
}
use agent_comm_hub.Protocol.Status.{TaskStatus, is_terminal}
use agent_comm_hub.Protocol.Aggregate.{
  is_pending, is_accepted, is_working, is_input_required, is_done, is_failed, is_timeout,
  is_canceled, is_active, is_nonempty, active_status, ended_status, aggregate_nonempty,
  aggregate_task_status,
}

-- The order in which the rows of a task decide its status.
abbrev pub weight : TaskStatus → ℕ
weight TaskStatus.done = 0
weight TaskStatus.rejected = 1
weight TaskStatus.canceled = 2
weight TaskStatus.timeout = 3
weight TaskStatus.failed = 4
weight TaskStatus.pending = 5
weight TaskStatus.accepted = 6
weight TaskStatus.working = 7
weight TaskStatus.input_required = 8

abbrev pub max_weight : List TaskStatus → ℕ
max_weight [] = 0
max_weight (s ∷ ss) = max (weight s) (max_weight ss)

any-filter_active :
    (p : TaskStatus → Bool) (ss : List TaskStatus)
    → ((s : TaskStatus) → p s ≡ true → is_active s ≡ true)
    → any p (filter is_active ss) ≡ any p ss
any-filter_active p [] h = refl
any-filter_active p (s ∷ ss) h = ground (arith, h s, any-filter_active p ss h)

is_nonempty-filter :
    (ss : List TaskStatus)
    → is_nonempty (filter is_active ss)
      ≡ (any is_pending ss || any is_accepted ss || any is_working ss)
is_nonempty-filter [] = refl
is_nonempty-filter (s ∷ ss) = ground (arith, is_nonempty-filter ss)

-- The status that a set of flags stands for.
abbrev choose : Bool → Bool → Bool → Bool → Bool → Bool → Bool → Bool → TaskStatus
choose ir w a p d f t c =
    if ir
    then TaskStatus.input_required
    else (if w
        then TaskStatus.working
        else (if a
            then TaskStatus.accepted
            else (if p
                then TaskStatus.pending
                else (if d
                    then TaskStatus.done
                    else (if f
                        then TaskStatus.failed
                        else (if t
                            then TaskStatus.timeout
                            else (if c then TaskStatus.canceled else TaskStatus.rejected)))))))

aggregate-eq-choose :
    (ss : List TaskStatus)
    → aggregate_nonempty ss
      ≡ choose
          (any is_input_required ss)
          (any is_working ss)
          (any is_accepted ss)
          (any is_pending ss)
          (all is_done ss)
          (any is_failed ss)
          (any is_timeout ss)
          (any is_canceled ss)
unfolding aggregate_nonempty active_status ended_status
aggregate-eq-choose ss = ground (
  arith,
  any-filter_active is_working ss,
  any-filter_active is_accepted ss,
  is_nonempty-filter ss,
)

choose_join :
    (s : TaskStatus) (ir w a p d f t c : Bool)
    → (d && (f || t || c)) ≡ false
    → weight (
        choose
          (is_input_required s || ir)
          (is_working s || w)
          (is_accepted s || a)
          (is_pending s || p)
          (is_done s && d)
          (is_failed s || f)
          (is_timeout s || t)
          (is_canceled s || c))
      ≡ max (weight s) (weight (choose ir w a p d f t c))
choose_join TaskStatus.pending ir w a p d f t c h = ground arith
choose_join _ ir w a p d f t c h = ground arith

done_excludes :
    (ss : List TaskStatus)
    → (all is_done ss && (any is_failed ss || any is_timeout ss || any is_canceled ss)) ≡ false
done_excludes [] = refl
done_excludes (s ∷ ss) = ground (arith, done_excludes ss)

weight-aggregate_nonempty : (ss : List TaskStatus) → weight (aggregate_nonempty ss) ≡ max_weight ss
weight-aggregate_nonempty [] = rw aggregate-eq-choose
weight-aggregate_nonempty (s ∷ ss) = rw (aggregate-eq-choose (s ∷ ss)) (
    choose_join s _ _ _ _ _ _ _ _ (done_excludes ss)
    ∙ ap (max (weight s)) (sym (ap weight (aggregate-eq-choose ss)) ∙ weight-aggregate_nonempty ss))

-- A task with at least one assignee has the status of the row that weighs most in the order done,
-- rejected, canceled, timeout, failed, pending, accepted, working, input-required; a task with none
-- is pending.
pub weight-aggregate_task_status :
    (s : TaskStatus) (ss : List TaskStatus)
    → (weight (aggregate_task_status (s ∷ ss)) ≡ max_weight (s ∷ ss))
      × (aggregate_task_status [] ≡ TaskStatus.pending)
unfolding aggregate_task_status
weight-aggregate_task_status s ss = (weight-aggregate_nonempty (s ∷ ss), refl)

terminal_iff_light : (s : TaskStatus) → is_terminal s ≡ ltb (weight s) 5
terminal_iff_light TaskStatus.pending = refl
terminal_iff_light _ = refl

all_terminal_iff : (ss : List TaskStatus) → all is_terminal ss ≡ ltb (max_weight ss) 5
all_terminal_iff [] = refl
all_terminal_iff (s ∷ ss) = ground (arith, terminal_iff_light s, all_terminal_iff ss)

-- A task is over exactly when it has an assignee and the row of every assignee is over.
pub is_terminal-aggregate_task_status :
    (s : TaskStatus) (ss : List TaskStatus)
    → (is_terminal (aggregate_task_status (s ∷ ss)) ≡ all is_terminal (s ∷ ss))
      × (is_terminal (aggregate_task_status []) ≡ false)
unfolding aggregate_task_status
is_terminal-aggregate_task_status s ss = (
  terminal_iff_light _
      ∙ ap (λ n. ltb n 5) (weight-aggregate_nonempty (s ∷ ss))
      ∙ sym (all_terminal_iff (s ∷ ss)),
  refl,
)
