-- ===== src/Engine/Monitor/Tests.antt =====
-- A round at a sample engine.
use offveil.Prelude.{◌≡◌, refl, true, List, [], ◌∷◌, none, some, Text, codes, text_eq, In}
use offveil.Engine.Signals.{fail_ok, fail_reset}
use offveil.Engine.Groups.{GroupState}
use offveil.Engine.Core.{current_session}
use offveil.Engine.Samples.{running}
use offveil.Engine.Monitor.{
  probe_task, scan, Round, Measured, begin_check, due_groups, is_due, finish_check, may_apply,
  apply_group, apply_groups, line_offline, quorum,
}
use offveil.Engine.Monitor.Rounds.{Calls, finish_check-action}

abbrev controls : List Text
controls = codes "a.org" ∷ codes "b.org" ∷ []

abbrev round : Round
round = record { session = 6; due = codes "chat" ∷ [] }

abbrev measured : Measured
measured = record { groups = λ h. fail_reset; gateway = λ h. fail_ok; direct = none }

round_opens : (begin_check 3 90 running).1 ≡ some (probe_task round)
unfolding begin_check due_groups is_due text_eq
round_opens = refl

round_scans : (finish_check 3 90 controls round measured running).1 ≡ some (scan (codes "chat"))
unfolding finish_check may_apply apply_groups apply_group line_offline quorum text_eq
round_scans = refl

finish_check-action_example :
    (current_session 3 running ≡ true)
    × ((g : GroupState) × In g running.groups
        × Calls
            (line_offline measured controls)
            running.desync_scan
            90
            measured.groups
            round.due
            (scan (codes "chat"))
            g)
finish_check-action_example =
    finish_check-action 3 90 controls round measured running (scan (codes "chat")) round_scans
