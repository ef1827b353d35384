-- ===== src/Engine/Repairs/Tests.antt =====
-- Repairs at a sample engine.
use offveil.Prelude.{
  ℕ, Bool, if◌then◌else◌, ◌≡◌, ◌≢◌, refl, true, false, some, codes, text_eq, arith,
}
use offveil.Engine.Signals.{fail_ok}
use offveil.Engine.Groups.{find_group, update_group}
use offveil.Engine.Core.{Engine}
use offveil.Engine.Samples.{running, chat}
use offveil.Engine.Repairs.{
  ours, finish_escalate, finish_revert, prepare_failed, switch_failed, lose,
}
use offveil.Engine.Repairs.Sections.{stale_repair}

chat_found : find_group (codes "chat") running.groups ≡ some chat
unfolding find_group text_eq
chat_found = refl

in_session : ours 3 6 running ≡ true
unfolding ours
in_session = refl

abbrev busy : Engine
busy = record running { group_work = true }

two_ne_three : ◌≢◌ {A = ℕ} 2 3
two_ne_three = omega arith

stale_repair_example :
    (finish_escalate 2 90 6 (codes "chat") fail_ok busy ≡ running)
    × (finish_revert 2 6 (codes "chat") true fail_ok busy ≡ running)
    × (prepare_failed 2 6 (codes "chat") busy ≡ running)
    × ((held : Bool)
        → ((switch_failed held (codes "chat") busy).group_work ≡ false)
          × ((switch_failed held (codes "chat") busy).groups
              ≡ (if held then update_group (codes "chat") lose busy.groups else busy.groups)))
stale_repair_example = stale_repair 2 90 6 (codes "chat") true fail_ok busy two_ne_three
