-- ===== src/Doomslug/TimerLoop.antt =====
-- `process_timer` of pkg/doomslug/src/doomslug.rs.
use tempo_zk_rollup.Base.{
  ℕ, zero, suc, ◌+◌, ◌-◌, false, ◌&&◌, List, [], ◌∷◌, ◌++◌, Option, none, some, max, leb,
  if◌then◌else◌,
}
use tempo_zk_rollup.Base.HashMap.{nat_eq}
use tempo_zk_rollup.Doomslug.Approval.{
  BlockHeight, Instant, Duration, inner_eq, ApprovalContent, ApprovalHistoryEntry,
}
use tempo_zk_rollup.Doomslug.State.{
  Doomslug, get_delay, update_history, create_approval, max_timer_iters,
}

-- The entry that `process_timer` writes into the history. The clocks' answers are `now`, for
-- `Instant::elapsed`, and `utc`; the units are those of the clock.
abbrev pub history_entry :
    BlockHeight → BlockHeight → Instant → Instant → Instant → Duration → ApprovalHistoryEntry
history_entry parent target since now utc expected = record {
  parent_height = parent;
  target_height = target;
  approval_creation_time = utc;
  timer_started_ago_millis = now - since;
  expected_delay_millis = expected;
}

-- The first half of a round of `process_timer`: the pending endorsement.
unfoldable pub send_endorsement :
    Doomslug → Instant → Instant → Instant → Doomslug × List ApprovalContent
send_endorsement d cur_time now utc =
    let timer = d.timer in
    let due =
      d.endorsement_pending
      && leb (timer.last_endorsement_sent + timer.endorsement_delay) cur_time in
    let fresh = leb d.largest_sent_target_height d.tip.height in
    let target = d.tip.height + 1 in
    if due
    then (if fresh
        then (
          record d {
            largest_sent_target_height = target;
            history = update_history d.history (
                history_entry d.tip.height target timer.last_endorsement_sent now utc
                  timer.endorsement_delay);
            timer = record timer { last_endorsement_sent = cur_time };
            endorsement_pending = false;
          },
          create_approval d target ∷ [],
        )
        else (
          record d {
            timer = record timer { last_endorsement_sent = cur_time };
            endorsement_pending = false;
          },
          [],
        ))
    else (d, [])

-- The second half: the timer ran out, and a skip is sent. `none` is the `break`.
unfoldable pub send_skip :
    Doomslug → Duration → Instant → Instant → Instant → Option (Doomslug × ApprovalContent)
send_skip d skip_delay cur_time now utc =
    let timer = d.timer in
    let target = timer.height + 1 in
    if leb (timer.started + skip_delay) cur_time
    then some (
      record d {
        largest_sent_target_height = max target d.largest_sent_target_height;
        history =
            update_history d.history
              (history_entry d.tip.height target timer.started now utc skip_delay);
        timer = record timer { started = timer.started + skip_delay; height = target };
      },
      create_approval d target,
    )
    else none

-- The loop of `process_timer`, on the rounds that are left. The delay is read at the start of a round.
unfoldable pub timer_rounds :
    ℕ → Doomslug → Instant → Instant → Instant → Doomslug × List ApprovalContent
timer_rounds zero d cur_time now utc = (d, [])
timer_rounds (suc n) d cur_time now utc =
    let skip_delay = get_delay d.timer (d.timer.height - d.largest_final_height) in
    let (d', sent) = send_endorsement d cur_time now utc in
    elim (send_skip d' skip_delay cur_time now utc) [
      | none ↦ (d', sent)
      | some (d'', a) ↦
          let (e, rest) = timer_rounds n d'' cur_time now utc in (e, sent ++ (a ∷ rest))
    ]

-- `process_timer`.
unfoldable pub process_timer :
    Doomslug → Instant → Instant → Instant → Doomslug × List ApprovalContent
process_timer d cur_time now utc = timer_rounds max_timer_iters d cur_time now utc
