-- ===== src/Doomslug/Timer.antt =====
-- What `process_timer` of pkg/doomslug/src/doomslug.rs sends, and what it keeps.
use tempo_zk_rollup.Base.{
  ℕ, zero, suc, ◌+◌, ◌-◌, ◌*◌, ◌≤◌, ◌<◌, ◌≡◌, ap, ◌∙◌, Bool, true, false, List, [], ◌∷◌, ◌++◌, some,
  length, length-append, drop, All, All-imp, arith, Option-cases, leb, inl, inr, Bool-cases,
}
use tempo_zk_rollup.Doomslug.Approval.{
  Instant, Duration, endorsement, ApprovalContent, ApprovalHistoryEntry, new_inner, new_content,
}
use tempo_zk_rollup.Doomslug.State.{
  Doomslug, Timer, get_delay, clamp_u32, update_history, create_approval, max_timer_iters,
  max_history_size,
}
use tempo_zk_rollup.Doomslug.TimerLoop.{send_endorsement, send_skip, timer_rounds, process_timer}

-- Where the smallest delay is no larger than the largest, `get_delay` lies between the two, and
-- does not fall as the number of heights grows.
pub get_delay_bounds :
    (t : Timer) (m n : ℕ)
    → t.min_delay ≤ t.max_delay
    → m ≤ n
    → (t.min_delay ≤ get_delay t m)
      × (get_delay t m ≤ get_delay t n)
      × (get_delay t n ≤ t.max_delay)
unfolding get_delay
get_delay_bounds t m n h k =
    let grows : t.delay_step * (clamp_u32 m - 2) ≤ t.delay_step * (clamp_u32 n - 2) =
      mul_mono t.delay_step _ _ (ground arith) in
    (omega arith, omega arith, omega arith)
  where
    mul_mono : (a b c : ℕ) → b ≤ c → a * b ≤ a * c
    mul_mono a b c l = grind arith

length-drop : {A : Type 0} (n : ℕ) (xs : List A) → length (drop n xs) ≡ length xs - n
length-drop zero xs = omega arith
length-drop (suc n) [] = omega arith
length-drop (suc n) (x ∷ xs) = omega (arith, length-drop n xs)

-- After `update_history` the history holds at most 1000 entries, however many it held before.
pub update_history_bound :
    (history : List ApprovalHistoryEntry) (entry : ApprovalHistoryEntry)
    → length (update_history history entry) ≤ max_history_size
unfolding update_history
update_history_bound history entry = elim (Bool-cases (leb max_history_size (length history))) [
  | inl e ↦ rw e (
      omega (
        arith,
        length-append (drop (length history + 1 - max_history_size) history) (entry ∷ []),
        length-drop (length history + 1 - max_history_size) history,
        over e,
      ))
  | inr e ↦ rw e (omega (arith, length-append history (entry ∷ []), under e))
]
  where
    over : leb max_history_size (length history) ≡ true → max_history_size ≤ length history
    over e = ground arith

    under : leb max_history_size (length history) ≡ false → length history < max_history_size
    under e = ground arith

-- An endorsement that a round of `process_timer` sends is for a height above all that were sent
-- before, and names the tip.
pub send_endorsement_fresh :
    (d : Doomslug) (cur_time now utc : Instant)
    → All
        (λ a.
          (d.largest_sent_target_height < a.target_height)
          × (a.inner ≡ endorsement d.tip.block_hash))
        (send_endorsement d cur_time now utc).1
unfolding send_endorsement create_approval new_content new_inner
send_endorsement_fresh d cur_time now utc = ground arith

-- What a part of the loop guarantees: nothing sent passes the largest height on record, that
-- height never falls, and the tip stays.
pub record Sends (d d' : Doomslug) (sent : List ApprovalContent) : Type 0 where
  pub recorded : All (λ a. a.target_height ≤ d'.largest_sent_target_height) sent
  pub grows : d.largest_sent_target_height ≤ d'.largest_sent_target_height
  pub same_tip : d'.tip ≡ d.tip
  pub not_pending : d.endorsement_pending ≡ false → d'.endorsement_pending ≡ false

abbrev pending : Bool → ℕ
pending true = 1
pending false = 0

send_endorsement-Sends :
    (d : Doomslug) (cur_time now utc : Instant)
    → Sends d (send_endorsement d cur_time now utc).0 (send_endorsement d cur_time now utc).1
unfolding send_endorsement create_approval new_content
send_endorsement-Sends d cur_time now utc = ground arith

length-send_endorsement :
    (d : Doomslug) (cur_time now utc : Instant)
    → length (send_endorsement d cur_time now utc).1
        + pending (send_endorsement d cur_time now utc).0.endorsement_pending
      ≤ pending d.endorsement_pending
unfolding send_endorsement
length-send_endorsement d cur_time now utc = ground arith

send_skip_lem :
    (d : Doomslug) (delay : Duration) (cur_time now utc : Instant) (d' : Doomslug)
    (a : ApprovalContent)
    → send_skip d delay cur_time now utc ≡ some (d', a)
    → Sends d d' (a ∷ []) × (d'.endorsement_pending ≡ d.endorsement_pending)
unfolding send_skip create_approval new_content
send_skip_lem d delay cur_time now utc d' a h = ground arith

All-append :
    (P : ApprovalContent → Type 0) (xs ys : List ApprovalContent)
    → All P xs
    → All P ys
    → All P (xs ++ ys)
All-append P [] ys h k = k
All-append P (x ∷ xs) ys h k = (h.0, All-append P xs ys h.1 k)

Sends-append :
    (d e f : Doomslug) (xs ys : List ApprovalContent)
    → Sends d e xs
    → Sends e f ys
    → Sends d f (xs ++ ys)
Sends-append d e f xs ys s t = record {
  recorded = All-append _ xs ys (All-imp xs (λ a h. omega (arith, t.grows)) s.recorded) t.recorded;
  grows = omega (arith, s.grows, t.grows);
  same_tip = t.same_tip ∙ s.same_tip;
  not_pending = λ p. t.not_pending (s.not_pending p);
}

timer_rounds-Sends :
    (n : ℕ) (d : Doomslug) (cur_time now utc : Instant)
    → Sends d (timer_rounds n d cur_time now utc).0 (timer_rounds n d cur_time now utc).1
      × (length (timer_rounds n d cur_time now utc).1 ≤ n + pending d.endorsement_pending)
unfolding timer_rounds
timer_rounds-Sends zero d cur_time now utc = ground arith
timer_rounds-Sends (suc n) d cur_time now utc =
    let delay = get_delay d.timer (d.timer.height - d.largest_final_height) in
    let first = send_endorsement d cur_time now utc in
    let s = send_endorsement-Sends d cur_time now utc in
    let l = length-send_endorsement d cur_time now utc in
    elim (Option-cases (send_skip first.0 delay cur_time now utc)) [
      | inl e ↦ rw (e, timer_rounds) (s, omega (arith, l))
      | inr ((d', a), e) ↦
          let k = send_skip_lem first.0 delay cur_time now utc d' a e in
          let (rest, m) = timer_rounds-Sends n d' cur_time now utc in
          rw (e, timer_rounds)
            (
              Sends-append d first.0 (timer_rounds n d' cur_time now utc).0 first.1 _ s (
                  Sends-append first.0 d' (timer_rounds n d' cur_time now utc).0 (a ∷ []) _ k.0
                    rest),
              omega (
                arith,
                l,
                m,
                ap pending k.1,
                length-append first.1 (a ∷ (timer_rounds n d' cur_time now utc).1),
              ),
            )
    ]

-- `process_timer` sends at most 21 approvals, none above the largest height that it then has on
-- record; that height never falls, the tip stays, and no endorsement becomes pending.
pub process_timer_lem :
    (d : Doomslug) (cur_time now utc : Instant)
    → Sends d (process_timer d cur_time now utc).0 (process_timer d cur_time now utc).1
      × (length (process_timer d cur_time now utc).1 ≤ 21)
unfolding process_timer
process_timer_lem d cur_time now utc =
    let r = timer_rounds-Sends max_timer_iters d cur_time now utc in
    (r.0, omega (arith, r.1, at_most d.endorsement_pending))
  where
    at_most : (b : Bool) → pending b ≤ 1
    at_most true = omega arith
    at_most false = omega arith
