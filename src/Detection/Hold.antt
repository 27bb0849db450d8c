-- ===== src/Detection/Hold.antt =====
-- `poll_presence`: what one poll decides, and what a sequence of polls keeps.
use esp_wave_rider.Base.{
  ℕ, ◌+◌, ◌-◌, ◌^◌, ◌≤◌, ◌<◌, ◌≡◌, refl, sym, ap, ◌∙◌, Bool, true, false, not, ◌&&◌, ◌||◌, List, [],
  ◌∷◌, ltb, ◌==◌, if◌then◌else◌, arith, tests, Bool-cases, inl, inr, subst,
}
use esp_wave_rider.Metrics.Candidate.{clamp}
use esp_wave_rider.Detection.{
  DetectionState, candidate_now, sync_radar_detection_state, effective_presence_hold_ms,
  presence_decay_remaining_ms, settle_presence, poll_presence, saturating_inc,
}

pub effective_presence_hold_ms_bounds :
    (s : DetectionState)
    → (3000 ≤ effective_presence_hold_ms s) × (effective_presence_hold_ms s ≤ 60000)
unfolding effective_presence_hold_ms clamp
effective_presence_hold_ms_bounds s = ground arith

-- The decay runs from the last detection, if there was one at a time other than 0, for the hold.
pub presence_decay_lem :
    (s : DetectionState) (uptime_ms : ℕ)
    → ltb 0 (presence_decay_remaining_ms s uptime_ms) ≡ (
        not (s.last_detection_ms == 0)
        && ltb uptime_ms (s.last_detection_ms + effective_presence_hold_ms s))
unfolding presence_decay_remaining_ms
presence_decay_lem s uptime_ms = ground (arith, effective_presence_hold_ms_bounds s)

-- The state in which a poll that is not skipped decides.
abbrev pub sampled : DetectionState → Bool → ℕ → DetectionState
sampled s gpio uptime_ms = record s { last_presence_poll_ms = uptime_ms; gpio_presence = gpio }

-- The number of changes once the presence is `p`: the first poll is no change.
abbrev pub changes_after : DetectionState → Bool → ℕ
changes_after s p =
    if s.presence_initialized && ((p && not s.presence) || (not p && s.presence))
    then saturating_inc s.presence_changes_total
    else s.presence_changes_total

settle-presence :
    (s : DetectionState) (p : Bool)
    → ((settle_presence s p).presence ≡ p)
      × ((settle_presence s p).presence_initialized ≡ true)
      × ((settle_presence s p).last_detection_ms ≡ s.last_detection_ms)
      × ((settle_presence s p).presence_hold_ms ≡ s.presence_hold_ms)
      × ((settle_presence s p).detection_candidate ≡ s.detection_candidate)
      × ((settle_presence s p).presence_changes_total ≡ changes_after s p)
unfolding settle_presence
settle-presence s p = ground arith

-- A poll less than 25 ms after the last one changes nothing.
pub poll_presence_skips :
    (s : DetectionState) (gpio : Bool) (uptime_ms : ℕ)
    → uptime_ms < s.last_presence_poll_ms + 25
    → poll_presence s gpio uptime_ms ≡ s
unfolding poll_presence
poll_presence_skips s gpio uptime_ms h = ground arith

poll_presence_settles :
    (s : DetectionState) (gpio : Bool) (uptime_ms : ℕ)
    → s.last_presence_poll_ms + 25 ≤ uptime_ms
    → poll_presence s gpio uptime_ms
      ≡ settle_presence (sync_radar_detection_state (sampled s gpio uptime_ms) uptime_ms) (
          (sync_radar_detection_state (sampled s gpio uptime_ms) uptime_ms).detection_candidate
          || ltb 0 (
              presence_decay_remaining_ms
                (sync_radar_detection_state (sampled s gpio uptime_ms) uptime_ms)
                uptime_ms))
unfolding poll_presence
poll_presence_settles s gpio uptime_ms h =
    let due : ltb (uptime_ms - s.last_presence_poll_ms) 25 ≡ false = ground arith in rw due

-- What a poll at `uptime_ms` leaves in `after`: presence exactly if there is a candidate now or the
-- last detection is younger than the hold.
pub record Decided (s : DetectionState) (gpio : Bool) (uptime_ms : ℕ) (after : DetectionState)
    : Type 0 where
  pub presence : after.presence ≡ (
      candidate_now (sampled s gpio uptime_ms)
      || (not (s.last_detection_ms == 0)
          && ltb uptime_ms (s.last_detection_ms + effective_presence_hold_ms s)))
  pub candidate : after.detection_candidate ≡ candidate_now (sampled s gpio uptime_ms)
  pub detection :
      after.last_detection_ms
      ≡ (if candidate_now (sampled s gpio uptime_ms) then uptime_ms else s.last_detection_ms)
  pub hold : after.presence_hold_ms ≡ s.presence_hold_ms
  pub initialized : after.presence_initialized ≡ true
  pub changes : after.presence_changes_total ≡ changes_after s after.presence

synced_presence :
    (s : DetectionState) (gpio : Bool) (uptime_ms : ℕ)
    → ((sync_radar_detection_state (sampled s gpio uptime_ms) uptime_ms).detection_candidate
        || ltb 0 (
            presence_decay_remaining_ms
              (sync_radar_detection_state (sampled s gpio uptime_ms) uptime_ms)
              uptime_ms))
      ≡ (candidate_now (sampled s gpio uptime_ms)
          || (not (s.last_detection_ms == 0)
              && ltb uptime_ms (s.last_detection_ms + effective_presence_hold_ms s)))
unfolding sync_radar_detection_state effective_presence_hold_ms
synced_presence s gpio uptime_ms = elim (Bool-cases (candidate_now (sampled s gpio uptime_ms))) [
  | inl found ↦ rw found
  | inr quiet ↦ rw quiet (
      presence_decay_lem
        (record s {
          last_presence_poll_ms = uptime_ms;
          gpio_presence = gpio;
          detection_candidate = false;
        })
        uptime_ms)
]

-- A poll at least 25 ms after the last one sets presence exactly if there is a candidate now or the
-- last detection is younger than the hold, and counts the change unless it is the first.
pub poll_presence_decides :
    (s : DetectionState) (gpio : Bool) (uptime_ms : ℕ)
    → s.last_presence_poll_ms + 25 ≤ uptime_ms
    → Decided s gpio uptime_ms (poll_presence s gpio uptime_ms)
poll_presence_decides s gpio uptime_ms h =
    let synced = sync_radar_detection_state (sampled s gpio uptime_ms) uptime_ms in
    let p = synced.detection_candidate || ltb 0 (presence_decay_remaining_ms synced uptime_ms) in
    let (shows, starts, last, hold, found, counts) = settle-presence synced p in
    rw (poll_presence_settles s gpio uptime_ms h) (record {
      presence = shows ∙ synced_presence s gpio uptime_ms;
      candidate = found ∙ unfold sync_radar_detection_state in refl;
      detection = last ∙ unfold sync_radar_detection_state in refl;
      hold = hold ∙ unfold sync_radar_detection_state in refl;
      initialized = starts;
      changes = counts ∙ unfold sync_radar_detection_state in ap (changes_after s) (sym shows);
    })

-- Polls one after the other: the level of the presence pin and the time.
unfoldable pub run_polls : DetectionState → List (Bool × ℕ) → DetectionState
run_polls s [] = s
run_polls s ((gpio, uptime_ms) ∷ polls) = run_polls (poll_presence s gpio uptime_ms) polls

-- The times do not run backwards, and stay below the end.
abbrev pub InOrder : ℕ → ℕ → List (Bool × ℕ) → Type 0
InOrder from end [] = Unit {0}
InOrder from end ((gpio, t) ∷ polls) = (from ≤ t) × (t < end) × InOrder t end polls

-- Presence is on, and its last detection is from `since` or later.
pub record IsHeld (since : ℕ) (s : DetectionState) : Type 0 where
  pub on : s.presence ≡ true
  pub started : s.presence_initialized ≡ true
  pub recent : since ≤ s.last_detection_ms

poll-IsHeld :
    (s : DetectionState) (gpio : Bool) (since uptime_ms : ℕ)
    → 0 < since
    → since ≤ uptime_ms
    → uptime_ms < since + effective_presence_hold_ms s
    → IsHeld since s
    → IsHeld since (poll_presence s gpio uptime_ms)
      × ((poll_presence s gpio uptime_ms).presence_hold_ms ≡ s.presence_hold_ms)
poll-IsHeld s gpio since uptime_ms positive from till held =
    elim (Bool-cases (ltb uptime_ms (s.last_presence_poll_ms + 25))) [
      | inl early ↦ rw (poll_presence_skips s gpio uptime_ms (omega (tests, early))) (held, refl)
      | inr due ↦
          let d = poll_presence_decides s gpio uptime_ms (ground arith) in
          (
            record {
              on = d.presence ∙ held_presence;
              started = d.initialized;
              recent = subst (λ n. since ≤ n) (sym d.detection) later;
            },
            d.hold,
          )
    ]
  where
    held_presence :
        (candidate_now (sampled s gpio uptime_ms)
          || (not (s.last_detection_ms == 0)
              && ltb uptime_ms (s.last_detection_ms + effective_presence_hold_ms s)))
        ≡ true
    held_presence = ground arith

    later :
        since
        ≤ (if candidate_now (sampled s gpio uptime_ms) then uptime_ms else s.last_detection_ms)
    later = ground arith

run-IsHeld :
    (polls : List (Bool × ℕ)) (s : DetectionState) (since from hold : ℕ)
    → 0 < since
    → since ≤ from
    → effective_presence_hold_ms s ≡ hold
    → InOrder from (since + hold) polls
    → IsHeld since s
    → IsHeld since (run_polls s polls)
unfolding run_polls
run-IsHeld [] s since from hold positive start h order held = held
run-IsHeld ((gpio, t) ∷ polls) s since from hold positive start h (le, lt, order) held =
    let (held', kept) = poll-IsHeld s gpio since t positive (omega arith) (omega arith) held in
    let hold' : effective_presence_hold_ms (poll_presence s gpio t) ≡ hold =
      unfold effective_presence_hold_ms in (rw kept) ∙ h in
    run-IsHeld polls (poll_presence s gpio t) since t hold positive (omega arith) hold' order held'

-- Once a poll at time `since`, which is not 0 and at least 25 ms after the last one, has detected
-- somebody, presence stays on through any later polls before `since` plus the hold, whatever the
-- pin says, as long as time does not run backwards.
pub run_polls_hold :
    (s : DetectionState) (gpio : Bool) (since : ℕ) (polls : List (Bool × ℕ))
    → 0 < since
    → s.last_presence_poll_ms + 25 ≤ since
    → candidate_now (sampled s gpio since) ≡ true
    → InOrder since (since + effective_presence_hold_ms s) polls
    → (run_polls (poll_presence s gpio since) polls).presence ≡ true
run_polls_hold s gpio since polls positive due found order =
    let d = poll_presence_decides s gpio since due in
    let hold' : effective_presence_hold_ms (poll_presence s gpio since)
        ≡ effective_presence_hold_ms s =
      unfold effective_presence_hold_ms in rw (d.hold) in
    (run-IsHeld polls (poll_presence s gpio since) since since (effective_presence_hold_ms s)
      positive (omega arith) hold' order
      (record {
        on = d.presence ∙ ground arith;
        started = d.initialized;
        recent = subst (λ n. since ≤ n) (sym d.detection) (ground arith);
      })).on

-- Once the last poll was less than 25 ms before the end of the 32-bit clock, polls at times below
-- that end, in order, never change the state again.
pub run_polls_stuck :
    (polls : List (Bool × ℕ)) (s : DetectionState) (from : ℕ)
    → 2 ^ 32 ≤ s.last_presence_poll_ms + 25
    → InOrder from (2 ^ 32) polls
    → run_polls s polls ≡ s
unfolding run_polls
run_polls_stuck [] s from late order = refl
run_polls_stuck ((gpio, t) ∷ polls) s from late (le, lt, order) =
    rw (poll_presence_skips s gpio t (omega arith)) (run_polls_stuck polls s t late order)
