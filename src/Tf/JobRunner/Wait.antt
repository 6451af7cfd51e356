-- ===== src/Tf/JobRunner/Wait.antt =====
-- `TfJobRunner.Wait`: a loop that polls the status of a job once per second.
use mathlib.Core.List.{Memᴰ}
use mathlib.Core.List.Memᴰ.{head, tail}
use cloud_service_broker.Prelude.{
  ◌≡◌, ◌≢◌, ◌⊎◌, inl, inr, String, true, Option, none, some, List, [], ◌∷◌, arith, if◌then◌else◌,
  Bool-cases, ap, refl,
}
use cloud_service_broker.Outcome.{Error}
use cloud_service_broker.Tf.JobRunner.{TfJobRunner, State, status}

-- What wakes the loop: the end of its context, or the clock, with the table as it is then.
pub data Tick (r : TfJobRunner) : Type 0 where
  cancelled : Tick r
  second : State r → Tick r

module _ (r : TfJobRunner) where
  -- The error that the loop returns, on the ticks to come; none while it goes on waiting.
  unfoldable pub wait : List (Tick r) → String → Option (Option Error)
  wait [] id = none
  wait (cancelled ∷ ticks) id = some none
  wait (second s ∷ ticks) id =
      let rest = wait ticks id in
      let ((is_done, _), e) = status r id s in if is_done then some e else rest

  -- The table when the loop returns.
  unfoldable pub state_after : List (Tick r) → String → State r → State r
  state_after [] id s = s
  state_after (cancelled ∷ ticks) id s = s
  state_after (second t ∷ ticks) id s =
      let rest = state_after ticks id t in
      let ((is_done, _), _) = status r id t in if is_done then t else rest

  -- A wait that returns no error has been cancelled, or has seen the job done without an error.
  pub wait_sound :
      (ticks : List (Tick r)) (id : String)
      → wait ticks id ≡ some none
      → Memᴰ cancelled ticks
        ⊎ ((s : State r) × Memᴰ (second s) ticks
            × ((status r id s).0.0 ≡ true)
            × ((status r id s).1 ≡ none))
  unfolding wait
  wait_sound [] id h = absurd (ground (arith, h))
  wait_sound (cancelled ∷ ticks) id h = inl (head refl)
  wait_sound (second s ∷ ticks) id h = elim (Bool-cases (status r id s).0.0) [
    | inl over ↦ inr (s, head refl, over, ground (arith, h, over))
    | inr busy ↦ elim (wait_sound ticks id (ground (arith, h, busy))) [
      | inl i ↦ inl (tail i)
      | inr (t, i, over, clean) ↦ inr (t, tail i, over, clean)
    ]
  ]

  table_or : State r → Tick r → State r
  table_or s cancelled = s
  table_or s (second t) = t

  -- A wait returns once it sees the job done.
  pub wait_returns :
      (ticks : List (Tick r)) (id : String) (s : State r)
      → Memᴰ (second s) ticks
      → (status r id s).0.0 ≡ true
      → wait ticks id ≢ none
  unfolding wait table_or
  wait_returns [] id s i over h = elim i [ ]
  wait_returns (cancelled ∷ ticks) id s i over h = ground (arith, h)
  wait_returns (second t ∷ ticks) id s (head e) over h =
      let same = ap (table_or s) e in ground (arith, h, over, ap (λ u. (status r id u).0.0) same)
  wait_returns (second t ∷ ticks) id s (tail i) over h =
      wait_returns ticks id s i over (ground (arith, h))
