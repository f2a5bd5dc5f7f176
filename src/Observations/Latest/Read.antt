-- ===== src/Observations/Latest/Read.antt =====
-- observations/latest.py: `LatestObservationSlot.read`.
pub mod Fresh
pub mod Ends
use viskium.Prelude.{
  ℕ, ◌+◌, ◌-◌, Option, none, some, Bool, true, false, String, List, [], ◌∷◌, min, ltb, is_some,
  if◌then◌else◌,
}
use viskium.Core.Value.{Value, Float, Error, Result, ok, raise, ◌>>=◌}
use viskium.Core.Envelope.{ObservationEnvelope}
use viskium.Observations.Latest.{
  ReadOutcome, LatestObservationRead, LatestObservationSlot, count_read, make_read, Call, apply_all,
}
use viskium.Observations.Latest.Arguments.{
  SchemaIds, require_non_negative_integer, normalize_wait_seconds, is_zero, normalize_schema_ids,
  accepts,
}

-- `waiting`: the turns are used up and `read` still waits.
pub data ReadResult : Type 0 where
  returned : LatestObservationRead → ReadResult
  raised : Error → ReadResult
  waiting : ReadResult

pub record Query : Type 0 where
  pub now_ns : ℕ
  pub max_age_ns : ℕ
  pub max_wait : Float
  pub schemas : Option (List String)

-- The four arguments of `read`.
pub record Arguments : Type 0 where
  pub now_monotonic_ns : Value
  pub max_age_ns : Value
  pub wait_seconds : Value
  pub schema_ids : SchemaIds

-- A turn of the waiting loop: whether the deadline has passed, and, if not, what the other threads
-- do until the wait returns.
pub record Turn : Type 0 where
  pub expired : Bool
  pub meanwhile : List Call

abbrev read_result : Result LatestObservationRead → ReadResult
read_result (ok r) = returned r
read_result (raise e) = raised e

-- `_finish_read`
finish_read :
    ReadOutcome
    → Option ObservationEnvelope
    → Option ℕ
    → LatestObservationSlot
    → LatestObservationSlot × ReadResult
unfolding count_read make_read
finish_read outcome o age s = (
  count_read outcome s,
  read_result (make_read (record { outcome = outcome; observation = o; age_ns = age })),
)

shortest : ℕ → Option ℕ → ℕ
shortest max_age none = max_age
shortest max_age (some ttl) = min max_age ttl

-- The end of `read`, for the observation that the slot holds at `effective_now_ns`.
judge : ℕ → Query → ObservationEnvelope → LatestObservationSlot → LatestObservationSlot × ReadResult
unfolding finish_read shortest accepts
judge now q o s =
    if ltb now o.observed_monotonic_ns
    then finish_read ReadOutcome.future_timestamp none none s
    else if ltb (shortest q.max_age_ns o.ttl_ns) (now - o.observed_monotonic_ns)
    then finish_read ReadOutcome.stale none (some (now - o.observed_monotonic_ns)) s
    else if accepts q.schemas o.schema_id
    then finish_read ReadOutcome.ok (some o) (some (now - o.observed_monotonic_ns)) s
    else finish_read ReadOutcome.schema_mismatch none (some (now - o.observed_monotonic_ns)) s

-- How the loop ends: by its test, by the deadline, or not within the turns.
pub data LoopEnd : Type 0 where
  woken expired unfinished : LoopEnd

abbrev pub must_wait : LatestObservationSlot → Bool
must_wait s = if is_some s.latest then false else if s.is_closed then false else true

unfoldable pub wait_loop : List Turn → LatestObservationSlot → LatestObservationSlot × LoopEnd
unfolding apply_all
wait_loop [] s = (s, if must_wait s then unfinished else woken)
wait_loop (t ∷ ts) s =
    let rest = wait_loop ts (apply_all t.meanwhile s) in
    if must_wait s then (if t.expired then (s, expired) else rest) else (s, woken)

-- After the wait: `clock` is the second value of the monotonic clock.
after_wait :
    ℕ → Value → Query → LatestObservationSlot × LoopEnd → LatestObservationSlot × ReadResult
unfolding judge finish_read require_non_negative_integer
after_wait started clock q (s, unfinished) = (s, waiting)
after_wait started clock q (s, expired) = finish_read ReadOutcome.timeout none none s
after_wait started clock q (s, woken) =
    if s.is_closed then finish_read ReadOutcome.closed none none s else elim s.latest [
      | none ↦ finish_read ReadOutcome.timeout none none s
      | some o ↦ elim (require_non_negative_integer clock) [
        | raise e ↦ (s, raised e)
        | ok finished ↦ judge (q.now_ns + (finished - started)) q o s
      ]
    ]

-- The critical section of `read`. `clock` has the two values of the monotonic clock.
unfoldable pub read_checked :
    Value × Value → List Turn → Query → LatestObservationSlot → LatestObservationSlot × ReadResult
unfolding judge finish_read is_zero require_non_negative_integer wait_loop after_wait
read_checked clock ts q s =
    if s.is_closed then finish_read ReadOutcome.closed none none s else elim s.latest [
      | some o ↦ judge q.now_ns q o s
      | none ↦
          if is_zero q.max_wait
          then finish_read ReadOutcome.empty none none s
          else elim (require_non_negative_integer clock.0) [
            | raise e ↦ (s, raised e)
            | ok started ↦ after_wait started clock.1 q (wait_loop ts s)
          ]
    ]

unfoldable pub check_arguments : Arguments → Result Query
unfolding require_non_negative_integer normalize_wait_seconds normalize_schema_ids
check_arguments a = do
  now ← require_non_negative_integer a.now_monotonic_ns
  max_age ← require_non_negative_integer a.max_age_ns
  wait ← normalize_wait_seconds a.wait_seconds
  schemas ← normalize_schema_ids a.schema_ids
  ok (record { now_ns = now; max_age_ns = max_age; max_wait = wait; schemas = schemas })

-- `read`
unfoldable pub read :
    Value × Value
    → List Turn
    → Arguments
    → LatestObservationSlot
    → LatestObservationSlot × ReadResult
unfolding read_checked check_arguments
read clock ts a s = elim (check_arguments a) [
  | raise e ↦ (s, raised e)
  | ok q ↦ read_checked clock ts q s
]
