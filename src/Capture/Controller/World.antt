-- ===== src/Capture/Controller/World.antt =====
-- capture/controller.py: the worker and what stands around it. The worker is a program over a
-- world; the backend, the lease, the clock and the other threads answer it as an `Env` says.
use viskium.Prelude.{ℕ, ◌+◌, String, Option, none, some, Bool, List, ◌∷◌, ltb, if◌then◌else◌}
use viskium.Capture.Contracts.{CameraState, CaptureCapabilities}
use viskium.Capture.Contracts.Policy.{CameraPolicy}
use viskium.Capture.Contracts.Frames.{NegotiatedStream, CaptureRead}
use viskium.Capture.Controller.Counters.{max_int64, Counter}
use viskium.Capture.Controller.State.{
  Controller, increment, set_reason, set_state, set_state_because, Action, act_all,
}

-- What `candidate.capabilities` gives.
pub data CapabilitiesReply : Type 0 where
  raises invalid : CapabilitiesReply
  capabilities : CaptureCapabilities → CapabilitiesReply

-- `alien` is an object that is no CaptureBackend.
pub data FactoryReply : Type 0 where
  raises alien : FactoryReply
  backend : CapabilitiesReply → FactoryReply

-- The last three kinds of error are those that `_run` tells apart.
pub data OpenReply : Type 0 where
  stream : NegotiatedStream → OpenReply
  invalid deadline_exceeded open_error capture_error unexpected_error : OpenReply

pub data ReadReply : Type 0 where
  result : CaptureRead → ReadReply
  invalid deadline_exceeded capture_error unexpected_error : ReadReply

-- `returns elapsed`: `close` came back after that many nanoseconds.
pub data CloseReply : Type 0 where
  raises : CloseReply
  returns : ℕ → CloseReply

pub data LeaseReply : Type 0 where
  raises refused granted : LeaseReply

-- `decision allow_capture allow_processing`.
pub data GateReply : Type 0 where
  raises invalid : GateReply
  decision : Bool → Bool → GateReply

-- What happens at each moment of a run; `gate` also depends on the bytes that it is asked for, and
-- `releases` is true where `release` returns. Nothing is assumed of any of it.
pub record Env : Type 0 where
  pub factory : ℕ → FactoryReply
  pub opens : ℕ → OpenReply
  pub reads : ℕ → ReadReply
  pub closes : ℕ → CloseReply
  pub clock : ℕ → Option ℕ
  pub acquires : ℕ → LeaseReply
  pub releases : ℕ → Bool
  pub gate : Option (ℕ → ℕ → GateReply)
  pub meanwhile : ℕ → List Action

-- The arguments of the constructor that the worker uses.
pub record Config : Type 0 where
  pub policy : CameraPolicy
  pub max_frame_bytes : ℕ
  pub source_id : String
  pub estimated_backend_bytes : ℕ

-- What the worker did to the camera and its lease.
pub data Deed : Type 0 where
  acquired released : Deed
  made opened read closed abandoned : Deed

-- `now` counts the moments; `deeds` has the newest first; `active` and `leased` are the variables
-- `active_backend` and `lease_held` of `_run`.
pub record World : Type 0 where
  pub controller : Controller
  pub now : ℕ
  pub deeds : List Deed
  pub instances : ℕ
  pub active : Option ℕ
  pub leased : Bool

-- `raised`: an exception; `paused`: the fuel of a loop ran out.
pub data Outcome (A : Type 0) : Type 0 where
  ok : A → Outcome A
  raised : Outcome A
  paused : Outcome A

abbrev pub M : Type 0 → Type 0
M A = World → Outcome A × World

infixl 5 ◌>>=◌ ◌>>◌
abbrev pub follow : {A B : Type 0} → Outcome A → (A → M B) → M B
follow (ok a) f w = f a w
follow raised f w = (raised, w)
follow paused f w = (paused, w)

abbrev pub ◌>>=◌ : {A B : Type 0} → M A → (A → M B) → M B
◌>>=◌ m f w = let (o, w') = m w in follow o f w'

abbrev pub ◌>>◌ : {B : Type 0} → M (Unit {0}) → M B → M B
m >> k = m >>= λ _. k

abbrev pub pure : {A : Type 0} → A → M A
pure a w = (ok a, w)

module _ (env : Env) where
  -- The other threads run; then it is the next moment.
  unfoldable pub pass : World → World
  pass w = record w { controller = act_all (env.meanwhile w.now) w.controller; now = w.now + 1 }

  -- One critical section of the worker.
  unfoldable pub locked : (Controller → Controller) → M (Unit {0})
  locked f w = let w' = pass w in (ok tt, record w' { controller = f w'.controller })

  -- A value read under the lock, or of the stop event.
  unfoldable pub reading : {A : Type 0} → (Controller → A) → M A
  reading f w = let w' = pass w in (ok (f w'.controller), w')

  -- An answer of the environment.
  unfoldable pub ask : {A : Type 0} → (ℕ → A) → M A
  ask f w = let w' = pass w in (ok (f w'.now), w')

  abbrev pub stop_is_set : M Bool
  stop_is_set = reading (λ c. c.stop_requested)

  -- `_stop_requested.wait(...)`: the wait ends, by the event or by its time.
  abbrev pub stop_wait : M Bool
  stop_wait = reading (λ c. c.stop_requested)

  abbrev pub count : Counter → M (Unit {0})
  count k = locked (increment k)

  abbrev pub explain : String → M (Unit {0})
  explain r = locked (set_reason r)

  abbrev pub enter : CameraState → M (Unit {0})
  enter s = locked (set_state s)

  abbrev pub enter_because : CameraState → String → M (Unit {0})
  enter_because s r = locked (set_state_because s r)

  unfoldable pub valid_time : Option ℕ → M ℕ
  valid_time none w = (raised, w)
  valid_time (some n) w = if ltb max_int64 n then (raised, w) else (ok n, w)

  -- `_clock_ns`
  unfoldable pub clock_ns : M ℕ
  unfolding ask valid_time
  clock_ns = do reading ← ask env.clock; valid_time reading

-- The worker's own notes.
unfoldable pub note : Deed → M (Unit {0})
note d w = (ok tt, record w { deeds = d ∷ w.deeds })

unfoldable pub set_active : Option ℕ → M (Unit {0})
set_active b w = (ok tt, record w { active = b })

unfoldable pub get_active : M (Option ℕ)
get_active w = (ok w.active, w)
