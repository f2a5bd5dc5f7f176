-- ===== src/Capture/Controller/Run/Ended.antt =====
-- capture/controller.py: how a run that ends leaves the controller.
use viskium.Prelude.{ℕ, none, Bool, true, false, not, ◌&&◌, is_some, ◌≡◌, refl, arith}
use viskium.Capture.Contracts.{CameraState}
use viskium.Capture.Slot.{close}
use viskium.Capture.Controller.State.{
  Controller, Action, act, stop_decide, stop_end, mark_stopping, increment,
}
use viskium.Capture.Controller.World.{Env, Config, World, Outcome, ok, raised, paused}
use viskium.Capture.Controller.Triples.{Exits, Post, Triple, bind, return, given}
use viskium.Capture.Controller.Protocol.{Phase, Is, At, is_resting, is_lawful, view_at}
use viskium.Capture.Controller.Quiet.{from_any, get_active-Is}
use viskium.Capture.Controller.Stays.{Lasting, Stays, locked-makes, locked-then, reading-Stays}
use viskium.Capture.Controller.Backend.Shut.{Shut, Shut-Lasting, release_lease_if_safe-Shut}
use viskium.Capture.Controller.Run.{release_if, get_leased, finish, conclude, run, settle}
use viskium.Capture.Controller.Open.Steps.{lawful, resting_lawful}
use viskium.Capture.Controller.Run.Discipline.{never, close_any, guarded-At, handle-At}

-- The state of a controller whose worker has ended.
unfoldable pub is_over : CameraState → Bool
is_over CameraState.closed = true
is_over CameraState.failed = true
is_over CameraState.stuck = true
is_over _ = false

pub record Ended (c : Controller) : Type 0 where
  pub shut : Shut c
  pub over : is_over c.state ≡ true

abbrev Silent : Controller → Type 0
Silent c = c.negotiated_stream ≡ none

act-Silent : (a : Action) (c : Controller) → Silent c → Silent (act a c)
unfolding act stop_decide mark_stopping stop_end increment
act-Silent a c h = ground arith

Silent-Lasting : Lasting Silent
Silent-Lasting = record { lasts = act-Silent }

close-Shut : (c : Controller) → Silent c → Shut (record c { frames = close c.frames })
unfolding close
close-Shut c h = record { closed = refl; empty = refl; silent = h }

module _ (env : Env) (config : Config) (fuel : ℕ) where
  settle-Ended : (c : Controller) → Shut c → Ended (settle env config fuel c)
  unfolding is_over
  settle-Ended c s = record {
    shut = record { closed = ground arith; empty = ground arith; silent = ground arith };
    over = ground arith;
  }

  release_if-Shut :
      {e : Exits} (b : Bool)
      → Triple e (Stays Shut) (release_if env config fuel b) (λ _. Stays Shut)
  unfolding release_if
  release_if-Shut false = return _ (λ w h. h)
  release_if-Shut true = bind (release_lease_if_safe-Shut env config) λ _. return _ (λ w h. h)

  get_leased-Shut :
      {e : Exits} → Triple e (Stays Shut) (get_leased env config fuel) (λ _. Stays Shut)
  unfolding get_leased Post
  get_leased-Shut = record { holds = λ w h. h }

  finish-Ended : {e : Exits} → Triple e (At is_lawful) (finish env config fuel) (λ _. Stays Ended)
  unfolding finish
  finish-Ended = from_any λ p l. bind get_active-Is λ b. given λ h.
      bind (close_any env config fuel p l b h) λ _.
        bind
          (locked-makes Silent Silent-Lasting env (λ c. record c { negotiated_stream = none })
            (λ c. refl))
          λ _.
            bind
              (locked-then Shut Silent-Lasting env (λ c. record c { frames = close c.frames })
                close-Shut)
              λ _.
                bind (reading-Stays Shut Shut-Lasting env (λ c. is_some c.retained_backend))
                  λ retained. bind get_leased-Shut λ leased.
                    bind (release_if-Shut (leased && not retained))
                      λ _. locked-then Ended Shut-Lasting env (settle env config fuel) settle-Ended

  conclude-Ended :
      (o : Outcome (Unit {0})) (w : World)
      → Post lawful (λ _. At is_resting) o w
      → Post never
          (λ _. Stays Ended)
          (conclude env config fuel o w).0
          (conclude env config fuel o w).1
  unfolding conclude Post
  conclude-Ended (ok a) w h = finish-Ended.holds w (resting_lawful w h)
  conclude-Ended raised w h = (bind (handle-At env config fuel) λ _. finish-Ended).holds w h
  conclude-Ended paused w h = h

  pub run-Ended : Triple never (Is (view_at Phase.idle)) (run env config fuel) (λ _. Stays Ended)
  unfolding run
  run-Ended = record { holds = λ w h. conclude-Ended _ _ ((guarded-At env config fuel).holds w h) }
