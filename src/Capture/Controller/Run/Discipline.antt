-- ===== src/Capture/Controller/Run/Discipline.antt =====
-- capture/controller.py: a whole run keeps to the protocol, whatever the environment answers.
use viskium.Prelude.{
  ℕ, Option, none, some, Bool, true, false, not, ◌&&◌, ◌≡◌, ◌∙◌, ap, is_some, refl, arith,
}
use viskium.Capture.Contracts.{CameraState}
use viskium.Capture.Slot.{close}
use viskium.Capture.Controller.Counters.{Counter}
use viskium.Capture.Controller.World.{
  LeaseReply, Env, Config, Deed, World, Outcome, ok, raised, paused, locked,
}
use viskium.Capture.Controller.Triples.{Predicate, Exits, Post, Triple, bind, return, given}
use viskium.Capture.Controller.Protocol.{
  Phase, advance, view, View, Is, view_at, At, is_busy, is_resting, is_lawful,
}
use viskium.Capture.Controller.Quiet.{
  view-pass, locked-Is, reading-Is, ask-Is, count-Is, enter_because-Is, note-Is, get_active-Is,
  from_any, at, keep_At,
}
use viskium.Capture.Controller.Backend.Retry.{release_lease_if_safe-At, resources_admit-Is}
use viskium.Capture.Controller.Open.{no_attempts, close_if_active}
use viskium.Capture.Controller.Run.{
  set_leased, acquire, loop_if, own_lease, check_again, admit, guarded, release_if, settle,
  get_leased, finish, handle, conclude, run,
}
use viskium.Capture.Controller.Open.Steps.{
  lawful, after_close-is_resting, resting_lawful, close_active-Is,
}
use viskium.Capture.Controller.Run.Obeys.{run_loop-At}

-- Nothing ends in this way.
abbrev pub never : Exits
never = record { on_raise = λ _. ⊥; on_pause = At is_lawful }

abbrev Acquired : Bool → Predicate
Acquired true w = Is (view_at Phase.held) w
Acquired false w = Is (view_at Phase.idle) w

set_leased-Is :
    {e : Exits} {v : View} → Triple e (Is v) set_leased (λ _. Is (record v { leased = true }))
unfolding set_leased view Post
set_leased-Is = record { holds = λ w h. ap {A = View} (λ u. record u { leased = true }) h }

get_leased-Is :
    {e : Exits} (env : Env) (config : Config) (fuel : ℕ) {v : View}
    → Triple e (Is v) (get_leased env config fuel) (λ _. Is v)
unfolding get_leased Post
get_leased-Is env config fuel = record { holds = λ w h. h }

module _ (env : Env) (config : Config) (fuel : ℕ) where
  hold_lease-Is :
      {e : Exits} {v : View}
      → Triple e
          (Is v)
          (locked env (λ c. record c { lease_held = true }))
          (λ _. Is (record v { lease_held = true }))
  unfolding locked view Post
  hold_lease-Is = record {
    holds = λ w h. ap {A = View} (λ u. record u { lease_held = true }) (view-pass env w ∙ h);
  }

  acquire-Acquired :
      {e : Exits} (r : LeaseReply)
      → Triple e (Is (view_at Phase.idle)) (acquire env config fuel r) Acquired
  unfolding acquire advance
  acquire-Acquired LeaseReply.raises = bind (enter_because-Is env _ _) λ _. return _ (λ w h. h)
  acquire-Acquired LeaseReply.refused = bind (enter_because-Is env _ _) λ _. return _ (λ w h. h)
  acquire-Acquired LeaseReply.granted =
      bind (note-Is Deed.acquired)
        λ _. bind set_leased-Is λ _. bind hold_lease-Is λ _. return _ (λ w h. h)

  loop_if-At :
      (b : Bool) → Triple lawful (Acquired b) (loop_if env config fuel b) (λ _. At is_resting)
  unfolding loop_if
  loop_if-At true = run_loop-At env config fuel fuel no_attempts
  loop_if-At false = return _ (at Phase.idle refl)

  own_lease-At :
      (b : Bool)
      → Triple lawful (Is (view_at Phase.idle)) (own_lease env config fuel b) (λ _. At is_resting)
  unfolding own_lease
  own_lease-At true = return _ (at Phase.idle refl)
  own_lease-At false = bind (ask-Is env env.acquires) λ r. bind (acquire-Acquired r) loop_if-At

  check_again-At :
      (b : Bool)
      → Triple lawful (Is (view_at Phase.idle)) (check_again env config fuel b) (λ _. At is_resting)
  unfolding check_again
  check_again-At true = bind (reading-Is env (λ c. c.stop_requested)) own_lease-At
  check_again-At false = return _ (at Phase.idle refl)

  admit-At :
      (b : Bool)
      → Triple lawful (Is (view_at Phase.idle)) (admit env config fuel b) (λ _. At is_resting)
  unfolding admit
  admit-At true = return _ (at Phase.idle refl)
  admit-At false = bind (resources_admit-Is env config) check_again-At

  pub guarded-At :
      Triple lawful (Is (view_at Phase.idle)) (guarded env config fuel) (λ _. At is_resting)
  unfolding guarded
  guarded-At = bind (reading-Is env (λ c. c.stop_requested)) admit-At

  pub busy_if : (p : Phase) → is_lawful p ≡ true → true ≡ (view_at p).active → is_busy p ≡ true
  busy_if p l h = ground arith

  pub resting_if :
      (p : Phase) → is_lawful p ≡ true → false ≡ (view_at p).active → is_resting p ≡ true
  resting_if p l h = ground arith

  pub close_any :
      {e : Exits} (p : Phase)
      → is_lawful p ≡ true
      → (b : Option ℕ) → is_some b ≡ (view_at p).active
      → Triple e (Is (view_at p)) (close_if_active env config fuel b) (λ _. At is_resting)
  unfolding close_if_active
  close_any p l none h = return _ (at p (resting_if p l h))
  close_any p l (some b) h =
      bind (close_active-Is env config fuel p (busy_if p l h) b)
        λ c. return _ (at _ (after_close-is_resting c))

  release_if-At :
      {e : Exits} (b : Bool)
      → Triple e (At is_resting) (release_if env config fuel b) (λ _. At is_resting)
  unfolding release_if
  release_if-At false = return _ (λ w h. h)
  release_if-At true =
      bind (from_any (release_lease_if_safe-At env config)) λ _. return _ (λ w h. h)

  pub finish-At :
      {e : Exits} → Triple e (At is_lawful) (finish env config fuel) (λ _. At is_resting)
  unfolding finish
  finish-At = from_any λ p l. bind get_active-Is λ b. given λ h. bind (close_any p l b h) λ _.
      bind
        (keep_At
          λ v. locked-Is env (λ c. record c { negotiated_stream = none }) (λ c. (refl, refl)))
        λ _.
          bind
            (keep_At
              λ v. locked-Is env (λ c. record c { frames = close c.frames }) (λ c. (refl, refl)))
            λ _. bind (keep_At λ v. reading-Is env (λ c. is_some c.retained_backend)) λ retained.
              bind (keep_At λ v. get_leased-Is env config fuel) λ leased.
                bind (release_if-At (leased && not retained)) λ _.
                  keep_At
                    λ v. locked-Is env (settle env config fuel) (λ c. (ground arith, ground arith))

  pub handle-At : {e : Exits} → Triple e (At is_lawful) (handle env config fuel) (λ _. At is_lawful)
  unfolding handle
  handle-At =
      bind (keep_At λ v. count-Is env Counter.backend_failures)
        λ _. keep_At λ v. enter_because-Is env CameraState.failed "controller_internal_error"

  conclude-At :
      (o : Outcome (Unit {0})) (w : World)
      → Post lawful (λ _. At is_resting) o w
      → Post never
          (λ _. At is_resting)
          (conclude env config fuel o w).0
          (conclude env config fuel o w).1
  unfolding conclude Post
  conclude-At (ok a) w h = finish-At.holds w (resting_lawful w h)
  conclude-At raised w h = (bind handle-At λ _. finish-At).holds w h
  conclude-At paused w h = h

  pub run-At : Triple never (Is (view_at Phase.idle)) (run env config fuel) (λ _. At is_resting)
  unfolding run
  run-At = record { holds = λ w h. conclude-At _ _ (guarded-At.holds w h) }
