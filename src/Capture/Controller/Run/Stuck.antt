-- ===== src/Capture/Controller/Run/Stuck.antt =====
-- capture/controller.py: `_run` and a controller in the state STUCK.
use viskium.Prelude.{
  ℕ, zero, suc, Option, none, some, Bool, true, false, is_some, ◌≡◌, ◌≤◌, ◌<◌, ◌⊎◌, inl, inr, arith,
}
use viskium.Capture.Controller.State.{Controller, is_stuck}
use viskium.Capture.Controller.World.{
  LeaseReply, Env, Config, World, Outcome, ok, raised, paused, M,
}
use viskium.Capture.Controller.Stuck.{
  IsStuck, Lasts, Calm, bind, return, branch, locked-Calm, reading-Calm, ask-Calm, count-Calm,
  enter-Calm, enter_because-Calm, note-Calm, set_active-Calm, get_active-Calm, has_give_up,
  StuckNow-Lasts, StuckAfter-Lasts,
}
use viskium.Capture.Controller.Backend.{FactoryResult, ready, retry, terminal}
use viskium.Capture.Controller.Backend.Stuck.{
  create_backend-Calm, release_lease_if_safe-Calm, resources_admit-Calm,
}
use viskium.Capture.Controller.Open.{Attempts, no_attempts}
use viskium.Capture.Controller.Open.Stuck.{
  close_if_active-Calm, stop_here-Calm, fail-Calm, open_backend-Calm,
}
use viskium.Capture.Controller.Run.{
  set_leased, with_backend, unless_stopped, activate, make_attempt, attempt, attempt_if_clear,
  next_attempt, run_loop, acquire, loop_if, own_lease, check_again, admit, guarded, release_if,
  settle, get_leased, finish, handle, conclude, run,
}

module _ {env : Env} (config : Config) (fuel : ℕ) {K : World → Type 0} (l : Lasts env K) where
  with_backend-Calm :
      (a : Attempts) (r : FactoryResult) (active : Option ℕ)
      → Calm K (with_backend env config fuel a r active)
  unfolding with_backend
  with_backend-Calm a terminal active =
      bind (close_if_active-Calm config fuel l active) λ _. stop_here-Calm config fuel l
  with_backend-Calm a retry active = fail-Calm config fuel l a
  with_backend-Calm a ready none = bind (enter_because-Calm l _ _) λ _. stop_here-Calm config fuel l
  with_backend-Calm a ready (some b) = open_backend-Calm config fuel l a b

  unless_stopped-Calm :
      (b : Bool) (a : Attempts) (r : FactoryResult) → Calm K (unless_stopped env config fuel b a r)
  unfolding unless_stopped
  unless_stopped-Calm true a r =
      bind (get_active-Calm)
        λ active. bind (close_if_active-Calm config fuel l active) λ _. stop_here-Calm config fuel l
  unless_stopped-Calm false a r = bind (get_active-Calm) λ active. with_backend-Calm a r active

  activate-Calm : (b : Option ℕ) → Calm K (activate env config fuel b)
  unfolding activate
  activate-Calm none = return
  activate-Calm (some b) = set_active-Calm l _

  make_attempt-Calm : (a : Attempts) → Calm K (make_attempt env config fuel a)
  unfolding make_attempt
  make_attempt-Calm a = bind (enter-Calm l _) λ _. bind (create_backend-Calm config l) λ r.
      bind (activate-Calm _)
        λ _. bind (reading-Calm l (λ c. c.stop_requested)) λ stop. unless_stopped-Calm stop a _

  attempt-Calm : (a : Attempts) → Calm K (attempt env config fuel a)
  unfolding attempt
  attempt-Calm a =
      branch _ (bind (enter_because-Calm l _ _) λ _. stop_here-Calm config fuel l)
        (make_attempt-Calm a)

  attempt_if_clear-Calm : (b : Bool) (a : Attempts) → Calm K (attempt_if_clear env config fuel b a)
  unfolding attempt_if_clear
  attempt_if_clear-Calm true a = stop_here-Calm config fuel l
  attempt_if_clear-Calm false a = attempt-Calm a

  next_attempt-Calm :
      (go_on : Attempts → M (Unit {0}))
      → ((a : Attempts) → Calm K (go_on a))
      → (a : Option Attempts) → Calm K (next_attempt env config fuel go_on a)
  unfolding next_attempt
  next_attempt-Calm go_on h none = return
  next_attempt-Calm go_on h (some a) = h a

  run_loop-Calm : (n : ℕ) (a : Attempts) → Calm K (run_loop env config fuel n a)
  unfolding run_loop
  run_loop-Calm zero a = record { keeps = λ w h. h }
  run_loop-Calm (suc n) a = record {
    keeps =
        (bind (bind (reading-Calm l (λ c. c.stop_requested)) λ stop. attempt_if_clear-Calm stop a)
          (next_attempt-Calm _ (run_loop-Calm n))).keeps;
  }

  set_leased-Calm : Calm K (set_leased)
  unfolding set_leased
  set_leased-Calm = record { keeps = λ w h. l.notes w w.deeds w.instances w.active true h }

  acquire-Calm : (r : LeaseReply) → Calm K (acquire env config fuel r)
  unfolding acquire
  acquire-Calm LeaseReply.raises = bind (enter_because-Calm l _ _) λ _. return
  acquire-Calm LeaseReply.refused = bind (enter_because-Calm l _ _) λ _. return
  acquire-Calm LeaseReply.granted =
      bind (note-Calm l _)
        λ _. bind (set_leased-Calm) λ _. bind (locked-Calm l _ (λ c h. h)) λ _. return

  loop_if-Calm : (b : Bool) → Calm K (loop_if env config fuel b)
  unfolding loop_if
  loop_if-Calm true = run_loop-Calm fuel no_attempts
  loop_if-Calm false = return

  own_lease-Calm : (b : Bool) → Calm K (own_lease env config fuel b)
  unfolding own_lease
  own_lease-Calm true = return
  own_lease-Calm false = bind (ask-Calm l env.acquires) λ r. bind (acquire-Calm r) loop_if-Calm

  check_again-Calm : (b : Bool) → Calm K (check_again env config fuel b)
  unfolding check_again
  check_again-Calm false = return
  check_again-Calm true = bind (reading-Calm l (λ c. c.stop_requested)) own_lease-Calm

  admit-Calm : (b : Bool) → Calm K (admit env config fuel b)
  unfolding admit
  admit-Calm true = return
  admit-Calm false = bind (resources_admit-Calm config l) check_again-Calm

  guarded-Calm : Calm K (guarded env config fuel)
  unfolding guarded
  guarded-Calm = bind (reading-Calm l (λ c. c.stop_requested)) admit-Calm

  release_if-Calm : (b : Bool) → Calm K (release_if env config fuel b)
  unfolding release_if
  release_if-Calm false = return
  release_if-Calm true = bind (release_lease_if_safe-Calm config l) λ _. return

  settle-IsStuck : (c : Controller) → IsStuck c → IsStuck (settle env config fuel c)
  settle-IsStuck c h = ground arith

  get_leased-Calm : Calm K (get_leased env config fuel)
  unfolding get_leased
  get_leased-Calm = record { keeps = λ w h. h }

  finish-Calm : Calm K (finish env config fuel)
  unfolding finish
  finish-Calm = bind (get_active-Calm) λ active.
      bind (close_if_active-Calm config fuel l active) λ _. bind (locked-Calm l _ (λ c h. h)) λ _.
        bind (locked-Calm l _ (λ c h. h)) λ _.
          bind (reading-Calm l (λ c. is_some c.retained_backend)) λ retained.
            bind (get_leased-Calm)
              λ leased. bind (release_if-Calm _) λ _. locked-Calm l _ settle-IsStuck

  handle-Calm : Calm K (handle env config fuel)
  unfolding handle
  handle-Calm = bind (count-Calm l _) λ _. enter_because-Calm l _ _

  conclude-keeps : (o : Outcome (Unit {0})) (w : World) → K w → K (conclude env config fuel o w).1
  unfolding conclude
  conclude-keeps (ok done) w h = finish-Calm.keeps w h
  conclude-keeps raised w h = (bind handle-Calm λ _. finish-Calm).keeps w h
  conclude-keeps paused w h = h

  run-Calm : Calm K (run env config fuel)
  unfolding run
  run-Calm = record {
    keeps = λ w h.
        let (o, w') = guarded env config fuel w in conclude-keeps o w' (guarded-Calm.keeps w h);
  }

-- Why a controller is to be stuck at the end of a run from `w`: it was stuck before, or at a moment
-- of the run a `stop` gave up waiting for the worker.
abbrev pub StuckIn : Env → World → World → Type 0
StuckIn env w w' =
    (is_stuck w.controller.state ≡ true)
    ⊎ ((n : ℕ) × (w.now ≤ n) × (n < w'.now) × (has_give_up (env.meanwhile n) ≡ true))

past : (n : ℕ) (w : World) → n < w.now → (w.now ≤ n) ⊎ IsStuck w.controller → IsStuck w.controller
past n w h (inl before) = absurd (omega (arith, h, before))
past n w h (inr stuck) = stuck

-- A controller that is in the state STUCK before the worker runs, or that another thread's `stop`
-- makes so at some moment of the run by giving up, is in it where the run ends or where its fuel does,
-- whatever the backend, the lease, the clock and the other threads answer.
pub stuck_is_final :
    (env : Env) (config : Config) (fuel : ℕ) (w : World)
    → StuckIn env w (run env config fuel w).1
    → is_stuck (run env config fuel w).1.controller.state ≡ true
stuck_is_final env config fuel w (inl stuck) =
    (run-Calm config fuel (StuckNow-Lasts env)).keeps w stuck
stuck_is_final env config fuel w (inr (n, from, to, gave_up)) =
    past n (run env config fuel w).1 to
      ((run-Calm config fuel (StuckAfter-Lasts env n gave_up)).keeps w (inl from))
