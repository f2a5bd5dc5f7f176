-- ===== src/Capture/Controller/Run/Obeys.antt =====
-- capture/controller.py: a whole run keeps to the protocol, whatever the environment answers.
use viskium.Prelude.{
  ℕ, zero, suc, Option, none, some, Bool, true, false, ◌≡◌, is_some, ltb, refl, arith,
}
use viskium.Capture.Controller.Counters.{max_int64}
use viskium.Capture.Controller.World.{Env, Config, World, M, stop_is_set, get_active}
use viskium.Capture.Controller.Triples.{
  Predicate, Exits, Post, Triple, bind, return, branch, weaken,
}
use viskium.Capture.Controller.Protocol.{Phase, Is, view_at, At, is_resting}
use viskium.Capture.Controller.Quiet.{
  reading-Is, enter-Is, enter_because-Is, set_active-Is, get_active-Is, at,
}
use viskium.Capture.Controller.Backend.{FactoryResult, ready, retry, terminal}
use viskium.Capture.Controller.Backend.Steps.{Created, create_backend-Created}
use viskium.Capture.Controller.Run.{
  with_backend, unless_stopped, activate, make_attempt, attempt, attempt_if_clear, next_attempt,
  run_loop,
}
use viskium.Capture.Controller.Open.{Attempts, close_if_active}
use viskium.Capture.Controller.Open.Steps.{
  open_backend-Turned, lawful, Turned, after_close-is_resting, stop_here-Turned, stop_at,
  close_active-Is, fail-Turned,
}

-- What `active_backend` is after `_create_backend`.
abbrev Ready : FactoryResult → Option ℕ → Predicate
Ready r none w = Is (view_at Phase.held) w
Ready retry (some b) w = ⊥
Ready ready (some b) w = Is (view_at Phase.fresh) w
Ready terminal (some b) w = Is (view_at Phase.fresh) w

module _ (env : Env) (config : Config) (fuel : ℕ) where
  close_some :
      {e : Exits} (b : ℕ)
      → Triple e
          (Is (view_at Phase.fresh))
          (close_if_active env config fuel (some b))
          (λ _. At is_resting)
  unfolding close_if_active
  close_some b =
      bind (close_active-Is env config fuel Phase.fresh refl b)
        λ c. return _ (at _ (after_close-is_resting c))

  close_none :
      {e : Exits}
      → Triple e
          (Is (view_at Phase.held))
          (close_if_active env config fuel none)
          (λ _. At is_resting)
  unfolding close_if_active
  close_none = return _ (at Phase.held refl)

  with_backend-Turned :
      (a : Attempts) (r : FactoryResult) (b : Option ℕ)
      → Triple lawful (Ready r b) (with_backend env config fuel a r b) Turned
  unfolding with_backend
  with_backend-Turned a terminal none = bind close_none λ _. stop_here-Turned env config fuel
  with_backend-Turned a terminal (some b) =
      bind (close_some b) λ _. stop_here-Turned env config fuel
  with_backend-Turned a retry none = fail-Turned env config fuel a
  with_backend-Turned a retry (some b) = record { holds = λ w h. elim h [ ] }
  with_backend-Turned a ready none =
      bind (enter_because-Is env _ _) λ _. stop_at env config fuel Phase.held refl
  with_backend-Turned a ready (some b) = open_backend-Turned env config fuel a b

  close_ready :
      {e : Exits} (r : FactoryResult) (b : Option ℕ)
      → Triple e (Ready r b) (close_if_active env config fuel b) (λ _. At is_resting)
  close_ready r none = close_none
  close_ready retry (some b) = record { holds = λ w h. elim h [ ] }
  close_ready ready (some b) = close_some b
  close_ready terminal (some b) = close_some b

  activate-Ready :
      {e : Exits} (b : Option ℕ) (r : FactoryResult)
      → Triple e (Created (b, r)) (activate env config fuel b) (λ _. Ready r b)
  unfolding activate
  activate-Ready none r = return _ (λ w h. h)
  activate-Ready (some b) retry = record { holds = λ w h. elim h [ ] }
  activate-Ready (some b) ready = set_active-Is (some b)
  activate-Ready (some b) terminal = set_active-Is (some b)

  stop_is_set-Ready :
      {e : Exits} (b : Option ℕ) (r : FactoryResult)
      → Triple e (Ready r b) (stop_is_set env) (λ _. Ready r b)
  stop_is_set-Ready none r = reading-Is env _
  stop_is_set-Ready (some b) retry = record { holds = λ w h. elim h [ ] }
  stop_is_set-Ready (some b) ready = reading-Is env _
  stop_is_set-Ready (some b) terminal = reading-Is env _

  idle_Ready :
      (r : FactoryResult) (a : Option ℕ) (w : World)
      → Is (view_at Phase.held) w × (is_some a ≡ false)
      → Ready r a w
  idle_Ready r none w (h, f) = h
  idle_Ready r (some a) w (h, f) = ground arith

  busy_Ready :
      (a : Option ℕ) (w : World)
      → Is (view_at Phase.fresh) w × (is_some a ≡ true)
      → Ready ready a w × Ready terminal a w
  busy_Ready none w (h, f) = ground arith
  busy_Ready (some a) w (h, f) = (h, h)

  get_active-Ready :
      {e : Exits} (b : Option ℕ) (r : FactoryResult)
      → Triple e (Ready r b) get_active (λ a. Ready r a)
  get_active-Ready none r = weaken get_active-Is (λ w h. h) (idle_Ready r)
  get_active-Ready (some b) retry = record { holds = λ w h. elim h [ ] }
  get_active-Ready (some b) ready = weaken get_active-Is (λ w h. h) (λ a w h. (busy_Ready a w h).0)
  get_active-Ready (some b) terminal =
      weaken get_active-Is (λ w h. h) (λ a w h. (busy_Ready a w h).1)

  unless_stopped-Turned :
      (stop : Bool) (a : Attempts) (r : FactoryResult) (b : Option ℕ)
      → Triple lawful (Ready r b) (unless_stopped env config fuel stop a r) Turned
  unfolding unless_stopped
  unless_stopped-Turned true a r b =
      bind (get_active-Ready b r) λ x. bind (close_ready r x) λ _. stop_here-Turned env config fuel
  unless_stopped-Turned false a r b = bind (get_active-Ready b r) λ x. with_backend-Turned a r x

  make_attempt-Turned :
      (a : Attempts)
      → Triple lawful (Is (view_at Phase.held)) (make_attempt env config fuel a) Turned
  unfolding make_attempt
  make_attempt-Turned a = bind (enter-Is env _) λ _.
      bind (create_backend-Created env config) λ (b, r).
        bind (activate-Ready b r)
          λ _. bind (stop_is_set-Ready b r) λ stop. unless_stopped-Turned stop a r b

  attempt-Turned :
      (a : Attempts) → Triple lawful (Is (view_at Phase.held)) (attempt env config fuel a) Turned
  unfolding attempt
  attempt-Turned a =
      branch (ltb max_int64 a.next_epoch)
        (bind (enter_because-Is env _ _) λ _. stop_at env config fuel Phase.held refl)
        (make_attempt-Turned a)

  attempt_if_clear-Turned :
      (stop : Bool) (a : Attempts)
      → Triple lawful (Is (view_at Phase.held)) (attempt_if_clear env config fuel stop a) Turned
  unfolding attempt_if_clear
  attempt_if_clear-Turned true a = stop_at env config fuel Phase.held refl
  attempt_if_clear-Turned false a = attempt-Turned a

  next_attempt-At :
      (k : Attempts → M (Unit {0}))
      → ((a : Attempts) → Triple lawful (Is (view_at Phase.held)) (k a) (λ _. At is_resting))
      → (o : Option Attempts)
      → Triple lawful (Turned o) (next_attempt env config fuel k o) (λ _. At is_resting)
  unfolding next_attempt
  next_attempt-At k rest none = return _ (λ w h. h)
  next_attempt-At k rest (some a) = rest a

  pub run_loop-At :
      (n : ℕ) (a : Attempts)
      → Triple lawful (Is (view_at Phase.held)) (run_loop env config fuel n a) (λ _. At is_resting)
  unfolding run_loop Post
  run_loop-At zero a = record { holds = at Phase.held refl }
  run_loop-At (suc n) a =
      let rest = run_loop-At n in
      record {
        holds = λ w h.
            (bind
                (bind (reading-Is env (λ c. c.stop_requested))
                  λ stop. attempt_if_clear-Turned stop a)
                (next_attempt-At _ rest)).holds
              w h;
      }
