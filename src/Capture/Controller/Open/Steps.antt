-- ===== src/Capture/Controller/Open/Steps.antt =====
-- capture/controller.py: opening a backend and reading its stream keep to the protocol.
use viskium.Prelude.{ℕ, Option, none, some, Bool, true, false, ◌≡◌, ◌∙◌, refl, arith}
use viskium.Capture.Contracts.Frames.{NegotiatedStream}
use viskium.Capture.Controller.World.{OpenReply, Env, Config, Deed, World}
use viskium.Capture.Controller.Triples.{Predicate, Exits, Triple, bind, return}
use viskium.Capture.Controller.Protocol.{
  Phase, advance, View, Is, view_at, At, is_busy, is_resting, is_lawful,
}
use viskium.Capture.Controller.Quiet.{
  locked-Is, count-Is, explain-Is, enter-Is, enter_because-Is, ask-Is, clock_ns-Is, note-Is,
  set_active-Is, at,
}
use viskium.Capture.Controller.Backend.Steps.{closed_view, close_or_retain-Is}
use viskium.Capture.Controller.Backend.Retry.{Scheduled, schedule_retry-Scheduled}
use viskium.Capture.Controller.Offer.{StreamResult}
use viskium.Capture.Controller.Stream.Steps.{read_stream-Is}
use viskium.Capture.Controller.Offer.Steps.{validate_stream-Is}
use viskium.Capture.Controller.Open.{
  Attempts, close_active, stop_here, close_and_stop, continue_if, fail, after_stream, after_close,
  use_stream, after_validation, blame_open, retry_if, open_failed, judge_open, unless_late,
  unless_backwards, open_backend,
}

-- What an exception, or the end of the fuel, leaves behind in the `try` of `_run`.
abbrev pub lawful : Exits
lawful = record { on_raise = At is_lawful; on_pause = At is_lawful }

-- After a turn of the loop: it goes on with no backend, or stops.
abbrev pub Turned : Option Attempts → Predicate
Turned (some a) w = Is (view_at Phase.held) w
Turned none w = At is_resting w

-- After a close: the lease is held, or the backend is kept.
abbrev pub after_close_phase : Bool → Phase
after_close_phase true = Phase.held
after_close_phase false = Phase.kept

reset-view : (r : Bool) → record (closed_view r) { active = false } ≡ view_at (after_close_phase r)
reset-view true = refl
reset-view false = refl

pub after_close-is_resting : (r : Bool) → is_resting (after_close_phase r) ≡ true
after_close-is_resting true = refl
after_close-is_resting false = refl

is_resting-is_lawful : (p : Phase) → is_resting p ≡ true → is_lawful p ≡ true
is_resting-is_lawful p h = ground arith

is_busy-is_lawful : (p : Phase) → is_busy p ≡ true → is_lawful p ≡ true
is_busy-is_lawful p h = ground arith

pub resting_lawful : (w : World) → At is_resting w → At is_lawful w
resting_lawful w a = record {
  stands = a.stands;
  allowed = is_resting-is_lawful a.stands a.allowed;
  agrees = a.agrees;
}

pub busy_lawful : (p : Phase) → is_busy p ≡ true → (w : World) → Is (view_at p) w → At is_lawful w
busy_lawful p busy = at p (is_busy-is_lawful p busy)

module _ (env : Env) (config : Config) (fuel : ℕ) where
  pub stop_here-Turned : {e : Exits} → Triple e (At is_resting) (stop_here env config fuel) Turned
  unfolding stop_here
  stop_here-Turned = return _ (λ w h. h)

  pub stop_at :
      {e : Exits} (p : Phase)
      → is_resting p ≡ true
      → Triple e (Is (view_at p)) (stop_here env config fuel) Turned
  unfolding stop_here
  stop_at p r = return _ (at p r)

  pub close_active-Is :
      {e : Exits} (p : Phase)
      → is_busy p ≡ true
      → (b : ℕ)
      → Triple e
          (Is (view_at p))
          (close_active env config fuel b)
          (λ r. Is (view_at (after_close_phase r)))
  unfolding close_active
  close_active-Is p busy b =
      bind (close_or_retain-Is env config p busy b)
        λ r. bind (set_active-Is none) λ _. return r (λ w h. h ∙ reset-view r)

  pub close_and_stop-Turned :
      {e : Exits} (p : Phase)
      → is_busy p ≡ true
      → (b : ℕ) → Triple e (Is (view_at p)) (close_and_stop env config fuel b) Turned
  unfolding close_and_stop
  close_and_stop-Turned p busy b =
      bind (close_active-Is p busy b) λ r. stop_at _ (after_close-is_resting r)

  continue_if-Turned :
      {e : Exits} (b : Bool) (a : Attempts)
      → Triple e (Scheduled b) (continue_if env config fuel b a) Turned
  unfolding continue_if
  continue_if-Turned true a = return _ (λ w h. h)
  continue_if-Turned false a = return _ (λ w h. h)

  pub fail-Turned :
      (a : Attempts) → Triple lawful (Is (view_at Phase.held)) (fail env config fuel a) Turned
  unfolding fail
  fail-Turned a =
      bind (schedule_retry-Scheduled env config resting_lawful _ _) λ b. continue_if-Turned b _

  after_stream-Turned :
      (a : Attempts) (r : StreamResult) (b : Bool)
      → Triple lawful (Is (view_at Phase.held)) (after_stream env config fuel a r b) Turned
  unfolding after_stream
  after_stream-Turned a StreamResult.stopped b = stop_at Phase.held refl
  after_stream-Turned a StreamResult.slot_closed b = stop_at Phase.held refl
  after_stream-Turned a StreamResult.stuck b = bind (enter-Is env _) λ _. stop_at Phase.held refl
  after_stream-Turned a StreamResult.fatal b = bind (enter-Is env _) λ _. stop_at Phase.held refl
  after_stream-Turned a StreamResult.retry b = fail-Turned _

  after_close-Turned :
      (a : Attempts) (r : StreamResult) (b c : Bool)
      → Triple lawful
          (Is (view_at (after_close_phase c)))
          (after_close env config fuel a r b c)
          Turned
  unfolding after_close
  after_close-Turned a r b true = after_stream-Turned a r b
  after_close-Turned a r b false = stop_at Phase.kept refl

  use_stream-Turned :
      (a : Attempts) (b at : ℕ) (s : NegotiatedStream)
      → Triple lawful (Is (view_at Phase.streaming)) (use_stream env config fuel a b at s) Turned
  unfolding use_stream
  use_stream-Turned a b opened s = bind (count-Is env _) λ _.
      bind (locked-Is env _ (λ c. (refl, refl))) λ _.
        bind
          (read_stream-Is env config s _ _ (busy_lawful Phase.streaming refl)
            (busy_lawful Phase.streaming refl) fuel)
          λ (r, stable).
            bind (close_active-Is Phase.streaming refl b)
              λ c. bind (locked-Is env _ (λ c. (refl, refl))) λ _. after_close-Turned _ r stable c

  after_validation-Turned :
      (a : Attempts) (b at : ℕ) (s : Option NegotiatedStream)
      → Triple lawful
          (Is (view_at Phase.streaming))
          (after_validation env config fuel a b at s)
          Turned
  unfolding after_validation
  after_validation-Turned a b opened none = close_and_stop-Turned Phase.streaming refl b
  after_validation-Turned a b opened (some s) = use_stream-Turned a b opened s

  blame_open-Is :
      {e : Exits} {v : View} (r : OpenReply)
      → Triple e (Is v) (blame_open env config fuel r) (λ _. Is v)
  unfolding blame_open
  blame_open-Is OpenReply.deadline_exceeded = explain-Is env _
  blame_open-Is OpenReply.open_error = explain-Is env _
  blame_open-Is OpenReply.capture_error = explain-Is env _
  blame_open-Is OpenReply.unexpected_error = bind (count-Is env _) λ _. explain-Is env _
  blame_open-Is OpenReply.invalid = bind (count-Is env _) λ _. explain-Is env _
  blame_open-Is (OpenReply.stream s) = bind (count-Is env _) λ _. explain-Is env _

  retry_if-Turned :
      (b : Bool) (a : Attempts)
      → Triple lawful (Is (view_at (after_close_phase b))) (retry_if env config fuel b a) Turned
  unfolding retry_if
  retry_if-Turned true a = fail-Turned a
  retry_if-Turned false a = stop_at Phase.kept refl

  open_failed-Turned :
      (a : Attempts) (b : ℕ) (r : OpenReply)
      → Triple lawful (Is (view_at Phase.streaming)) (open_failed env config fuel a b r) Turned
  unfolding open_failed
  open_failed-Turned a b r = bind (count-Is env _) λ _.
      bind (blame_open-Is r)
        λ _. bind (close_active-Is Phase.streaming refl b) λ c. retry_if-Turned c a

  pub judge_open-Turned :
      (a : Attempts) (b at : ℕ) (r : OpenReply)
      → Triple lawful (Is (view_at Phase.streaming)) (judge_open env config fuel a b at r) Turned
  unfolding judge_open
  judge_open-Turned a b opened (OpenReply.stream s) =
      bind (validate_stream-Is env config _) λ c. after_validation-Turned a b opened c
  judge_open-Turned a b opened OpenReply.invalid =
      bind (validate_stream-Is env config _) λ c. after_validation-Turned a b opened c
  judge_open-Turned a b opened OpenReply.deadline_exceeded =
      open_failed-Turned a b OpenReply.deadline_exceeded
  judge_open-Turned a b opened OpenReply.open_error = open_failed-Turned a b OpenReply.open_error
  judge_open-Turned a b opened OpenReply.capture_error =
      open_failed-Turned a b OpenReply.capture_error
  judge_open-Turned a b opened OpenReply.unexpected_error =
      open_failed-Turned a b OpenReply.unexpected_error

  unless_late-Turned :
      (late : Bool) (a : Attempts) (b at : ℕ) (r : OpenReply)
      → Triple lawful
          (Is (view_at Phase.streaming))
          (unless_late env config fuel late a b at r)
          Turned
  unfolding unless_late
  unless_late-Turned true a b opened r =
      bind (count-Is env _)
        λ _. bind (enter_because-Is env _ _) λ _. close_and_stop-Turned Phase.streaming refl b
  unless_late-Turned false a b opened r = judge_open-Turned a b opened r

  unless_backwards-Turned :
      (back late : Bool) (a : Attempts) (b at : ℕ) (r : OpenReply)
      → Triple lawful
          (Is (view_at Phase.streaming))
          (unless_backwards env config fuel back late a b at r)
          Turned
  unfolding unless_backwards
  unless_backwards-Turned true late a b opened r =
      bind (enter_because-Is env _ _) λ _. close_and_stop-Turned Phase.streaming refl b
  unless_backwards-Turned false late a b opened r = unless_late-Turned late a b opened r

  pub open_backend-Turned :
      (a : Attempts) (b : ℕ)
      → Triple lawful (Is (view_at Phase.fresh)) (open_backend env config fuel a b) Turned
  unfolding open_backend advance
  open_backend-Turned a b = bind (clock_ns-Is env (busy_lawful Phase.fresh refl)) λ started.
      bind (count-Is env _) λ _. bind (note-Is Deed.opened) λ _. bind (ask-Is env env.opens) λ r.
        bind (clock_ns-Is env (busy_lawful Phase.streaming refl))
          λ finished. unless_backwards-Turned _ _ _ b finished r
