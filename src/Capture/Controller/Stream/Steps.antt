-- ===== src/Capture/Controller/Stream/Steps.antt =====
-- capture/controller.py: reading a stream keeps to the protocol, and leaves the stream open.
use viskium.Prelude.{ℕ, zero, suc, Option, none, some, Bool, true, false, String, ltb}
use viskium.Capture.Contracts.Frames.{NegotiatedStream, BackendFrame, CaptureRead}
use viskium.Capture.Controller.World.{ReadReply, Env, Config, Deed, World, M}
use viskium.Capture.Controller.Triples.{Exits, Post, Triple, bind, return}
use viskium.Capture.Controller.Protocol.{Phase, advance, View, Is, view_at}
use viskium.Capture.Controller.Quiet.{
  reading-Is, ask-Is, count-Is, explain-Is, enter-Is, enter_because-Is, clock_ns-Is, note-Is,
}
use viskium.Capture.Controller.Offer.{StreamResult}
use viskium.Capture.Controller.Offer.Steps.{offer_frame-Is}
use viskium.Capture.Controller.Stream.{
  Progress, Turn, again, done, resume, after_offer, enter_when_warm, use_frame, accept_frame,
  wait_if, publish, discard, on_frame, stale_or_resume, after_wait, on_timeout, on_result, on_reply,
  unless_stopped, unless_late, unless_backwards, judge_read, read_error, after_read, read_once,
  turn_if_clear, read_turn, next_turn, read_loop, read_stream,
}

module _ (env : Env) (config : Config) where
  module _ (stream : NegotiatedStream) (epoch opened_ns : ℕ) where
    resume-Is :
        {e : Exits} {v : View} (n : ℕ)
        → Triple e (Is v) (resume env config stream epoch opened_ns n) (λ _. Is v)
    unfolding resume
    resume-Is n = enter-Is env _

    after_offer-Is :
        {e : Exits}
        → (p : Progress) (n : ℕ) (a : Option StreamResult)
        → Triple e
            (Is (view_at Phase.streaming))
            (after_offer env config stream epoch opened_ns p n a)
            (λ _. Is (view_at Phase.streaming))
    unfolding after_offer
    after_offer-Is p n (some r) = return _ (λ w h. h)
    after_offer-Is p n none = bind (enter-Is env _) λ _. return _ (λ w h. h)

    publish-Is :
        {e : Exits}
        → (p : Progress) (f : BackendFrame) (n : ℕ)
        → Triple e
            (Is (view_at Phase.streaming))
            (publish env config stream epoch opened_ns p f n)
            (λ _. Is (view_at Phase.streaming))
    unfolding publish
    publish-Is p f n =
        bind (offer_frame-Is env config f stream epoch p.sequence) (after_offer-Is p n)

    enter_when_warm-Is :
        {e : Exits}
        → (b : Bool)
        → Triple e
            (Is (view_at Phase.streaming))
            (enter_when_warm env config stream epoch opened_ns b)
            (λ _. Is (view_at Phase.streaming))
    unfolding enter_when_warm
    enter_when_warm-Is true = enter-Is env _
    enter_when_warm-Is false = return _ (λ w h. h)

    discard-Is :
        {e : Exits}
        → (p : Progress) (n : ℕ)
        → Triple e
            (Is (view_at Phase.streaming))
            (discard env config stream epoch opened_ns p n)
            (λ _. Is (view_at Phase.streaming))
    unfolding discard
    discard-Is p n = bind (count-Is env _) λ _. bind (enter_when_warm-Is _) λ _. return _ (λ w h. h)

    use_frame-Is :
        {e : Exits}
        → (b : Bool) (p : Progress) (f : BackendFrame) (n : ℕ)
        → Triple e
            (Is (view_at Phase.streaming))
            (use_frame env config stream epoch opened_ns b p f n)
            (λ _. Is (view_at Phase.streaming))
    unfolding use_frame
    use_frame-Is true p f n = publish-Is p f n
    use_frame-Is false p f n = discard-Is p n

    accept_frame-Is :
        {e : Exits}
        → (b : Bool) (p : Progress) (f : BackendFrame) (n : ℕ)
        → Triple e
            (Is (view_at Phase.streaming))
            (accept_frame env config stream epoch opened_ns b p f n)
            (λ _. Is (view_at Phase.streaming))
    unfolding accept_frame
    accept_frame-Is true p f n = bind (count-Is env _) λ _. use_frame-Is _ p f n
    accept_frame-Is false p f n =
        bind (count-Is env _) λ _. bind (explain-Is env _) λ _. return _ (λ w h. h)

    on_frame-Is :
        {e : Exits}
        → (p : Progress) (f : BackendFrame) (n : ℕ)
        → Triple e
            (Is (view_at Phase.streaming))
            (on_frame env config stream epoch opened_ns p f n)
            (λ _. Is (view_at Phase.streaming))
    unfolding on_frame
    on_frame-Is p f n = accept_frame-Is _ p f n

    stale_or_resume-Is :
        {e : Exits}
        → (b : Bool) (p : Progress) (n : ℕ)
        → Triple e
            (Is (view_at Phase.streaming))
            (stale_or_resume env config stream epoch opened_ns b p n)
            (λ _. Is (view_at Phase.streaming))
    unfolding stale_or_resume
    stale_or_resume-Is true p n = bind (explain-Is env _) λ _. return _ (λ w h. h)
    stale_or_resume-Is false p n = bind (resume-Is _) λ _. return _ (λ w h. h)

    after_wait-Is :
        {e : Exits}
        → ((w : World) → Is (view_at Phase.streaming) w → e.on_raise w)
        → (p : Progress) (n : ℕ) (b : Bool)
        → Triple e
            (Is (view_at Phase.streaming))
            (after_wait env config stream epoch opened_ns p n b)
            (λ _. Is (view_at Phase.streaming))
    unfolding after_wait
    after_wait-Is imp p n true = return _ (λ w h. h)
    after_wait-Is imp p n false = bind (clock_ns-Is env imp) λ now. stale_or_resume-Is _ p now

    wait_if-Is :
        {e : Exits}
        → (b : Bool)
        → Triple e
            (Is (view_at Phase.streaming))
            (wait_if env config stream epoch opened_ns b)
            (λ _. Is (view_at Phase.streaming))
    unfolding wait_if
    wait_if-Is true = reading-Is env (λ c. c.stop_requested)
    wait_if-Is false = return _ (λ w h. h)

    on_timeout-Is :
        {e : Exits}
        → ((w : World) → Is (view_at Phase.streaming) w → e.on_raise w)
        → (p : Progress) (r : String) (d n : ℕ)
        → Triple e
            (Is (view_at Phase.streaming))
            (on_timeout env config stream epoch opened_ns p r d n)
            (λ _. Is (view_at Phase.streaming))
    unfolding on_timeout
    on_timeout-Is imp p r d n = bind (count-Is env _) λ _.
        bind (enter_because-Is env _ _) λ _. bind (wait_if-Is (ltb n d)) (after_wait-Is imp p n)

    on_result-Is :
        {e : Exits}
        → ((w : World) → Is (view_at Phase.streaming) w → e.on_raise w)
        → (p : Progress) (r : CaptureRead) (d n : ℕ)
        → Triple e
            (Is (view_at Phase.streaming))
            (on_result env config stream epoch opened_ns p r d n)
            (λ _. Is (view_at Phase.streaming))
    unfolding on_result
    on_result-Is imp p (CaptureRead.frame f) d n = on_frame-Is p f n
    on_result-Is imp p (CaptureRead.timeout r) d n = on_timeout-Is imp p r d n
    on_result-Is imp p (CaptureRead.disconnected r) d n =
        bind (count-Is env _) λ _. bind (enter_because-Is env _ _) λ _. return _ (λ w h. h)
    on_result-Is imp p (CaptureRead.recoverable_error r) d n =
        bind (count-Is env _) λ _. bind (enter_because-Is env _ _) λ _. return _ (λ w h. h)
    on_result-Is imp p (CaptureRead.fatal_error r) d n =
        bind (count-Is env _) λ _. bind (explain-Is env _) λ _. return _ (λ w h. h)

    on_reply-Is :
        {e : Exits}
        → ((w : World) → Is (view_at Phase.streaming) w → e.on_raise w)
        → (p : Progress) (r : ReadReply) (d n : ℕ)
        → Triple e
            (Is (view_at Phase.streaming))
            (on_reply env config stream epoch opened_ns p r d n)
            (λ _. Is (view_at Phase.streaming))
    unfolding on_reply
    on_reply-Is imp p (ReadReply.result r) d n = on_result-Is imp p r d n
    on_reply-Is imp p ReadReply.deadline_exceeded d n = on_timeout-Is imp p _ d n
    on_reply-Is imp p ReadReply.invalid d n =
        bind (count-Is env _) λ _. bind (explain-Is env _) λ _. return _ (λ w h. h)
    on_reply-Is imp p ReadReply.capture_error d n =
        bind (count-Is env _) λ _. bind (explain-Is env _) λ _. return _ (λ w h. h)
    on_reply-Is imp p ReadReply.unexpected_error d n =
        bind (count-Is env _) λ _. bind (explain-Is env _) λ _. return _ (λ w h. h)

    unless_stopped-Is :
        {e : Exits}
        → ((w : World) → Is (view_at Phase.streaming) w → e.on_raise w)
        → (b : Bool) (p : Progress) (r : ReadReply) (d n : ℕ)
        → Triple e
            (Is (view_at Phase.streaming))
            (unless_stopped env config stream epoch opened_ns b p r d n)
            (λ _. Is (view_at Phase.streaming))
    unfolding unless_stopped
    unless_stopped-Is imp true p r d n = return _ (λ w h. h)
    unless_stopped-Is imp false p r d n = on_reply-Is imp p r d n

    unless_late-Is :
        {e : Exits}
        → ((w : World) → Is (view_at Phase.streaming) w → e.on_raise w)
        → (b : Bool) (p : Progress) (r : ReadReply) (d n : ℕ)
        → Triple e
            (Is (view_at Phase.streaming))
            (unless_late env config stream epoch opened_ns b p r d n)
            (λ _. Is (view_at Phase.streaming))
    unfolding unless_late
    unless_late-Is imp true p r d n =
        bind (count-Is env _) λ _. bind (enter_because-Is env _ _) λ _. return _ (λ w h. h)
    unless_late-Is imp false p r d n =
        bind (reading-Is env (λ c. c.stop_requested)) λ b. unless_stopped-Is imp b p r d n

    unless_backwards-Is :
        {e : Exits}
        → ((w : World) → Is (view_at Phase.streaming) w → e.on_raise w)
        → (b late : Bool) (p : Progress) (r : ReadReply) (d n : ℕ)
        → Triple e
            (Is (view_at Phase.streaming))
            (unless_backwards env config stream epoch opened_ns b late p r d n)
            (λ _. Is (view_at Phase.streaming))
    unfolding unless_backwards
    unless_backwards-Is imp true late p r d n = bind (explain-Is env _) λ _. return _ (λ w h. h)
    unless_backwards-Is imp false late p r d n = unless_late-Is imp late p r d n

    judge_read-Is :
        {e : Exits}
        → ((w : World) → Is (view_at Phase.streaming) w → e.on_raise w)
        → (p : Progress) (s d : ℕ) (b : Bool) (r : ReadReply)
        → Triple e
            (Is (view_at Phase.streaming))
            (judge_read env config stream epoch opened_ns p s d b r)
            (λ _. Is (view_at Phase.streaming))
    unfolding judge_read
    judge_read-Is imp p s d b r =
        bind (clock_ns-Is env imp) λ n. unless_backwards-Is imp _ _ p r d n

    read_error-Is :
        {e : Exits}
        → ((w : World) → Is (view_at Phase.streaming) w → e.on_raise w)
        → (r : String)
        → Triple e
            (Is (view_at Phase.streaming))
            (read_error env config stream epoch opened_ns r)
            (λ _. Is (view_at Phase.streaming))
    unfolding read_error
    read_error-Is imp r =
        bind (count-Is env _)
          λ _. bind (explain-Is env _) λ _. bind (clock_ns-Is env imp) λ n. return _ (λ w h. h)

    after_read-Is :
        {e : Exits}
        → ((w : World) → Is (view_at Phase.streaming) w → e.on_raise w)
        → (p : Progress) (s d : ℕ) (r : ReadReply)
        → Triple e
            (Is (view_at Phase.streaming))
            (after_read env config stream epoch opened_ns p s d r)
            (λ _. Is (view_at Phase.streaming))
    unfolding after_read
    after_read-Is imp p s d ReadReply.capture_error = read_error-Is imp _
    after_read-Is imp p s d ReadReply.unexpected_error = read_error-Is imp _
    after_read-Is imp p s d ReadReply.deadline_exceeded =
        judge_read-Is imp p s d true ReadReply.deadline_exceeded
    after_read-Is imp p s d (ReadReply.result r) =
        judge_read-Is imp p s d false (ReadReply.result r)
    after_read-Is imp p s d ReadReply.invalid = judge_read-Is imp p s d false ReadReply.invalid

    read_once-Is :
        {e : Exits}
        → ((w : World) → Is (view_at Phase.streaming) w → e.on_raise w)
        → (p : Progress)
        → Triple e
            (Is (view_at Phase.streaming))
            (read_once env config stream epoch opened_ns p)
            (λ _. Is (view_at Phase.streaming))
    unfolding read_once advance
    read_once-Is imp p = bind (clock_ns-Is env imp) λ s. bind (count-Is env _) λ _.
        bind (note-Is Deed.read) λ _. bind (ask-Is env env.reads) λ r. after_read-Is imp p s _ r

    turn_if_clear-Is :
        {e : Exits}
        → ((w : World) → Is (view_at Phase.streaming) w → e.on_raise w)
        → (b : Bool) (p : Progress)
        → Triple e
            (Is (view_at Phase.streaming))
            (turn_if_clear env config stream epoch opened_ns b p)
            (λ _. Is (view_at Phase.streaming))
    unfolding turn_if_clear
    turn_if_clear-Is imp true p = bind (clock_ns-Is env imp) λ n. return _ (λ w h. h)
    turn_if_clear-Is imp false p = read_once-Is imp p

    read_turn-Is :
        {e : Exits}
        → ((w : World) → Is (view_at Phase.streaming) w → e.on_raise w)
        → (p : Progress)
        → Triple e
            (Is (view_at Phase.streaming))
            (read_turn env config stream epoch opened_ns p)
            (λ _. Is (view_at Phase.streaming))
    unfolding read_turn
    read_turn-Is imp p = bind (reading-Is env (λ c. c.stop_requested)) λ b. turn_if_clear-Is imp b p

    next_turn-Is :
        {e : Exits} (k : Progress → M (StreamResult × Bool))
        → ((p : Progress)
            → Triple e (Is (view_at Phase.streaming)) (k p) (λ _. Is (view_at Phase.streaming)))
        → (t : Turn)
        → Triple e
            (Is (view_at Phase.streaming))
            (next_turn env config stream epoch opened_ns k t)
            (λ _. Is (view_at Phase.streaming))
    unfolding next_turn
    next_turn-Is k rest (again p) = rest p
    next_turn-Is k rest (done r b) = return _ (λ w h. h)

    read_loop-Is :
        {e : Exits}
        → ((w : World) → Is (view_at Phase.streaming) w → e.on_raise w)
        → ((w : World) → Is (view_at Phase.streaming) w → e.on_pause w)
        → (n : ℕ) (p : Progress)
        → Triple e
            (Is (view_at Phase.streaming))
            (read_loop env config stream epoch opened_ns n p)
            (λ _. Is (view_at Phase.streaming))
    unfolding read_loop Post
    read_loop-Is imp cut zero p = record { holds = λ w h. cut w h }
    read_loop-Is {e} imp cut (suc n) p =
        let rest = read_loop-Is {e = e} imp cut n in
        record { holds = λ w h. (bind (read_turn-Is imp p) (next_turn-Is _ rest)).holds w h }

    pub read_stream-Is :
        {e : Exits}
        → ((w : World) → Is (view_at Phase.streaming) w → e.on_raise w)
        → ((w : World) → Is (view_at Phase.streaming) w → e.on_pause w)
        → (n : ℕ)
        → Triple e
            (Is (view_at Phase.streaming))
            (read_stream env config stream epoch opened_ns n)
            (λ _. Is (view_at Phase.streaming))
    unfolding read_stream
    read_stream-Is imp cut n = bind (resume-Is _) λ _. read_loop-Is imp cut n _
