-- ===== src/Capture/Controller/Backend/Steps.antt =====
-- capture/controller.py: making, closing and releasing keep to the protocol.
use viskium.Prelude.{ℕ, Option, none, some, Bool, true, false, if◌then◌else◌, ◌≡◌, ◌∙◌, arith}
use viskium.Capture.Contracts.{safe_in_process}
use viskium.Capture.Controller.World.{
  CapabilitiesReply, FactoryReply, CloseReply, Env, Config, Deed, World, pass, locked, note,
}
use viskium.Capture.Controller.Triples.{Predicate, Exits, Post, Triple, bind, return, branch}
use viskium.Capture.Controller.Protocol.{Phase, advance, phase, View, view, Is, view_at, is_busy}
use viskium.Capture.Controller.Quiet.{
  view-pass, ask-Is, count-Is, explain-Is, enter_because-Is, note-Is,
}
use viskium.Capture.Controller.Backend.{
  take_handle, judge_capabilities, judge_candidate, judge_close, retain, retain_unless,
  FactoryResult, create_backend, close_or_retain,
}

-- A backend was made, and `_run` has not yet taken it.
abbrev pub made_view : View
made_view = record (view_at Phase.fresh) { active = false }

-- After a close: `active` is not yet reset.
abbrev pub closed_view : Bool → View
closed_view b = record (view_at (if b then Phase.held else Phase.kept)) { active = true }

abbrev abandoned_view : View
abandoned_view = record (view_at Phase.kept) { active = true; retained = false }

-- What `_create_backend` gives, by its result.
abbrev pub Created : Option ℕ × FactoryResult → Predicate
Created (none, r) w = Is (view_at Phase.held) w
Created (some b, FactoryResult.retry) w = ⊥
Created (some b, r) w = Is made_view w

take_handle-Is : {e : Exits} → Triple e (Is (view_at Phase.held)) take_handle (λ _. Is made_view)
unfolding take_handle view phase advance Post note
take_handle-Is {e = e} = record { holds = λ w h. (note-Is {e = e} Deed.made).holds w h }

module _ (env : Env) (config : Config) where
  judge_capabilities-Created :
      {e : Exits} (b : ℕ) (r : CapabilitiesReply)
      → Triple e (Is made_view) (judge_capabilities env config b r) Created
  unfolding judge_capabilities
  judge_capabilities-Created b CapabilitiesReply.raises =
      bind (count-Is env _) λ _. bind (enter_because-Is env _ _) λ _. return _ (λ w h. h)
  judge_capabilities-Created b CapabilitiesReply.invalid =
      bind (count-Is env _) λ _. bind (enter_because-Is env _ _) λ _. return _ (λ w h. h)
  judge_capabilities-Created b (CapabilitiesReply.capabilities c) =
      branch (safe_in_process c) (return _ (λ w h. h))
        (bind (count-Is env _) λ _. bind (enter_because-Is env _ _) λ _. return _ (λ w h. h))

  judge_candidate-Created :
      {e : Exits} (r : FactoryReply)
      → Triple e (Is (view_at Phase.held)) (judge_candidate env config r) Created
  unfolding judge_candidate
  judge_candidate-Created FactoryReply.raises =
      bind (count-Is env _) λ _. bind (explain-Is env _) λ _. return _ (λ w h. h)
  judge_candidate-Created FactoryReply.alien =
      bind (count-Is env _) λ _. bind (enter_because-Is env _ _) λ _. return _ (λ w h. h)
  judge_candidate-Created (FactoryReply.backend r) =
      bind take_handle-Is λ b. bind (count-Is env _) λ _. judge_capabilities-Created b r

  pub create_backend-Created :
      {e : Exits} → Triple e (Is (view_at Phase.held)) (create_backend env config) Created
  unfolding create_backend
  create_backend-Created = bind (ask-Is env env.factory) judge_candidate-Created

  -- What `_close_backend` leaves.
  abbrev judged_view : Bool → View
  judged_view true = closed_view true
  judged_view false = abandoned_view

  abandoned-view :
      (p : Phase)
      → is_busy p ≡ true
      → record (view_at p) { at = advance Deed.abandoned p } ≡ abandoned_view
  unfolding advance
  abandoned-view p busy = ground arith

  closed-view :
      (p : Phase)
      → is_busy p ≡ true
      → record (view_at p) { at = advance Deed.closed p } ≡ closed_view true
  unfolding advance
  closed-view p busy = ground arith

  judge_close-Is :
      {e : Exits} (p : Phase)
      → is_busy p ≡ true
      → (r : CloseReply)
      → Triple e (Is (view_at p)) (judge_close env config r) (λ b. Is (judged_view b))
  unfolding judge_close advance
  judge_close-Is p busy CloseReply.raises = bind (note-Is _) λ _.
      bind (count-Is env _)
        λ _. bind (enter_because-Is env _ _) λ _. return _ (λ w h. h ∙ abandoned-view p busy)
  judge_close-Is p busy (CloseReply.returns n) =
      branch _
        (bind (note-Is _) λ _.
          bind (count-Is env _)
            λ _. bind (enter_because-Is env _ _) λ _. return _ (λ w h. h ∙ abandoned-view p busy))
        (bind (note-Is _) λ _. return _ (λ w h. h ∙ closed-view p busy))

  retain-view :
      (b : ℕ) (w : World)
      → view w ≡ abandoned_view
      → view (record w { controller = retain env config b w.controller }) ≡ closed_view false
  unfolding retain view
  retain-view b w h = ground arith

  retain-Is :
      {e : Exits} (b : ℕ)
      → Triple e
          (Is abandoned_view)
          (locked env (retain env config b))
          (λ _. Is (closed_view false))
  unfolding locked Post
  retain-Is b = record { holds = λ w h. retain-view b (pass env w) (view-pass env w ∙ h) }

  retain_unless-Is :
      {e : Exits} (b : ℕ) (closed : Bool)
      → Triple e
          (Is (judged_view closed))
          (retain_unless env config b closed)
          (λ r. Is (closed_view r))
  unfolding retain_unless
  retain_unless-Is b true = return _ (λ w h. h)
  retain_unless-Is b false = bind (retain-Is b) λ _. return _ (λ w h. h)

  pub close_or_retain-Is :
      {e : Exits} (p : Phase)
      → is_busy p ≡ true
      → (b : ℕ) → Triple e (Is (view_at p)) (close_or_retain env config b) (λ r. Is (closed_view r))
  unfolding close_or_retain
  close_or_retain-Is p busy b =
      bind (ask-Is env env.closes) λ r. bind (judge_close-Is p busy r) λ c. retain_unless-Is b c
