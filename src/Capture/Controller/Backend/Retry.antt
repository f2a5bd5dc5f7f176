-- ===== src/Capture/Controller/Backend/Retry.antt =====
-- capture/controller.py: releasing the lease, retrying and admission keep to the protocol.
use viskium.Prelude.{
  ℕ, Option, none, some, Bool, true, false, not, ◌||◌, is_some, ◌≡◌, refl, ap, sym, ◌∙◌, arith,
}
use viskium.Core.Value
use viskium.Capture.Controller.World.{GateReply, Env, Config, Deed, World, locked, reading}
use viskium.Capture.Controller.Triples.{
  Predicate, Exits, Post, Triple, bind, return, branch, branch_by, given, weaken,
}
use viskium.Capture.Controller.Protocol.{Phase, advance, View, view, Is, view_at, At, is_resting}
use viskium.Capture.Controller.Quiet.{
  view-pass, reading-Is, ask-Is, count-Is, enter-Is, enter_because-Is, clock_ns-Is, note-Is, at,
  keep_At,
}
use viskium.Capture.Controller.Backend.{
  judge_release, raise_as, lengthen, judge_admission, ask_gate, admit_by, release_lease_if_safe,
  schedule_retry, resources_admit,
}

-- Where `_schedule_retry` leaves the worker, by its answer.
abbrev pub Scheduled : Bool → Predicate
Scheduled true w = Is (view_at Phase.held) w
Scheduled false w = At is_resting w

resting-Scheduled : (b : Bool) (w : World) → Is (view_at Phase.held) w → Scheduled b w
resting-Scheduled true w h = h
resting-Scheduled false w h = at Phase.held refl w h

module _ (env : Env) (config : Config) where
  drop_lease-Is :
      {e : Exits} {v : View}
      → Triple e
          (Is v)
          (locked env (λ c. record c { lease_held = false }))
          (λ _. Is (record v { lease_held = false }))
  unfolding locked Post view
  drop_lease-Is = record {
    holds = λ w h. ap {A = View} (λ u. record u { lease_held = false }) (view-pass env w ∙ h);
  }

  judge_release-At :
      {e : Exits} (r : Bool)
      → Triple e (Is (view_at Phase.held)) (judge_release env config r) (λ _. At is_resting)
  unfolding judge_release advance
  judge_release-At false = bind (enter_because-Is env _ _) λ _. return _ (at Phase.held refl)
  judge_release-At true =
      bind (note-Is Deed.released) λ _. bind drop_lease-Is λ _. return _ (at Phase.returned refl)

  held_only :
      (p : Phase)
      → is_resting p ≡ true
      → (not (view_at p).lease_held || (view_at p).retained) ≡ false
      → p ≡ Phase.held
  held_only p resting safe = ground arith

  -- Whether the lease may not be released.
  unsafe-reading :
      {e : Exits} (p : Phase)
      → Triple e
          (Is (view_at p))
          (reading env (λ c. not c.lease_held || is_some c.retained_backend))
          (λ u w. Is (view_at p) w × (u ≡ not (view_at p).lease_held || (view_at p).retained))
  unfolding reading Post view
  unsafe-reading p = record {
    holds = λ w h.
        (view-pass env w ∙ h, ap (λ u. not u.lease_held || u.retained) (view-pass env w ∙ h));
  }

  pub release_lease_if_safe-At :
      {e : Exits} (p : Phase)
      → is_resting p ≡ true
      → Triple e (Is (view_at p)) (release_lease_if_safe env config) (λ _. At is_resting)
  unfolding release_lease_if_safe
  release_lease_if_safe-At p resting = bind (unsafe-reading p) λ u. given λ fact.
      branch_by u (λ _. return _ (at p resting))
        (λ safe. bind (ask-Is env env.releases) λ r.
          weaken (judge_release-At r)
            (λ w h. h ∙ ap (λ q. view_at q) (held_only p resting (sym fact ∙ safe))) (λ _ w h. h))

  raise_as-Is :
      {v : View} {e : Exits}
      → ((w : World) → Is v w → e.on_raise w)
      → (r : Value.Result ℕ) → Triple e (Is v) (raise_as env config r) (λ _. Is v)
  unfolding raise_as Post
  raise_as-Is imp (Value.ok n) = record { holds = λ w h. h }
  raise_as-Is imp (Value.raise x) = record { holds = λ w h. imp w h }

  lengthen-Is :
      {v : View} {e : Exits}
      → ((w : World) → Is v w → e.on_raise w)
      → (o : Option ℕ) (d : ℕ) → Triple e (Is v) (lengthen env config o d) (λ _. Is v)
  unfolding lengthen
  lengthen-Is imp none d = return _ (λ w h. h)
  lengthen-Is imp (some l) d = bind (clock_ns-Is env imp) λ _. return _ (λ w h. h)

  pub schedule_retry-Scheduled :
      {e : Exits}
      → ((w : World) → At is_resting w → e.on_raise w)
      → (n : ℕ) (l : Option ℕ)
      → Triple e (Is (view_at Phase.held)) (schedule_retry env config n l) Scheduled
  unfolding schedule_retry
  schedule_retry-Scheduled imp n l =
      branch _
        (bind (release_lease_if_safe-At Phase.held refl)
          λ _. bind (keep_At λ v. enter-Is env _) λ _. return _ (λ w h. h))
        (bind (raise_as-Is (λ w h. imp w (at Phase.held refl w h)) _) λ d.
          bind (lengthen-Is (λ w h. imp w (at Phase.held refl w h)) l d) λ _.
            bind (count-Is env _) λ _. bind (enter-Is env _) λ _.
              bind (reading-Is env (λ c. c.stop_requested))
                λ stopped. return _ (resting-Scheduled (not stopped)))

  judge_admission-Is :
      {v : View} {e : Exits} (r : GateReply)
      → Triple e (Is v) (judge_admission env config r) (λ _. Is v)
  unfolding judge_admission
  judge_admission-Is GateReply.raises = bind (enter_because-Is env _ _) λ _. return _ (λ w h. h)
  judge_admission-Is GateReply.invalid = bind (enter_because-Is env _ _) λ _. return _ (λ w h. h)
  judge_admission-Is (GateReply.decision c p) =
      branch _ (return _ (λ w h. h)) (bind (enter_because-Is env _ _) λ _. return _ (λ w h. h))

  stopped_or_asked-Is :
      {v : View} {e : Exits} (gate : ℕ → ℕ → GateReply) (stop : Bool)
      → Triple e (Is v) (ask_gate env config gate stop) (λ _. Is v)
  unfolding ask_gate
  stopped_or_asked-Is gate true = return _ (λ w h. h)
  stopped_or_asked-Is gate false = bind (ask-Is env _) judge_admission-Is

  admit_by-Is :
      {v : View} {e : Exits} (gate : Option (ℕ → ℕ → GateReply))
      → Triple e (Is v) (admit_by env config gate) (λ _. Is v)
  unfolding admit_by
  admit_by-Is none = return _ (λ w h. h)
  admit_by-Is (some gate) = bind (reading-Is env (λ c. c.stop_requested)) (stopped_or_asked-Is gate)

  pub resources_admit-Is :
      {v : View} {e : Exits} → Triple e (Is v) (resources_admit env config) (λ _. Is v)
  unfolding resources_admit
  resources_admit-Is = admit_by-Is env.gate
