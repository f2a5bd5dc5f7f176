-- ===== src/Capture/Controller/Backend/Shut.antt =====
-- capture/controller.py: a slot that is closed stays so while the lease is released.
use viskium.Prelude.{◌||◌, none, Bool, true, false, not, String, is_some, ◌≡◌, refl, arith}
use viskium.Capture.Contracts.{CameraState}
use viskium.Capture.Slot.{close, apply}
use viskium.Capture.Controller.State.{
  Controller, increment, mark_stopping, stop_decide, stop_end, set_state_because, Action, act,
}
use viskium.Capture.Controller.World.{Env, Config}
use viskium.Capture.Controller.Triples.{Exits, Triple, bind, return, branch}
use viskium.Capture.Controller.Stays.{
  Lasting, Stays, locked-Stays, reading-Stays, ask-Stays, note-Stays,
}
use viskium.Capture.Controller.Backend.{release_lease_if_safe, judge_release}

-- The slot is closed and empty, and no stream is negotiated.
pub record Shut (c : Controller) : Type 0 where
  pub closed : c.frames.is_closed ≡ true
  pub empty : c.frames.pending ≡ none
  pub silent : c.negotiated_stream ≡ none

act-Shut : (a : Action) (c : Controller) → Shut c → Shut (act a c)
unfolding act stop_decide mark_stopping stop_end increment close apply
act-Shut Action.requests_stop c s = record { closed = s.closed; empty = s.empty; silent = s.silent }
act-Shut Action.closes_slot c s = record { closed = refl; empty = refl; silent = s.silent }
act-Shut Action.decides_stop c s = record {
  closed = ground arith;
  empty = ground arith;
  silent = ground arith;
}
act-Shut Action.gives_up c s = record {
  closed = ground arith;
  empty = ground arith;
  silent = ground arith;
}
act-Shut Action.takes_frame c s = record {
  closed = ground arith;
  empty = ground arith;
  silent = s.silent;
}

pub Shut-Lasting : Lasting Shut
Shut-Lasting = record { lasts = act-Shut }

set_state_because-Shut :
    (s : CameraState) (r : String) (c : Controller) → Shut c → Shut (set_state_because s r c)
unfolding set_state_because
set_state_because-Shut s r c h = record {
  closed = ground arith;
  empty = ground arith;
  silent = ground arith;
}

module _ (env : Env) (config : Config) where
  judge_release-Shut :
      {e : Exits} (r : Bool) → Triple e (Stays Shut) (judge_release env config r) (λ _. Stays Shut)
  unfolding judge_release
  judge_release-Shut false =
      bind (locked-Stays Shut Shut-Lasting env _ (set_state_because-Shut _ _))
        λ _. return _ (λ w h. h)
  judge_release-Shut true = bind (note-Stays Shut Shut-Lasting env _) λ _.
      bind
        (locked-Stays Shut Shut-Lasting env _
          (λ c h. record { closed = h.closed; empty = h.empty; silent = h.silent }))
        λ _. return _ (λ w h. h)

  pub release_lease_if_safe-Shut :
      {e : Exits} → Triple e (Stays Shut) (release_lease_if_safe env config) (λ _. Stays Shut)
  unfolding release_lease_if_safe
  release_lease_if_safe-Shut =
      bind
        (reading-Stays Shut Shut-Lasting env (λ c. not c.lease_held || is_some c.retained_backend))
        λ u.
          branch u (return _ (λ w h. h))
            (bind (ask-Stays Shut Shut-Lasting env env.releases) judge_release-Shut)
