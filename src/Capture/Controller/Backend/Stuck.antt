-- ===== src/Capture/Controller/Backend/Stuck.antt =====
-- capture/controller.py: making and closing a backend, the lease and retries leave STUCK as it is.
use viskium.Prelude.{ℕ, Option, none, some, Bool, true, false, not, ◌||◌, ◌∷◌, ◌+◌, is_some, arith}
use viskium.Core.Value
use viskium.Capture.Contracts.{safe_in_process}
use viskium.Capture.Controller.State.{Controller, increment}
use viskium.Capture.Controller.World.{
  CapabilitiesReply, FactoryReply, CloseReply, GateReply, Env, Config, Deed, World,
}
use viskium.Capture.Controller.Stuck.{
  IsStuck, Lasts, Calm, bind, return, branch, locked-Calm, reading-Calm, ask-Calm, count-Calm,
  explain-Calm, enter-Calm, enter_because-Calm, clock-Calm, note-Calm,
}
use viskium.Capture.Controller.Backend.{
  take_handle, judge_capabilities, judge_candidate, create_backend, judge_close, retain,
  retain_unless, close_or_retain, judge_release, release_lease_if_safe, raise_as, lengthen,
  schedule_retry, judge_admission, ask_gate, admit_by, resources_admit,
}

module _ {env : Env} (config : Config) {K : World → Type 0} (l : Lasts env K) where
  take_handle-Calm : Calm K (take_handle)
  unfolding take_handle
  take_handle-Calm = record {
    keeps = λ w h. l.notes w (Deed.made ∷ w.deeds) (w.instances + 1) w.active w.leased h;
  }

  judge_capabilities-Calm :
      (b : ℕ) (r : CapabilitiesReply) → Calm K (judge_capabilities env config b r)
  unfolding judge_capabilities
  judge_capabilities-Calm b CapabilitiesReply.raises =
      bind (count-Calm l _) λ _. bind (enter_because-Calm l _ _) λ _. return
  judge_capabilities-Calm b CapabilitiesReply.invalid =
      bind (count-Calm l _) λ _. bind (enter_because-Calm l _ _) λ _. return
  judge_capabilities-Calm b (CapabilitiesReply.capabilities c) =
      branch (safe_in_process c) return
        (bind (count-Calm l _) λ _. bind (enter_because-Calm l _ _) λ _. return)

  judge_candidate-Calm : (r : FactoryReply) → Calm K (judge_candidate env config r)
  unfolding judge_candidate
  judge_candidate-Calm FactoryReply.raises =
      bind (count-Calm l _) λ _. bind (explain-Calm l _) λ _. return
  judge_candidate-Calm FactoryReply.alien =
      bind (count-Calm l _) λ _. bind (enter_because-Calm l _ _) λ _. return
  judge_candidate-Calm (FactoryReply.backend reply) =
      bind (take_handle-Calm) λ b. bind (count-Calm l _) λ _. judge_capabilities-Calm b reply

  pub create_backend-Calm : Calm K (create_backend env config)
  unfolding create_backend
  create_backend-Calm = bind (ask-Calm l env.factory) judge_candidate-Calm

  judge_close-Calm : (r : CloseReply) → Calm K (judge_close env config r)
  unfolding judge_close
  judge_close-Calm CloseReply.raises =
      bind (note-Calm l _)
        λ _. bind (count-Calm l _) λ _. bind (enter_because-Calm l _ _) λ _. return
  judge_close-Calm (CloseReply.returns n) =
      branch _
        (bind (note-Calm l _)
          λ _. bind (count-Calm l _) λ _. bind (enter_because-Calm l _ _) λ _. return)
        (bind (note-Calm l _) λ _. return)

  retain-IsStuck : (b : ℕ) (c : Controller) → IsStuck c → IsStuck (retain env config b c)
  unfolding retain increment
  retain-IsStuck b c h = ground arith

  retain_unless-Calm : (b : ℕ) (close_ok : Bool) → Calm K (retain_unless env config b close_ok)
  unfolding retain_unless
  retain_unless-Calm b true = return
  retain_unless-Calm b false = bind (locked-Calm l _ (retain-IsStuck b)) λ _. return

  pub close_or_retain-Calm : (b : ℕ) → Calm K (close_or_retain env config b)
  unfolding close_or_retain
  close_or_retain-Calm b =
      bind (ask-Calm l env.closes)
        λ r. bind (judge_close-Calm r) λ close_ok. retain_unless-Calm b close_ok

  judge_release-Calm : (r : Bool) → Calm K (judge_release env config r)
  unfolding judge_release
  judge_release-Calm false = bind (enter_because-Calm l _ _) λ _. return
  judge_release-Calm true = bind (note-Calm l _) λ _. bind (locked-Calm l _ (λ c h. h)) λ _. return

  pub release_lease_if_safe-Calm : Calm K (release_lease_if_safe env config)
  unfolding release_lease_if_safe
  release_lease_if_safe-Calm =
      bind (reading-Calm l (λ c. not c.lease_held || is_some c.retained_backend))
        λ u. branch u return (bind (ask-Calm l env.releases) judge_release-Calm)

  raise_as-Calm : (r : Value.Result ℕ) → Calm K (raise_as env config r)
  unfolding raise_as
  raise_as-Calm (Value.ok n) = record { keeps = λ w h. h }
  raise_as-Calm (Value.raise e) = record { keeps = λ w h. h }

  lengthen-Calm : (last : Option ℕ) (delay : ℕ) → Calm K (lengthen env config last delay)
  unfolding lengthen
  lengthen-Calm none delay = return
  lengthen-Calm (some at) delay = bind (clock-Calm l) λ _. return

  pub schedule_retry-Calm :
      (failed : ℕ) (last : Option ℕ) → Calm K (schedule_retry env config failed last)
  unfolding schedule_retry
  schedule_retry-Calm failed last =
      branch _ (bind (release_lease_if_safe-Calm) λ _. bind (enter-Calm l _) λ _. return) (
        bind (raise_as-Calm _) λ d. bind (lengthen-Calm last d) λ _.
          bind (count-Calm l _) λ _.
            bind (enter-Calm l _) λ _. bind (reading-Calm l (λ c. c.stop_requested)) λ _. return)

  judge_admission-Calm : (r : GateReply) → Calm K (judge_admission env config r)
  unfolding judge_admission
  judge_admission-Calm GateReply.raises = bind (enter_because-Calm l _ _) λ _. return
  judge_admission-Calm GateReply.invalid = bind (enter_because-Calm l _ _) λ _. return
  judge_admission-Calm (GateReply.decision capture processing) =
      branch _ return (bind (enter_because-Calm l _ _) λ _. return)

  ask_gate-Calm : (gate : ℕ → ℕ → GateReply) (stop : Bool) → Calm K (ask_gate env config gate stop)
  unfolding ask_gate
  ask_gate-Calm gate true = return
  ask_gate-Calm gate false = bind (ask-Calm l _) judge_admission-Calm

  admit_by-Calm : (gate : Option (ℕ → ℕ → GateReply)) → Calm K (admit_by env config gate)
  unfolding admit_by
  admit_by-Calm none = return
  admit_by-Calm (some gate) = bind (reading-Calm l (λ c. c.stop_requested)) (ask_gate-Calm gate)

  pub resources_admit-Calm : Calm K (resources_admit env config)
  unfolding resources_admit
  resources_admit-Calm = admit_by-Calm env.gate
