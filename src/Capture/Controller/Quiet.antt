-- ===== src/Capture/Controller/Quiet.antt =====
-- capture/controller.py: steps of the worker that leave the camera and its lease as they are, and
-- the notes that it takes.
use viskium.Prelude.{
  ℕ, Option, none, some, Bool, true, List, [], ◌∷◌, is_some, ltb, String, ◌≡◌, refl, ap, ◌∙◌, arith,
}
use viskium.Capture.Contracts.{CameraState}
use viskium.Capture.Controller.Counters.{max_int64, Counter}
use viskium.Capture.Controller.State.{
  Controller, increment, mark_stopping, stop_decide, stop_end, set_reason, set_state,
  set_state_because, Action, act, act_all,
}
use viskium.Capture.Controller.World.{
  Env, Deed, World, ok, raised, M, pass, locked, reading, ask, clock_ns, note, set_active,
  get_active, valid_time,
}
use viskium.Capture.Controller.Triples.{Predicate, Exits, Post, if-Post, Triple, bind, weaken}
use viskium.Capture.Controller.Protocol.{Phase, advance, phase, View, view, Is, view_at, At}

-- What the other threads do leaves the view as it is.
abbrev SameView : Controller → Controller → Type 0
SameView c d = (c.lease_held ≡ d.lease_held) × (c.retained_backend ≡ d.retained_backend)

act-SameView : (a : Action) (c : Controller) → SameView (act a c) c
unfolding act stop_decide mark_stopping stop_end increment
act-SameView Action.requests_stop c = (refl, refl)
act-SameView Action.closes_slot c = (refl, refl)
act-SameView Action.decides_stop c = (ground arith, ground arith)
act-SameView Action.gives_up c = (ground arith, ground arith)
act-SameView Action.takes_frame c = (refl, refl)

act_all-SameView : (actions : List Action) (c : Controller) → SameView (act_all actions c) c
unfolding act_all
act_all-SameView [] c = (refl, refl)
act_all-SameView (a ∷ rest) c =
    let (l, r) = act-SameView a c in
    let (l', r') = act_all-SameView rest (act a c) in (l' ∙ l, r' ∙ r)

-- The view of a world whose controller is another one.
view-same :
    (w : World) (c : Controller)
    → SameView c w.controller
    → view (record w { controller = c }) ≡ view w
unfolding view
view-same w c (l, r) = cc

module _ (env : Env) where
  pub view-pass : (w : World) → view (pass env w) ≡ view w
  unfolding pass view
  view-pass w = let (l, r) = act_all-SameView (env.meanwhile w.now) w.controller in cc

  pub locked-Is :
      {e : Exits} {v : View} (f : Controller → Controller)
      → ((c : Controller) → SameView (f c) c)
      → Triple e (Is v) (locked env f) (λ _. Is v)
  unfolding locked Post
  locked-Is f same = record {
    holds = λ w h.
        view-same (pass env w) (f (pass env w).controller) (same (pass env w).controller)
        ∙ (view-pass w ∙ h);
  }

  pub reading-Is :
      {A : Type 0} {e : Exits} {v : View} (f : Controller → A)
      → Triple e (Is v) (reading env f) (λ _. Is v)
  unfolding reading Post
  reading-Is f = record { holds = λ w h. view-pass w ∙ h }

  pub ask-Is :
      {A : Type 0} {e : Exits} {v : View} (f : ℕ → A) → Triple e (Is v) (ask env f) (λ _. Is v)
  unfolding ask Post
  ask-Is f = record { holds = λ w h. view-pass w ∙ h }

  pub count-Is :
      {e : Exits} {v : View} (k : Counter) → Triple e (Is v) (locked env (increment k)) (λ _. Is v)
  unfolding increment
  count-Is k = locked-Is _ (λ c. (refl, refl))

  pub explain-Is :
      {e : Exits} {v : View} (r : String) → Triple e (Is v) (locked env (set_reason r)) (λ _. Is v)
  unfolding set_reason
  explain-Is r = locked-Is _ (λ c. (refl, refl))

  pub enter-Is :
      {e : Exits} {v : View} (s : CameraState)
      → Triple e (Is v) (locked env (set_state s)) (λ _. Is v)
  unfolding set_state
  enter-Is s = locked-Is _ (λ c. (ground arith, ground arith))

  pub enter_because-Is :
      {e : Exits} {v : View} (s : CameraState) (r : String)
      → Triple e (Is v) (locked env (set_state_because s r)) (λ _. Is v)
  unfolding set_state_because
  enter_because-Is s r = locked-Is _ (λ c. (ground arith, ground arith))

  valid_time-Is :
      {e : Exits} {v : View}
      → ((w : World) → Is v w → e.on_raise w)
      → (t : Option ℕ) → Triple e (Is v) (valid_time env t) (λ _. Is v)
  unfolding valid_time Post
  valid_time-Is imp none = record { holds = λ w h. imp w h }
  valid_time-Is {e} {v} imp (some n) = record {
    holds = λ w h. if-Post e (λ _. Is v) (ltb max_int64 n) (raised, w) (ok n, w) (imp w h) h;
  }

  pub clock_ns-Is :
      {e : Exits} {v : View}
      → ((w : World) → Is v w → e.on_raise w)
      → Triple e (Is v) (clock_ns env) (λ _. Is v)
  unfolding clock_ns
  clock_ns-Is imp = bind (ask-Is env.clock) (valid_time-Is imp)

pub note-Is :
    {e : Exits} {v : View} (d : Deed)
    → Triple e (Is v) (note d) (λ _. Is (record v { at = advance d v.at }))
unfolding note view phase Post
note-Is d = record { holds = λ w h. cc }

pub set_active-Is :
    {e : Exits} {v : View} (b : Option ℕ)
    → Triple e (Is v) (set_active b) (λ _. Is (record v { active = is_some b }))
unfolding set_active view Post
set_active-Is b = record { holds = λ w h. cc }

pub get_active-Is :
    {e : Exits} {v : View} → Triple e (Is v) get_active (λ b w. Is v w × (is_some b ≡ v.active))
unfolding get_active view Post
get_active-Is = record { holds = λ w h. (h, ap (λ u. u.active) h) }

-- Rules for a step from one of several phases, and to one of them.
pub from_any :
    {A : Type 0} {e : Exits} {allows : Phase → Bool} {m : M A} {q : A → Predicate}
    → ((p : Phase) → allows p ≡ true → Triple e (Is (view_at p)) m q)
    → Triple e (At allows) m q
from_any f = record { holds = λ w h. (f h.stands h.allowed).holds w h.agrees }

pub at :
    {allows : Phase → Bool} (p : Phase)
    → allows p ≡ true
    → (w : World) → Is (view_at p) w
    → At allows w
at p a w h = record { stands = p; allowed = a; agrees = h }

pub keep_At :
    {A : Type 0} {e : Exits} {allows : Phase → Bool} {m : M A}
    → ((v : View) → Triple e (Is v) m (λ _. Is v))
    → Triple e (At allows) m (λ _. At allows)
keep_At f = from_any λ p a. weaken (f (view_at p)) (λ w h. h) (λ _. at p a)
