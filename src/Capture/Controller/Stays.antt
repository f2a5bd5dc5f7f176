-- ===== src/Capture/Controller/Stays.antt =====
-- capture/controller.py: steps of the worker that keep a property of the controller which no other
-- thread can break.
use viskium.Prelude.{ℕ, List, [], ◌∷◌}
use viskium.Capture.Controller.State.{Controller, Action, act, act_all}
use viskium.Capture.Controller.World.{Env, Deed, World, pass, locked, reading, ask, note}
use viskium.Capture.Controller.Triples.{Predicate, Exits, Post, Triple}

pub record Lasting (P : Controller → Type 0) : Type 0 where
  pub lasts : (a : Action) (c : Controller) → P c → P (act a c)

abbrev pub Stays : (Controller → Type 0) → Predicate
Stays P w = P w.controller

act_all-lasts :
    (P : Controller → Type 0)
    → Lasting P
    → (actions : List Action) (c : Controller) → P c
    → P (act_all actions c)
unfolding act_all
act_all-lasts P l [] c h = h
act_all-lasts P l (a ∷ rest) c h = act_all-lasts P l rest (act a c) (l.lasts a c h)

module _ (P : Controller → Type 0) (l : Lasting P) (env : Env) where
  pass-Stays : (w : World) → P w.controller → P (pass env w).controller
  unfolding pass
  pass-Stays w h = act_all-lasts P l (env.meanwhile w.now) w.controller h

  pub locked-Stays :
      {e : Exits} (f : Controller → Controller)
      → ((c : Controller) → P c → P (f c))
      → Triple e (Stays P) (locked env f) (λ _. Stays P)
  unfolding locked Post
  locked-Stays f keeps = record { holds = λ w h. keeps (pass env w).controller (pass-Stays w h) }

  pub reading-Stays :
      {A : Type 0} {e : Exits} (f : Controller → A)
      → Triple e (Stays P) (reading env f) (λ _. Stays P)
  unfolding reading Post
  reading-Stays f = record { holds = λ w h. pass-Stays w h }

  pub ask-Stays :
      {A : Type 0} {e : Exits} (f : ℕ → A) → Triple e (Stays P) (ask env f) (λ _. Stays P)
  unfolding ask Post
  ask-Stays f = record { holds = λ w h. pass-Stays w h }

  pub note-Stays : {e : Exits} (d : Deed) → Triple e (Stays P) (note d) (λ _. Stays P)
  unfolding note Post
  note-Stays d = record { holds = λ w h. h }

  -- A section after which the property holds, whatever was before.
  pub locked-makes :
      {e : Exits} {p : Predicate} (f : Controller → Controller)
      → ((c : Controller) → P (f c))
      → Triple e p (locked env f) (λ _. Stays P)
  unfolding locked Post
  locked-makes f makes = record { holds = λ w h. makes (pass env w).controller }

-- A section that makes one property from another.
pub locked-then :
    {P : Controller → Type 0} (Q : Controller → Type 0)
    → Lasting P
    → {e : Exits} (env : Env) (f : Controller → Controller) → ((c : Controller) → P c → Q (f c))
    → Triple e (Stays P) (locked env f) (λ _. Stays Q)
unfolding locked Post
locked-then {P} Q l env f makes = record {
  holds = λ w h. makes (pass env w).controller (pass-Stays P l env w h);
}
