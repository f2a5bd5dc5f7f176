-- ===== src/Capture/Controller/Protocol.antt =====
-- capture/controller.py: what the worker may do to the camera and its lease, as an automaton over
-- its deeds, and what its variables say in each phase.
use viskium.Prelude.{◌≡◌, Bool, true, false, List, [], ◌∷◌, is_some}
use viskium.Capture.Controller.World.{Deed, World}
use viskium.Capture.Controller.Triples.{Predicate}

-- `held`: the lease is held and no backend exists. `kept`: a backend could not be closed.
pub data Phase : Type 0 where
  idle held fresh streaming kept returned faulty : Phase

unfoldable pub advance : Deed → Phase → Phase
advance Deed.acquired idle = held
advance Deed.made held = fresh
advance Deed.opened fresh = streaming
advance Deed.read streaming = streaming
advance Deed.closed fresh = held
advance Deed.closed streaming = held
advance Deed.abandoned fresh = kept
advance Deed.abandoned streaming = kept
advance Deed.released held = returned
advance _ _ = faulty

unfoldable pub phase : List Deed → Phase
unfolding advance
phase [] = idle
phase (d ∷ ds) = advance d (phase ds)

-- What the worker's variables and the controller say of the lease and the backend.
pub record View : Type 0 where
  pub at : Phase
  pub leased : Bool
  pub lease_held : Bool
  pub active : Bool
  pub retained : Bool

unfoldable pub view : World → View
unfolding phase
view w = record {
  at = phase w.deeds;
  leased = w.leased;
  lease_held = w.controller.lease_held;
  active = is_some w.active;
  retained = is_some w.controller.retained_backend;
}

abbrev pub Is : View → Predicate
Is v w = view w ≡ v

abbrev pub view_at : Phase → View
view_at p = record {
  at = p;
  leased = elim p [ idle ↦ false | _ ↦ true ];
  lease_held = elim p [ idle ↦ false | returned ↦ false | _ ↦ true ];
  active = elim p [ fresh ↦ true | streaming ↦ true | _ ↦ false ];
  retained = elim p [ kept ↦ true | _ ↦ false ];
}

-- Whether a backend is in use.
abbrev pub is_busy : Phase → Bool
is_busy fresh = true
is_busy streaming = true
is_busy _ = false

-- Where a run may end: no backend is in use.
abbrev pub is_resting : Phase → Bool
is_resting fresh = false
is_resting streaming = false
is_resting faulty = false
is_resting _ = true

abbrev pub is_lawful : Phase → Bool
is_lawful faulty = false
is_lawful _ = true

-- The worker is in one of these phases, and its variables agree.
pub record At (allows : Phase → Bool) (w : World) : Type 0 where
  pub stands : Phase
  pub allowed : allows stands ≡ true
  pub agrees : Is (view_at stands) w
