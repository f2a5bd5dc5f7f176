-- ===== src/Capture/Controller/Stuck.antt =====
-- capture/controller.py: steps of the worker that keep a fact about the state STUCK.
use viskium.Prelude.{
  ℕ, Option, none, some, Bool, true, false, List, [], ◌∷◌, String, ltb, ◌≡◌, ap, ◌∙◌, ◌+◌, arith,
  ◌⊎◌, inl, inr, ◌≤◌, if◌then◌else◌,
}
use viskium.Capture.Contracts.{CameraState}
use viskium.Capture.Controller.Counters.{max_int64, Counter}
use viskium.Capture.Controller.State.{
  Controller, is_stuck, increment, set_reason, set_state, set_state_because, mark_stopping,
  stop_decide, stop_end, Action, act, act_all,
}
use viskium.Capture.Controller.World.{
  Env, Deed, World, Outcome, ok, raised, paused, M, follow, ◌>>=◌, pure, pass, locked, reading, ask,
  clock_ns, note, set_active, get_active, valid_time,
}

abbrev pub IsStuck : Controller → Type 0
IsStuck c = is_stuck c.state ≡ true

-- A fact that the other threads keep, and the worker by each write that leaves STUCK as it is.
pub record Lasts (env : Env) (K : World → Type 0) : Type 0 where
  pub passes : (w : World) → K w → K (pass env w)
  pub writes :
      (f : Controller → Controller)
      → ((c : Controller) → IsStuck c → IsStuck (f c))
      → (w : World) → K w
      → K (record w { controller = f w.controller })
  pub notes :
      (w : World) (deeds : List Deed) (instances : ℕ) (active : Option ℕ) (leased : Bool)
      → K w
      → K (record w { deeds = deeds; instances = instances; active = active; leased = leased })

-- A step that keeps the fact, however it ends.
pub record Calm (K : World → Type 0) {A : Type 0} (m : M A) : Type 0 where
  pub keeps : (w : World) → K w → K (m w).1

follow-keeps :
    {K : World → Type 0} {A B : Type 0} (o : Outcome A) (k : A → M B)
    → ((a : A) → Calm K (k a))
    → (w : World) → K w
    → K (follow o k w).1
follow-keeps (ok a) k next w h = (next a).keeps w h
follow-keeps raised k next w h = h
follow-keeps paused k next w h = h

pub bind :
    {K : World → Type 0} {A B : Type 0} {m : M A} {k : A → M B}
    → Calm K m
    → ((a : A) → Calm K (k a))
    → Calm K (m >>= k)
bind {m} {k} first next = record {
  keeps = λ w h. follow-keeps (m w).0 k next (m w).1 (first.keeps w h);
}

pub return : {K : World → Type 0} {A : Type 0} {a : A} → Calm K (pure a)
return = record { keeps = λ w h. h }

pub branch :
    {K : World → Type 0} {A : Type 0} (b : Bool) {m n : M A}
    → Calm K m
    → Calm K n
    → Calm K (if b then m else n)
branch true s t = s
branch false s t = t

pub get_active-Calm : {K : World → Type 0} → Calm K get_active
unfolding get_active
get_active-Calm = record { keeps = λ w h. h }

if-keeps :
    (K : World → Type 0) (b : Bool) (x y : Outcome ℕ × World)
    → K x.1
    → K y.1
    → let z = if b then x else y in K z.1
if-keeps K true x y h k = h
if-keeps K false x y h k = k

module _ {env : Env} {K : World → Type 0} (l : Lasts env K) where
  pub locked-Calm :
      (f : Controller → Controller)
      → ((c : Controller) → IsStuck c → IsStuck (f c))
      → Calm K (locked env f)
  unfolding locked
  locked-Calm f stays = record { keeps = λ w h. l.writes f stays (pass env w) (l.passes w h) }

  pub reading-Calm : {A : Type 0} (f : Controller → A) → Calm K (reading env f)
  unfolding reading
  reading-Calm f = record { keeps = l.passes }

  pub ask-Calm : {A : Type 0} (f : ℕ → A) → Calm K (ask env f)
  unfolding ask
  ask-Calm f = record { keeps = l.passes }

  pub count-Calm : (k : Counter) → Calm K (locked env (increment k))
  unfolding increment
  count-Calm k = locked-Calm _ (λ c h. h)

  pub explain-Calm : (r : String) → Calm K (locked env (set_reason r))
  unfolding set_reason
  explain-Calm r = locked-Calm _ (λ c h. h)

  pub enter-Calm : (s : CameraState) → Calm K (locked env (set_state s))
  unfolding set_state
  enter-Calm s = locked-Calm _ (λ c h. ground arith)

  pub enter_because-Calm :
      (s : CameraState) (r : String) → Calm K (locked env (set_state_because s r))
  unfolding set_state_because
  enter_because-Calm s r = locked-Calm _ (λ c h. ground arith)

  valid_time-Calm : (t : Option ℕ) → Calm K (valid_time env t)
  unfolding valid_time
  valid_time-Calm none = record { keeps = λ w h. h }
  valid_time-Calm (some n) = record {
    keeps = λ w h. if-keeps K (ltb max_int64 n) (raised, w) (ok n, w) h h;
  }

  pub clock-Calm : Calm K (clock_ns env)
  unfolding clock_ns
  clock-Calm = bind (ask-Calm env.clock) valid_time-Calm

  pub note-Calm : (d : Deed) → Calm K (note d)
  unfolding note
  note-Calm d = record { keeps = λ w h. l.notes w (d ∷ w.deeds) w.instances w.active w.leased h }

  pub set_active-Calm : (b : Option ℕ) → Calm K (set_active b)
  unfolding set_active
  set_active-Calm b = record { keeps = λ w h. l.notes w w.deeds w.instances b w.leased h }

-- What the other threads do leaves a stuck controller stuck.
act-IsStuck : (a : Action) (c : Controller) → IsStuck c → IsStuck (act a c)
unfolding act stop_decide stop_end mark_stopping increment
act-IsStuck a c h = ground arith

act_all-IsStuck : (actions : List Action) (c : Controller) → IsStuck c → IsStuck (act_all actions c)
unfolding act_all
act_all-IsStuck [] c h = h
act_all-IsStuck (a ∷ rest) c h = act_all-IsStuck rest (act a c) (act-IsStuck a c h)

-- Whether a `stop` gives up waiting for the worker.
abbrev pub has_give_up : List Action → Bool
has_give_up [] = false
has_give_up (Action.gives_up ∷ rest) = true
has_give_up (_ ∷ rest) = has_give_up rest

give_up-IsStuck :
    (actions : List Action) (c : Controller)
    → has_give_up actions ≡ true
    → IsStuck (act_all actions c)
unfolding act_all act stop_end increment
give_up-IsStuck [] c h = absurd (ground arith)
give_up-IsStuck (Action.gives_up ∷ rest) c h =
    act_all-IsStuck rest (stop_end true c).0 (ground arith)
give_up-IsStuck (Action.requests_stop ∷ rest) c h = give_up-IsStuck rest _ h
give_up-IsStuck (Action.closes_slot ∷ rest) c h = give_up-IsStuck rest _ h
give_up-IsStuck (Action.decides_stop ∷ rest) c h = give_up-IsStuck rest _ h
give_up-IsStuck (Action.takes_frame ∷ rest) c h = give_up-IsStuck rest _ h

-- The controller is stuck.
abbrev pub StuckNow : World → Type 0
StuckNow w = IsStuck w.controller

-- The controller is stuck once the moment `n` is past.
abbrev pub StuckAfter : ℕ → World → Type 0
StuckAfter n w = (w.now ≤ n) ⊎ IsStuck w.controller

pub StuckNow-Lasts : (env : Env) → Lasts env StuckNow
unfolding pass
StuckNow-Lasts env = record {
  passes = λ w h. act_all-IsStuck (env.meanwhile w.now) w.controller h;
  writes = λ f stays w h. stays w.controller h;
  notes = λ w deeds instances active leased h. h;
}

moment_or_later : (m n : ℕ) → m ≤ n → (m ≡ n) ⊎ (m + 1 ≤ n)
moment_or_later m n h = ground arith

pass-StuckAfter :
    (env : Env) (n : ℕ)
    → has_give_up (env.meanwhile n) ≡ true
    → (w : World) → StuckAfter n w
    → StuckAfter n (pass env w)
unfolding pass
pass-StuckAfter env n g w (inr stuck) =
    inr (act_all-IsStuck (env.meanwhile w.now) w.controller stuck)
pass-StuckAfter env n g w (inl before) = elim (moment_or_later w.now n before) [
  | inl at ↦ inr (
      give_up-IsStuck (env.meanwhile w.now) w.controller
        (ap (λ k. has_give_up (env.meanwhile k)) at ∙ g))
  | inr later ↦ inl later
]

write-StuckAfter :
    (n : ℕ) (f : Controller → Controller)
    → ((c : Controller) → IsStuck c → IsStuck (f c))
    → (w : World) → StuckAfter n w
    → StuckAfter n (record w { controller = f w.controller })
write-StuckAfter n f stays w (inl before) = inl before
write-StuckAfter n f stays w (inr stuck) = inr (stays w.controller stuck)

pub StuckAfter-Lasts :
    (env : Env) (n : ℕ) → has_give_up (env.meanwhile n) ≡ true → Lasts env (StuckAfter n)
StuckAfter-Lasts env n g = record {
  passes = pass-StuckAfter env n g;
  writes = write-StuckAfter n;
  notes = λ w deeds instances active leased h. h;
}
