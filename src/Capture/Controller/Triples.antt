-- ===== src/Capture/Controller/Triples.antt =====
-- capture/controller.py: rules to reason about the worker's program, step by step.
use viskium.Prelude.{◌≡◌, refl, Bool, true, false, if◌then◌else◌}
use viskium.Capture.Controller.World.{World, Outcome, ok, raised, paused, M, follow, ◌>>=◌, pure}

abbrev pub Predicate : Type 1
Predicate = World → Type 0

-- The two ways in which a step gives no value: an exception, and the end of the fuel.
pub record Exits : Type 1 where
  pub on_raise : Predicate
  pub on_pause : Predicate

-- The value of a step satisfies `q` in the world it leaves.
unfoldable pub Post : {A : Type 0} → Exits → (A → Predicate) → Outcome A → Predicate
Post e q (ok a) w = q a w
Post e q raised w = e.on_raise w
Post e q paused w = e.on_pause w

pub record Triple {A : Type 0} (e : Exits) (p : Predicate) (m : M A) (q : A → Predicate)
    : Type 0 where
  pub holds : (w : World) → p w → Post e q (m w).0 (m w).1

follow-Post :
    {A B : Type 0} (e : Exits) (q : A → Predicate) (r : B → Predicate)
    → (o : Outcome A) → (k : A → M B) → ((a : A) → Triple e (q a) (k a) r)
    → (w : World) → Post e q o w
    → Post e r (follow o k w).0 (follow o k w).1
unfolding Post
follow-Post e q r (ok a) k next w h = (next a).holds w h
follow-Post e q r raised k next w h = h
follow-Post e q r paused k next w h = h

pub bind :
    {A B : Type 0} {e : Exits} {p : Predicate} {m : M A} {q : A → Predicate} {k : A → M B}
    {r : B → Predicate}
    → Triple e p m q
    → ((a : A) → Triple e (q a) (k a) r)
    → Triple e p (m >>= k) r
bind {e} {m} {q} {k} {r} first next = record {
  holds = λ w h. follow-Post e q r (m w).0 k next (m w).1 (first.holds w h);
}

pub return :
    {A : Type 0} {e : Exits} {p : Predicate} {q : A → Predicate} (a : A)
    → ((w : World) → p w → q a w)
    → Triple e p (pure a) q
unfolding Post
return a imp = record { holds = λ w h. imp w h }

weaken-Post :
    {A : Type 0} (e : Exits) {q r : A → Predicate} (o : Outcome A) (w : World)
    → ((a : A) (w : World) → q a w → r a w)
    → Post e q o w
    → Post e r o w
unfolding Post
weaken-Post e (ok a) w f h = f a w h
weaken-Post e raised w f h = h
weaken-Post e paused w f h = h

pub if-Post :
    {A : Type 0} (e : Exits) (q : A → Predicate) (b : Bool) (x y : Outcome A × World)
    → Post e q x.0 x.1
    → Post e q y.0 y.1
    → let z = if b then x else y in Post e q z.0 z.1
if-Post e q true x y h k = h
if-Post e q false x y h k = k

pub branch :
    {A : Type 0} {e : Exits} {p : Predicate} {q : A → Predicate} (b : Bool) {m n : M A}
    → Triple e p m q
    → Triple e p n q
    → Triple e p (if b then m else n) q
branch true s t = s
branch false s t = t

pub branch_by :
    {A : Type 0} {e : Exits} {p : Predicate} {q : A → Predicate} (b : Bool) {m n : M A}
    → (b ≡ true → Triple e p m q)
    → (b ≡ false → Triple e p n q)
    → Triple e p (if b then m else n) q
branch_by true s t = s refl
branch_by false s t = t refl

-- A fact that needs no world.
pub given :
    {A : Type 0} {e : Exits} {p : Predicate} {φ : Type 0} {m : M A} {q : A → Predicate}
    → (φ → Triple e p m q)
    → Triple e (λ w. p w × φ) m q
given f = record { holds = λ w (h, fact). (f fact).holds w h }

-- The rule of consequence.
pub weaken :
    {A : Type 0} {e : Exits} {p p' : Predicate} {m : M A} {q q' : A → Predicate}
    → Triple e p m q
    → ((w : World) → p' w → p w)
    → ((a : A) (w : World) → q a w → q' a w)
    → Triple e p' m q'
weaken {e} {m} t pre post = record {
  holds = λ w h. weaken-Post e (m w).0 (m w).1 post (t.holds w (pre w h));
}
