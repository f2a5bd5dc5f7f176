-- ===== src/Agent/Grants/Authority.antt =====
-- agent/contracts.py: when a grant allows a read.
use viskium.Prelude.{
  ℕ, ◌≤◌, ◌<◌, Option, none, some, Bool, true, false, not, ◌&&◌, leb, ltb, if◌then◌else◌, ◌≡◌, ◌≢◌,
  refl, ◌↔◌, ◌⊎◌, inl, inr, sym, ◌∙◌, arith,
}
use viskium.Core.Value.{Value, natural, Result, ok, raise, value_error}
use viskium.Core.Envelope.{SensitivityClass}
use viskium.Agent.Grants.{
  max_int64, AgentScope, Scopes, GrantDecisionReason, ConsentGrant, GrantDecision, rank,
  is_prohibited, make_grant, has_scope, is_snapshot, deny, look_up, judge_quota, judge_sensitivity,
  judge_grant, judge, evaluate_grant,
}

-- The wanted class is known, and is not above the ceiling.
abbrev pub Within : Option ℕ → Option ℕ → Type 0
Within (some wanted) (some ceiling) = wanted ≤ ceiling
Within _ _ = ⊥

-- What an allowed read needs, in no order.
pub record Authorizes (g : ConsentGrant) (scope : AgentScope) (s : SensitivityClass) (now used : ℕ)
    : Type 0 where
  pub unexpired : now < g.expires_unix_ns
  pub scoped : has_scope scope g.scopes ≡ true
  pub below_ceiling : Within (rank s) (rank g.sensitivity_ceiling)
  pub in_quota : is_snapshot scope ≡ true → used < g.snapshot_quota

allows_at :
    (g : ConsentGrant) (scope : AgentScope) (s : SensitivityClass) (now used : ℕ)
    → Authorizes g scope s now used
    → judge (some g) scope s now used
      ≡ ok (record { is_allowed = true; reason = GrantDecisionReason.allowed })
unfolding judge judge_grant judge_sensitivity judge_quota look_up
allows_at g scope s now used a = ground arith

authorized_at :
    (g : ConsentGrant) (scope : AgentScope) (s : SensitivityClass) (now used : ℕ)
    → judge (some g) scope s now used
      ≡ ok (record { is_allowed = true; reason = GrantDecisionReason.allowed })
    → Authorizes g scope s now used
unfolding judge judge_grant judge_sensitivity judge_quota look_up
authorized_at g scope s now used h = record {
  unexpired = ground arith;
  scoped = ground arith;
  below_ceiling = ground arith;
  in_quota = λ k. ground arith;
}

abbrev pub allowed_decision : GrantDecision
allowed_decision = record { is_allowed = true; reason = GrantDecisionReason.allowed }

abbrev pub AuthorizedBy : Option ConsentGrant → AgentScope → SensitivityClass → ℕ → ℕ → Type 0
AuthorizedBy none scope s now used = ⊥
AuthorizedBy (some g) scope s now used = Authorizes g scope s now used

no_grant_denies :
    (scope : AgentScope) (s : SensitivityClass) (now used : ℕ)
    → judge none scope s now used ≢ ok allowed_decision
unfolding judge judge_grant
no_grant_denies scope s now used h = ground arith

evaluate-judge :
    (grant : Option ConsentGrant) (scope : AgentScope) (s : SensitivityClass) (now used : ℕ)
    → now ≤ max_int64
    → used ≤ max_int64
    → evaluate_grant grant scope s (natural now) (natural used) ≡ judge grant scope s now used
unfolding evaluate_grant
evaluate-judge grant scope s now used a b = ground arith

judge_iff :
    (grant : Option ConsentGrant) (scope : AgentScope) (s : SensitivityClass) (now used : ℕ)
    → (judge grant scope s now used ≡ ok allowed_decision) ↔ AuthorizedBy grant scope s now used
judge_iff none scope s now used = (λ h. absurd (no_grant_denies scope s now used h), λ h. absurd h)
judge_iff (some g) scope s now used =
    (authorized_at g scope s now used, allows_at g scope s now used)

-- At integers that fit in a signed 64-bit number, a read is allowed exactly when there is a grant
-- that has not expired, has the scope, has a ceiling that is not below the class of the content, which
-- is not prohibited, and for a snapshot has attempts left.
pub evaluate_grant-allowed_iff :
    (grant : Option ConsentGrant) (scope : AgentScope) (s : SensitivityClass) (now used : ℕ)
    → now ≤ max_int64
    → used ≤ max_int64
    → (evaluate_grant grant scope s (natural now) (natural used) ≡ ok allowed_decision)
      ↔ AuthorizedBy grant scope s now used
evaluate_grant-allowed_iff grant scope s now used a b =
    let e = evaluate-judge grant scope s now used a b in
    let (to, from) = judge_iff grant scope s now used in (λ h. to (sym e ∙ h), λ h. e ∙ from h)

abbrev pub says_allowed : GrantDecisionReason → Bool
says_allowed GrantDecisionReason.allowed = true
says_allowed _ = false

make_grant-ceiling :
    (id : Value) (scopes : Scopes) (expires quota : Value) (ceiling : SensitivityClass)
    (g : ConsentGrant)
    → make_grant id scopes expires quota ceiling ≡ ok g
    → is_prohibited g.sensitivity_ceiling ≡ false
unfolding make_grant
make_grant-ceiling id scopes expires quota ceiling g h = ground arith

abbrev Decided : Result GrantDecision → Type 0
Decided (ok d) = d.is_allowed ≡ says_allowed d.reason
Decided (raise e) = ⊥

if-Decided :
    (b : Bool) (x y : Result GrantDecision)
    → Decided x
    → (b ≡ false → Decided y)
    → Decided (if b then x else y)
if-Decided true x y h k = h
if-Decided false x y h k = k refl

rank-some : (s : SensitivityClass) → is_prohibited s ≡ false → (n : ℕ) × (rank s ≡ some n)
rank-some SensitivityClass.public h = (0, refl)
rank-some SensitivityClass.operational h = (1, refl)
rank-some SensitivityClass.sensitive h = (2, refl)
rank-some SensitivityClass.identifiable h = (3, refl)
rank-some SensitivityClass.prohibited h = absurd (ground arith)

quota-Decided :
    (g : ConsentGrant) (scope : AgentScope) (used : ℕ) → Decided (judge_quota g scope used)
unfolding judge_quota
quota-Decided g scope used =
    if-Decided (is_snapshot scope && leb g.snapshot_quota used)
      (deny GrantDecisionReason.snapshot_quota_exhausted) (ok allowed_decision) refl (λ _. refl)

sensitivity-Decided :
    (g : ConsentGrant) (scope : AgentScope) (s : SensitivityClass) (used : ℕ)
    → is_prohibited s ≡ false
    → is_prohibited g.sensitivity_ceiling ≡ false
    → Decided (judge_sensitivity g scope s used)
unfolding judge_sensitivity look_up
sensitivity-Decided g scope s used a b =
    let (m, e) = rank-some s a in
    let (n, f) = rank-some g.sensitivity_ceiling b in
    rw e (
      rw f (
        if-Decided (ltb n m) (deny GrantDecisionReason.sensitivity_denied)
          (judge_quota g scope used) refl (λ _. quota-Decided g scope used)))

judge-Decided :
    (g : ConsentGrant) (scope : AgentScope) (s : SensitivityClass) (now used : ℕ)
    → is_prohibited g.sensitivity_ceiling ≡ false
    → Decided (judge (some g) scope s now used)
unfolding judge judge_grant
judge-Decided g scope s now used b =
    if-Decided (is_prohibited s) (deny GrantDecisionReason.prohibited)
      (judge_grant (some g) scope s now used) refl
      (λ a.
        if-Decided (leb g.expires_unix_ns now) (deny GrantDecisionReason.grant_expired)
          (if not (has_scope scope g.scopes)
            then deny GrantDecisionReason.scope_missing
            else judge_sensitivity g scope s used)
          refl
          (λ _.
            if-Decided (not (has_scope scope g.scopes)) (deny GrantDecisionReason.scope_missing)
              (judge_sensitivity g scope s used) refl
              (λ _. sensitivity-Decided g scope s used a b)))

decision_of :
    (r : Result GrantDecision)
    → Decided r
    → (d : GrantDecision) × (r ≡ ok d) × (d.is_allowed ≡ says_allowed d.reason)
decision_of (ok d) h = (d, refl, h)
decision_of (raise e) h = absurd h

evaluate-raises :
    (grant : Option ConsentGrant) (scope : AgentScope) (s : SensitivityClass) (now used : ℕ)
    → (max_int64 < now) ⊎ (max_int64 < used)
    → evaluate_grant grant scope s (natural now) (natural used) ≡ raise value_error
unfolding evaluate_grant
evaluate-raises grant scope s now used h = ground arith

fits_or_exceeds :
    (now used : ℕ)
    → ((now ≤ max_int64) × (used ≤ max_int64)) ⊎ ((max_int64 < now) ⊎ (max_int64 < used))
fits_or_exceeds now used = ground arith

-- Under a grant that its constructor let through, a question at a clock and a count of used attempts
-- that both fit in signed 64 bits gets a decision, whose flag and reason agree; a question at one
-- that does not fit raises ValueError.
pub evaluate_grant_decides :
    (id : Value) (scopes : Scopes) (expires quota : Value) (ceiling : SensitivityClass)
    (g : ConsentGrant) (scope : AgentScope) (s : SensitivityClass) (now used : ℕ)
    → make_grant id scopes expires quota ceiling ≡ ok g
    → let r = evaluate_grant (some g) scope s (natural now) (natural used) in
      (((now ≤ max_int64) × (used ≤ max_int64))
        × ((d : GrantDecision) × (r ≡ ok d) × (d.is_allowed ≡ says_allowed d.reason)))
      ⊎ (((max_int64 < now) ⊎ (max_int64 < used)) × (r ≡ raise value_error))
evaluate_grant_decides id scopes expires quota ceiling g scope s now used made =
    elim (fits_or_exceeds now used) [
      | inl (a, b) ↦
          let e = evaluate-judge (some g) scope s now used a b in
          let (d, h, k) = decision_of (judge (some g) scope s now used) (
            judge-Decided g scope s now used
              (make_grant-ceiling id scopes expires quota ceiling g made)) in
          inl ((a, b), (d, e ∙ h, k))
      | inr over ↦ inr (over, evaluate-raises (some g) scope s now used over)
    ]

-- An allowed snapshot has attempts left.
pub allowed-in_quota :
    (g : ConsentGrant) (s : SensitivityClass) (now used : ℕ) (d : GrantDecision)
    → evaluate_grant (some g) AgentScope.snapshot_read s (natural now) (natural used) ≡ ok d
    → d.is_allowed ≡ true
    → used < g.snapshot_quota
unfolding evaluate_grant judge judge_grant judge_sensitivity judge_quota look_up
allowed-in_quota g s now used d h k = ground arith

pub missing_denied :
    (s : SensitivityClass) (now used : ℕ) (d : GrantDecision)
    → evaluate_grant none AgentScope.snapshot_read s (natural now) (natural used) ≡ ok d
    → d.is_allowed ≡ false
unfolding evaluate_grant judge judge_grant
missing_denied s now used d h = ground arith
