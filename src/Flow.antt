-- ===== src/Flow.antt =====
-- How a reconciler runs: a call may change the state of the world, and the code may return early
-- with its result or panic. The state comes back on each of these ways.
pub mod Run
use openmcp_operator.Prelude.{◌≡◌, refl, ◌⊎◌, inl, inr, Option, none, some, List, [], ◌∷◌, String}

-- `next` goes on with a value, `stop` is an early `return`, `panic` is a Go panic.
pub data Outcome {ℓ} (R A : Type ℓ) : Type ℓ where
  next : A → Outcome R A
  stop : R → Outcome R A
  panic : Outcome R A

pub Outcome-cases {ℓ} :
    {R A : Type ℓ} (o : Outcome R A)
    → ((a : A) × (o ≡ next a)) ⊎ (((r : R) × (o ≡ stop r)) ⊎ (o ≡ panic))
Outcome-cases (next a) = inl (a, refl)
Outcome-cases (stop r) = inr (inl (r, refl))
Outcome-cases panic = inr (inr refl)

abbrev pub Exec {ℓ} : Type ℓ → Type ℓ → Type ℓ → Type ℓ
Exec W R A = W → Outcome R A × W

module _ {ℓ} {W R A : Type ℓ} where
  abbrev pub pure : A → Exec W R A
  pure a w = (next a, w)

  abbrev pub finish : R → Exec W R A
  finish r w = (stop r, w)

  abbrev pub crash : Exec W R A
  crash w = (panic, w)

  -- A call of an external operation, which answers and changes the world.
  abbrev pub ask : (W → A × W) → Exec W R A
  ask f w = (next (f w).0, (f w).1)

module _ {ℓ} {W R A B : Type ℓ} where
  abbrev pub continue : Outcome R A → (A → Exec W R B) → Exec W R B
  continue (next a) f w = f a w
  continue (stop r) f w = (stop r, w)
  continue panic f w = (panic, w)

  infixl 5 ◌>>=◌ ◌>>◌
  abbrev pub ◌>>=◌ : Exec W R A → (A → Exec W R B) → Exec W R B
  ◌>>=◌ m f w = continue (m w).0 f (m w).1

  abbrev pub ◌>>◌ : Exec W R A → Exec W R B → Exec W R B
  m >> n = m >>= λ _. n

-- The result of a whole reconciler, whose last step returns too: `none` is a panic.
abbrev pub returned {ℓ} : {R : Type ℓ} → Outcome R R → Option R
returned (next r) = some r
returned (stop r) = some r
returned panic = none

-- What the API server answers: the object, "not found", or any other error.
pub data Answer {ℓ} (A : Type ℓ) : Type ℓ where
  found : A → Answer A
  not_found : Answer A
  failed : String → Answer A

pub Answer-cases {ℓ} :
    {A : Type ℓ} (o : Answer A)
    → ((a : A) × (o ≡ found a)) ⊎ ((o ≡ not_found) ⊎ ((e : String) × (o ≡ failed e)))
Answer-cases (found a) = inl (a, refl)
Answer-cases not_found = inr (inl refl)
Answer-cases (failed e) = inr (inr (e, refl))

-- The reasons that an error carries into the status of a resource.
pub data Reason : Type 0 where
  onboarding_cluster_interaction_problem platform_cluster_interaction_problem : Reason
  invalid_reference configuration_problem internal_error cluster_conflict : Reason

-- An error with its reason; the message is the fixed part of the format text.
pub record Failure : Type 0 where
  pub reason : Reason
  pub message : String

-- A reconcile error: `none` is nil, and an aggregated error keeps its parts.
abbrev pub ReconcileError : Type 0
ReconcileError = Option (List Failure)

abbrev pub with_reason : String → Reason → ReconcileError
with_reason m r = some (record { reason = r; message = m } ∷ [])
