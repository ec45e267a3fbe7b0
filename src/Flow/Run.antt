-- ===== src/Flow/Run.antt =====
-- Reasoning about actions: what an action keeps true of the world, what holds of the value that it
-- goes on with, and what holds of the result with which it returns early.
use openmcp_operator.Prelude.{
  String, ◌≡◌, refl, Bool, true, false, Option, none, some, if◌then◌else◌,
}
use openmcp_operator.Flow.{
  Answer, found, not_found, failed, Exec, Outcome, next, stop, panic, pure, finish, crash, ask,
  continue, ◌>>=◌,
}

abbrev pub After {ℓ} :
    {W R A : Type ℓ} → (W → Type ℓ) → (A → Type ℓ) → (R → Type ℓ) → Outcome R A → W → Type ℓ
After P Q E (next a) w = P w × Q a
After P Q E (stop r) w = P w × E r
After P Q E panic w = P w

pub record Run {ℓ} {W R A : Type ℓ} (P : W → Type ℓ) (m : Exec W R A) (Q : A → Type ℓ)
    (E : R → Type ℓ) : Type ℓ where
  pub at : (w : W) → P w → After P Q E (m w).0 (m w).1

module _ {ℓ} {W R A : Type ℓ} {P : W → Type ℓ} {Q : A → Type ℓ} {E : R → Type ℓ} where
  pub Run-pure : (a : A) → Q a → Run P (pure a) Q E
  Run-pure a q = record { at = λ w p. (p, q) }

  pub Run-finish : (r : R) → E r → Run {A = A} P (finish r) Q E
  Run-finish r e = record { at = λ w p. (p, e) }

  pub Run-crash : Run {A = A} P crash Q E
  Run-crash = record { at = λ w p. p }

  -- A call that keeps `P`, with what is known of its answer.
  pub Run-ask :
      (f : W → A × W) → ((w : W) → P w → P (f w).1) → ((w : W) → Q (f w).0) → Run P (ask f) Q E
  Run-ask f k q = record { at = λ w p. (k w p, q w) }

  pub Run-if :
      (b : Bool) (m n : Exec W R A)
      → (b ≡ true → Run P m Q E)
      → (b ≡ false → Run P n Q E)
      → Run P (if b then m else n) Q E
  Run-if true m n hm hn = hm refl
  Run-if false m n hm hn = hn refl

-- Whatever the outcome, `P` holds afterwards.
pub world_kept {ℓ} :
    {W R A : Type ℓ} (P : W → Type ℓ) (Q : A → Type ℓ) (E : R → Type ℓ) (o : Outcome R A) (w : W)
    → After P Q E o w
    → P w
world_kept P Q E (next a) w h = h.0
world_kept P Q E (stop r) w h = h.0
world_kept P Q E panic w h = h

module _ {ℓ} {W R A : Type ℓ} {Q Q' : A → Type ℓ} {E E' : R → Type ℓ} (f : (a : A) → Q a → Q' a)
    (g : (r : R) → E r → E' r) where
  After-mono : (P : W → Type ℓ) (o : Outcome R A) (w : W) → After P Q E o w → After P Q' E' o w
  After-mono P (next a) w h = (h.0, f a h.1)
  After-mono P (stop r) w h = (h.0, g r h.1)
  After-mono P panic w h = h

  pub Run-mono : {P : W → Type ℓ} (m : Exec W R A) → Run P m Q E → Run P m Q' E'
  Run-mono {P = P} m h = record { at = λ w p. After-mono P (m w).0 (m w).1 (h.at w p) }

module _ {ℓ} {W R A B : Type ℓ} {P : W → Type ℓ} {Q : B → Type ℓ} {E : R → Type ℓ} where
  pub Run-answer :
      (a : Answer A) (f : A → Exec W R B) (m : Exec W R B) (g : String → Exec W R B)
      → ((x : A) → Run P (f x) Q E)
      → Run P m Q E
      → ((e : String) → Run P (g e) Q E)
      → Run {A = B} P (elim a [ found x ↦ f x | not_found ↦ m | failed e ↦ g e ]) Q E
  Run-answer (found x) f m g hf hm hg = hf x
  Run-answer not_found f m g hf hm hg = hm
  Run-answer (failed e) f m g hf hm hg = hg e

  pub Run-option :
      (o : Option A) (m : Exec W R B) (f : A → Exec W R B)
      → (o ≡ none → Run P m Q E)
      → ((x : A) → o ≡ some x → Run P (f x) Q E)
      → Run {A = B} P (elim o [ none ↦ m | some x ↦ f x ]) Q E
  Run-option none m f hm hf = hm refl
  Run-option (some x) m f hm hf = hf x refl

module _ {ℓ} {W R A B : Type ℓ} {P : W → Type ℓ} {Q : A → Type ℓ} {Q' : B → Type ℓ}
    {E : R → Type ℓ} where
  pub After-bind :
      (f : A → Exec W R B) (o : Outcome R A) (w : W)
      → After P Q E o w
      → ((a : A) → Q a → Run P (f a) Q' E)
      → After P Q' E (continue o f w).0 (continue o f w).1
  After-bind f (next a) w h k = (k a h.1).at w h.0
  After-bind f (stop r) w h k = h
  After-bind f panic w h k = h

  pub Run-bind :
      (m : Exec W R A) (f : A → Exec W R B)
      → Run P m Q E
      → ((a : A) → Q a → Run P (f a) Q' E)
      → Run P (m >>= f) Q' E
  Run-bind m f h k = record { at = λ w p. After-bind f (m w).0 (m w).1 (h.at w p) k }

-- From one property of the world to a weaker one.
module _ {ℓ} {W R A B : Type ℓ} (P P' : W → Type ℓ) (weaker : (w : W) → P w → P' w) {Q : A → Type ℓ}
    (Q' : B → Type ℓ) (E : R → Type ℓ) where
  pub After-into :
      (f : A → Exec W R B) (o : Outcome R A) (w : W)
      → After P Q E o w
      → ((a : A) → Q a → (v : W) → P v → After P' Q' E (f a v).0 (f a v).1)
      → After P' Q' E (continue o f w).0 (continue o f w).1
  After-into f (next a) w h k = k a h.1 w h.0
  After-into f (stop r) w h k = (weaker w h.0, h.1)
  After-into f panic w h k = weaker w h

  pub into_bind :
      (m : Exec W R A) (f : A → Exec W R B)
      → Run P m Q E
      → ((a : A) → Q a → (v : W) → P v → After P' Q' E (f a v).0 (f a v).1)
      → (w : W) → P w
      → After P' Q' E ((m >>= f) w).0 ((m >>= f) w).1
  into_bind m f h k w p = After-into f (m w).0 (m w).1 (h.at w p) k
