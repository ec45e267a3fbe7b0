-- ===== src/ControlPlane/Runs.antt =====
-- Rules for the actions of the ManagedControlPlane controller: what a call, a change of the result and
-- an early return keep of the world.
use openmcp_operator.Prelude.{String, Option, List, [], ◌∷◌, ◌≡◌, refl}
use openmcp_operator.Flow.{Failure, Outcome, next, stop, panic, Answer, found, not_found, failed}
use openmcp_operator.Flow.Run.{Run, After}
use openmcp_operator.Api.ControlPlane.{ControlPlane}
use openmcp_operator.ControlPlane.State.{
  ControlPlaneResult, ControlPlaneLibrary, ControlPlaneClient, Draft, Stage, Step, Attempt, done,
  erred, attempt, call, modify, draft, create_con, return_rr, fail_con, need_con, wait_con,
  no_errors,
}

-- What holds of the value or of the error.
abbrev pub Either : {A : Type 0} → (A → Type 0) → (List Failure → Type 0) → Attempt A → Type 0
Either Q E (done a) = Q a
Either Q E (erred e) = E e

module _ (client : ControlPlaneClient) (P : client.World → Type 0) (M : ControlPlane → Type 0) where
  -- The properties of the world and of the ControlPlane at hand.
  abbrev pub Both : Stage client → Type 0
  Both s = P s.0 × M s.1.mcp

  abbrev pub Kept :
      {R A : Type 0}
      → (Stage client → Outcome R A × Stage client)
      → (A → Type 0)
      → (R → Type 0)
      → Type 0
  Kept m Q E = Run Both m Q E

  abbrev pub Any : {A : Type 0} → A → Type 0
  Any a = Unit

  module _ {R : Type 0} {E : R → Type 0} where
    pub Kept-call :
        {A : Type 0} {Q : A → Type 0} (f : client.World → A × client.World)
        → ((w : client.World) → P w → P (f w).1)
        → ((w : client.World) → P w → Q (f w).0)
        → Kept (call client f) Q E
    Kept-call f k q = record { at = λ s p. ((k s.0 p.0, p.1), q s.0 p.0) }

    -- A call of whose answer nothing is known.
    pub Kept-read :
        {A : Type 0} (f : client.World → A × client.World)
        → ((w : client.World) → P w → P (f w).1)
        → Kept (call client f) Any E
    Kept-read f k = record { at = λ s p. ((k s.0 p.0, p.1), tt) }

    pub Kept-modify :
        (f : Draft → Draft) → ((d : Draft) → M d.mcp → M (f d).mcp) → Kept (modify client f) Any E
    Kept-modify f k = record { at = λ s p. ((p.0, k s.1 p.1), tt) }

    pub Kept-draft : Kept (draft client) (λ d. M d.mcp) E
    Kept-draft = record { at = λ s p. (p, p.1) }

    pub Kept-create_con :
        (type status reason message : String)
        → Kept (create_con client type status reason message) Any E
    Kept-create_con type status reason message = record { at = λ s p. (p, tt) }

  attempted :
      {A : Type 0} (Q : A → Type 0) (E : List Failure → Type 0) (E' : ControlPlaneResult → Type 0)
      → (o : Outcome (List Failure) A) (s : Stage client) → After Both Q E o s
      → After Both (Either Q E) E' (attempt client {A = A} (λ t. (o, t)) s).0 s
  attempted Q E E' (next a) s h = h
  attempted Q E E' (stop e) s h = h
  attempted Q E E' panic s h = h

  pub Kept-attempt :
      {A : Type 0} {Q : A → Type 0} {E : List Failure → Type 0} {E' : ControlPlaneResult → Type 0}
      → (m : Step client A) → Kept m Q E
      → Kept (attempt client m) (Either Q E) E'
  Kept-attempt {Q = Q} {E = E} {E' = E'} m h = record {
    at = λ s p. attempted Q E E' (m s).0 (m s).1 (h.at s p);
  }

  pub Kept-no_errors : (es : List Failure) → Kept (no_errors client es) (λ u. es ≡ []) Any
  Kept-no_errors [] = record { at = λ s p. (p, refl) }
  Kept-no_errors (e ∷ es) = record { at = λ s p. (p, tt) }

  -- An early return, of whose result `E` is shown.
  pub Kept-return_rr :
      {A : Type 0} {Q : A → Type 0} (e : Option (List Failure))
      → Kept (return_rr client {A = A} e) Q Any
  Kept-return_rr e = record { at = λ s p. (p, tt) }

  pub Kept-wait_con :
      {A : Type 0} {Q : A → Type 0} (type reason message : String)
      → Kept (wait_con client {A = A} type reason message) Q Any
  Kept-wait_con type reason message = record { at = λ s p. (p, tt) }

  module _ (cp : ControlPlaneLibrary) where
    pub Kept-fail_con :
        {A : Type 0} {Q : A → Type 0} (type : String) (e : List Failure)
        → Kept (fail_con client cp {A = A} type e) Q Any
    Kept-fail_con type e = record { at = λ s p. (p, tt) }

    pub Kept-need_con :
        {A : Type 0} (ans : Answer A) (type : String) (e : List Failure)
        → Kept (need_con client cp ans type e) (λ a. ans ≡ found a) Any
    Kept-need_con (found a) type e = record { at = λ s p. (p, refl) }
    Kept-need_con not_found type e = record { at = λ s p. (p, tt) }
    Kept-need_con (failed m) type e = record { at = λ s p. (p, tt) }
