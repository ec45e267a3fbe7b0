-- ===== src/ControlPlane/Keeps.antt =====
-- Properties of the world that the reads of the ManagedControlPlane controller and its allowed writes
-- keep, and what is known of the order of a range over a map.
use openmcp_operator.Prelude.{String, Option, List, [], ◌∷◌, ◌++◌, ◌⊎◌, inl, inr, subst, All}
use mathlib.Core.List.{Permᴰ}
use openmcp_operator.Api.Meta.{Dict, ObjectReference}
use openmcp_operator.Api.Requests.{ClusterRequest, AccessRequest}
use openmcp_operator.Api.ControlPlane.{ControlPlane, ServiceResource, Secret, Namespace}
use openmcp_operator.ControlPlane.State.{ControlPlaneClient}

-- Which writes are allowed, with the objects they are given.
pub record Allowed : Type 1 where
  pub patches : ControlPlane → ControlPlane → Type 0
  pub removes_annotation : Type 0
  pub deletes_service : ServiceResource → Type 0
  pub applies_secret : Type 0
  pub deletes_secret : Secret → Type 0
  pub ensures_namespace : String → Dict → Type 0
  pub deletes_namespace : Namespace → Type 0
  pub creates_request : ClusterRequest → Type 0
  pub updates_request : ClusterRequest → Type 0
  pub deletes_request : ClusterRequest → Type 0
  pub applies_access : ObjectReference → Type 0
  pub deletes_access : AccessRequest → Type 0

-- Nothing is written.
abbrev pub nothing : Allowed
nothing = record {
  patches = λ c d. ⊥;
  removes_annotation = ⊥;
  deletes_service = λ s. ⊥;
  applies_secret = ⊥;
  deletes_secret = λ s. ⊥;
  ensures_namespace = λ n m. ⊥;
  deletes_namespace = λ n. ⊥;
  creates_request = λ r. ⊥;
  updates_request = λ r. ⊥;
  deletes_request = λ r. ⊥;
  applies_access = λ r. ⊥;
  deletes_access = λ a. ⊥;
}

module _ (client : ControlPlaneClient) where
  pub record Keeps (allowed : Allowed) (P : client.World → Type 0) : Type 1 where
    pub get_control_plane :
        (r : ObjectReference) (w : client.World) → P w → P (client.get_control_plane r w).1
    pub get_onboarding_namespace :
        (n : String) (w : client.World) → P w → P (client.get_onboarding_namespace n w).1
    pub get_service :
        (v k : String) (r : ObjectReference) (w : client.World)
        → P w
        → P (client.get_service v k r w).1
    pub list_secrets :
        (n l : String) (m : Dict) (w : client.World) → P w → P (client.list_secrets n l m w).1
    pub list_service_providers : (w : client.World) → P w → P (client.list_service_providers w).1
    pub get_namespace : (n : String) (w : client.World) → P w → P (client.get_namespace n w).1
    pub get_request : (r : ObjectReference) (w : client.World) → P w → P (client.get_request r w).1
    pub get_cluster : (r : ObjectReference) (w : client.World) → P w → P (client.get_cluster r w).1
    pub list_access_requests :
        (n l : String) (m : Dict) (w : client.World)
        → P w
        → P (client.list_access_requests n l m w).1
    pub get_secret : (r : ObjectReference) (w : client.World) → P w → P (client.get_secret r w).1
    pub get_config : (w : client.World) → P w → P (client.get_config w).1
    pub range_order :
        (A : Type 0) (xs : List A) (w : client.World) → P w → P (client.range_order xs w).1
    pub patch_control_plane :
        (c d : ControlPlane) (w : client.World)
        → allowed.patches c d
        → P w
        → P (client.patch_control_plane c d w).1
    pub remove_operation_annotation :
        (c : ControlPlane) (w : client.World)
        → allowed.removes_annotation
        → P w
        → P (client.remove_operation_annotation c w).1
    pub delete_service :
        (s : ServiceResource) (w : client.World)
        → allowed.deletes_service s
        → P w
        → P (client.delete_service s w).1
    pub apply_secret :
        (r : ObjectReference) (f : Secret → Option Secret) (w : client.World)
        → allowed.applies_secret
        → P w
        → P (client.apply_secret r f w).1
    pub delete_secret :
        (s : Secret) (w : client.World)
        → allowed.deletes_secret s
        → P w
        → P (client.delete_secret s w).1
    pub ensure_namespace :
        (n : String) (m : Dict) (w : client.World)
        → allowed.ensures_namespace n m
        → P w
        → P (client.ensure_namespace n m w).1
    pub delete_namespace :
        (n : Namespace) (w : client.World)
        → allowed.deletes_namespace n
        → P w
        → P (client.delete_namespace n w).1
    pub create_request :
        (r : ClusterRequest) (w : client.World)
        → allowed.creates_request r
        → P w
        → P (client.create_request r w).1
    pub update_request :
        (r : ClusterRequest) (w : client.World)
        → allowed.updates_request r
        → P w
        → P (client.update_request r w).1
    pub delete_request :
        (r : ClusterRequest) (w : client.World)
        → allowed.deletes_request r
        → P w
        → P (client.delete_request r w).1
    pub apply_access_request :
        (r : ObjectReference) (f : AccessRequest → AccessRequest) (w : client.World)
        → allowed.applies_access r
        → P w
        → P (client.apply_access_request r f w).1
    pub delete_access_request :
        (a : AccessRequest) (w : client.World)
        → allowed.deletes_access a
        → P w
        → P (client.delete_access_request a w).1

  -- A range visits each entry of the map once.
  abbrev pub RangeLaw : Type 1
  RangeLaw = (A : Type 0) (xs : List A) (w : client.World) → Permᴰ xs (client.range_order xs w).0

-- Some element satisfies the predicate.
abbrev pub Some : {A : Type 0} → (A → Type 0) → List A → Type 0
Some P [] = ⊥
Some P (x ∷ xs) = P x ⊎ Some P xs

abbrev pub NonEmpty : {A : Type 0} → List A → Type 0
NonEmpty [] = ⊥
NonEmpty (x ∷ xs) = Unit

pub NonEmpty-append_left : {A : Type 0} (xs ys : List A) → NonEmpty xs → NonEmpty (xs ++ ys)
NonEmpty-append_left [] ys h = absurd h
NonEmpty-append_left (x ∷ xs) ys h = tt

pub NonEmpty-append_right : {A : Type 0} (xs ys : List A) → NonEmpty ys → NonEmpty (xs ++ ys)
NonEmpty-append_right [] ys h = h
NonEmpty-append_right (x ∷ xs) ys h = tt

pub Some-Perm : {A : Type 0} (P : A → Type 0) (xs ys : List A) → Permᴰ xs ys → Some P xs → Some P ys
Some-Perm P _ _ Permᴰ.nil h = h
Some-Perm P _ _ (Permᴰ.cons e p) (inl h) = inl (subst P e h)
Some-Perm P _ _ (Permᴰ.cons e p) (inr h) = inr (Some-Perm P _ _ p h)
Some-Perm P _ _ (Permᴰ.swap e f) (inl h) = inr (inl (subst P e h))
Some-Perm P _ _ (Permᴰ.swap e f) (inr (inl h)) = inl (subst P f h)
Some-Perm P _ _ (Permᴰ.swap e f) (inr (inr h)) = inr (inr h)
Some-Perm P _ _ (Permᴰ.trans p q) h = Some-Perm P _ _ q (Some-Perm P _ _ p h)

pub All-Perm : {A : Type 0} (P : A → Type 0) (xs ys : List A) → Permᴰ xs ys → All P xs → All P ys
All-Perm P _ _ Permᴰ.nil h = h
All-Perm P _ _ (Permᴰ.cons e p) h = (subst P e h.0, All-Perm P _ _ p h.1)
All-Perm P _ _ (Permᴰ.swap e f) h = (subst P f h.1.0, (subst P e h.0, h.1.1))
All-Perm P _ _ (Permᴰ.trans p q) h = All-Perm P _ _ q (All-Perm P _ _ p h)
