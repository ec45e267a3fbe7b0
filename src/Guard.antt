-- ===== src/Guard.antt =====
-- The guard of APIBinding deletions (internal/disconnectguard/handler.go and inspect.go).
pub mod Laws
use Prim.Native.String.{len}
use openmcp_operator.Prelude.{
  ℕ, ◌<>◌, String, Option, none, some, List, [], ◌∷◌, Bool, true, false, not, ◌&&◌, ◌||◌, ◌==◌, ltb,
  is_some, length, eqb, if◌then◌else◌,
}
use openmcp_operator.Flow.{Answer, found, not_found, failed}
use openmcp_operator.Api.Meta.{GoMap, get, or_empty}

-- The parts of the APIBinding and of `admission.AdmissionRequest` that the guard reads. The raw old
-- object is `none` where it does not decode.
pub record Binding : Type 0 where
  pub name : String
  pub uid : String
  pub annotations : GoMap

pub record AdmissionRequest : Type 0 where
  pub uid : String
  pub operation : String
  pub group : String
  pub resource : String
  pub sub_resource : String
  pub name : String
  pub old_object : Option Binding

-- `schema.GroupVersionKind`.
pub record GroupVersionKind : Type 0 where
  pub group : String
  pub version : String
  pub kind : String

-- `Inspect` of a handler: `none` allows the deletion, a text is the error.
abbrev pub Inspect : Type 0 → Type 0
Inspect World = String → String → String → World → Option String × World

-- The API of a workspace and what finds it. `resolve` answers with the workspace, `none` for a nil
-- client, and whether it is being deleted; `list_one` lists at most one object of a kind and says
-- how many items came back, `none` for an error.
pub record Workspaces : Type 1 where
  pub World : Type 0
  pub Client : Type 0
  pub is_dns_label : String → Bool
  pub resolve : String → String → String → World → Option (Option Client × Bool) × World
  pub list_one : Client → GroupVersionKind → World → Option (List String) × World

-- The label of the cluster in kcp.
abbrev pub cluster_annotation : String
cluster_annotation = "kcp.io/cluster"

module _ (ws : Workspaces) where
  -- The loop of `Inspector.Check` over the services.
  unfoldable pub check_services :
      ws.Client → List GroupVersionKind → ws.World → Option String × ws.World
  check_services client [] w = (none, w)
  check_services client (s ∷ ss) w =
      let listed = ws.list_one client (record s { kind = s.kind <> "List" }) w in
      let rest = check_services client ss listed.1 in
      elim listed.0 [
        | none ↦ (some "cannot verify objects; APIBinding deletion is blocked", listed.1)
        | some items ↦
            if not (eqb (length items) 0)
            then (some "remove all objects before deleting the APIBinding", listed.1)
            else rest
      ]

  -- `Inspector.Check`; a resolver that is nil is `false`.
  unfoldable pub inspector_check : Bool → List GroupVersionKind → Inspect ws.World
  inspector_check has_resolve services cluster name uid w =
      if not has_resolve || eqb (length services) 0
      then (some "disconnect guard is not configured", w)
      else elim (ws.resolve cluster name uid w).0 [
        | none ↦ (
          some "cannot verify the protected APIBinding while the workspace API is unavailable",
          (ws.resolve cluster name uid w).1,
        )
        | some (workspace, deleting) ↦
            if deleting then (none, (ws.resolve cluster name uid w).1) else elim workspace [
              | none ↦ (some "cannot inspect the workspace", (ws.resolve cluster name uid w).1)
              | some client ↦ check_services client services (ws.resolve cluster name uid w).1
            ]
      ]

  -- `Handler.check`; the handler's `Inspect` may be nil.
  unfoldable pub handler_check :
      Option (Inspect ws.World) → AdmissionRequest → ws.World → Option String × ws.World
  handler_check inspect req w =
      if not (req.operation == "DELETE")
        || not (req.group == "apis.kcp.io")
        || not (req.resource == "apibindings")
        || not (req.sub_resource == "")
      then (some "unexpected operation for APIBinding disconnect guard", w)
      else elim req.old_object [
        | none ↦ (some "cannot read the APIBinding", w)
        | some binding ↦
            let cluster = or_empty (get cluster_annotation binding.annotations) in
            if cluster == ""
              || ltb 55 (len cluster)
              || not (ws.is_dns_label cluster)
              || binding.uid == ""
              || not (binding.name == req.name)
            then (some "API binding identity is missing or invalid", w)
            else elim inspect [
              | none ↦ (some "disconnect guard is unavailable", w)
              | some check ↦ check cluster binding.name binding.uid w
            ]
      ]

-- The answer: an HTTP error with its code, or a review with its UID and whether it allows the
-- deletion, with the message if it does not.
pub data Reply : Type 0 where
  http_error : ℕ → Reply
  review : String → Bool → Option String → Reply

-- `ServeHTTP`: the body is `none` where it does not decode to a review with a request.
unfoldable pub serve :
    (ws : Workspaces)
    → Option (Inspect ws.World)
    → String
    → Option AdmissionRequest
    → ws.World
    → Reply × ws.World
serve ws inspect method body w = if not (method == "POST") then (http_error 405, w) else elim body [
  | none ↦ (http_error 400, w)
  | some req ↦
      let (err, w') = handler_check ws inspect req w in (review req.uid (not (is_some err)) err, w')
]
