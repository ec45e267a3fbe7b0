-- ===== src/Scheduler/Choose/Fair.antt =====
-- The strategy `Balanced` and the tenancy limit.
use openmcp_operator.Prelude.{
  ℕ, ◌≤◌, ◌<◌, pos, ltb, is_positive, List, [], ◌∷◌, ◌++◌, true, ◌≡◌, refl, ap, Bool-cases, inl,
  inr, arith, select, All, All-select, All-select_of,
}
use openmcp_operator.Api.Cluster.{Cluster, get_tenancy_count}
use openmcp_operator.Config.Labels.{Labels}
use openmcp_operator.Config.Scheduler.{ClusterDefinition}
use openmcp_operator.Scheduler.Choose.{is_alive, candidates, least}

-- The clusters before the chosen one all have more requests than it, those after it no fewer.
pub record IsFirstLeast (chosen : Cluster) (cs : List Cluster) : Type 0 where
  pub before : List Cluster
  pub after : List Cluster
  pub position : cs ≡ before ++ chosen ∷ after
  pub before_more : All (λ c. get_tenancy_count chosen < get_tenancy_count c) before
  pub after_no_fewer : All (λ c. get_tenancy_count chosen ≤ get_tenancy_count c) after

All-mono {ℓ κ} :
    {A : Type ℓ} (P Q : A → Type κ) (xs : List A) → ((x : A) → P x → Q x) → All P xs → All Q xs
All-mono P Q [] f h = tt
All-mono P Q (x ∷ xs) f h = (f x h.0, All-mono P Q xs f h.1)

head_le :
    (r x : Cluster) (cs before after : List Cluster)
    → x ∷ cs ≡ before ++ r ∷ after
    → All (λ c. get_tenancy_count r < get_tenancy_count c) before
    → get_tenancy_count r ≤ get_tenancy_count x
head_le r x cs [] after e h = let same : x ≡ r = cc in omega (arith, ap get_tenancy_count same)
head_le r x cs (b ∷ bs) after e h =
    let same : x ≡ b = cc in omega (arith, ap get_tenancy_count same)

-- The loop moves on to a cluster with fewer requests.
step_fewer :
    (r c x : Cluster) (cs : List Cluster)
    → get_tenancy_count x < get_tenancy_count c
    → IsFirstLeast r (x ∷ cs)
    → IsFirstLeast r (c ∷ x ∷ cs)
step_fewer r c x cs h f = record {
  before = c ∷ f.before;
  after = f.after;
  position = ap (λ l. c ∷ l) f.position;
  before_more =
      (omega (arith, head_le r x cs f.before f.after f.position f.before_more), f.before_more);
  after_no_fewer = f.after_no_fewer;
}

-- The loop keeps its cluster.
step_keep :
    (r c x : Cluster) (cs before after : List Cluster)
    → c ∷ cs ≡ before ++ r ∷ after
    → All (λ d. get_tenancy_count r < get_tenancy_count d) before
    → All (λ d. get_tenancy_count r ≤ get_tenancy_count d) after
    → get_tenancy_count c ≤ get_tenancy_count x
    → IsFirstLeast r (c ∷ x ∷ cs)
step_keep r c x cs [] after e hb ha h =
    let same : c ≡ r = cc in
    let rest : cs ≡ after = cc in
    record {
      before = [];
      after = x ∷ after;
      position = cc;
      before_more = tt;
      after_no_fewer = (omega (arith, ap get_tenancy_count same), ha);
    }
step_keep r c x cs (b ∷ bs) after e hb ha h =
    let same : c ≡ b = cc in
    let rest : cs ≡ bs ++ r ∷ after = cc in
    record {
      before = c ∷ x ∷ bs;
      after = after;
      position = ap (λ l. c ∷ x ∷ l) rest;
      before_more = (
        omega (arith, ap get_tenancy_count same),
        (omega (arith, ap get_tenancy_count same), hb.1),
      );
      after_no_fewer = ha;
    }

All-both {ℓ κ} :
    {A : Type ℓ} (P Q : A → Type κ) (xs : List A) → All P xs → All Q xs → All (λ x. P x × Q x) xs
All-both P Q [] p q = tt
All-both P Q (x ∷ xs) p q = ((p.0, q.0), All-both P Q xs p.1 q.1)

-- What all the clusters satisfy, the chosen one does.
pub All-least {κ} :
    (P : Cluster → Type κ) (c : Cluster) (n : ℕ) (cs : List Cluster)
    → P c
    → All P cs
    → P (least c n cs)
unfolding least
All-least P c n [] p h = p
All-least P c n (x ∷ cs) p h = elim (Bool-cases (ltb (get_tenancy_count x) n)) [
  | inl e ↦ rw e (All-least P x _ cs h.0 h.1)
  | inr e ↦ rw e (All-least P c n cs p h.1)
]

-- `Balanced` takes the first of the clusters with the fewest requests.
pub least-IsFirstLeast :
    (c : Cluster) (cs : List Cluster) → IsFirstLeast (least c (get_tenancy_count c) cs) (c ∷ cs)
unfolding least
least-IsFirstLeast c [] = record {
  before = [];
  after = [];
  position = refl;
  before_more = tt;
  after_no_fewer = tt;
}
least-IsFirstLeast c (x ∷ cs) =
    elim (Bool-cases (ltb (get_tenancy_count x) (get_tenancy_count c))) [
      | inl fewer ↦ rw fewer (step_fewer _ c x cs (ground arith) (least-IsFirstLeast x cs))
      | inr keep ↦
          let f = least-IsFirstLeast c cs in
          rw keep (
            step_keep _ c x cs f.before f.after f.position f.before_more f.after_no_fewer
              (ground arith))
    ]

-- With a positive limit every candidate is below it and not being deleted.
pub candidates_below :
    {labels : Labels} (d : ClusterDefinition labels) (limit : ℕ) (cs : List Cluster)
    → d.tenancy_count ≡ pos limit
    → 0 < limit
    → All (λ c. (get_tenancy_count c < limit) × (is_alive c ≡ true)) (candidates d cs)
unfolding candidates
candidates_below d limit cs e h =
    let positive : is_positive d.tenancy_count ≡ true = rw e (ground arith) in
    rw positive (
      All-mono _ _ _ (λ c p. (ground (arith, p.0, e), p.1))
        (All-both _ _ _ (All-select _ (select is_alive cs))
          (All-select_of _ _ (select is_alive cs) (All-select is_alive cs))))
