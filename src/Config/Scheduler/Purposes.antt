-- ===== src/Config/Scheduler/Purposes.antt =====
-- Validation and completion together (internal/config/config_scheduler.go).
use openmcp_operator.Prelude.{
  String, Option, none, some, List, [], ◌∷◌, true, false, ◌≡◌, ◌≢◌, sym, ◌∙◌, arith, ap, All, inl,
  inr, Option-cases,
}
use openmcp_operator.Flow.{Outcome-cases, next, panic}
use openmcp_operator.Api.Meta.{GoMap, get}
use openmcp_operator.Config.Labels.{Labels, LabelsLaws, LabelSelector, Selects}
use openmcp_operator.Config.Selector.{
  Selector, complete as complete_selector, combine, completed, selector_of,
  validate as validate_selector,
}
use openmcp_operator.Config.Selector.Combine.{combine-matches, first_of_both}
use openmcp_operator.Config.Scheduler.{
  ClusterDefinition, SchedulerConfig, compiled, mismatch, validate, validate_definition,
  validate_mappings, complete, complete_mappings,
}

module _ (labels : Labels) where
  -- A selector as it is read from a configuration file, not completed yet.
  abbrev pub IsFresh : Option (Selector labels) → Type 0
  IsFresh none = Unit
  IsFresh (some s) = s.completed ≡ none

  abbrev pub FreshDefinition : String × Option (ClusterDefinition labels) → Type 0
  FreshDefinition (p, none) = Unit
  FreshDefinition (p, some d) = IsFresh d.selector

  complete_step :
      (global : Option (Selector labels)) (p : String) (d : ClusterDefinition labels)
      → (ms ms' : List (String × Option (ClusterDefinition labels)))
      → complete_mappings labels global ((p, some d) ∷ ms) ≡ next ms'
      → (rest : List (String × Option (ClusterDefinition labels))) × (combine labels d.selector
            global
          ≡ ((combine labels d.selector global).0, true))
        × (complete_mappings labels global ms ≡ next rest)
        × (ms' ≡ (p, some (record d { selector = (combine labels d.selector global).0 })) ∷ rest)
  unfolding complete_mappings
  complete_step global p d ms ms' h = elim (Outcome-cases (complete_mappings labels global ms)) [
    | inl (rest, e) ↦ (rest, ground arith, e, ground arith)
    | inr (inl (a, e)) ↦ absurd (ground arith)
    | inr (inr e) ↦ absurd (ground arith)
  ]

  -- The definition is there and its selector matches the labels of its own template.
  abbrev pub SelectsTemplate : String × Option (ClusterDefinition labels) → Type 0
  SelectsTemplate (p, none) = ⊥
  SelectsTemplate (p, some d) =
      labels.matches (completed labels d.selector) d.template.labels ≡ true

  module _ (laws : LabelsLaws labels) where
    compiled-Selects :
        (s : Option (Selector labels)) (ls : LabelSelector) (c : labels.Compiled) (m : GoMap)
        → selector_of labels s ≡ some ls
        → labels.as_selector ls ≡ some c
        → mismatch labels (compiled labels s) m ≡ false
        → Selects labels ls m
    unfolding mismatch compiled
    compiled-Selects s ls c m e fine h =
        (laws.as_selector_matches ls c m fine).0 (ground (arith, h))

    -- The case where both selectors have a label selector.
    both_select :
        (s o r : Selector labels) (mine other : LabelSelector) (m : GoMap)
        → s.label_selector ≡ some mine
        → o.label_selector ≡ some other
        → Selects labels mine m
        → Selects labels other m
        → combine labels (some s) (some o) ≡ (some r, true)
        → labels.matches (completed labels (some r)) m ≡ true
    both_select s o r mine other m es eo hs ho h =
        (combine-matches labels laws s o r mine other m es eo h).1 (entry, hs.1, ho.1)
      where
        entry :
            (k v : String)
            → first_of_both (get k other.match_labels) (get k mine.match_labels) ≡ some v
            → get k m ≡ some v
        entry k v e = elim (Option-cases (get k other.match_labels)) [
          | inl absent ↦ hs.0 k v (ground (arith, absent, e))
          | inr (w, there) ↦ ho.0 k v (ground (arith, there, e))
        ]

    both_own :
        (s g : Selector labels) (global' sel : Option (Selector labels))
        (mine other : LabelSelector)
        → (m : GoMap) → s.label_selector ≡ some mine
        → g.label_selector ≡ some other
        → validate_selector labels (some s) ≡ true
        → complete_selector labels (some g) ≡ (global', true)
        → mismatch labels (compiled labels (some g)) m ≡ false
        → mismatch labels (compiled labels (some s)) m ≡ false
        → combine labels (some s) global' ≡ (sel, true)
        → labels.matches (completed labels sel) m ≡ true
    unfolding validate_selector complete_selector completed
    both_own s g global' sel mine other m es eg vs hc hg hs h =
        elim (Option-cases (labels.as_selector mine)) [
          | inl bad ↦ absurd (ground arith)
          | inr (c, fc) ↦ elim (Option-cases (labels.as_selector other)) [
            | inl bad ↦ absurd (ground arith)
            | inr (d, fd) ↦
                let is_d : global' ≡ some (record g { completed = some d }) = ground (arith, hc) in
                elim (Option-cases sel) [
                  | inl gone ↦ rw gone (laws.everything_matches m)
                  | inr (r, er) ↦ rw er (
                      both_select s (record g { completed = some d }) r mine other m es eg
                        (compiled-Selects (some s) mine c m es fc hs)
                        (compiled-Selects (some g) other d m eg fd hg)
                        (sym (ap (combine labels (some s)) is_d) ∙ h ∙ ap (λ x. (x, true)) er))
                ]
          ]
        ]

    selects_own :
        (s global global' sel : Option (Selector labels)) (m : GoMap)
        → IsFresh s
        → IsFresh global
        → validate_selector labels s ≡ true
        → complete_selector labels global ≡ (global', true)
        → mismatch labels (compiled labels global) m ≡ false
        → mismatch labels (compiled labels s) m ≡ false
        → combine labels s global' ≡ (sel, true)
        → labels.matches (completed labels sel) m ≡ true
    unfolding combine completed mismatch compiled complete_selector
    selects_own none none global' sel m fs fg vs hc hg hs h =
        ground (arith, laws.everything_matches m)
    selects_own none (some g) global' sel m fs fg vs hc hg hs h =
        ground (arith, laws.everything_matches m)
    selects_own (some s) none global' sel m fs fg vs hc hg hs h =
        ground (arith, laws.everything_matches m)
    selects_own (some s) (some g) global' sel m fs fg vs hc hg hs h =
        elim (Option-cases s.label_selector) [
          | inl e ↦ ground (arith, laws.everything_matches m)
          | inr (mine, es) ↦ elim (Option-cases g.label_selector) [
            | inl e ↦ ground (arith, laws.everything_matches m)
            | inr (other, eg) ↦ both_own s g global' sel mine other m es eg vs hc hg hs h
          ]
        ]

    -- One round of the completion of validated mappings.
    definition_selects :
        (global global' sel : Option (Selector labels)) (p : String) (d : ClusterDefinition labels)
        → IsFresh d.selector
        → IsFresh global
        → complete_selector labels global ≡ (global', true)
        → validate_definition labels (compiled labels global) p (some d) ≡ []
        → combine labels d.selector global' ≡ (sel, true)
        → labels.matches (completed labels sel) d.template.labels ≡ true
    unfolding validate_definition
    definition_selects global global' sel p d fd fg hc hv h =
        selects_own d.selector global global' sel d.template.labels fd fg (ground arith) hc
          (ground arith) (ground arith) h

    mappings_select :
        (global global' : Option (Selector labels))
        → (ms : List (String × Option (ClusterDefinition labels)))
        → (ms' : List (String × Option (ClusterDefinition labels))) → IsFresh global
        → complete_selector labels global ≡ (global', true)
        → All FreshDefinition ms
        → validate_mappings labels (compiled labels global) ms ≡ []
        → complete_mappings labels global' ms ≡ next ms'
        → All SelectsTemplate ms'
    unfolding validate_mappings complete_mappings
    mappings_select global global' [] ms' fg hc f hv h = ground arith
    mappings_select global global' ((p, none) ∷ ms) ms' fg hc f hv h = ground arith
    mappings_select global global' ((p, some d) ∷ ms) ms' fg hc f hv h =
        let (rest, fine, e, eq) = complete_step global' p d ms ms' h in
        rw eq (
          definition_selects global global' _ p d f.0 fg hc (ground arith) fine,
          mappings_select global global' ms rest fg hc f.1 (ground arith) e,
        )

    -- If a fresh configuration passes `Validate` and `Complete` succeeds, then every purpose has a
    -- definition whose completed selector matches the labels of its own cluster template.
    pub complete-SelectsTemplate :
        (c c' : SchedulerConfig labels)
        → IsFresh c.cluster_selector
        → All FreshDefinition c.purpose_mappings
        → validate labels c ≡ []
        → complete labels c ≡ next c'
        → All SelectsTemplate c'.purpose_mappings
    unfolding validate complete
    complete-SelectsTemplate c c' fg f hv h =
        mappings_select c.cluster_selector (complete_selector labels c.cluster_selector).0
          c.purpose_mappings c'.purpose_mappings fg (ground arith) f (ground arith) (ground arith)

  mappings_no_panic :
      (cls : Option labels.Compiled) (global : Option (Selector labels))
      → (ms : List (String × Option (ClusterDefinition labels)))
      → validate_mappings labels cls ms ≡ []
      → complete_mappings labels global ms ≢ panic
  unfolding validate_mappings complete_mappings
  mappings_no_panic cls global [] hv h = cc
  mappings_no_panic cls global ((p, none) ∷ ms) hv h = ground arith
  mappings_no_panic cls global ((p, some d) ∷ ms) hv h =
      ground (arith, mappings_no_panic cls global ms)

  -- `Complete` never dereferences a nil definition of a configuration that passes `Validate`.
  pub complete-ne-panic :
      (c : SchedulerConfig labels) → validate labels c ≡ [] → complete labels c ≢ panic
  unfolding validate complete
  complete-ne-panic c hv h = ground (
    arith,
    mappings_no_panic (compiled labels c.cluster_selector)
        (complete_selector labels c.cluster_selector).0 c.purpose_mappings,
  )
