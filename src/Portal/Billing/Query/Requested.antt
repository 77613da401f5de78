-- ===== src/Portal/Billing/Query/Requested.antt =====
-- The usage that is returned is that of the requested projects.
use openstack_keystone.Prelude.{
  refl, false, ◌&&◌, if◌then◌else◌, String, ◌≡◌, Bool, true, Option, none, some, List, [], ◌∷◌, All,
  All-of_Elem, Elem, contains, ◌==◌, text_lt, eq_refl, eq_iff, or_else, inl, inr, Bool-cases,
  Option-cases, arith,
}
use openstack_keystone.Exec.{Result, ok, err, Exec}
use openstack_keystone.Exec.Holds.{
  Holds, Holds-ok, Holds-err, Holds-if, Holds-elim, Returns, Returns-pure, Returns-lift,
  Returns-raise, Returns-if, Returns-any, Returns-bind, Returns-catch,
}
use openstack_keystone.Dict.{Dict, lookup}
use openstack_keystone.Portal.Numbers.{Decimals}
use openstack_keystone.Portal.Billing.Usage.{Usage, same_key, usage_key, add_usage}
use openstack_keystone.Portal.Billing.Measures.{Stamp, Measure, Period, Measured}
use openstack_keystone.Portal.Billing.Query.{
  Group, Aggregates, ResourceKey, Results, insert_id, sorted_set, read_metadata, add_measured,
  add_measures, add_group, see_info, see_group, see_groups, see_response, query_project,
  query_projects, query_all, query_gnocchi_usage,
}

contains-Elem : (i : String) (ids : List String) → Elem i ids → contains i ids ≡ true
contains-Elem i [] m = absurd m
contains-Elem i (j ∷ js) (inl e) = rw e (ground (arith, eq_refl j))
contains-Elem i (j ∷ js) (inr m) = ground (arith, contains-Elem i js m)

insert_id-All :
    (P : String → Type 0) (i : String) (js : List String) → P i → All P js → All P (insert_id i js)
unfolding insert_id
insert_id-All P i [] h k = (h, tt)
insert_id-All P i (j ∷ js) h k = elim (Bool-cases (i == j)) [
  | inl e ↦ rw e k
  | inr e ↦ rw e (elim (Bool-cases (text_lt i j)) [
    | inl l ↦ rw l (h, k)
    | inr l ↦ rw l (k.0, insert_id-All P i js h k.1)
  ])
]

sorted_set-All : (P : String → Type 0) (ids : List String) → All P ids → All P (sorted_set ids)
unfolding sorted_set
sorted_set-All P [] h = tt
sorted_set-All P (i ∷ is) h = insert_id-All P i (sorted_set is) h.0 (sorted_set-All P is h.1)

Holds-if_test :
    {A : Type 0} (P : A → Type 0) (b : Bool) (x y : Result A)
    → (b ≡ true → Holds P x)
    → Holds P y
    → Holds P (if b then x else y)
Holds-if_test P true x y h k = h refl
Holds-if_test P false x y h k = k

-- The first test of a group: its project is the requested one.
own_project :
    (ids : List String) (requested : String) (o : Option String) (rest : Bool)
    → ((elim o [ none ↦ false | some i ↦ i == requested ]) && rest) ≡ true
    → contains requested ids ≡ true
    → contains (or_else o "") ids ≡ true
own_project ids requested none rest h k = cc
own_project ids requested (some i) rest h k = elim (Bool-cases (i == requested)) [
  | inl same ↦ rw ((eq_iff i requested).0 same) k
  | inr other ↦ let e = rw other at h in cc
]

module _ {D : Type 0} (d : Decimals D) (parse : String → Stamp) (period : Period D)
    (metric : String) (ids : List String) where
  abbrev Requested : List (Usage D) → Type 0
  Requested us = All (λ (u : Usage D). contains u.project_id ids ≡ true) us

  abbrev RequestedResults : Results D → Type 0
  RequestedResults r = Requested r.results

  add_usage-Requested :
      (entry : Usage D) (us : List (Usage D))
      → contains entry.project_id ids ≡ true
      → Requested us
      → Requested (add_usage d entry us)
  unfolding add_usage
  add_usage-Requested entry [] h k = (h, tt)
  add_usage-Requested entry (u ∷ us) h k =
      elim (Bool-cases (same_key (usage_key u) (usage_key entry))) [
        | inl e ↦ rw e k
        | inr e ↦ rw e (k.0, add_usage-Requested entry us h k.1)
      ]

  add_measured-Requested :
      (r : Results D) (i : String) (metadata : Dict String) (m : Result (Measured D))
      → contains i ids ≡ true
      → RequestedResults r
      → Holds RequestedResults (add_measured d parse period metric r i metadata m)
  unfolding add_measured
  add_measured-Requested r i metadata (err e) h k = Holds-err RequestedResults e
  add_measured-Requested r i metadata (ok m) h k =
      Holds-ok RequestedResults _ (add_usage-Requested _ r.results h k)

  add_measures-Requested :
      (r : Results D) (i : String) (metadata : Dict String)
      (measures : Option (List (Option (Measure D))))
      → contains i ids ≡ true
      → RequestedResults r
      → Holds RequestedResults (add_measures d parse period metric r i metadata measures)
  unfolding add_measures
  add_measures-Requested r i metadata none h k = Holds-err RequestedResults _
  add_measures-Requested r i metadata (some []) h k = Holds-ok RequestedResults r k
  add_measures-Requested r i metadata (some (x ∷ xs)) h k =
      search (Holds-if, Holds-err, add_measured-Requested)

  add_group-Requested :
      (r : Results D) (key : ResourceKey) (metadata : Dict String)
      (measures : Option (List (Option (Measure D))))
      → contains key.project_id ids ≡ true
      → RequestedResults r
      → Holds RequestedResults (add_group d parse period metric r key metadata measures)
  unfolding add_group
  add_group-Requested r key metadata measures h k =
      let new =
        add_measures-Requested (record r { seen = key ∷ r.seen }) key.project_id metadata measures h
          k in
      search (Holds-if, Holds-err)

  module _ (metadata_fields : List String) where
    see_info-Requested :
        (r : Results D) (group : Group D) (metadata : Result (Dict String))
        → contains (or_else (lookup "project_id" group.info) "") ids ≡ true
        → RequestedResults r
        → Holds RequestedResults (see_info d parse period metric metadata_fields r group metadata)
    unfolding see_info
    see_info-Requested r group (err e) h k = Holds-err RequestedResults e
    see_info-Requested r group (ok metadata) h k =
        add_group-Requested r _ metadata group.measures h k

    see_group-Requested :
        (i : String) (r : Results D) (group : Option (Group D))
        → contains i ids ≡ true
        → RequestedResults r
        → Holds RequestedResults (see_group d parse period metric metadata_fields i r group)
    unfolding see_group
    see_group-Requested i r none h k = Holds-err RequestedResults _
    see_group-Requested i r (some group) h k =
        Holds-if_test RequestedResults _ _ _
          (λ test.
            see_info-Requested r group (read_metadata group.info [] metadata_fields)
              (own_project ids i (lookup "project_id" group.info) _ test h) k)
          (Holds-err RequestedResults _)

    see_groups-Requested :
        (i : String) (r : Results D) (groups : List (Option (Group D)))
        → contains i ids ≡ true
        → RequestedResults r
        → Holds RequestedResults (see_groups d parse period metric metadata_fields i r groups)
    unfolding see_groups
    see_groups-Requested i r [] h k = Holds-ok RequestedResults r k
    see_groups-Requested i r (g ∷ gs) h k =
        Holds-elim RequestedResults RequestedResults _
          (λ r'. see_groups d parse period metric metadata_fields i r' gs)
          (see_group-Requested i r g h k) (λ r' k'. see_groups-Requested i r' gs h k')

    results_of :
        (i : String) (us : List (Usage D)) (groups : List (Option (Group D)))
        → contains i ids ≡ true
        → Requested us
        → Holds Requested
            (elim (see_groups d parse period metric metadata_fields i
              (record { seen = []; results = us })
              groups) [ err e ↦ err e | ok r ↦ ok r.results ])
    results_of i us groups h k =
        Holds-elim RequestedResults Requested _ (λ r. ok r.results)
          (see_groups-Requested i (record { seen = []; results = us }) groups h k)
          (λ r k'. Holds-ok Requested r.results k')

    see_response-Requested :
        (i : String) (us : List (Usage D)) (response : Aggregates D)
        → contains i ids ≡ true
        → Requested us
        → Holds Requested (see_response d parse period metric metadata_fields i us response)
    unfolding see_response
    see_response-Requested i us response h k = elim (Option-cases response.groups) [
      | inl e ↦ rw (e, see_response) (search (Holds-if, Holds-err))
      | inr (groups, e) ↦
          let k' = results_of i us groups h k in rw (e, see_response) (search (Holds-if, Holds-err))
    ]

    module _ {W : Type 0} (post : String → Exec W (Aggregates D))
        (had_resources : String → Exec W Bool) where
      query_project-Requested :
          (us : List (Usage D)) (i : String)
          → contains i ids ≡ true
          → Requested us
          → Returns Requested
              (query_project d parse period metric metadata_fields post had_resources us i)
      unfolding query_project
      query_project-Requested us i h k = Returns-any Requested (post i) _ λ response.
          Returns-any Requested _ _ λ known.
            Returns-if Requested known _ _
              (Returns-lift Requested _ (see_response-Requested i us response h k))
              (Returns-pure Requested us k)

      query_projects-Requested :
          (us : List (Usage D)) (is : List String)
          → All (λ i. contains i ids ≡ true) is
          → Requested us
          → Returns Requested
              (query_projects d parse period metric metadata_fields post had_resources us is)
      unfolding query_projects
      query_projects-Requested us [] h k = Returns-pure Requested us k
      query_projects-Requested us (i ∷ is) h k =
          Returns-bind Requested _ _ (query_project-Requested us i h.0 k)
            (λ us' k'. query_projects-Requested us' is h.1 k')

      query_all-Requested :
          Returns Requested (query_all d parse period metric metadata_fields post had_resources ids)
      unfolding query_all
      query_all-Requested =
          let known =
            sorted_set-All (λ i. contains i ids ≡ true) ids
              (All-of_Elem (λ i. contains i ids ≡ true) ids (λ i m. contains-Elem i ids m)) in
          let all = query_projects-Requested [] (sorted_set ids) known tt in
          search (Returns-if, Returns-raise)

      -- A usage query that returns has only usage of the projects that were asked for.
      pub query_gnocchi_usage-Requested :
          (w : W) (us : List (Usage D))
          → (query_gnocchi_usage d parse period metric metadata_fields post had_resources ids w).0
            ≡ ok us
          → All (λ (u : Usage D). contains u.project_id ids ≡ true) us
      unfolding query_gnocchi_usage
      query_gnocchi_usage-Requested w us e =
          ((Returns-catch Requested
                (query_all d parse period metric metadata_fields post had_resources ids) _
                query_all-Requested (λ e. Returns-raise Requested _)).at
              w).at
            us e
