-- ===== src/Portal/Billing/Query.antt =====
-- `_query_gnocchi_usage` (customer-portal/app/billing_runner.py). The HTTP request is a parameter, a
-- response is what the code reads of it. The values of a group are texts; one that is null is left out.
pub mod Requested
use openstack_keystone.Prelude.{
  ℕ, ◌%◌, String, Bool, true, false, not, ◌&&◌, ◌||◌, Option, none, some, List, [], ◌∷◌, filter,
  contains, concat, truthy, present, or_else, length, text_lt, eqb, ltb, leb, ◌==◌, if◌then◌else◌,
}
use openstack_keystone.Exec.{
  Error, permanent, temporary, api_exception, exception, Result, ok, err, Exec, pure, raise, lift,
  ◌>>=◌, catch,
}
use openstack_keystone.Dict.{Dict, lookup, insert}
use openstack_keystone.Portal.Numbers.{Decimals, pos}
use openstack_keystone.Portal.Billing.Usage.{Usage, sorted_items, same_items, add_usage}
use openstack_keystone.Portal.Billing.Search.{max_response_bytes}
use openstack_keystone.Portal.Billing.Measures.{
  Stamp, Measure, Period, Measured, refused, see_measures,
}

-- The measures are none where they are missing or no list, a measure none where it is no triple.
pub record Group (D : Type 0) : Type 0 where
  pub info : Dict String
  pub measures : Option (List (Option (Measure D)))

-- The groups are none where the body is no list, a group none where it is no dict with a dict.
pub record Aggregates (D : Type 0) : Type 0 where
  pub status_code : ℕ
  pub content_length : ℕ
  pub groups : Option (List (Option (Group D)))

-- The key of a resource's group.
pub record ResourceKey : Type 0 where
  pub project_id : String
  pub resource_id : String
  pub original_resource_id : String
  pub items : Dict String

-- `seen_resource_groups` and `results_by_group`
pub record Results (D : Type 0) : Type 0 where
  pub seen : List ResourceKey
  pub results : List (Usage D)

abbrev pub max_projects : ℕ
max_projects = 1000

abbrev pub max_groups : ℕ
max_groups = 10000

abbrev pub max_measures : ℕ
max_measures = 20000

unfoldable pub same_resource : ResourceKey → ResourceKey → Bool
unfolding same_items
same_resource a b =
    (a.project_id == b.project_id && a.resource_id == b.resource_id)
    && (a.original_resource_id == b.original_resource_id && same_items a.items b.items)

unfoldable pub was_seen : ResourceKey → List ResourceKey → Bool
unfolding same_resource
was_seen key [] = false
was_seen key (k ∷ ks) = same_resource k key || was_seen key ks

-- `sorted(set(project_ids))`
unfoldable pub insert_id : String → List String → List String
insert_id i [] = i ∷ []
insert_id i (j ∷ js) =
    let rest = insert_id i js in
    if i == j then j ∷ js else if text_lt i j then i ∷ j ∷ js else j ∷ rest

unfoldable pub sorted_set : List String → List String
unfolding insert_id
sorted_set [] = []
sorted_set (i ∷ is) = insert_id i (sorted_set is)

-- `metadata`, of the fields in their order
unfoldable pub read_metadata : Dict String → Dict String → List String → Result (Dict String)
unfolding lookup insert
read_metadata info metadata [] = ok metadata
read_metadata info metadata (field ∷ fields) = elim (lookup field info) [
  | none ↦ refused "group"
  | some value ↦
      let rest = read_metadata info (insert field value metadata) fields in
      if truthy value then rest else refused "group"
]

-- every exception but a BillingGenerationError becomes one
unfoldable pub billing_error : Error → Error
billing_error (exception m) = exception m
billing_error (permanent m) = exception "Failed to query Gnocchi"
billing_error (temporary m) = exception "Failed to query Gnocchi"
billing_error (api_exception status m) = exception "Failed to query Gnocchi"

module _ {D : Type 0} (d : Decimals D) (parse : String → Stamp) (period : Period D)
    (metric : String) where
  unfoldable pub add_measured :
      Results D → String → Dict String → Result (Measured D) → Result (Results D)
  unfolding add_usage
  add_measured r project_id metadata (err e) = err e
  add_measured r project_id metadata (ok m) = ok (record r {
    results =
        add_usage d
          (record {
            project_id = project_id;
            metric = metric;
            metadata = metadata;
            hours = m.hours;
            size_months = m.size_months;
          })
          r.results;
  })

  -- the measures of a group that was not seen before
  unfoldable pub add_measures :
      Results D → String → Dict String → Option (List (Option (Measure D))) → Result (Results D)
  unfolding see_measures add_measured
  add_measures r project_id metadata none = refused "measures"
  add_measures r project_id metadata (some []) = ok r
  add_measures r project_id metadata (some (x ∷ xs)) =
      if ltb max_measures (length (x ∷ xs))
      then refused "measures"
      else add_measured r project_id metadata (
          see_measures d parse period
            (record {
              hours = d.of_int (pos 0);
              size_months = d.of_int (pos 0);
              seen_timestamps = [];
            })
            (x ∷ xs))

  -- a group with its key
  unfoldable pub add_group :
      Results D
      → ResourceKey
      → Dict String
      → Option (List (Option (Measure D)))
      → Result (Results D)
  unfolding was_seen add_measures
  add_group r key metadata measures =
      if was_seen key r.seen
      then refused "group"
      else add_measures (record r { seen = key ∷ r.seen }) key.project_id metadata measures

  module _ (metadata_fields : List String) where
    -- a group with its metadata, under the group's own project ID
    unfoldable pub see_info : Results D → Group D → Result (Dict String) → Result (Results D)
    unfolding lookup add_group sorted_items
    see_info r group (err e) = err e
    see_info r group (ok metadata) =
        add_group r
          (record {
            project_id = or_else (lookup "project_id" group.info) "";
            resource_id = or_else (lookup "id" group.info) "";
            original_resource_id = or_else (lookup "original_resource_id" group.info) "";
            items = sorted_items metadata;
          })
          metadata group.measures

    unfoldable pub see_group : String → Results D → Option (Group D) → Result (Results D)
    unfolding see_info read_metadata lookup
    see_group requested r none = refused "group"
    see_group requested r (some group) =
        if (elim (lookup "project_id" group.info) [ none ↦ false | some i ↦ i == requested ])
          && (present (lookup "id" group.info)
              && present (lookup "original_resource_id" group.info))
        then see_info r group (read_metadata group.info [] metadata_fields)
        else refused "group"

    unfoldable pub see_groups : String → Results D → List (Option (Group D)) → Result (Results D)
    unfolding see_group
    see_groups requested r [] = ok r
    see_groups requested r (g ∷ gs) = elim (see_group requested r g) [
      | err e ↦ err e
      | ok r' ↦ see_groups requested r' gs
    ]

    -- a response that is no 404 of a project without resources
    unfoldable pub see_response : String → List (Usage D) → Aggregates D → Result (List (Usage D))
    unfolding see_groups
    see_response requested results response =
        if not (eqb response.status_code 200)
        then refused "status"
        else if ltb max_response_bytes response.content_length
        then refused "response"
        else elim response.groups [
          | none ↦ refused "response"
          | some groups ↦
              if ltb max_groups (length groups)
              then refused "number of groups"
              else elim (see_groups requested (record { seen = []; results = results }) groups) [
                | err e ↦ err e
                | ok r ↦ ok r.results
              ]
        ]

    module _ {W : Type 0} (post : String → Exec W (Aggregates D))
        (had_resources : String → Exec W Bool) where
      -- one project
      unfoldable pub query_project : List (Usage D) → String → Exec W (List (Usage D))
      unfolding see_response
      query_project results requested = do
        response ← post requested
        known ← if eqb response.status_code 404 then had_resources requested else pure true
        if known then lift (see_response requested results response) else pure results

      unfoldable pub query_projects : List (Usage D) → List String → Exec W (List (Usage D))
      query_projects results [] = pure results
      query_projects results (i ∷ is) =
          query_project results i >>= λ results'. query_projects results' is

      -- the body of the `try`
      unfoldable pub query_all : List String → Exec W (List (Usage D))
      unfolding sorted_set
      query_all project_ids =
          if ltb max_projects (length project_ids)
          then raise (exception "Billing scope has too many projects")
          else if leb period.end period.begin
          then raise (exception "Billing period must have positive duration")
          else query_projects [] (sorted_set project_ids)

      -- `_query_gnocchi_usage`
      unfoldable pub query_gnocchi_usage : List String → Exec W (List (Usage D))
      unfolding billing_error
      query_gnocchi_usage project_ids = catch (query_all project_ids) (λ e. raise (billing_error e))

-- The fields that are read into the metadata.
unfoldable pub metadata_fields_of : List String → List String
metadata_fields_of groupby_fields =
    filter (λ field. not (contains field ("project_id" ∷ "id" ∷ "original_resource_id" ∷ [])))
      groupby_fields
