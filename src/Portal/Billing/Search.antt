-- ===== src/Portal/Billing/Search.antt =====
-- `_project_had_gnocchi_resources` (customer-portal/app/billing_runner.py): a search of Gnocchi, page
-- by page. The HTTP request is a parameter, and a response is what the code reads of it.
pub mod Pages
use openstack_keystone.Prelude.{
  ℕ, zero, suc, String, Bool, true, false, not, ◌&&◌, ◌||◌, Option, none, some, List, [], ◌∷◌, map,
  any, contains, concat, truthy, length, text_lt, eqb, ltb, ◌==◌, if◌then◌else◌,
}
use openstack_keystone.Exec.{exception, Result, ok, err, Exec, pure, raise, lift, ◌>>=◌}
use openstack_keystone.Dict.{Dict}

abbrev pub page_size : ℕ
page_size = 100

abbrev pub max_pages : ℕ
max_pages = 100

abbrev pub max_resources : ℕ
max_resources = 10000

abbrev pub max_response_bytes : ℕ
max_response_bytes = 10485760

-- The ID is none where it is no text, the metrics where they are no dict, and a metric's ID where
-- it is no text.
pub record Resource : Type 0 where
  pub id : Option String
  pub metrics : Option (Dict (Option String))

-- What `response.json()` returns; an item of a list is none where it is no dict.
pub data Body : Type 0 where
  not_json : Body
  no_list : Body
  items : List (Option Resource) → Body

pub record Response : Type 0 where
  pub content_length : ℕ
  pub status_code : ℕ
  pub body : Body

-- `previous_id`, `resource_count` and `expected_family_found`
pub record Seen : Type 0 where
  pub previous_id : Option String
  pub resource_count : ℕ
  pub expected_family_found : Bool

-- How a page ends: the search is over, or goes on after a marker.
pub data Step : Type 0 where
  done : Bool → Step
  more : String → Seen → Step

abbrev invalid : {A : Type 0} → String → Result A
invalid what = err (exception (concat "Invalid Gnocchi " what))

-- `not isinstance(x, str) or not x.strip()`
unfoldable pub is_blank : (String → String) → Option String → Bool
is_blank strip none = true
is_blank strip (some x) = not (truthy (strip x))

-- `resource_id <= previous_id`, after a first one
unfoldable pub not_after : String → Option String → Bool
not_after id none = false
not_after id (some previous) = not (text_lt previous id)

-- `family_markers is None or family_markers.intersection(metrics)`
unfoldable pub in_family : Option (List String) → Dict (Option String) → Bool
in_family none metrics = true
in_family (some markers) metrics =
    any (λ (m : String × Option String). contains m.0 markers) metrics

module _ (strip : String → String) (family_markers : Option (List String)) where
  -- a resource with an ID and metrics
  unfoldable pub see : Seen → String → Dict (Option String) → Result Seen
  unfolding is_blank not_after in_family
  see seen id metrics =
      if is_blank strip (some id)
        || any (λ (m : String × Option String). is_blank strip (some m.0) || is_blank strip m.1)
            metrics
      then invalid "resource"
      else if not_after id seen.previous_id
      then err (exception "Non-advancing Gnocchi resource marker")
      else if ltb max_resources (suc seen.resource_count)
      then err (exception "Gnocchi resource search exceeds the maximum of resources")
      else ok (record {
        previous_id = some id;
        resource_count = suc seen.resource_count;
        expected_family_found = seen.expected_family_found || in_family family_markers metrics;
      })

  unfoldable pub see_resource : Seen → Option Resource → Result Seen
  unfolding see
  see_resource seen none = invalid "resource"
  see_resource seen (some r) = elim r.id [
    | none ↦ invalid "resource"
    | some id ↦ elim r.metrics [ none ↦ invalid "resource" | some metrics ↦ see seen id metrics ]
  ]

  -- the loop over a page
  unfoldable pub see_page : Seen → List (Option Resource) → Result Seen
  unfolding see_resource
  see_page seen [] = ok seen
  see_page seen (r ∷ rs) = elim (see_resource seen r) [
    | err e ↦ err e
    | ok seen' ↦ see_page seen' rs
  ]

  -- the tests of the response
  unfoldable pub page_of : Response → Result (List (Option Resource))
  page_of response =
      if ltb max_response_bytes response.content_length
      then err (exception "Gnocchi resource search response is too long")
      else if not (eqb response.status_code 200)
      then err (exception "Unable to classify empty Gnocchi result")
      else elim response.body [
        | not_json ↦ invalid "resource search response"
        | no_list ↦ invalid "resource search response"
        | items rs ↦ if ltb page_size (length rs) then invalid "resource search response" else ok rs
      ]

  abbrev exceeded : {A : Type 0} → Result A
  exceeded = err (exception "Gnocchi resource search exceeded pagination limits")

  -- `next_marker`, the last ID of the page, is the one that was seen last
  unfoldable pub next_step : Option String → Seen → Result Step
  next_step marker seen = elim seen.previous_id [
    | none ↦ exceeded
    | some next_marker ↦
        if (elim marker [ none ↦ false | some m ↦ next_marker == m ])
        then err (exception "Non-advancing Gnocchi resource marker")
        else ok (more next_marker seen)
  ]

  -- what follows the loop over a page, with so many pages left after this one
  unfoldable pub after_page : ℕ → Option String → ℕ → Seen → Result Step
  unfolding next_step
  after_page pages_left marker count seen =
      if seen.expected_family_found
      then ok (done true)
      else if ltb count page_size
      then ok (done false)
      else if eqb pages_left 0 || eqb seen.resource_count max_resources
      then exceeded
      else next_step marker seen

  -- a page that passed the tests
  unfoldable pub step_of : ℕ → Option String → Seen → List (Option Resource) → Result Step
  unfolding see_page after_page
  step_of pages_left marker seen [] = ok (done false)
  step_of pages_left marker seen (r ∷ rs) =
      elim (see_page (record seen { expected_family_found = false }) (r ∷ rs)) [
        | err e ↦ err e
        | ok seen' ↦ after_page pages_left marker (length (r ∷ rs)) seen'
      ]

  module _ {W : Type 0} (post : Option String → Exec W Response) where
    -- the loop over the pages that are left
    unfoldable pub search_from : ℕ → Option String → Seen → Exec W Bool
    unfolding page_of step_of
    search_from zero marker seen =
        raise (exception "Gnocchi resource search exceeded pagination limits")
    search_from (suc pages_left) marker seen = do
      response ← post marker
      resources ← lift (page_of response)
      step ← lift (step_of pages_left marker seen resources)
      elim step [
        | done found ↦ pure found
        | more next_marker seen' ↦ search_from pages_left (some next_marker) seen'
      ]

    -- `_project_had_gnocchi_resources`
    unfoldable pub project_had_gnocchi_resources : Exec W Bool
    unfolding search_from
    project_had_gnocchi_resources =
        search_from max_pages none
          (record { previous_id = none; resource_count = 0; expected_family_found = false })
