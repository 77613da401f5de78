-- ===== src/Portal/Billing/Contracts.antt =====
-- `_get_project_contracts` (customer-portal/app/billing_runner.py), over the projects that Keystone lists.
pub mod Tagged
use Prim.Native.Char.{code}
use openstack_keystone.Prelude.{
  String, Bool, true, false, Option, none, some, List, [], ◌∷◌, truthy, concat, eqb, if◌then◌else◌,
}
use openstack_keystone.Exec.{exception, Result, ok, err}
use openstack_keystone.Dict.{Dict, insert}

pub record TaggedProject : Type 0 where
  pub id : String
  pub name : String
  pub tags : List String

abbrev pub contract_tag_prefix : String
contract_tag_prefix = "contract:"

-- `tag[len(prefix):]` where `tag.startswith(prefix)`
unfoldable pub after_prefix : String → String → Option String
after_prefix String.[] t = some t
after_prefix (String.◌∷◌ c s) String.[] = none
after_prefix (String.◌∷◌ c s) (String.◌∷◌ d t) =
    if eqb (code c) (code d) then after_prefix s t else none

-- What the contract tags say, in their order; the code sorts them only for its message.
unfoldable pub contract_numbers : List String → List String
unfolding after_prefix
contract_numbers [] = []
contract_numbers (tag ∷ tags) =
    let rest = contract_numbers tags in
    elim (after_prefix contract_tag_prefix tag) [ none ↦ rest | some number ↦ number ∷ rest ]

-- The contract of a project with these numbers, if it has one.
unfoldable pub contract_of : String → List String → Result (Option String)
contract_of name [] = ok none
contract_of name (number ∷ []) =
    if truthy number
    then ok (some number)
    else err (exception (concat "Project has an empty contract tag: " name))
contract_of name (number ∷ other ∷ more) =
    err (exception (concat "Project has multiple contract tags: " name))

-- `project_map` after one project
unfoldable pub note_contract :
    TaggedProject → Option String → Dict (String × String) → Dict (String × String)
unfolding insert
note_contract project none project_map = project_map
note_contract project (some number) project_map =
    insert project.id (project.name, number) project_map

unfoldable pub contracts_from :
    Dict (String × String) → List TaggedProject → Result (Dict (String × String))
unfolding contract_of contract_numbers note_contract
contracts_from project_map [] = ok project_map
contracts_from project_map (project ∷ projects) =
    elim (contract_of project.name (contract_numbers project.tags)) [
      | err e ↦ err e
      | ok contract ↦ contracts_from (note_contract project contract project_map) projects
    ]

-- `_get_project_contracts`
unfoldable pub get_project_contracts : List TaggedProject → Result (Dict (String × String))
unfolding contracts_from
get_project_contracts projects = contracts_from [] projects
