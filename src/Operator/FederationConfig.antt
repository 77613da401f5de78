-- ===== src/Operator/FederationConfig.antt =====
-- Where the federation settings of a CR come from: `get_federation_config`
-- (openstack-operator/src/handlers.py), which the project handlers use, and
-- `get_federation_config_from_crs` and `get_expected_projects_from_crs`
-- (openstack-operator/src/resources/garbage_collection.py), which the garbage collection uses.
pub mod Keys
use openstack_keystone.Prelude.{
  String, Bool, true, false, ◌&&◌, Option, none, some, List, [], ◌∷◌, present, or_else,
  if◌then◌else◌,
}
use openstack_keystone.Exec.{
  Error, exception, api_exception, Result, ok, err, Exec, pure, raise, lift, ◌>>=◌, catch,
}
use openstack_keystone.Dict.{Dict, lookup}
use openstack_keystone.Operator.Federation.{FederationConfig}

pub record FederationRef : Type 0 where
  pub config_map_name : Option String
  pub config_map_namespace : Option String

-- What the collection reads of an OpenstackProject CR: spec.name and spec.federationRef.
pub record ProjectSpecRef : Type 0 where
  pub spec_name : Option String
  pub federation_ref : Option FederationRef

-- `data.get(k, "")`
abbrev pub get_text : String → Dict String → String
get_text k data_map = or_else (lookup k data_map) ""

unfoldable pub get_expected_projects_from_crs : List ProjectSpecRef → List String
get_expected_projects_from_crs [] = []
get_expected_projects_from_crs (cr ∷ rest) =
    let more = get_expected_projects_from_crs rest in
    elim cr.spec_name [ none ↦ more | some n ↦ if present (some n) then n ∷ more else more ]

-- The settings under the keys that the handlers read.
unfoldable pub config_of_data : Dict String → FederationConfig
config_of_data data_map = record {
  idp_name = get_text "idp-name" data_map;
  idp_remote_id = get_text "idp-remote-id" data_map;
  sso_domain = get_text "sso-domain" data_map;
}

-- The settings under the keys that the garbage collection reads.
unfoldable pub gc_config_of_data : Dict String → FederationConfig
gc_config_of_data data_map = record {
  idp_name = get_text "IDP_NAME" data_map;
  idp_remote_id = get_text "IDP_REMOTE_ID" data_map;
  sso_domain = get_text "SSO_DOMAIN" data_map;
}

module _ {W : Type 0} (read_config_map : String → String → Exec W (Option (Dict String))) where
  -- `cm.data` that is missing raises an AttributeError, which nothing catches here.
  unfoldable config_of_map : Option (Dict String) → Exec W (Option FederationConfig)
  config_of_map none = raise (exception "AttributeError")
  config_of_map (some data_map) = pure (some (config_of_data data_map))

  -- only an ApiException is caught
  unfoldable unreadable : Error → Exec W (Option FederationConfig)
  unreadable (api_exception status m) = pure none
  unreadable e = raise e

  unfoldable pub get_federation_config :
      String → Option FederationRef → Exec W (Option FederationConfig)
  unfolding config_of_map unreadable
  get_federation_config namespace none = pure none
  get_federation_config namespace (some ref) =
      if present ref.config_map_name
      then catch
          (read_config_map (or_else ref.config_map_name "")
              (or_else ref.config_map_namespace namespace)
            >>= config_of_map)
          unreadable
      else pure none

  -- the settings of one ConfigMap, if it has an `IDP_NAME`; any exception is caught
  unfoldable pub gc_config : String → String → Exec W (Option FederationConfig)
  gc_config config_map_name config_map_ns =
      catch
        (read_config_map config_map_name config_map_ns >>= λ found. pure (
          if present (lookup "IDP_NAME" (or_else found []))
          then some (gc_config_of_data (or_else found []))
          else none))
        λ e. pure none

  unfoldable pub gc_config_of_ref : Option FederationRef → Exec W (Option FederationConfig)
  unfolding gc_config
  gc_config_of_ref none = pure none
  gc_config_of_ref (some ref) =
      if present ref.config_map_name && present ref.config_map_namespace
      then gc_config (or_else ref.config_map_name "") (or_else ref.config_map_namespace "")
      else pure none

  unfoldable pub get_federation_config_from_crs :
      List ProjectSpecRef → Exec W (Option FederationConfig)
  get_federation_config_from_crs [] = pure none
  get_federation_config_from_crs (cr ∷ rest) = gc_config_of_ref cr.federation_ref >>= λ found.
      elim found [ some config ↦ pure (some config) | none ↦ get_federation_config_from_crs rest ]
