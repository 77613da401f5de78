-- ===== src/Operator/FederationConfig/Keys.antt =====
-- The two readers of the federation ConfigMap look for different keys.
use openstack_keystone.Prelude.{
  String, ◌≡◌, refl, false, Option, none, some, List, [], ◌∷◌, present, or_else, Bool-cases, inl,
  inr, ◌&&◌,
}
use openstack_keystone.Exec.{Result, ok, err, Exec, pure, ◌>>=◌}
use openstack_keystone.Dict.{Dict, lookup}
use openstack_keystone.Operator.FederationConfig.{
  FederationRef, ProjectSpecRef, gc_config, gc_config_of_ref, get_federation_config_from_crs,
}

module _ {W : Type 0} (read_config_map : String → String → Exec W (Option (Dict String))) where
  -- No ConfigMap that can be read has a text under "IDP_NAME".
  abbrev pub NoUpperKeys : Type 0
  NoUpperKeys =
      (n m : String) (w : W) (found : Option (Dict String))
      → (read_config_map n m w).0 ≡ ok found
      → present (lookup "IDP_NAME" (or_else found [])) ≡ false

  module _ (lacks : NoUpperKeys) where
    gc_config_by_result :
        (n m : String) (w : W) (r : Result (Option (Dict String)))
        → (read_config_map n m w).0 ≡ r
        → (gc_config read_config_map n m w).0 ≡ ok none
    unfolding gc_config ◌>>=◌
    gc_config_by_result n m w (ok found) e = rw e (rw (lacks n m w found e) refl)
    gc_config_by_result n m w (err x) e = rw e refl

    gc_config_of_ref-none :
        (ref : Option FederationRef) (w : W) → (gc_config_of_ref read_config_map ref w).0 ≡ ok none
    unfolding gc_config_of_ref pure
    gc_config_of_ref-none none w = refl
    gc_config_of_ref-none (some ref) w =
        elim (Bool-cases (present ref.config_map_name && present ref.config_map_namespace)) [
          | inl given ↦ rw given (
              gc_config_by_result (or_else ref.config_map_name "")
                (or_else ref.config_map_namespace "") w _ refl)
          | inr missing ↦ rw missing refl
        ]

    -- Where no ConfigMap that can be read has a text under the key "IDP_NAME", the garbage
    -- collection finds no federation settings, whatever the CRs refer to.
    pub get_federation_config_from_crs-none :
        (crs : List ProjectSpecRef) (w : W)
        → (get_federation_config_from_crs read_config_map crs w).0 ≡ ok none
    unfolding get_federation_config_from_crs ◌>>=◌
    get_federation_config_from_crs-none [] w = refl
    get_federation_config_from_crs-none (cr ∷ rest) w =
        rw (gc_config_of_ref-none cr.federation_ref w) (
          get_federation_config_from_crs-none rest
            (gc_config_of_ref read_config_map cr.federation_ref w).1)
