-- ===== src/Portal/Billing/Products.antt =====
-- The products that are metered (customer-portal/app/billing_runner.py): what Gnocchi is asked for each
-- of them.
use openstack_keystone.Prelude.{ℕ, String, Option, none, some, List, [], ◌∷◌}
use openstack_keystone.Dict.{Dict}

-- An entry of GNOCCHI_PRODUCT_REGISTRY; the scale is the number that it divides by.
pub record Product : Type 0 where
  pub resource_type : String
  pub source_metric : String
  pub metadata_fields : List String
  pub size_gb_divisor : Option ℕ

abbrev pub gnocchi_product_registry : Dict Product
gnocchi_product_registry =
    (
      "instance",
      record {
        resource_type = "instance";
        source_metric = "cpu";
        metadata_fields = "flavor_name" ∷ [];
        size_gb_divisor = none;
      },
    )
    ∷ (
      "volume.size",
      record {
        resource_type = "volume";
        source_metric = "volume.size";
        metadata_fields = "volume_type" ∷ [];
        size_gb_divisor = some 1;
      },
    )
    ∷ (
      "volume.snapshot.size",
      record {
        resource_type = "volume";
        source_metric = "volume.snapshot.size";
        metadata_fields = [];
        size_gb_divisor = some 1;
      },
    )
    ∷ (
      "volume.backup.size",
      record {
        resource_type = "volume";
        source_metric = "volume.backup.size";
        metadata_fields = [];
        size_gb_divisor = some 1;
      },
    )
    ∷ (
      "radosgw.objects.size",
      record {
        resource_type = "ceph_account";
        source_metric = "radosgw.objects.size";
        metadata_fields = [];
        size_gb_divisor = some 1000000000;
      },
    )
    ∷ []

abbrev pub synthetic_resource_types : List String
synthetic_resource_types =
    "cluster_management_fee" ∷ "cluster_management_fee_increment" ∷ "cluster_setup_fee"
    ∷ "cluster_addon_fee" ∷ []

abbrev pub cinder_metric_family_markers : Dict (List String)
cinder_metric_family_markers =
    ("volume.size", "volume" ∷ "volume.size" ∷ [])
    ∷ ("volume.snapshot.size", "snapshot.size" ∷ "volume.snapshot.size" ∷ [])
    ∷ ("volume.backup.size", "backup.size" ∷ "volume.backup.size" ∷ [])
    ∷ []
