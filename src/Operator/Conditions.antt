-- ===== src/Operator/Conditions.antt =====
-- The conditions of a status: `set_condition` (openstack-operator/src/utils.py) and its copies
-- `_set_patch_condition` (openstack-operator/src/handlers.py and the modules of src/handlers). The
-- time that `now_iso` returns is an argument.
pub mod Laws
use openstack_keystone.Prelude.{String, List, [], ◌∷◌, ◌==◌, if◌then◌else◌}

pub record Condition : Type 0 where
  pub type_name : String
  pub status : String
  pub reason : String
  pub message : String
  pub last_transition_time : String

-- The update of the condition of the type: the time changes only with the status.
unfoldable pub refresh : String → String → String → String → Condition → Condition
refresh now condition_status reason message c = record {
  type_name = c.type_name;
  status = if c.status == condition_status then c.status else condition_status;
  reason = reason;
  message = message;
  last_transition_time = if c.status == condition_status then c.last_transition_time else now;
}

-- The first condition of the type is updated; where there is none, one is appended.
unfoldable pub set_condition :
    String → String → String → String → String → List Condition → List Condition
unfolding refresh
set_condition now condition_type condition_status reason message [] =
    record {
      type_name = condition_type;
      status = condition_status;
      reason = reason;
      message = message;
      last_transition_time = now;
    }
    ∷ []
set_condition now condition_type condition_status reason message (c ∷ cs) =
    if c.type_name == condition_type
    then refresh now condition_status reason message c ∷ cs
    else c ∷ set_condition now condition_type condition_status reason message cs
