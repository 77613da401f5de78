-- ===== src/Operator/Naming.antt =====
-- Group names (openstack-operator/src/utils.py): `sanitize_name` and `make_group_name`. Python's
-- `str.lower` works by the Unicode tables and is a parameter; the regular expressions are written
-- out as recursions on the text.
pub mod Clean
pub mod Idempotent
use Prim.Native.Char.{Char, code}
use Prim.Native.String.{[], ◌∷◌}
use openstack_keystone.Prelude.{
  ℕ, String, Bool, true, false, ◌&&◌, ◌||◌, eqb, leb, if◌then◌else◌, concat, ◌==◌,
}

-- `c in [a-z0-9-]`
abbrev pub is_allowed : Char → Bool
is_allowed c =
    (leb b'a' (code c) && leb (code c) b'z')
    || (leb b'0' (code c) && leb (code c) b'9')
    || eqb (code c) b'-'

abbrev pub is_hyphen : Char → Bool
is_hyphen c = eqb (code c) b'-'

abbrev pub starts_hyphen : String → Bool
starts_hyphen [] = false
starts_hyphen (c ∷ s) = is_hyphen c

-- `name.replace(".", "-").replace("_", "-")`, a character at a time
unfoldable pub replace_separators : String → String
replace_separators [] = ""
replace_separators (c ∷ s) =
    (if eqb (code c) b'.' || eqb (code c) b'_' then "-" else c) ∷ replace_separators s

-- `re.sub(r"[^a-z0-9-]", "", s)`
unfoldable pub keep_allowed : String → String
keep_allowed [] = ""
keep_allowed (c ∷ s) = let rest = keep_allowed s in if is_allowed c then c ∷ rest else rest

-- `re.sub(r"-+", "-", s)`: of a run of hyphens the last one stays
unfoldable pub collapse : String → String
collapse [] = ""
collapse (c ∷ s) =
    let rest = collapse s in if is_hyphen c && starts_hyphen s then rest else c ∷ rest

-- `s.lstrip("-")`
unfoldable pub strip_left : String → String
strip_left [] = ""
strip_left (c ∷ s) = let rest = strip_left s in if is_hyphen c then rest else c ∷ s

-- `s.rstrip("-")`
unfoldable pub strip_right : String → String
strip_right [] = ""
strip_right (c ∷ s) =
    let rest = strip_right s in if is_hyphen c && (rest == "") then "" else c ∷ rest

module _ (lower : String → String) where
  unfoldable pub sanitize_name : String → String
  unfolding replace_separators keep_allowed collapse strip_left strip_right
  sanitize_name name =
      strip_right (strip_left (collapse (keep_allowed (lower (replace_separators name)))))

  unfoldable pub make_group_name : String → String
  make_group_name project_name = concat (sanitize_name project_name) "-users"
