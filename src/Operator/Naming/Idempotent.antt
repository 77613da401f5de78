-- ===== src/Operator/Naming/Idempotent.antt =====
-- Sanitizing a name twice is sanitizing it once.
use Prim.Native.Char.{Char, code}
use Prim.Native.String.{[], ◌∷◌}
use openstack_keystone.Prelude.{
  String, ◌≡◌, refl, ap, true, false, inl, inr, ◌==◌, eq_iff, Bool-cases, arith, eqb,
}
use openstack_keystone.Operator.Naming.{
  is_allowed, is_hyphen, starts_hyphen, replace_separators, keep_allowed, collapse, strip_left,
  strip_right, sanitize_name,
}
use openstack_keystone.Operator.Naming.Clean.{
  AllAllowed, NoDouble, ends_hyphen, IsClean, sanitize_name-IsClean,
}

allowed_not_separator :
    (c : Char) → is_allowed c ≡ true → (eqb (code c) b'.' ≡ false) × (eqb (code c) b'_' ≡ false)
allowed_not_separator c h = ground arith

replace_separators_fixed : (s : String) → AllAllowed s → replace_separators s ≡ s
unfolding replace_separators
replace_separators_fixed [] h = refl
replace_separators_fixed (c ∷ s) h =
    let e = allowed_not_separator c h.0 in
    rw (e.0, e.1) (ap (λ t. c ∷ t) (replace_separators_fixed s h.1))

keep_allowed_fixed : (s : String) → AllAllowed s → keep_allowed s ≡ s
unfolding keep_allowed
keep_allowed_fixed [] h = refl
keep_allowed_fixed (c ∷ s) h = rw h.0 (ap (λ t. c ∷ t) (keep_allowed_fixed s h.1))

collapse_fixed : (s : String) → NoDouble s → collapse s ≡ s
unfolding collapse
collapse_fixed [] h = refl
collapse_fixed (c ∷ s) h = rw h.0 (ap (λ t. c ∷ t) (collapse_fixed s h.1))

strip_left_fixed : (s : String) → starts_hyphen s ≡ false → strip_left s ≡ s
unfolding strip_left
strip_left_fixed [] h = refl
strip_left_fixed (c ∷ s) h = rw h refl

last_not_hyphen :
    (c : Char) (s : String) → (s == "") ≡ true → ends_hyphen (c ∷ s) ≡ false → is_hyphen c ≡ false
last_not_hyphen c s empty h = ground arith

inner_end :
    (c : Char) (s : String)
    → (s == "") ≡ false
    → ends_hyphen (c ∷ s) ≡ false
    → ends_hyphen s ≡ false
inner_end c s more h = ground arith

strip_right_fixed : (s : String) → ends_hyphen s ≡ false → strip_right s ≡ s
unfolding strip_right
strip_right_fixed [] h = refl
strip_right_fixed (c ∷ s) h = elim (Bool-cases (s == "")) [
  | inl empty ↦ rw ((eq_iff s "").0 empty) (rw (last_not_hyphen c s empty h) refl)
  | inr more ↦ rw (strip_right_fixed s (inner_end c s more h)) (rw more (ground arith))
]

module _ (lower : String → String) (fixed : (s : String) → AllAllowed s → lower s ≡ s) where
  sanitize_name_fixed : (s : String) → IsClean s → sanitize_name lower s ≡ s
  unfolding sanitize_name
  sanitize_name_fixed s c = rw (replace_separators_fixed s c.allowed) (
      rw (fixed s c.allowed) (
        rw (keep_allowed_fixed s c.allowed) (
          rw (collapse_fixed s c.single)
            (rw (strip_left_fixed s c.no_start) (strip_right_fixed s c.no_end)))))

  -- Where `str.lower` leaves clean texts alone, as it does ASCII text with no capital, a sanitized
  -- name is unchanged by sanitizing it again.
  sanitize_name-sanitize_name :
      (name : String) → sanitize_name lower (sanitize_name lower name) ≡ sanitize_name lower name
  sanitize_name-sanitize_name name =
      sanitize_name_fixed (sanitize_name lower name) (sanitize_name-IsClean lower name)
