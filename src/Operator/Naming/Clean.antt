-- ===== src/Operator/Naming/Clean.antt =====
-- The texts that `sanitize_name` can return, and that it returns only those.
use Prim.Native.Char.{Char}
use Prim.Native.String.{[], ◌∷◌}
use openstack_keystone.Prelude.{
  String, ◌≡◌, refl, Bool, true, false, ◌&&◌, inl, inr, if◌then◌else◌, ◌==◌, Bool-cases, arith,
}
use openstack_keystone.Operator.Naming.{
  is_allowed, is_hyphen, starts_hyphen, replace_separators, keep_allowed, collapse, strip_left,
  strip_right, sanitize_name,
}

abbrev pub ends_hyphen : String → Bool
ends_hyphen [] = false
ends_hyphen (c ∷ s) = if s == "" then is_hyphen c else ends_hyphen s

-- Every character is a lower-case letter, a digit or a hyphen.
abbrev pub AllAllowed : String → Type 0
AllAllowed [] = Unit
AllAllowed (c ∷ s) = (is_allowed c ≡ true) × AllAllowed s

-- No two hyphens stand together.
abbrev pub NoDouble : String → Type 0
NoDouble [] = Unit
NoDouble (c ∷ s) = ((is_hyphen c && starts_hyphen s) ≡ false) × NoDouble s

pub record IsClean (s : String) : Type 0 where
  pub allowed : AllAllowed s
  pub single : NoDouble s
  pub no_start : starts_hyphen s ≡ false
  pub no_end : ends_hyphen s ≡ false

and_false : (a b : Bool) → (a && b) ≡ false → b ≡ true → a ≡ false
and_false true b h e = ground arith
and_false false b h e = refl

AllAllowed-keep_allowed : (s : String) → AllAllowed (keep_allowed s)
unfolding keep_allowed
AllAllowed-keep_allowed [] = tt
AllAllowed-keep_allowed (c ∷ s) = ground (arith, AllAllowed-keep_allowed s)

AllAllowed-collapse : (s : String) → AllAllowed s → AllAllowed (collapse s)
unfolding collapse
AllAllowed-collapse [] h = tt
AllAllowed-collapse (c ∷ s) h = ground (arith, AllAllowed-collapse s h.1)

-- Collapsing does not change whether a text begins with a hyphen.
pub starts_hyphen-collapse : (s : String) → starts_hyphen (collapse s) ≡ starts_hyphen s
unfolding collapse
starts_hyphen-collapse [] = refl
starts_hyphen-collapse (c ∷ s) = ground (arith, starts_hyphen-collapse s)

NoDouble-collapse : (s : String) → NoDouble (collapse s)
unfolding collapse
NoDouble-collapse [] = tt
NoDouble-collapse (c ∷ s) = ground (arith, NoDouble-collapse s, starts_hyphen-collapse s)

-- What `strip_left` keeps.
strip_left_lem :
    (s : String)
    → AllAllowed s
    → NoDouble s
    → AllAllowed (strip_left s) × NoDouble (strip_left s) × (starts_hyphen (strip_left s) ≡ false)
unfolding strip_left
strip_left_lem [] h k = (tt, tt, refl)
strip_left_lem (c ∷ s) h k = ground (arith, strip_left_lem s h.1 k.1)

starts_hyphen-strip_right :
    (s : String) → starts_hyphen s ≡ false → starts_hyphen (strip_right s) ≡ false
unfolding strip_right
starts_hyphen-strip_right [] h = refl
starts_hyphen-strip_right (c ∷ s) h = ground arith

-- A hyphen is at the end only if it is the last character or the rest ends with one.
ends_hyphen-cons :
    (c : Char) (s : String)
    → (is_hyphen c && (s == "")) ≡ false
    → ends_hyphen s ≡ false
    → ends_hyphen (c ∷ s) ≡ false
ends_hyphen-cons c s kept h = elim (Bool-cases (s == "")) [
  | inl empty ↦ rw empty (and_false (is_hyphen c) (s == "") kept empty)
  | inr more ↦ rw more h
]

AllAllowed-strip_right : (s : String) → AllAllowed s → AllAllowed (strip_right s)
unfolding strip_right
AllAllowed-strip_right [] h = tt
AllAllowed-strip_right (c ∷ s) h =
    let ih = AllAllowed-strip_right s h.1 in
    elim (Bool-cases (is_hyphen c && (strip_right s == ""))) [
      | inl dropped ↦ rw dropped tt
      | inr kept ↦ rw kept (h.0, ih)
    ]

NoDouble-strip_right : (s : String) → NoDouble s → NoDouble (strip_right s)
unfolding strip_right
NoDouble-strip_right [] h = tt
NoDouble-strip_right (c ∷ s) h =
    let ih = NoDouble-strip_right s h.1 in
    elim (Bool-cases (is_hyphen c && (strip_right s == ""))) [
      | inl dropped ↦ rw dropped tt
      | inr kept ↦ rw kept (ground (arith, h.0, starts_hyphen-strip_right s), ih)
    ]

-- Nothing is left of a text whose last hyphen was the whole rest.
ends_hyphen-strip_right : (s : String) → ends_hyphen (strip_right s) ≡ false
unfolding strip_right
ends_hyphen-strip_right [] = refl
ends_hyphen-strip_right (c ∷ s) =
    let ih = ends_hyphen-strip_right s in
    elim (Bool-cases (is_hyphen c && (strip_right s == ""))) [
      | inl dropped ↦ rw dropped refl
      | inr kept ↦ rw kept (ends_hyphen-cons c (strip_right s) kept ih)
    ]

-- Whatever `str.lower` does, the sanitized name has only lower-case ASCII letters, digits and
-- hyphens, no two hyphens together, and none at either end.
pub sanitize_name-IsClean :
    (lower : String → String) (name : String) → IsClean (sanitize_name lower name)
unfolding sanitize_name
sanitize_name-IsClean lower name =
    let kept = keep_allowed (lower (replace_separators name)) in
    let s = collapse kept in
    let allowed =
      AllAllowed-collapse kept (AllAllowed-keep_allowed (lower (replace_separators name))) in
    let stripped = strip_left_lem s allowed (NoDouble-collapse kept) in
    record {
      allowed = AllAllowed-strip_right (strip_left s) stripped.0;
      single = NoDouble-strip_right (strip_left s) stripped.1;
      no_start = starts_hyphen-strip_right (strip_left s) stripped.2;
      no_end = ends_hyphen-strip_right (strip_left s);
    }
