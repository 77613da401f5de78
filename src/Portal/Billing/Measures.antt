-- ===== src/Portal/Billing/Measures.antt =====
-- The measures of one group of usage (customer-portal/app/billing_runner.py, the inner loop of
-- `_query_gnocchi_usage`). A time is a number of microseconds in UTC.
use openstack_keystone.Prelude.{
  ℕ, ◌%◌, String, Bool, false, not, ◌||◌, Option, none, some, List, [], ◌∷◌, concat, eqb, ltb, leb,
  if◌then◌else◌,
}
use openstack_keystone.Exec.{exception, Result, ok, err}
use openstack_keystone.Portal.Numbers.{Decimals, pos}

-- What `datetime.fromisoformat` returns.
pub data Stamp : Type 0 where
  no_time : Stamp
  naive : Stamp
  aware : ℕ → Stamp

-- The timestamp is none where it is no text, a number none where it is no number.
pub record Measure (D : Type 0) : Type 0 where
  pub timestamp : Option String
  pub granularity : Option D
  pub value : Option D

pub record Period (D : Type 0) : Type 0 where
  pub begin : ℕ
  pub end : ℕ
  pub seconds : D

-- `hours`, `size_months` and `seen_timestamps`
pub record Measured (D : Type 0) : Type 0 where
  pub hours : D
  pub size_months : D
  pub seen_timestamps : List ℕ

abbrev pub refused : {A : Type 0} → String → Result A
refused what = err (exception (concat "Invalid Gnocchi " what))

unfoldable pub among : ℕ → List ℕ → Bool
among t [] = false
among t (x ∷ xs) = eqb x t || among t xs

module _ {D : Type 0} (d : Decimals D) (parse : String → Stamp) (period : Period D) where
  unfoldable pub stamp_of : Option String → Stamp
  stamp_of none = no_time
  stamp_of (some text) = parse text

  -- a measure whose time and numbers are known
  unfoldable pub count_measure : Measured D → ℕ → D → D → Result (Measured D)
  unfolding among
  count_measure m t granularity value =
      if ltb t period.begin
        || (leb period.end t || (not (eqb (t % 3600000000) 0) || among t m.seen_timestamps))
      then refused "timestamp"
      else if not (d.equal granularity (d.of_int (pos 3600)))
          || (not (d.is_finite value) || d.is_negative value)
      then refused "value"
      else ok (record {
        hours = d.add m.hours (d.of_int (pos 1));
        size_months = d.add m.size_months (d.divide (d.multiply value granularity) period.seconds);
        seen_timestamps = t ∷ m.seen_timestamps;
      })

  unfoldable pub see_measure : Measured D → Option (Measure D) → Result (Measured D)
  unfolding stamp_of count_measure
  see_measure m none = refused "measure"
  see_measure m (some raw) = elim (stamp_of raw.timestamp) [
    | no_time ↦ refused "timestamp"
    | naive ↦ refused "timestamp"
    | aware t ↦ elim raw.granularity [
      | none ↦ refused "value"
      | some granularity ↦ elim raw.value [
        | none ↦ refused "value"
        | some value ↦ count_measure m t granularity value
      ]
    ]
  ]

  -- the loop over the measures of a group
  unfoldable pub see_measures : Measured D → List (Option (Measure D)) → Result (Measured D)
  unfolding see_measure
  see_measures m [] = ok m
  see_measures m (x ∷ xs) = elim (see_measure m x) [ err e ↦ err e | ok m' ↦ see_measures m' xs ]
