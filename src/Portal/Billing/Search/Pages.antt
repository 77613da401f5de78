-- ===== src/Portal/Billing/Search/Pages.antt =====
-- How many requests a search makes.
use openstack_keystone.Prelude.{
  ℕ, zero, suc, ◌+◌, ◌*◌, ◌≤◌, ◌<◌, any, String, ◌≡◌, ◌≢◌, refl, sym, ap, ◌∙◌, Bool, false, ◌||◌,
  ◌==◌, Option, none, some, List, [], ◌∷◌, arith, ltb, eqb, length, Bool-cases, Option-cases, inl,
  inr,
}
use openstack_keystone.Exec.{Error, Result, ok, err, Exec, pure, raise, lift, continue, ◌>>=◌}
use openstack_keystone.Exec.Inversion.{ok-eq, Result-cases}
use openstack_keystone.Dict.{Dict}
use openstack_keystone.Portal.Billing.Search.{
  Resource, is_blank, not_after, see, see_resource, see_page, next_step, after_page, page_size,
  max_resources, Response, Seen, Step, done, more, page_of, step_of, search_from,
}

err-ne-ok : {A : Type 0} {e : Error} {a : A} → err e ≡ ok a → ⊥
err-ne-ok h = cc

-- However it ends, the action adds at most `k` to a count.
record Adds {S A : Type 0} (count : S → ℕ) (k : ℕ) (m : Exec S A) : Type 0 where
  at : (s : S) → count (m s).1 ≤ k + count s

module _ {S : Type 0} {count : S → ℕ} where
  Adds-pure : {A : Type 0} (a : A) (k : ℕ) → Adds count k (pure a)
  unfolding pure
  Adds-pure a k = record { at = λ s. omega arith }

  Adds-continue :
      {A B : Type 0} (i j : ℕ) (r : Result A) (f : A → Exec S B) (s t : S)
      → count t ≤ i + count s
      → ((a : A) → Adds count j (f a))
      → count (continue r f t).1 ≤ (i + j) + count s
  Adds-continue i j (ok a) f s t h k = let g = (k a).at t in omega arith
  Adds-continue i j (err e) f s t h k = omega arith

  -- The first part counts once.
  Adds-first :
      {A B : Type 0} (j : ℕ) (m : Exec S A) (f : A → Exec S B)
      → ((s : S) → count (m s).1 ≤ suc (count s))
      → ((a : A) → Adds count j (f a))
      → Adds count (suc j) (m >>= f)
  unfolding ◌>>=◌
  Adds-first j m f h k = record {
    at = λ s.
        let one = h s in
        let g = Adds-continue 1 j (m s).0 f s (m s).1 (omega arith) k in omega arith;
  }

  continue-Adds :
      {A B : Type 0} (j : ℕ) (r : Result A) (f : A → Exec S B) (s : S)
      → ((a : A) → r ≡ ok a → Adds count j (f a))
      → count (continue r f s).1 ≤ j + count s
  continue-Adds j (ok a) f s k = (k a refl).at s
  continue-Adds j (err e) f s k = omega arith

  -- The first part does not touch the state.
  Adds-lift :
      {A B : Type 0} (j : ℕ) (r : Result A) (f : A → Exec S B)
      → ((a : A) → r ≡ ok a → Adds count j (f a))
      → Adds count j (lift r >>= f)
  unfolding ◌>>=◌
  Adds-lift j r f k = record { at = λ s. continue-Adds j r f s k }

le_of_ltb : (a b : ℕ) → ltb a b ≡ false → b ≤ a
le_of_ltb a b h = ground arith

ne_of_eqb : (a b : ℕ) → eqb a b ≡ false → a ≢ b
ne_of_eqb a b h = ground arith

done-ne-more : {b : Bool} {m : String} {s : Seen} → ok (done b) ≡ ok (more m s) → ⊥
done-ne-more h = cc

more-eq : {m n : String} {s t : Seen} → ok (more m s) ≡ ok (more n t) → s ≡ t
more-eq h = cc

module _ (strip : String → String) (family_markers : Option (List String)) where
  see-count :
      (seen s : Seen) (id : String) (metrics : Dict (Option String))
      → see strip family_markers seen id metrics ≡ ok s
      → (s.resource_count ≡ suc seen.resource_count) × (s.resource_count ≤ 10000)
  unfolding see
  see-count seen s id metrics h =
      let blank =
        is_blank strip (some id)
        || any (λ (m : String × Option String). is_blank strip (some m.0) || is_blank strip m.1)
            metrics in
      let behind = not_after id seen.previous_id in
      let full = ltb max_resources (suc seen.resource_count) in
      elim (Bool-cases blank) [
        | inl e₁ ↦ absurd (err-ne-ok (rw e₁ at h))
        | inr e₁ ↦ elim (Bool-cases behind) [
          | inl e₂ ↦ absurd (err-ne-ok (rw e₂ at (rw e₁ at h)))
          | inr e₂ ↦ elim (Bool-cases full) [
            | inl e₃ ↦ absurd (err-ne-ok (rw e₃ at (rw e₂ at (rw e₁ at h))))
            | inr e₃ ↦
                let found = ok-eq (rw e₃ at (rw e₂ at (rw e₁ at h))) in
                let room = le_of_ltb max_resources (suc seen.resource_count) e₃ in
                rw (← found) (refl, room)
          ]
        ]
      ]

  see_resource-count :
      (seen s : Seen) (r : Option Resource)
      → see_resource strip family_markers seen r ≡ ok s
      → (s.resource_count ≡ suc seen.resource_count) × (s.resource_count ≤ 10000)
  unfolding see_resource
  see_resource-count seen s none h = cc
  see_resource-count seen s (some r) h = elim (Option-cases r.id) [
    | inl e ↦ absurd (err-ne-ok (rw (e, see_resource) at h))
    | inr (id, e) ↦ elim (Option-cases r.metrics) [
      | inl e' ↦ absurd (err-ne-ok (rw (e, e', see_resource) at h))
      | inr (metrics, e') ↦ see-count seen s id metrics (rw (e, e', see_resource) at h)
    ]
  ]

  -- A page adds its resources to the count, which stays within the maximum.
  see_page-count :
      (rs : List (Option Resource)) (seen s : Seen)
      → seen.resource_count ≤ 10000
      → see_page strip family_markers seen rs ≡ ok s
      → (s.resource_count ≡ seen.resource_count + length rs) × (s.resource_count ≤ 10000)
  unfolding see_page
  see_page-count [] seen s small h =
      let same = ap (λ (x : Seen). x.resource_count) (ok-eq h) in (omega arith, rw (← same) small)
  see_page-count (r ∷ rs) seen s small h =
      elim (Result-cases (see_resource strip family_markers seen r)) [
        | inr (e, failed) ↦ absurd (err-ne-ok (rw (failed, see_page) at h))
        | inl (seen₁, first) ↦
            let (one, small₁) = see_resource-count seen seen₁ r first in
            let (rest, small₂) = see_page-count rs seen₁ s small₁ (rw (first, see_page) at h) in
            (omega arith, small₂)
      ]

  next_step-more :
      (marker : Option String) (seen s : Seen) (m : String)
      → next_step strip family_markers marker seen ≡ ok (more m s)
      → s.resource_count ≡ seen.resource_count
  unfolding next_step
  next_step-more marker seen s m h = elim (Option-cases seen.previous_id) [
    | inl e ↦ absurd (err-ne-ok (rw (e, next_step) at h))
    | inr (next_marker, e) ↦
        elim (Bool-cases (elim marker [ none ↦ false | some m ↦ next_marker == m ])) [
          | inl same ↦ absurd (err-ne-ok (rw same at (rw (e, next_step) at h)))
          | inr other ↦
              sym (
                ap (λ (x : Seen). x.resource_count)
                  (more-eq (rw other at (rw (e, next_step) at h))))
        ]
  ]

  -- A search goes on only after a full page, and below the maximum of resources.
  after_page-more :
      (n : ℕ) (marker : Option String) (count : ℕ) (seen s : Seen) (m : String)
      → after_page strip family_markers n marker count seen ≡ ok (more m s)
      → (100 ≤ count)
        × (s.resource_count ≡ seen.resource_count)
        × (eqb seen.resource_count 10000 ≡ false)
  unfolding after_page
  after_page-more n marker count seen s m h = elim (Bool-cases seen.expected_family_found) [
    | inl e₁ ↦ absurd (done-ne-more (rw e₁ at h))
    | inr e₁ ↦ elim (Bool-cases (ltb count page_size)) [
      | inl e₂ ↦ absurd (done-ne-more (rw e₂ at (rw e₁ at h)))
      | inr e₂ ↦ elim (Bool-cases (eqb n 0 || eqb seen.resource_count max_resources)) [
        | inl e₃ ↦ absurd (err-ne-ok (rw e₃ at (rw e₂ at (rw e₁ at h))))
        | inr e₃ ↦ (
          le_of_ltb count page_size e₂,
          next_step-more marker (record seen { expected_family_found = false }) s m
              (rw e₃ at (rw e₂ at (rw e₁ at h))),
          ground arith,
        )
      ]
    ]
  ]

  -- A page after which the search goes on adds a hundred resources and does not reach the maximum.
  step_of-more :
      (n : ℕ) (marker : Option String) (seen s : Seen) (rs : List (Option Resource)) (m : String)
      → seen.resource_count ≤ 10000
      → step_of strip family_markers n marker seen rs ≡ ok (more m s)
      → (100 + seen.resource_count ≤ s.resource_count) × (s.resource_count < 10000)
  unfolding step_of
  step_of-more n marker seen s [] m small h = absurd (done-ne-more h)
  step_of-more n marker seen s (r ∷ rs) m small h =
      let from = record seen { expected_family_found = false } in
      elim (Result-cases (see_page strip family_markers from (r ∷ rs))) [
        | inr (e, failed) ↦ absurd (err-ne-ok (rw (failed, step_of) at h))
        | inl (seen₁, page) ↦
            let (sum, small₁) = see_page-count (r ∷ rs) from seen₁ small page in
            let (full, same, below) =
              after_page-more n marker (length (r ∷ rs)) seen₁ s m (rw (page, step_of) at h) in
            let under = ne_of_eqb seen₁.resource_count 10000 below in
            rw same (omega arith, omega arith)
      ]

module _ (strip : String → String) (family_markers : Option (List String)) {W : Type 0}
    (post : Option String → Exec W Response) (requests : W → ℕ)
    (post_counts : (marker : Option String) (w : W)
      → requests (post marker w).1 ≤ suc (requests w)) where
  step_counts :
      (n k : ℕ) (step : Step)
      → ((marker : String) (seen : Seen)
          → ok step ≡ ok (more marker seen)
          → Adds requests k (search_from strip family_markers post n (some marker) seen))
      → Adds requests k (elim step [
        | done found ↦ pure found
        | more next_marker seen' ↦ search_from strip family_markers post n (some next_marker) seen'
      ])
  step_counts n k (done found) next = Adds-pure found k
  step_counts n k (more next_marker seen') next = next next_marker seen' refl

  -- `k` pages of a hundred resources are enough to reach the maximum.
  search_from_counts :
      (n k : ℕ) (marker : Option String) (seen : Seen)
      → seen.resource_count ≤ 10000
      → 10000 ≤ 100 * suc k + seen.resource_count
      → Adds requests (suc k) (search_from strip family_markers post n marker seen)
  unfolding search_from
  search_from_counts zero k marker seen small enough = record {
    at = λ w. unfold raise in omega arith;
  }
  search_from_counts (suc n) zero marker seen small enough =
      Adds-first 0 (post marker) _ (post_counts marker) λ response.
        Adds-lift 0 (page_of strip family_markers response) _ λ resources _.
          Adds-lift 0 (step_of strip family_markers n marker seen resources) _ λ step e.
            step_counts n 0 step λ next seen' goes_on.
              let found =
                step_of-more strip family_markers n marker seen seen' resources next small
                  (e ∙ goes_on) in
              absurd (omega arith)
  search_from_counts (suc n) (suc k) marker seen small enough =
      Adds-first (suc k) (post marker) _ (post_counts marker) λ response.
        Adds-lift (suc k) (page_of strip family_markers response) _ λ resources _.
          Adds-lift (suc k) (step_of strip family_markers n marker seen resources) _ λ step e.
            step_counts n (suc k) step λ next seen' goes_on.
              let found =
                step_of-more strip family_markers n marker seen seen' resources next small
                  (e ∙ goes_on) in
              search_from_counts n k (some next) seen' (omega arith) (omega arith)

  -- Where a request adds at most one to a count, a search from its beginning adds at most 100,
  -- whatever Gnocchi answers and however many pages it may read: it goes on only after a full page
  -- of 100 resources, and stops at 10000.
  pub search_from_requests :
      (n : ℕ) (w : W)
      → requests
          (search_from strip family_markers post n none
            (record { previous_id = none; resource_count = 0; expected_family_found = false })
            w).1
        ≤ 100 + requests w
  search_from_requests n w =
      (search_from_counts n 99 none
          (record { previous_id = none; resource_count = 0; expected_family_found = false })
          (omega arith) (omega arith)).at
        w
