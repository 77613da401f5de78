-- ===== src/Operator/Registry/View.antt =====
-- What each registry operation does to the resources that the ConfigMap stands for.
use text.Mathlib.TextLemmas.{append_cancel_right}
use openstack_keystone.Prelude.{
  ℕ, String, ◌≡◌, ◌≢◌, refl, ap, ◌∙◌, true, false, Option, none, some, arith, eqb, ◌==◌, eq_iff,
  eq_refl, if◌then◌else◌, or_else, concat, is_some, Bool-cases, inl, inr,
}
use openstack_keystone.Exec.{api_exception, Result, ok, err, pure, lift, ◌>>=◌}
use openstack_keystone.Exec.Quiet.{IsOk}
use openstack_keystone.Exec.Inversion.{>>=-eq-ok, >>=-IsOk}
use openstack_keystone.Dict.{Dict, lookup, insert, remove, has, lookup-insert, lookup-remove}
use openstack_keystone.Operator.Registry.{
  Info, Resources, Json, ConfigMapApi, configmap_name, entry, create_if_missing, get_configmap,
  update_configmap, get_resources, set_resources, register, unregister,
}
use openstack_keystone.Operator.Registry.Laws.{SameInfo, SameInfo-refl, JsonLaws, ConfigMapLaws}

abbrev pub key_of : String → String
key_of resource_type = concat resource_type ".json"

key_of_ne : (s t : String) → s ≢ t → (key_of s == key_of t) ≡ false
key_of_ne s t ne = elim (Bool-cases (key_of s == key_of t)) [
  | inl same ↦ absurd (ne (append_cancel_right s t ".json" ((eq_iff (key_of s) (key_of t)).0 same)))
  | inr other ↦ other
]

has_false : (o : Option Info) → is_some o ≡ false → o ≡ none
has_false none h = refl
has_false (some a) h = cc

-- Of a name that is not there nothing is to be removed.
missing_same :
    (n k : String) (r : Resources)
    → has n r ≡ false
    → SameInfo (lookup k r) (if n == k then none else lookup k r)
missing_same n k r unknown = elim (Bool-cases (n == k)) [
  | inl same ↦ rw same (rw (← (eq_iff n k).0 same) (rw (has_false (lookup n r) unknown) tt))
  | inr other ↦ rw other (SameInfo-refl (lookup k r))
]

eqb_eq : (a b : ℕ) → eqb a b ≡ true → a ≡ b
eqb_eq a b h = ground arith

module _ {W T : Type 0} {api : ConfigMapApi W T} {namespace : String}
    (store : ConfigMapLaws api namespace) where
  open store use {stored, read_ok, read_missing, read_keeps, create_ok, patch_ok}

  configmap_by_result :
      (w : W) (found : Dict T) (r : Result (Option (Dict T)))
      → (api.read_namespaced_config_map configmap_name namespace w).0 ≡ r
      → (get_configmap api namespace w).0 ≡ ok found
      → (k : String)
      → (lookup k found ≡ lookup k (stored w))
        × (lookup k (stored (get_configmap api namespace w).1) ≡ lookup k (stored w))
  unfolding get_configmap create_if_missing ◌>>=◌ lookup
  configmap_by_result w found (ok f) e h k = ground (arith, read_ok w f k, read_keeps w)
  configmap_by_result w found (err (api_exception status m)) e h k =
      elim (Bool-cases (eqb status 404)) [
        | inl missing ↦
            let e404 = e ∙ ap (λ n. err (api_exception n m)) (eqb_eq status 404 missing) in
            ground (
              arith,
              read_missing w m k e404,
              create_ok (api.read_namespaced_config_map configmap_name namespace w).1 k,
            )
        | inr other ↦ ground arith
      ]
  configmap_by_result w found (err x) e h k = ground arith

  -- `_get_configmap` returns the stored data and leaves it as it is.
  get_configmap_lem :
      (w : W) (found : Dict T)
      → (get_configmap api namespace w).0 ≡ ok found
      → (k : String)
      → (lookup k found ≡ lookup k (stored w))
        × (lookup k (stored (get_configmap api namespace w).1) ≡ lookup k (stored w))
  get_configmap_lem w found h k =
      configmap_by_result w found (api.read_namespaced_config_map configmap_name namespace w).0 refl
        h k

  -- `_set_resources` replaces the text of one type and no other.
  set_resources_lem :
      (json : Json T) (t : String) (r : Resources) (w : W)
      → IsOk (set_resources api json namespace t r w).0
      → (k : String)
      → lookup k (stored (set_resources api json namespace t r w).1)
        ≡ (if key_of t == k then some (json.dumps r) else lookup k (stored w))
  unfolding set_resources update_configmap
  set_resources_lem json t r w h k =
      let m = get_configmap api namespace in
      let patch = λ (found : Dict T). insert (key_of t) (json.dumps r) found in
      let (found, e, after) =
        >>=-IsOk m (λ found. update_configmap api namespace (patch found)) w h in
      let w' = (m w).1 in
      rw after (
        patch_ok w' (patch found) k (rw after at h)
        ∙ rw (lookup-insert (key_of t) k (json.dumps r) found)
            (ground (arith, get_configmap_lem w found e k)))

module _ {W T : Type 0} {api : ConfigMapApi W T} {namespace : String}
    (store : ConfigMapLaws api namespace) (json : Json T) where
  open store use {stored}

  -- The resources of a type as the ConfigMap has them.
  abbrev pub view : W → String → Result Resources
  view w resource_type =
      json.loads (or_else (lookup (key_of resource_type) (stored w)) json.empty_object)

  -- A reading of the resources returns the view and leaves the stored data as it is.
  pub get_resources_lem :
      (t : String) (w : W) (r : Resources)
      → (get_resources api json namespace t w).0 ≡ ok r
      → (view w t ≡ ok r)
        × ((k : String)
            → lookup k (stored (get_resources api json namespace t w).1) ≡ lookup k (stored w))
  unfolding get_resources lift
  get_resources_lem t w r h =
      let m = get_configmap api namespace in
      let rest = λ (found : Dict T).
        lift {S = W} (json.loads (or_else (lookup (key_of t) found) json.empty_object)) in
      let (found, e, after) = >>=-eq-ok m rest w r h in
      let same = get_configmap_lem store w found e in
      (rw (← (same (key_of t)).0, view) (rw after at h), λ k. rw after ((same k).1))

  -- The entry of one name is now `new`; all other entries, and all other types, are as before.
  abbrev pub Changes : String → String → Option Info → W → W → Type 0
  Changes t n new w w' =
      (r : Resources) × (r' : Resources) × (view w t ≡ ok r)
      × (view w' t ≡ ok r')
      × ((m : String) → SameInfo (lookup m r') (if n == m then new else lookup m r))
      × ((u : String) → t ≢ u → view w' u ≡ view w u)

  -- A successful write of the resources `r`, from a state where the data reads as in `w`.
  set_resources-Changes :
      (codec : JsonLaws json) (t : String) (r : Resources) (w w' : W)
      → ((k : String) → lookup k (stored w') ≡ lookup k (stored w))
      → IsOk (set_resources api json namespace t r w').0
      → let w'' = (set_resources api json namespace t r w').1 in
        (r' : Resources) × (view w'' t ≡ ok r')
        × ((m : String) → SameInfo (lookup m r') (lookup m r))
        × ((u : String) → t ≢ u → view w'' u ≡ view w u)
  set_resources-Changes codec t r w w' same h =
      let written = set_resources_lem store json t r w' h in
      let (r', e, found) = codec.loads-dumps r in
      (
        r',
        rw (written (key_of t), view) (rw (eq_refl (key_of t)) e),
        found,
        λ u ne. rw (written (key_of u), view) (rw (key_of_ne t u ne) (rw (same (key_of u)) refl)),
      )

  -- A `register` that succeeds sets the entry of its name to the given ID, CR and metadata, and
  -- changes no other entry and no other resource type.
  pub register-Changes :
      (codec : JsonLaws json) (t n id cr : String) (extra : Info) (w : W)
      → IsOk (register api json namespace t n id cr extra w).0
      → Changes t n (some (entry id cr extra)) w (register api json namespace t n id cr extra w).1
  unfolding register
  register-Changes codec t n id cr extra w h =
      let m = get_resources api json namespace t in
      let new = λ (r : Resources). insert n (entry id cr extra) r in
      let (r, e, after) = >>=-IsOk m (λ r. set_resources api json namespace t (new r)) w h in
      let (read, same) = get_resources_lem t w r e in
      let (r', e', found, others) =
        set_resources-Changes codec t (new r) w (m w).1 same (rw after at h) in
      (
        r,
        r',
        read,
        rw after e',
        λ k. rw (← lookup-insert n k (entry id cr extra) r) (found k),
        λ u ne. rw after (others u ne),
      )

  -- An `unregister` that succeeds leaves no entry of its name, and changes no other entry and no
  -- other resource type; of a name that is not there it writes nothing.
  pub unregister-Changes :
      (codec : JsonLaws json) (t n : String) (w : W)
      → IsOk (unregister api json namespace t n w).0
      → Changes t n none w (unregister api json namespace t n w).1
  unfolding unregister pure
  unregister-Changes codec t n w h =
      let m = get_resources api json namespace t in
      let (r, e, after) =
        >>=-IsOk m
          (λ r. if has n r then set_resources api json namespace t (remove n r) else pure tt) w h in
      let (read, same) = get_resources_lem t w r e in
      elim (Bool-cases (has n r)) [
        | inl known ↦
            let after' = rw known at after in
            let (r', e', found, others) =
              set_resources-Changes codec t (remove n r) w (m w).1 same (rw after' at h) in
            (
              r,
              r',
              read,
              rw after' e',
              λ k. rw (← lookup-remove n k r) (found k),
              λ u ne. rw after' (others u ne),
            )
        | inr unknown ↦
            let after' = rw unknown at after in
            (
              r,
              r,
              read,
              rw after' (rw (same (key_of t), view) read),
              λ k. missing_same n k r unknown,
              λ u ne. rw after' (rw (same (key_of u), view) refl),
            )
      ]
