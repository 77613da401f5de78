-- ===== src/Operator/TransitKey.antt =====
-- Transit keys in OpenBao (openstack-operator/src/resources/kms.py). The environment, the token file
-- and the HTTP requests are parameters; a request returns its status code, and its body is only
-- part of a message.
use openstack_keystone.Prelude.{
  ℕ, String, Bool, true, false, ◌||◌, Option, none, some, concat, eqb, present, truthy, or_else,
  if◌then◌else◌,
}
use openstack_keystone.Exec.{exception, Exec, pure, raise, ◌>>=◌, catch}

-- `BAO_ADDR`; the token file's text, stripped, where an unreadable file raises; and a request by
-- method and path, with the body's `type` where it has a body.
pub record BaoApi (W : Type 0) : Type 0 where
  pub address : Option String
  pub read_token : Exec W String
  pub request : String → String → String → String → Option String → Exec W ℕ

unfoldable pub kms_key_name : String → String
kms_key_name project_id = concat "kms-" project_id

module _ {W : Type 0} (bao : BaoApi W) where
  -- a file that cannot be read, or is empty, counts as not configured
  unfoldable pub bao_config : Exec W (Option (String × String))
  bao_config =
      if present bao.address
      then (do
        token ← catch bao.read_token (λ e. pure "")
        if truthy token then pure (some (or_else bao.address "", token)) else pure none)
      else pure none

  unfoldable pub send : Option (String × String) → String → String → Option String → Exec W ℕ
  send none method path body = raise (exception "OpenBao not configured (BAO_ADDR unset)")
  send (some (addr, token)) method path body = bao.request addr token method path body

  unfoldable pub bao_request : String → String → Option String → Exec W ℕ
  bao_request method path body = bao_config >>= λ cfg. send cfg method path body

  unfoldable pub create_transit_key : String → Exec W Bool
  create_transit_key name = do
    code ← bao_request "POST" (concat "/transit/keys/" name) (some "aes256-gcm96")
    if eqb code 200 || eqb code 204
        then pure true
        else raise (exception (concat "Bao create transit/keys/" name))

  unfoldable pub read_or_create_key : String → Exec W Bool
  read_or_create_key name = do
    code ← bao_request "GET" (concat "/transit/keys/" name) none
    if eqb code 200
        then pure true
        else if eqb code 404
        then create_transit_key name
        else raise (exception (concat "Bao GET transit/keys/" name))

  unfoldable pub ensure_transit_key : String → Exec W Bool
  ensure_transit_key project_id = bao_config >>= λ cfg. elim cfg [
    | none ↦ pure false
    | some c ↦ read_or_create_key (kms_key_name project_id)
  ]
