-- ===== src/Agw/Identity.antt =====
-- The bootstrap identity of an AGW: internal/controller/agw_identity.go.
pub mod Stable
pub mod HardwareId
use Prim.Native.Nat.{bit_and, bit_or}
use magma_operator.Base.{
  ℕ, zero, suc, ◌/◌, ◌%◌, nat_eq, String, ◌<>◌, Bool, false, not, ◌||◌, Option, none, some, List,
  [], ◌∷◌, entry, insert, is_empty, or_default, if◌then◌else◌, equal_fold,
}
use magma_operator.Kube.Objects.{Secret, new_meta}
use magma_operator.Kube.Prog.{
  Kind, Prog, ret, send, ◌>>=◌, Result, ok, err, new_error, check, get, generate_key, random_bytes,
}
use magma_operator.Kube.Library.{Library}
use magma_operator.Api.Agw.{MagmaAgw}
use magma_operator.Agw.Names.{
  default_agw_identity_secret_name, default_agw_challenge_key_secret_key, label_app_managed_by,
  managed_by_magma_operator,
}

-- `agwIdentityState`
pub record IdentityState : Type 0 where
  pub secret_name : String
  pub hardware_id : String
  pub private_key_b64 : String
  pub public_key_b64 : String
  pub public_key_hash : String
  pub gateway_registered : Bool

-- `raw[i] = f(raw[i])`
unfoldable pub modify : ℕ → (ℕ → ℕ) → List ℕ → List ℕ
modify i f [] = []
modify zero f (b ∷ bs) = f b ∷ bs
modify (suc i) f (b ∷ bs) = b ∷ modify i f bs

-- A digit of `%x`
unfoldable pub hex_digit : ℕ → String
hex_digit n = elim n [
  | zero ↦ "0"
  | suc zero ↦ "1"
  | suc (suc zero) ↦ "2"
  | suc (suc (suc zero)) ↦ "3"
  | suc (suc (suc (suc zero))) ↦ "4"
  | suc (suc (suc (suc (suc zero)))) ↦ "5"
  | suc (suc (suc (suc (suc (suc zero))))) ↦ "6"
  | suc (suc (suc (suc (suc (suc (suc zero)))))) ↦ "7"
  | suc (suc (suc (suc (suc (suc (suc (suc k))))))) ↦
      if nat_eq k 0
      then "8"
      else if nat_eq k 1
      then "9"
      else if nat_eq k 2
      then "a"
      else if nat_eq k 3
      then "b"
      else if nat_eq k 4
      then "c"
      else if nat_eq k 5
      then "d"
      else if nat_eq k 6
      then "e"
      else "f"
]

-- `%x` of bytes, with the dashes that `newHardwareID` puts after bytes 4, 6, 8 and 10; `i` counts
-- the bytes before these.
unfoldable pub hex_groups : ℕ → List ℕ → String
unfolding hex_digit
hex_groups i [] = ""
hex_groups i (b ∷ bs) =
    (if nat_eq i 4 || nat_eq i 6 || nat_eq i 8 || nat_eq i 10 then "-" else "")
    <> hex_digit (b / 16)
    <> hex_digit (b % 16)
    <> hex_groups (suc i) bs

-- The version and variant bits of `newHardwareID`
unfoldable pub mark_uuid : List ℕ → List ℕ
unfolding modify
mark_uuid raw =
    modify 8 (λ b. bit_or (bit_and b 0x3f) 0x80) (modify 6 (λ b. bit_or (bit_and b 0x0f) 0x40) raw)

-- `newHardwareID`
unfoldable pub new_hardware_id : Prog (Result String)
unfolding mark_uuid hex_groups
new_hardware_id = do
  raw ← send (random_bytes 16)
  check raw (λ e. ret (err e)) (λ bytes. ret (ok (hex_groups 0 (mark_uuid bytes))))

module _ (L : Library) where
  -- `encodeECPrivateKeyPEM`
  unfoldable pub encode_ec_private_key_pem : String → Result String
  encode_ec_private_key_pem key =
      check (L.marshal_ec_private_key key) err (λ der. ok (L.encode_pem "EC PRIVATE KEY" der))

  -- The key in a PEM text, as `normalizePrivateKeyPEM` and `publicKeyBase64DER` both read it.
  unfoldable pub read_private_key : String → Result String
  read_private_key value = elim (L.decode_pem value) [
    | none ↦ err (new_error "AGW challenge key must be PEM encoded")
    | some block ↦
        check (L.parse_ec_private_key block)
          (λ e.
            check (L.parse_pkcs8_private_key block)
              (λ _. err (record e { message = "parse AGW challenge key: " <> e.message }))
              (λ parsed. elim parsed [
                | none ↦ err (new_error "AGW challenge key must be an ECDSA private key")
                | some key ↦ ok key
              ]))
          ok
  ]

  unfoldable pub normalize_private_key_pem : String → Result String
  normalize_private_key_pem value = check (read_private_key value) err encode_ec_private_key_pem

  unfoldable pub public_key_base64_der : String → Result String
  public_key_base64_der private_key_pem =
      check (read_private_key private_key_pem) err
        (λ key. check (L.marshal_public_key key) err (λ der. ok (L.base64_encode der)))

  -- `generateECDSAPrivateKeyPEM`
  unfoldable pub generate_ecdsa_private_key_pem : Prog (Result String)
  generate_ecdsa_private_key_pem = do
    key ← send generate_key
    check key (λ e. ret (err e)) (λ k. ret (encode_ec_private_key_pem k))

  -- `desiredAGWPrivateKey`: `none` is the nil slice.
  unfoldable pub desired_agw_private_key : MagmaAgw → Prog (Result (Option String))
  desired_agw_private_key agw = do
    let identity = agw.spec.identity
    let normalized : String → Prog (Result (Option String)) =
        λ value. ret (check (normalize_private_key_pem value) err (λ pem. ok (some pem)))
    let encoded = entry "config.gwChallenge" agw.spec.values
    let where_from = agw.meta.namespace <> "/" <> identity.import_secret_name
    let ref_key = or_default identity.import_secret_key default_agw_challenge_key_secret_key
    if not (is_empty identity.import_secret_name)
        then (do
          source ← send (get Kind.secret agw.meta.namespace identity.import_secret_name)
          check source
              (λ e. ret (
                err (record e {
                  message =
                      "read imported AGW challenge key secret " <> where_from <> ": " <> e.message;
                })))
              (λ s.
                if is_empty (entry ref_key s.contents)
                then ret (
                    err (
                      new_error (
                        "imported AGW challenge key secret " <> where_from <> " has no data[\""
                        <> ref_key <> "\"]")))
                else normalized (entry ref_key s.contents)))
        else if not (is_empty encoded)
        then check (L.base64_decode encoded)
            (λ e. ret (
              err (record e {
                message = "decode legacy spec.values.config.gwChallenge: " <> e.message;
              })))
            normalized
        else ret (ok none)

  -- The key that the mutation of `reconcileAGWIdentity` settles on: the desired one, or under
  -- `Rotate` and where none is desired the stored one, or else a new one.
  unfoldable pub choose_private_key : MagmaAgw → Option String → Secret → Prog (Result String)
  choose_private_key agw desired s = do
    let stored = entry default_agw_challenge_key_secret_key s.contents
    let key : String = elim desired [
      | none ↦ stored
      | some pem ↦ if equal_fold agw.spec.identity.rotation_policy "Rotate" then stored else pem
    ]
    if is_empty key then generate_ecdsa_private_key_pem else ret (ok key)

  -- The hardware id that it settles on: the specified one, the one among the values, the stored
  -- one, or else a new one.
  unfoldable pub choose_hardware_id : MagmaAgw → Secret → Prog (Result String)
  choose_hardware_id agw s = do
    let given = or_default agw.spec.identity.hardware_id (
        or_default (entry "gatewayIdentity.snowflake" agw.spec.values)
          (entry "hardware_id" s.contents))
    if is_empty given then new_hardware_id else ret (ok given)

  -- The fields that it writes.
  unfoldable pub write_identity : MagmaAgw → String → String → String → Secret → Secret
  write_identity agw private_key_pem public_key_b64 hardware_id s =
      let public_key_hash = L.sha256_hex public_key_b64 in
      record s {
        type = "Opaque";
        meta = record (s.meta) {
          labels =
              insert "magma.infra.don/identity" "agw"
                (insert label_app_managed_by managed_by_magma_operator s.meta.labels);
          annotations = insert "magma.infra.don/challenge-public-key-sha256" public_key_hash (
              insert "magma.infra.don/hardware-id" hardware_id (
                insert "magma.infra.don/access-gateway-id" agw.spec.access_gateway_id
                  s.meta.annotations));
        };
        contents = insert "hardware_id" hardware_id (
            insert "challenge_public_key.sha256" public_key_hash (
              insert "challenge_public_key.b64" public_key_b64 (
                insert "gw_challenge.key.b64" (L.base64_encode private_key_pem)
                  (insert default_agw_challenge_key_secret_key private_key_pem s.contents))));
      }

  -- The mutation that `reconcileAGWIdentity` hands to `CreateOrUpdate`.
  unfoldable pub mutate_identity : MagmaAgw → Option String → Secret → Prog (Result Secret)
  mutate_identity agw desired s = do
    chosen ← choose_private_key agw desired s
    check chosen (λ e. ret (err e))
        (λ private_key_pem. do
          hardware ← choose_hardware_id agw s
          check hardware (λ e. ret (err e))
              (λ hardware_id.
                check (public_key_base64_der private_key_pem) (λ e. ret (err e))
                  (λ public_key_b64.
                    let written = write_identity agw private_key_pem public_key_b64 hardware_id s in
                    ret (
                      check (L.set_controller_reference agw.meta written.meta) err
                        (λ owned. ok (record written { meta = owned }))))))

  -- `reconcileAGWIdentity`
  unfoldable pub reconcile_agw_identity : MagmaAgw → Prog (Result IdentityState)
  reconcile_agw_identity agw = do
    let secret_name = or_default agw.spec.identity.secret_name default_agw_identity_secret_name
    desired ← desired_agw_private_key agw
    check desired (λ e. ret (err e))
        (λ key. do
          written ←
              L.create_or_update Kind.secret
                (record {
                  meta = new_meta agw.meta.namespace secret_name;
                  type = "";
                  contents = [];
                })
                (mutate_identity agw key)
          check written (λ e. ret (err e))
              (λ _. do
                found ← send (get Kind.secret agw.meta.namespace secret_name)
                check found (λ e. ret (err e))
                    (λ s. do
                      let private_key_pem = entry default_agw_challenge_key_secret_key s.contents
                      check (public_key_base64_der private_key_pem) (λ e. ret (err e))
                          (λ public_key_b64. ret (
                            ok (record {
                              secret_name = secret_name;
                              hardware_id = entry "hardware_id" s.contents;
                              private_key_b64 = L.base64_encode private_key_pem;
                              public_key_b64 = public_key_b64;
                              public_key_hash = L.sha256_hex public_key_b64;
                              gateway_registered = false;
                            }))))))
