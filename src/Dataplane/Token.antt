-- ===== src/Dataplane/Token.antt =====
-- `TokenIssuer` of internal/dataplane/proxy.go: short-lived credentials, scoped to one sandbox.
pub mod Laws
use kubebox.Common.{
  ℕ, [], ◌∷◌, ◌++◌, List, Text, text_eq, is_empty, length, split, contains_text, ltb, leb_ℤ, ℤ, pos,
  ◌+ℤ◌, Option, none, some, Bool, not, ◌||◌, if◌then◌else◌,
}
use kubebox.Governance.{Time}

pub record CredentialEnvelope : Type 0 where
  pub sandbox_id : Text
  pub scopes : List Text
  pub expires_at : ℤ

pub record TokenPayload : Type 0 where
  pub envelope : CredentialEnvelope
  pub issued_at : ℤ

-- What the issuer calls: HMAC-SHA256 of a message under a secret, the raw URL encoding of base64,
-- JSON for a payload, and the seconds of a time since 1970.
pub record Codec : Type 0 where
  pub hmac : Text → Text → Text
  pub encode : Text → Text
  pub decode : Text → Option Text
  pub marshal : TokenPayload → Text
  pub unmarshal : Text → Option TokenPayload
  pub unix : Time → ℤ

pub data TokenError : Type 0 where
  short_secret invalid_envelope invalid_signature invalid_payload rejected : TokenError

pub data Result {ℓ} (A : Type ℓ) : Type ℓ where
  ok : A → Result A
  err : TokenError → Result A

pub record TokenIssuer : Type 0 where
  pub secret : Text

unfoldable pub new_token_issuer : Text → Result TokenIssuer
new_token_issuer secret =
    if ltb (length secret) 32 then err short_secret else ok (record { secret = secret })

-- The byte `.`.
abbrev pub dot : ℕ
dot = 46

module _ (codec : Codec) where
  open codec use {hmac, encode, decode, marshal, unmarshal, unix}

  unfoldable pub payload_of : Time → Text → List Text → ℤ → TokenPayload
  payload_of now sandbox_id scopes ttl = record {
    envelope = record { sandbox_id = sandbox_id; scopes = scopes; expires_at = unix (now +ℤ ttl) };
    issued_at = unix now;
  }

  -- The token for an encoded payload.
  unfoldable pub sign : TokenIssuer → Text → Text
  sign i encoded = encoded ++ (dot ∷ encode (hmac i.secret encoded))

  abbrev is_no_scope : List Text → Bool
  is_no_scope [] = Bool.true
  is_no_scope (s ∷ ss) = Bool.false

  unfoldable pub issue : TokenIssuer → Time → Text → List Text → ℤ → Result Text
  issue i now sandbox_id scopes ttl =
      if is_empty sandbox_id || is_no_scope scopes || leb_ℤ ttl (pos 0)
      then err invalid_envelope
      else ok (sign i (encode (marshal (payload_of now sandbox_id scopes ttl))))

  check_payload : Option TokenPayload → Time → Text → Text → Result CredentialEnvelope
  check_payload none now sandbox_id scope = err invalid_payload
  check_payload (some p) now sandbox_id scope =
      if not (text_eq p.envelope.sandbox_id sandbox_id)
        || leb_ℤ p.envelope.expires_at (unix now)
        || not (contains_text p.envelope.scopes scope)
      then err rejected
      else ok p.envelope

  read_payload : Option Text → Time → Text → Text → Result CredentialEnvelope
  unfolding check_payload
  read_payload none now sandbox_id scope = err invalid_payload
  read_payload (some bytes) now sandbox_id scope =
      check_payload (unmarshal bytes) now sandbox_id scope

  check_signature :
      Option Text → TokenIssuer → Text → Time → Text → Text → Result CredentialEnvelope
  unfolding read_payload
  check_signature none i encoded now sandbox_id scope = err invalid_signature
  check_signature (some provided) i encoded now sandbox_id scope =
      if not (text_eq (hmac i.secret encoded) provided)
      then err invalid_signature
      else read_payload (decode encoded) now sandbox_id scope

  check_parts : List Text → TokenIssuer → Time → Text → Text → Result CredentialEnvelope
  unfolding check_signature
  check_parts (encoded ∷ signature ∷ []) i now sandbox_id scope =
      check_signature (decode signature) i encoded now sandbox_id scope
  check_parts _ i now sandbox_id scope = err invalid_envelope

  unfoldable pub validate : TokenIssuer → Time → Text → Text → Text → Result CredentialEnvelope
  unfolding check_parts
  validate i now token sandbox_id scope = check_parts (split dot token) i now sandbox_id scope
