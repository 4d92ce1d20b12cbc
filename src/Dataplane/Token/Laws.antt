-- ===== src/Dataplane/Token/Laws.antt =====
-- What a credential is good for.
use kubebox.Common.{
  ◌∷◌, [], List, Text, text_eq, text_eq_iff, text_eq_refl, split, split_at_sep, split_no_sep,
  has_byte, contains_text, ltb_ℤ, ℤ, ◌+ℤ◌, Option, none, some, true, false, ◌&&◌, if◌then◌else◌,
  ◌≡◌, refl, arith, Bool-cases, inl, inr,
}
use kubebox.Governance.{Time}
use kubebox.Dataplane.Token.{
  Codec, CredentialEnvelope, TokenPayload, TokenIssuer, ok, err, rejected, dot, payload_of, sign,
  issue, check_payload, read_payload, check_signature, check_parts, validate,
}

-- The documented behaviour of base64: decoding undoes encoding, and the encoded alphabet has no
-- dot.
pub record IsCodec (codec : Codec) : Type 0 where
  pub decode-encode : (s : Text) → codec.decode (codec.encode s) ≡ some s
  pub no_dot : (s : Text) → has_byte dot (codec.encode s) ≡ false

module _ (codec : Codec) where
  open codec use {hmac, encode, decode, marshal, unmarshal, unix}

  validate-sign :
      (i : TokenIssuer) (now : Time) (p : TokenPayload) (id scope : Text)
      → IsCodec codec
      → unmarshal (marshal p) ≡ some p
      → validate codec i now (sign codec i (encode (marshal p))) id scope
        ≡ check_payload codec (some p) now id scope
  unfolding validate sign
  validate-sign i now p id scope c intact = rw (
    split_at_sep dot (encode (marshal p)) (encode (hmac i.secret (encode (marshal p))))
        (c.no_dot (marshal p)),
    split_no_sep dot (encode (hmac i.secret (encode (marshal p))))
        (c.no_dot (hmac i.secret (encode (marshal p)))),
    c.decode-encode (hmac i.secret (encode (marshal p))),
    text_eq_refl (hmac i.secret (encode (marshal p))),
    c.decode-encode (marshal p),
    intact,
  )

  -- If JSON brings its payload back, as it does for text in UTF-8, a token that was issued is
  -- accepted by its issuer for exactly the sandbox and the scopes that it was issued for, and only
  -- before it expires; the answer is then the envelope it was issued with, and a rejection in every
  -- other case.
  pub validate-issue :
      (i : TokenIssuer) (now later : Time) (sandbox_id id scope token : Text) (scopes : List Text)
      (ttl : ℤ)
      → IsCodec codec
      → unmarshal (marshal (payload_of codec now sandbox_id scopes ttl))
        ≡ some (payload_of codec now sandbox_id scopes ttl)
      → issue codec i now sandbox_id scopes ttl ≡ ok token
      → validate codec i later token id scope ≡ (
          if text_eq sandbox_id id
            && ltb_ℤ (unix later) (unix (now +ℤ ttl))
            && contains_text scopes scope
          then ok
              (record { sandbox_id = sandbox_id; scopes = scopes; expires_at = unix (now +ℤ ttl) })
          else err rejected)
  unfolding issue check_payload payload_of
  validate-issue i now later sandbox_id id scope token scopes ttl c intact h =
      let made : sign codec i (encode (marshal (payload_of codec now sandbox_id scopes ttl)))
          ≡ token =
        ground arith in
      rw
        (
          ← made,
          validate-sign i later (payload_of codec now sandbox_id scopes ttl) id scope c intact,
        )
        (ground arith)

  check_payload-ok :
      (o : Option TokenPayload) (now : Time) (id scope : Text) (e : CredentialEnvelope)
      → check_payload codec o now id scope ≡ ok e
      → (p : TokenPayload) × (o ≡ some p)
        × (e ≡ p.envelope)
        × (e.sandbox_id ≡ id)
        × (ltb_ℤ (unix now) e.expires_at ≡ true)
        × (contains_text e.scopes scope ≡ true)
  unfolding check_payload
  check_payload-ok none now id scope e h = cc
  check_payload-ok (some p) now id scope e h = (
    p,
    refl,
    ground arith,
    ground (arith, text_eq_iff p.envelope.sandbox_id id),
    ground arith,
    ground arith,
  )

  -- What an accepted token proves: it is a payload and the issuer's own signature of it, joined by
  -- a dot; the payload decodes to the envelope that is returned; and that envelope names the
  -- sandbox, has not expired and grants the scope.
  pub record IsGenuine (i : TokenIssuer) (now : Time) (token id scope : Text)
      (e : CredentialEnvelope) : Type 0 where
    pub encoded : Text
    pub signature : Text
    pub bytes : Text
    pub payload : TokenPayload
    pub parts : split dot token ≡ encoded ∷ signature ∷ []
    pub signed : decode signature ≡ some (hmac i.secret encoded)
    pub decoded : decode encoded ≡ some bytes
    pub parsed : unmarshal bytes ≡ some payload
    pub same : e ≡ payload.envelope
    pub for_sandbox : e.sandbox_id ≡ id
    pub alive : ltb_ℤ (unix now) e.expires_at ≡ true
    pub granted : contains_text e.scopes scope ≡ true

  read_payload-ok :
      (o : Option Text) (now : Time) (id scope : Text) (e : CredentialEnvelope)
      → read_payload codec o now id scope ≡ ok e
      → (bytes : Text) × (o ≡ some bytes)
        × (check_payload codec (unmarshal bytes) now id scope ≡ ok e)
  unfolding read_payload
  read_payload-ok none now id scope e h = cc
  read_payload-ok (some bytes) now id scope e h = (bytes, refl, h)

  check_signature-ok :
      (o : Option Text) (i : TokenIssuer) (encoded : Text) (now : Time) (id scope : Text)
      (e : CredentialEnvelope)
      → check_signature codec o i encoded now id scope ≡ ok e
      → (o ≡ some (hmac i.secret encoded))
        × (read_payload codec (decode encoded) now id scope ≡ ok e)
  unfolding check_signature
  check_signature-ok none i encoded now id scope e h = cc
  check_signature-ok (some provided) i encoded now id scope e h =
      elim (Bool-cases (text_eq (hmac i.secret encoded) provided)) [
        | inr bad ↦ cc (rw bad at h)
        | inl good ↦ (rw ((text_eq_iff (hmac i.secret encoded) provided).0 good), rw good at h)
      ]

  parts-IsGenuine :
      (i : TokenIssuer) (now : Time) (token id scope : Text) (e : CredentialEnvelope)
      (parts : List Text)
      → split dot token ≡ parts
      → check_parts codec parts i now id scope ≡ ok e
      → IsGenuine i now token id scope e
  unfolding check_parts
  parts-IsGenuine i now token id scope e (encoded ∷ signature ∷ []) s h =
      let (signed, h₁) = check_signature-ok (decode signature) i encoded now id scope e h in
      let (bytes, decoded, h₂) = read_payload-ok (decode encoded) now id scope e h₁ in
      let (p, parsed, same, named, alive, granted) =
        check_payload-ok (unmarshal bytes) now id scope e h₂ in
      record {
        encoded = encoded;
        signature = signature;
        bytes = bytes;
        payload = p;
        parts = s;
        signed = signed;
        decoded = decoded;
        parsed = parsed;
        same = same;
        for_sandbox = named;
        alive = alive;
        granted = granted;
      }
  parts-IsGenuine i now token id scope e _ s h = cc

  -- Whatever the codec does, a token that is accepted is genuine.
  pub validate-IsGenuine :
      (i : TokenIssuer) (now : Time) (token id scope : Text) (e : CredentialEnvelope)
      → validate codec i now token id scope ≡ ok e
      → IsGenuine i now token id scope e
  unfolding validate
  validate-IsGenuine i now token id scope e h = parts-IsGenuine i now token id scope e _ refl h
