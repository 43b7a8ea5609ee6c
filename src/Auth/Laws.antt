-- ===== src/Auth/Laws.antt =====
-- What the tokens of internal/auth guarantee.
use be_miawai.Base.{
  ℕ, ◌≡◌, Text, List, some, ◌++◌, true, ◌∷◌, subst, ap, [], ◌≤◌, false, Bool-cases, ◌∙◌, ◌+◌,
  is_blank, text_eq, refl, inl, arith, sym, text_eq_refl, text_eq_sound, inr, Option-cases,
}
use be_miawai.Base.Split.{lacks, split, join, join-split, split-lacks, split-first}
use be_miawai.Auth.Session.{
  SessionCodec, sign_session, parse_session, parse_parts, SessionClaims, identity_of, claims_of,
}
use be_miawai.Base.Ints.{exceeds}
use be_miawai.Models.{SessionIdentity}
use be_miawai.Database.World.{ok}
use be_miawai.Auth.{unix}

-- The codecs' documented behaviour: what is encoded is read back, and neither base64 nor a base64
-- signature holds a dot.
pub record IsFaithful (codec : SessionCodec) : Type 0 where
  pub decoded : (s : Text) → codec.decode (codec.encode s) ≡ some s
  pub unmarshalled : (c : SessionClaims) → codec.unmarshal (codec.marshal c) ≡ some c
  pub encoded_dotless : (s : Text) → lacks b'.' (codec.encode s) ≡ true
  pub mac_dotless : (s : Text) → lacks b'.' (codec.mac s) ≡ true

++-assoc : (a b c : Text) → (a ++ b) ++ c ≡ a ++ (b ++ c)
++-assoc [] b c = refl
++-assoc (x ∷ a) b c = ap (λ t. x ∷ t) (++-assoc a b c)

split_three :
    (a b c : Text)
    → lacks b'.' a ≡ true
    → lacks b'.' b ≡ true
    → lacks b'.' c ≡ true
    → split b'.' ((a ++ (b'.' ∷ b)) ++ (b'.' ∷ c)) ≡ a ∷ b ∷ c ∷ []
split_three a b c p q r =
    ap (split b'.') (++-assoc a (b'.' ∷ b) (b'.' ∷ c))
    ∙ split-first b'.' a (b ++ (b'.' ∷ c)) p
    ∙ ap (λ t. a ∷ t) (split-first b'.' b c q ∙ ap (λ t. b ∷ t) (split-lacks b'.' c r))

-- Where the codec reads back what it encodes and writes no dots, a token that `SignSession` made
-- for an identity is parsed to that identity, up to the second in which it ends.
pub parse_session-sign_session :
    (codec : SessionCodec) (identity : SessionIdentity) (now ttl now' : ℕ) (token : Text)
    → IsFaithful codec
    → sign_session codec identity now ttl ≡ ok token
    → unix now' ≤ unix (now + ttl)
    → parse_session codec now' token ≡ ok identity
unfolding sign_session parse_session parse_parts exceeds
parse_session-sign_session codec identity now ttl now' token f h le =
    let header = codec.encode codec.header in
    let payload = codec.encode (codec.marshal (claims_of identity now ttl)) in
    let input = header ++ (b'.' ∷ payload) in
    let parts =
      split_three header payload (codec.mac input) (f.encoded_dotless codec.header)
        (f.encoded_dotless (codec.marshal (claims_of identity now ttl))) (f.mac_dotless input) in
    ground (
      arith,
      parts,
      f.decoded (codec.marshal (claims_of identity now ttl)),
      f.unmarshalled (claims_of identity now ttl),
      text_eq_refl (codec.mac input),
    )

-- A token that carries its own input's signature.
abbrev pub IsSigned : (Text → Text) → Text → Type 0
IsSigned mac token = (input : Text) × (token ≡ input ++ (b'.' ∷ mac input))

-- The parts of a token are a header, a payload and their signature; the payload decodes to claims
-- with a user id whose end, in seconds, has not passed; and the identity is theirs.
abbrev pub Vouches : SessionCodec → ℕ → List Text → SessionIdentity → Type 0
Vouches codec now parts identity =
    (header payload text : Text) × (claims : SessionClaims) × (parts
      ≡ header ∷ payload ∷ codec.mac (header ++ (b'.' ∷ payload)) ∷ [])
    × (codec.decode payload ≡ some text)
    × (codec.unmarshal text ≡ some claims)
    × (identity ≡ identity_of claims)
    × (exceeds (unix now) claims.exp ≡ false)
    × (is_blank claims.subject ≡ false)

parse_parts-IsSigned :
    (codec : SessionCodec) (now : ℕ) (parts : List Text) (identity : SessionIdentity)
    → parse_parts codec now parts ≡ ok identity
    → IsSigned codec.mac (join b'.' parts)
unfolding parse_parts join
parse_parts-IsSigned codec now [] identity h = cc
parse_parts-IsSigned codec now (a ∷ []) identity h = cc
parse_parts-IsSigned codec now (a ∷ b ∷ []) identity h = cc
parse_parts-IsSigned codec now (a ∷ b ∷ c ∷ d ∷ ps) identity h = cc
parse_parts-IsSigned codec now (a ∷ b ∷ c ∷ []) identity h =
    elim (Bool-cases (text_eq (codec.mac (a ++ (b'.' ∷ b))) c)) [
      | inl e ↦ (
        a ++ (b'.' ∷ b),
        sym (++-assoc a (b'.' ∷ b) (b'.' ∷ c))
            ∙ ap (λ t. (a ++ (b'.' ∷ b)) ++ (b'.' ∷ t))
                (sym (text_eq_sound (codec.mac (a ++ (b'.' ∷ b))) c e)),
      )
      | inr e ↦ absurd (ground (arith, e))
    ]

parse_session-IsSigned :
    (codec : SessionCodec) (now : ℕ) (token : Text) (identity : SessionIdentity)
    → parse_session codec now token ≡ ok identity
    → IsSigned codec.mac token
unfolding parse_session
parse_session-IsSigned codec now token identity h =
    subst (IsSigned codec.mac) (join-split b'.' token)
      (parse_parts-IsSigned codec now (split b'.' token) identity h)

parse_parts-Vouches :
    (codec : SessionCodec) (now : ℕ) (parts : List Text) (identity : SessionIdentity)
    → parse_parts codec now parts ≡ ok identity
    → Vouches codec now parts identity
unfolding parse_parts
parse_parts-Vouches codec now [] identity h = cc
parse_parts-Vouches codec now (a ∷ []) identity h = cc
parse_parts-Vouches codec now (a ∷ b ∷ []) identity h = cc
parse_parts-Vouches codec now (a ∷ b ∷ c ∷ d ∷ ps) identity h = cc
parse_parts-Vouches codec now (a ∷ b ∷ c ∷ []) identity h = elim (Option-cases (codec.decode b)) [
  | inl e ↦ absurd (ground (arith, e))
  | inr (text, e) ↦ elim (Option-cases (codec.unmarshal text)) [
    | inl u ↦ absurd (ground (arith, e, u))
    | inr (claims, u) ↦ (
      a,
      b,
      text,
      claims,
      ap (λ s. a ∷ b ∷ s ∷ [])
          (sym (text_eq_sound (codec.mac (a ++ (b'.' ∷ b))) c (ground (arith, e, u)))),
      e,
      u,
      ground (arith, e, u),
      ground (arith, e, u),
      ground (arith, e, u),
    )
  ]
]

-- For any codec and signature: where `ParseSession` accepts a token, the token is an input, a dot,
-- and the signature of that input; its parts are a header, a payload and the signature of the two;
-- and the payload decodes to claims with a user id whose end, in whole seconds, has not passed,
-- and whose identity is the one given.
pub parse_session_sound :
    (codec : SessionCodec) (now : ℕ) (token : Text) (identity : SessionIdentity)
    → parse_session codec now token ≡ ok identity
    → IsSigned codec.mac token × Vouches codec now (split b'.' token) identity
unfolding parse_session
parse_session_sound codec now token identity h = (
  parse_session-IsSigned codec now token identity h,
  parse_parts-Vouches codec now (split b'.' token) identity h,
)
