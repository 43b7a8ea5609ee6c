-- ===== src/Tests/Codecs.antt =====
-- Codecs that keep the laws of the tokens, for the tests: texts behind each other, each ended by 0.
use be_miawai.Base.{
  false, true, suc, zero, ◌+◌, ◌-◌, ◌≡◌, [], map, Text, List, some, codes, ap, ◌++◌, ◌∷◌, Option,
  arith, ◌∙◌, none, if◌then◌else◌, Bool, refl, is_blank,
}
use be_miawai.Base.Ints.{ℤ, pos, negsuc}
use be_miawai.Base.Split.{into_head, lacks}
use be_miawai.Auth.Session.{SessionCodec, SessionClaims}
use be_miawai.Auth.Guest.{GuestCodec}
use be_miawai.Auth.State.{StateCodec, OauthState}
use be_miawai.Auth.Laws.{IsFaithful}
use be_miawai.Auth.Pairs.{IsFaithfulGuest, IsFaithfulState}

-- A text without dots.
abbrev pub shifted : Text → Text
shifted = map (λ c. c + 47)

abbrev pub unshifted : Text → Option Text
unshifted s = some (map (λ c. c - 47) s)

unshift-shift : (s : Text) → map (λ c. c - 47) (shifted s) ≡ s
unshift-shift [] = refl
unshift-shift (c ∷ s) = ground (arith, unshift-shift s)

shifted_dotless : (s : Text) → lacks b'.' (shifted s) ≡ true
unfolding lacks
shifted_dotless [] = refl
shifted_dotless (c ∷ s) = ground (arith, shifted_dotless s)

abbrev flat : List Text → Text
flat [] = []
flat (t ∷ ts) = map suc t ++ (0 ∷ flat ts)

abbrev unflat : Text → List Text
unflat [] = []
unflat (zero ∷ s) = [] ∷ unflat s
unflat (suc c ∷ s) = into_head c (unflat s)

unflat-first : (t s : Text) → unflat (map suc t ++ (0 ∷ s)) ≡ t ∷ unflat s
unflat-first [] s = refl
unflat-first (c ∷ t) s = ap (into_head c) (unflat-first t s)

unflat-flat : (ts : List Text) → unflat (flat ts) ≡ ts
unflat-flat [] = refl
unflat-flat (t ∷ ts) = unflat-first t (flat ts) ∙ ap (λ us. t ∷ us) (unflat-flat ts)

abbrev int_text : ℤ → Text
int_text (pos n) = 0 ∷ n ∷ []
int_text (negsuc n) = 1 ∷ n ∷ []

abbrev text_int : Text → ℤ
text_int (zero ∷ n ∷ s) = pos n
text_int (suc c ∷ n ∷ s) = negsuc n
text_int _ = pos 0

text_int-int_text : (z : ℤ) → text_int (int_text z) ≡ z
text_int-int_text (pos n) = refl
text_int-int_text (negsuc n) = refl

abbrev claims_texts : SessionClaims → List Text
claims_texts c = c.subject ∷ c.email ∷ c.role ∷ int_text c.issued ∷ int_text c.exp ∷ c.access

abbrev texts_claims : List Text → Option SessionClaims
texts_claims (s ∷ e ∷ r ∷ i ∷ x ∷ access) = some (record {
  subject = s;
  email = e;
  role = r;
  access = access;
  issued = text_int i;
  exp = text_int x;
})
texts_claims _ = none

texts_claims-claims_texts : (c : SessionClaims) → texts_claims (claims_texts c) ≡ some c
texts_claims-claims_texts c = ground (arith, text_int-int_text c.issued, text_int-int_text c.exp)

abbrev pub session_codec : SessionCodec
session_codec = record {
  mac = shifted;
  encode = shifted;
  decode = unshifted;
  marshal = λ c. flat (claims_texts c);
  unmarshal = λ t. texts_claims (unflat t);
  header = codes "HS256";
}

pub session_codec-IsFaithful : IsFaithful session_codec
unfolding lacks
session_codec-IsFaithful = record {
  decoded = λ s. ap some (unshift-shift s);
  unmarshalled = λ c. ap texts_claims (unflat-flat (claims_texts c)) ∙ texts_claims-claims_texts c;
  encoded_dotless = shifted_dotless;
  mac_dotless = shifted_dotless;
}

abbrev pub guest_codec : GuestCodec
guest_codec = record {
  mac = shifted;
  encode = shifted;
  decode = unshifted;
  marshal = λ c. int_text c.used ++ int_text c.exp;
  unmarshal = λ t. elim t [
    | a ∷ b ∷ s ↦ some (record { used = text_int (a ∷ b ∷ []); exp = text_int s })
    | _ ↦ none
  ];
}

guest_text :
    (u x : ℤ)
    → guest_codec.unmarshal (int_text u ++ int_text x) ≡ some (record { used = u; exp = x })
guest_text (pos n) x = ground (arith, text_int-int_text x)
guest_text (negsuc n) x = ground (arith, text_int-int_text x)

pub guest_codec-IsFaithfulGuest : IsFaithfulGuest guest_codec
unfolding lacks
guest_codec-IsFaithfulGuest = record {
  decoded = λ s. ap some (unshift-shift s);
  unmarshalled = λ c. guest_text c.used c.exp;
  encoded_dotless = shifted_dotless;
  mac_dotless = shifted_dotless;
}

abbrev pub state_texts : List Text → Option OauthState
state_texts (p ∷ d ∷ x ∷ []) =
    some (record { provider = p; desktop = is_blank d; exp = text_int x })
state_texts _ = none

abbrev pub state_codec : StateCodec
state_codec = record {
  mac = shifted;
  encode = shifted;
  decode = unshifted;
  marshal = λ c. flat (c.provider ∷ (if c.desktop then [] else 0 ∷ []) ∷ int_text c.exp ∷ []);
  unmarshal = λ t. state_texts (unflat t);
}

state_text :
    (p : Text) (d : Bool) (x : ℤ)
    → state_texts (p ∷ (if d then [] else 0 ∷ []) ∷ int_text x ∷ [])
      ≡ some (record { provider = p; desktop = d; exp = x })
state_text p true x = ground (arith, text_int-int_text x)
state_text p false x = ground (arith, text_int-int_text x)

pub state_codec-IsFaithfulState : IsFaithfulState state_codec
unfolding lacks
state_codec-IsFaithfulState = record {
  decoded = λ s. ap some (unshift-shift s);
  unmarshalled = λ c.
      ap state_texts
        (unflat-flat (c.provider ∷ (if c.desktop then [] else 0 ∷ []) ∷ int_text c.exp ∷ []))
      ∙ state_text c.provider c.desktop c.exp;
  encoded_dotless = shifted_dotless;
  mac_dotless = shifted_dotless;
}
