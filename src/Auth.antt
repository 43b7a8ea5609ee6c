-- ===== src/Auth.antt =====
-- internal/auth: tokens that the service signs and reads back.
pub mod Session
pub mod Guest
pub mod State
pub mod Laws
pub mod Pairs
use be_miawai.Base.{ℕ, ◌/◌, Option, none, some, Text, text_eq, not, if◌then◌else◌}
use be_miawai.Database.World.{Result, ok, err}
use be_miawai.Database.Subscriptions.{second}

-- The errors of signing and of reading a token.
pub data AuthError : Type 0 where
  user_id_required malformed bad_signature undecodable expired_token : AuthError

-- `Time.Unix`
abbrev pub unix : ℕ → ℕ
unix t = t / second

abbrev pub or_undecodable : {A : Type 0} → Option A → Result AuthError A
or_undecodable none = err undecodable
or_undecodable (some a) = ok a

abbrev pub and_then :
    {A B : Type 0} → Result AuthError A → (A → Result AuthError B) → Result AuthError B
and_then (ok a) f = f a
and_then (err e) f = err e

-- `hmac.Equal` of the signature that the input should have and the one that it has.
abbrev pub if_signed :
    {A : Type 0} → (Text → Text) → Text → Text → Result AuthError A → Result AuthError A
if_signed mac input signature r =
    if not (text_eq (mac input) signature) then err bad_signature else r
