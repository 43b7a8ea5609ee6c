-- ===== src/Tests/Accounts.antt =====
-- The theorems on accounts, login codes and API keys at concrete inputs.
use be_miawai.Base.Strings.{trim_space, trim_left, trim_right, snoc_trim, is_space}
use be_miawai.Base.{refl, codes, ◌≡◌, text_eq, ◌≢◌}
use be_miawai.Tests.Sample.{sample, ada, github_ada, key_row}
use be_miawai.Database.World.{find_user, World, ok}
use be_miawai.Database.Users.{find_or_create_oauth_user, scan_user, id_by_email, get_user_by_id}
use be_miawai.Models.{User, OAuthProfile}
use be_miawai.Database.ApiKeys.{
  find_hash, revoke_user_api_key, any_revocable, authenticate_user_api_key,
}
use be_miawai.Database.Users.Effects.{oauth_login_stable, get_user_by_id-entitled}
use be_miawai.Database.Subscriptions.{entitled, entitlement, rows_of}
use be_miawai.Database.ApiKeys.Laws.{authenticate-revoke}
use be_miawai.Database.Subscriptions.Decision.{Decision}

get_user_by_id-entitled_example :
    ((get_user_by_id (codes "ada") sample).0
      ≡ ok (
          scan_user (entitled (entitlement 1000 (rows_of (codes "ada") sample.subscriptions)) ada)))
    × Decision 1000
        (rows_of (codes "ada") sample.subscriptions)
        (entitlement 1000 (rows_of (codes "ada") sample.subscriptions))
unfolding find_user text_eq
get_user_by_id-entitled_example = get_user_by_id-entitled (codes "ada") sample refl refl

abbrev after_login : World
unfolding find_or_create_oauth_user
after_login = (find_or_create_oauth_user github_ada sample).1

abbrev github_user : User
github_user = record (scan_user ada) { name = codes "Ada L"; avatar_url = codes "a.png" }

-- The same account of the provider, with another email address and name.
abbrev renamed_ada : OAuthProfile
renamed_ada = record github_ada { email = codes "lovelace@x.io"; name = codes "Ada Lovelace" }

oauth_login_stable_example :
    (u : User) × ((find_or_create_oauth_user renamed_ada after_login).0 ≡ ok u)
    × (u.id ≡ codes "ada")
    × ((find_or_create_oauth_user renamed_ada after_login).1.oauth_accounts
        ≡ after_login.oauth_accounts)
unfolding find_or_create_oauth_user text_eq find_user id_by_email
oauth_login_stable_example =
    oauth_login_stable github_ada renamed_ada sample after_login github_user
      (record ada { name = codes "Ada L"; avatar_url = codes "a.png" }) refl refl refl refl refl
      refl

authenticate-revoke_example :
    (authenticate_user_api_key
      (λ s. s)
      (codes "miaw_k")
      (revoke_user_api_key (codes "ada") (codes "uapk_1") sample).1).0
    ≢ ok (key_row.key, scan_user ada)
unfolding find_hash text_eq trim_space trim_left trim_right snoc_trim is_space revoke_user_api_key
    any_revocable
authenticate-revoke_example =
    authenticate-revoke (λ s. s) (codes "ada") (codes "uapk_1") (codes "miaw_k") sample
      (revoke_user_api_key (codes "ada") (codes "uapk_1") sample).1 key_row
      (key_row.key, scan_user ada) (refl, tt) refl refl refl refl refl
