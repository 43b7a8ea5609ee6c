-- ===== src/Tests/Sample.antt =====
-- A small database for the tests.
use be_miawai.Base.{ℕ, ◌+◌, [], ◌∷◌, none, some, Text, codes}
use be_miawai.Models.{
  OAuthProfile, Subscription, PaymentTransaction, WhatsAppAccount, WhatsAppContact,
  WhatsAppLinkCode,
}
use be_miawai.Database.World.{World, UserRow, ApiKeyRow, DesktopAuthCode}
use be_miawai.Database.Status.{active, no_status}
use be_miawai.Database.Subscriptions.{free}

abbrev pub ada : UserRow
ada = record {
  id = codes "ada";
  email = codes "ada@x.io";
  name = codes "Ada";
  avatar_url = [];
  plan = free;
  subscription_status = no_status;
  entitled_until = none;
  created_at = 0;
}

abbrev pub bob : UserRow
bob = record ada { id = codes "bob"; email = codes "bob@x.io"; name = codes "Bob" }

-- A period that ends at 2000.
abbrev pub monthly : Subscription
monthly = record {
  id = codes "sub_1";
  user_id = codes "ada";
  platform = codes "midtrans";
  product_id = codes "monthly";
  status = codes "settlement";
  current_period_end = some 2000;
}

abbrev pub old : Subscription
old = record monthly {
  id = codes "sub_0";
  platform = codes "googleplay";
  status = codes "hold";
  current_period_end = some 500;
}

abbrev pub order : PaymentTransaction
order = record {
  id = codes "ptx_1";
  user_id = codes "ada";
  order_id = codes "o1";
  platform = codes "midtrans";
  product_id = codes "miaw_credit_usd_10_idr_50000";
  amount = 50000;
  currency = codes "IDR";
  status = codes "pending";
}

abbrev pub second_order : PaymentTransaction
second_order = record order {
  id = codes "ptx_2";
  order_id = codes "o2";
  product_id = codes "miaw_credit_usd_5_idr_25000";
  status = codes "paid";
}

abbrev pub github_ada : OAuthProfile
github_ada = record {
  provider = codes "github";
  provider_user_id = codes "7";
  email = codes "ada@x.io";
  name = codes "Ada L";
  avatar_url = codes "a.png";
}

abbrev pub login_code : DesktopAuthCode
login_code = record {
  code = codes "dac_1";
  user_id = codes "ada";
  expires_at = 2000;
  used_at = none;
}

abbrev pub key_row : ApiKeyRow
key_row = record {
  key = record {
    id = codes "uapk_1";
    user_id = codes "ada";
    name = codes "cli";
    key_prefix = codes "miaw_k";
    status = active;
    last_used_at = none;
    created_at = 0;
    revoked_at = none;
  };
  key_hash = codes "miaw_k";
}

abbrev pub bot : WhatsAppAccount
bot = record {
  id = codes "waacc_1";
  owner_user_id = codes "ada";
  mode = codes "central_bot";
  display_name = codes "Miaw";
  phone_jid = [];
  status = codes "connected";
  session_ref = codes "wasess_1";
  access_policy = codes "linked_only";
  qr_code = [];
}

abbrev pub old_phone : WhatsAppContact
old_phone = record {
  id = codes "wact_1";
  whatsapp_account_id = codes "waacc_1";
  owner_user_id = codes "ada";
  contact_jid = codes "61@s.whatsapp.net";
  display_name = codes "old";
  linked_user_id = codes "bob";
  default_conversation_id = [];
  allow_status = codes "allowed";
  verification_attempts = 0;
}

abbrev pub new_phone : WhatsAppContact
new_phone = record old_phone {
  id = codes "wact_2";
  contact_jid = codes "62@s.whatsapp.net";
  linked_user_id = [];
  allow_status = codes "pending";
}

abbrev pub link : WhatsAppLinkCode
link = record {
  id = codes "walink_1";
  user_id = codes "bob";
  phone_number = codes "62";
  code = codes "123456";
  status = codes "pending";
  attempts = 2;
  expires_at = 2000;
  matched_contact_jid = [];
}

abbrev pub supply : ℕ → Text
supply n = b'r' ∷ (b'0' + n) ∷ []

abbrev pub sample : World
sample = record {
  users = ada ∷ bob ∷ [];
  oauth_accounts = [];
  password_accounts = [];
  subscriptions = old ∷ monthly ∷ [];
  payments = order ∷ second_order ∷ [];
  desktop_codes = login_code ∷ [];
  api_keys = key_row ∷ [];
  wa_accounts = bot ∷ [];
  wa_contacts = old_phone ∷ new_phone ∷ [];
  wa_links = link ∷ [];
  wa_events = [];
  daily_usage = [];
  usage_events = [];
  content = record {
    memories = [];
    memory_jobs = [];
    tracker_entries = [];
    tracker_suggestions = [];
    runtime_settings = [];
    conversations = [];
  };
  now = 1000;
  random = supply;
  draws = 0;
  faults = [];
}
