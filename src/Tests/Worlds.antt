-- ===== src/Tests/Worlds.antt =====
-- A small database and worlds on it.
use testmellow.Prelude.{ℕ, Option, true, false, none, some, List, [], ◌∷◌}
use testmellow.Prelude.Int.{pos}
use testmellow.Domain.{PaymentStatus, SubscriptionPlan, SubscriptionStatus, YadTxType, PromoType}
use testmellow.World.Rows.{User, Subscription, Payment, PromoCode, ShopItem, Db}
use testmellow.World.Exec.{Outcome, World}
use testmellow.Redis.Store.{Cache}
use testmellow.Billing.Gateway.{Gateway, GatewayConfig}
use testmellow.Jwt.{TokenLibrary}
use testmellow.Http.Auth.{UuidFormat}

-- A user with 100 YAD and no panel account; names and codes are numbers.
abbrev pub alice : User
alice = record {
  telegram_id = none;
  username = some 11;
  password_hash = some 12;
  yad_balance = pos 100;
  referrer_id = none;
  referral_code = 13;
  ltv = pos 500;
  risk_score = pos 0;
  is_admin = true;
  is_banned = false;
  remna_user_uuid = some 14;
  device_fingerprint = none;
  last_known_ip = none;
  trial_used = false;
  active_discount_code = none;
  active_discount_percent = pos 0;
  device_expansion_count = 0;
  tfa_enabled = false;
}

abbrev pub week_sub : Subscription
week_sub = record {
  user_id = 1;
  plan = SubscriptionPlan.week;
  status = SubscriptionStatus.active;
  starts_at = 0;
  expires_at = 700000;
  remna_sub_uuid = none;
  paid_kopecks = 4000;
  payment_id = none;
}

abbrev pub week_payment : Payment
week_payment = record {
  user_id = 1;
  amount_kopecks = 4000;
  status = PaymentStatus.pending;
  plan = SubscriptionPlan.week;
  redirect_url = 9;
  addon_qty = 0;
  expires_at = some 2000;
  webhook_received_at = none;
  created_at = 200;
}

abbrev pub bonus_code : PromoCode
bonus_code = record {
  code = 77;
  promo_type = PromoType.yad;
  yad_amount = 20;
  discount_percent = pos 0;
  max_uses = 1;
  used_count = 0;
  expires_at = none;
}

-- One item is left.
abbrev pub mug : ShopItem
mug = record { price_yad = 40; stock = pos 1; is_active = true }

abbrev pub shop_db : Db
shop_db = record {
  users = (1, alice) ∷ [];
  subscriptions = (5, week_sub) ∷ [];
  payments = (7, week_payment) ∷ [];
  referrals = [];
  referral_rewards = [];
  yad_transactions =
      record {
        user_id = 1;
        delta = pos 100;
        balance = pos 100;
        tx_type = YadTxType.bonus;
        ref_id = none;
      }
      ∷ [];
  promocodes = (3, bonus_code) ∷ [];
  promocode_uses = [];
  shop_items = (4, mug) ∷ [];
  shop_orders = [];
  device_expansions = [];
  webhook_events = [];
  logins = [];
  activities = [];
  tickets = [];
  ticket_messages = [];
}

abbrev pub no_keys : Cache
no_keys = record { entry = λ _. none; sets = λ _. []; set_ends = λ _. none; challenges = λ _. none }

-- Every call succeeds, or those of `os` do what they say.
abbrev pub world_with : List Outcome → World
world_with os = record {
  db = shop_db;
  cache = no_keys;
  queue = [];
  remna = [];
  outcomes = os;
  clock = 1000;
  next_id = 100;
  telegram_enabled = true;
}

abbrev pub sunny : World
sunny = world_with []

-- The first call fails.
abbrev pub stormy : World
stormy = world_with (Outcome.io_error ∷ [])

abbrev pub plain_gateway : Gateway
plain_gateway = record {
  parse_uuid = λ t. some t;
  transaction_of = λ n. n;
  redirect_of = λ n. n;
  status_of = λ n. PaymentStatus.confirmed;
}

abbrev pub plain_config : GatewayConfig
plain_config = record { merchant_id = 1; secret = 2; secret_prev = 3 }

abbrev first_byte : List ℕ → Option ℕ
first_byte [] = none
first_byte (x ∷ xs) = some x

-- The text of a user id, and tokens that nobody accepts.
abbrev pub plain_uuid : UuidFormat
plain_uuid = record { text = λ id. id ∷ []; parse = first_byte }

abbrev pub plain_tokens : TokenLibrary ℕ
plain_tokens = record {
  sign = λ c. some c.id;
  parse = λ now issuer audience token. none;
  access_ttl = 900;
}
