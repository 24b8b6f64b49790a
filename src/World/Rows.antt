-- ===== src/World/Rows.antt =====
-- The rows of the database tables (migrations/*.sql, internal/domain/domain.go). Primary keys are
-- the keys of the tables. UUIDs and texts that the code only stores and compares are numbers, and
-- the text 0 is "". A time is a number of seconds, counted from the earliest time that PostgreSQL
-- can store.
use testmellow.Prelude.{ℕ, Bool, Option, List, Table}
use testmellow.Prelude.Int.{ℤ}
use testmellow.Domain.{
  PaymentStatus, SubscriptionStatus, SubscriptionPlan, YadTxType, RewardSplitStatus, PromoType,
  TicketStatus,
}

pub record User : Type 0 where
  pub telegram_id : Option ℕ
  pub username : Option ℕ
  pub password_hash : Option ℕ
  pub yad_balance : ℤ
  pub referrer_id : Option ℕ
  pub referral_code : ℕ
  pub ltv : ℤ
  pub risk_score : ℤ
  pub is_admin : Bool
  pub is_banned : Bool
  pub remna_user_uuid : Option ℕ
  pub device_fingerprint : Option ℕ
  pub last_known_ip : Option ℕ
  pub trial_used : Bool
  pub active_discount_code : Option ℕ
  pub active_discount_percent : ℤ
  pub device_expansion_count : ℕ
  pub tfa_enabled : Bool

pub record Subscription : Type 0 where
  pub user_id : ℕ
  pub plan : SubscriptionPlan
  pub status : SubscriptionStatus
  pub starts_at : ℕ
  pub expires_at : ℕ
  pub remna_sub_uuid : Option ℕ
  pub paid_kopecks : ℕ
  pub payment_id : Option ℕ

pub record Payment : Type 0 where
  pub user_id : ℕ
  pub amount_kopecks : ℕ
  pub status : PaymentStatus
  pub plan : SubscriptionPlan
  pub redirect_url : ℕ
  pub addon_qty : ℕ
  pub expires_at : Option ℕ
  pub webhook_received_at : Option ℕ
  pub created_at : ℕ

pub record Referral : Type 0 where
  pub referrer_id : ℕ
  pub referee_id : ℕ
  pub total_paid_ltv : ℤ
  pub total_reward : ℤ

pub record ReferralReward : Type 0 where
  pub referral_id : ℕ
  pub payment_id : ℕ
  pub referrer_id : ℕ
  pub amount_yad : ℕ
  pub immediate_yad : ℕ
  pub deferred_yad : ℕ
  pub status : RewardSplitStatus
  pub risk_score : ℤ
  pub scheduled_at : ℕ
  pub deferred_at : Option ℕ

pub record YadTransaction : Type 0 where
  pub user_id : ℕ
  pub delta : ℤ
  pub balance : ℤ
  pub tx_type : YadTxType
  pub ref_id : Option ℕ

pub record PromoCode : Type 0 where
  pub code : ℕ
  pub promo_type : PromoType
  pub yad_amount : ℕ
  pub discount_percent : ℤ
  pub max_uses : ℕ
  pub used_count : ℕ
  pub expires_at : Option ℕ

pub record PromoCodeUse : Type 0 where
  pub promo_code_id : ℕ
  pub user_id : ℕ

pub record ShopItem : Type 0 where
  pub price_yad : ℕ
  pub stock : ℤ
  pub is_active : Bool

pub record ShopOrder : Type 0 where
  pub user_id : ℕ
  pub item_id : ℕ
  pub quantity : ℕ
  pub total_yad : ℤ

-- `device_expansions` has a unique `user_id`, which is the key of the table here.
pub record DeviceExpansion : Type 0 where
  pub id : ℕ
  pub extra_devices : ℕ
  pub expires_at : ℕ

pub record WebhookEvent : Type 0 where
  pub event_type : PaymentStatus
  pub processed : Bool

-- The rows of `account_activity` whose event is a login.
pub record Login : Type 0 where
  pub user_id : ℕ
  pub ip : Option ℕ
  pub user_agent : Option ℕ

-- The other rows of `account_activity`.
pub data ActivityEvent : Type 0 where
  registration password_change password_reset telegram_link telegram_unlink : ActivityEvent

pub record Activity : Type 0 where
  pub user_id : ℕ
  pub event_type : ActivityEvent

pub record Ticket : Type 0 where
  pub user_id : ℕ
  pub subject : ℕ
  pub status : TicketStatus

pub record TicketMessage : Type 0 where
  pub ticket_id : ℕ
  pub sender_id : ℕ
  pub is_admin : Bool
  pub body : ℕ

pub record Db : Type 0 where
  pub users : Table User
  pub subscriptions : Table Subscription
  pub payments : Table Payment
  pub referrals : Table Referral
  pub referral_rewards : Table ReferralReward
  pub yad_transactions : List YadTransaction
  pub promocodes : Table PromoCode
  pub promocode_uses : List PromoCodeUse
  pub shop_items : Table ShopItem
  pub shop_orders : Table ShopOrder
  pub device_expansions : Table DeviceExpansion
  pub webhook_events : Table WebhookEvent
  pub logins : List Login
  pub activities : List Activity
  pub tickets : Table Ticket
  pub ticket_messages : List TicketMessage

-- The jobs of internal/worker/worker.go, each on the queue of its kind.
pub data Job : Type 0 where
  payment_process : (transaction_id user_id amount : ℕ) (status : PaymentStatus) → Job
  subscription_activate :
      (user_id payment_id : ℕ) (plan : SubscriptionPlan) (amount_kopecks : ℕ) → Job
  device_expansion_activate : (user_id payment_id qty amount_kopecks : ℕ) → Job
  referral_reward : (payment_id referee_id paid_kopecks : ℕ) → Job
  referral_payout : (reward_id : ℕ) → Job
  notify_telegram : (telegram_id : ℕ) → Job
  tfa_challenge : (telegram_id challenge_id : ℕ) → Job

-- The requests that the Remnawave panel accepted.
pub data RemnaCall : Type 0 where
  create_user : (name expiry : ℕ) → RemnaCall
  update_expiry : (uuid expiry : ℕ) → RemnaCall
  enable_user : (uuid : ℕ) → RemnaCall
  disable_user : (uuid : ℕ) → RemnaCall
  update_hwid_device_limit : (uuid limit : ℕ) → RemnaCall
  delete_hwid_device : (hwid uuid : ℕ) → RemnaCall
