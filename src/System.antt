-- ===== src/System.antt =====
-- The whole service as a state machine: what its processes do to the database, one operation after
-- another, under every behaviour of the database, Redis, the panel and the gateway.
pub mod Balance
pub mod TwoFactor
use testmellow.Prelude.{ℕ, ◌≡◌, Bool, Option, List}
use testmellow.Prelude.Int.{ℤ}
use testmellow.Domain.{PaymentStatus, SubscriptionPlan, SubscriptionStatus, YadTxType}
use testmellow.World.Exec.{World, Exec, ◌>>=◌, ◌>>◌, pure}
use testmellow.Economy.Accounts.{credit_yad, debit_yad, redeem_promo, buy_shop_item}
use testmellow.Economy.Plans.{buy_subscription_with_yad, buy_device_expansion}
use testmellow.Trial.{activate_trial}
use testmellow.Billing.Gateway.{Gateway, GatewayConfig}
use testmellow.Billing.Checkout.{initiate_payment, initiate_device_expansion_payment}
use testmellow.Billing.Status.{touch, check_payment_status, sweep_payments}
use testmellow.Billing.Webhook.{Callback, handle}
use testmellow.Auth.Register.{RegisterInput, register}
use testmellow.Auth.Login.{LoginInput, login}
use testmellow.Worker.Payment.{handle_payment_process}
use testmellow.Worker.Activation.{handle_subscription_activate, handle_device_expansion_activate}
use testmellow.Worker.Rewards.{
  handle_referral_reward, handle_referral_payout, payout_pending_rewards,
}
use testmellow.Worker.Sweep.{sweep_expired}
use testmellow.Jwt.{TokenLibrary}
use testmellow.Http.Auth.{UuidFormat, register_handler, login_handler, refresh, logout, tfa_check}
use testmellow.Http.Profile.{
  change_password, update_telegram, generate_unlink_code, toggle_tfa, generate_link_code,
}
use testmellow.Admin.{
  adjust_user_yad, ban_user, unban_user, set_risk_score, check_payment as admin_check_payment,
  assign_subscription, set_subscription_status, extend_subscription,
}
use testmellow.Tickets.{create as create_a_ticket, reply, reply_to_ticket, close_ticket}
use testmellow.Devices.{disconnect_device}
use testmellow.Bot.{handle_link, handle_unlink, handle_reset_password, handle_tfa_callback}
use testmellow.Admin.Catalog.{CreatePromo, create_promo_code, create_shop_item, reset_payment_limit}

-- What the repository's code calls and does not define.
pub record Outside : Type 0 where
  pub gateway : Gateway
  pub gateway_config : GatewayConfig
  pub bcrypt_generate : ℕ → Option ℕ
  pub bcrypt_compare : ℕ → ℕ → Bool
  pub admin_bootstrap_token : ℕ
  pub tokens : TokenLibrary ℕ
  pub uuid : UuidFormat
  pub hwids : ℕ → ℕ → List ℕ

-- The operations that the HTTP handlers, the webhook, the bot, the administrators
-- and the worker call, with their arguments. A token is a text.
pub data Operation : Type 0 where
  credit debit : ℕ → ℤ → YadTxType → Option ℕ → Operation
  promo : (user_id code : ℕ) → Operation
  shop : (user_id item_id quantity : ℕ) → Operation
  plan_for_yad : ℕ → SubscriptionPlan → Operation
  expansion_for_yad : (user_id qty : ℕ) → Operation
  trial : (user_id : ℕ) → Operation
  checkout : ℕ → SubscriptionPlan → (return_url : ℕ) → Operation
  expansion_checkout : (user_id qty : ℕ) → Operation
  touch_payment check_payment : (user_id payment_id : ℕ) → Operation
  webhook : (merchant_id secret : ℕ) → Option Callback → Operation
  sign_up : RegisterInput → Operation
  sign_in : LoginInput → Operation
  payment_job : (tx_id user_id : ℕ) → PaymentStatus → Operation
  subscription_job : (user_id payment_id : ℕ) → SubscriptionPlan → (amount : ℕ) → Operation
  expansion_job : (user_id payment_id qty : ℕ) → Operation
  reward_job : (payment_id referee_id paid : ℕ) → Operation
  payout_job : (reward_id : ℕ) → Operation
  payment_sweep reward_sweep expiry_sweep : Operation
  web_sign_up : (name_ok : Bool) → RegisterInput → Operation
  web_sign_in : LoginInput → Operation
  web_refresh web_logout : Option ℕ → Operation
  tfa_poll : (challenge_id length : ℕ) → Operation
  new_password : (user_id old_password new_password : ℕ) (long_enough : Bool) → Operation
  drop_telegram : (user_id code : ℕ) (asks_id : Bool) → Operation
  unlink_code link_code : (user_id : ℕ) → Operation
  second_factor : (user_id : ℕ) (enabled : Bool) → Operation
  bot_link : (tg_id code : ℕ) → Operation
  bot_unlink bot_reset : (tg_id : ℕ) → Operation
  bot_answer : (tg_id challenge_id : ℕ) (approve : Bool) → Operation
  admin_adjust : ℕ → ℤ → (note_length : ℕ) → Operation
  admin_ban admin_unban : (user_id : ℕ) → Operation
  admin_risk : ℕ → ℤ → Operation
  admin_check : (payment_id : ℕ) → Operation
  admin_assign : (login : ℕ) → SubscriptionPlan → Operation
  admin_status : (sub_id : ℕ) → SubscriptionStatus → Operation
  admin_extend : (sub_id days : ℕ) → Operation
  open_ticket : (user_id : ℕ) (valid : Bool) (subject message : ℕ) → Operation
  ticket_reply admin_reply : (sender_id : ℕ) (valid : Bool) (ticket_id message : ℕ) → Operation
  admin_close : (valid : Bool) (ticket_id : ℕ) → Operation
  disconnect : (user_id hwid : ℕ) → Operation
  admin_promo : (admin_id : ℕ) → CreatePromo → Operation
  admin_reset_limit : (user_id : ℕ) → Operation
  admin_item : (valid : Bool) (price_yad stock : ℤ) → Operation

abbrev pub forget : {A : Type 0} → Exec A → Exec (Unit {0})
forget m = m >> pure tt

unfoldable pub perform : Outside → Operation → Exec (Unit {0})
perform o (Operation.credit id x ty r) = credit_yad id x ty r
perform o (Operation.debit id x ty r) = debit_yad id x ty r
perform o (Operation.promo id code) = redeem_promo id code
perform o (Operation.shop id item n) = forget (buy_shop_item id item n)
perform o (Operation.plan_for_yad id plan) = forget (buy_subscription_with_yad id plan)
perform o (Operation.expansion_for_yad id qty) = forget (buy_device_expansion id qty)
perform o (Operation.trial id) = forget (activate_trial id)
perform o (Operation.checkout id plan url) = forget (initiate_payment o.gateway id plan url)
perform o (Operation.expansion_checkout id qty) =
    forget (initiate_device_expansion_payment o.gateway id qty)
perform o (Operation.touch_payment id pay) = forget (touch id pay)
perform o (Operation.check_payment id pay) = forget (check_payment_status o.gateway id pay)
perform o (Operation.webhook m s body) = handle o.gateway o.gateway_config m s body
perform o (Operation.sign_up input) =
    forget (register o.bcrypt_generate o.admin_bootstrap_token input)
perform o (Operation.sign_in input) = forget (login o.bcrypt_compare input)
perform o (Operation.payment_job tx id s) = handle_payment_process tx id s
perform o (Operation.subscription_job id pay plan x) = handle_subscription_activate id pay plan x
perform o (Operation.expansion_job id pay qty) = handle_device_expansion_activate id pay qty
perform o (Operation.reward_job pay id paid) = handle_referral_reward pay id paid
perform o (Operation.payout_job reward) = handle_referral_payout reward
perform o Operation.payment_sweep = sweep_payments o.gateway
perform o Operation.reward_sweep = payout_pending_rewards
perform o Operation.expiry_sweep = sweep_expired
perform o (Operation.web_sign_up name_ok input) =
    forget (register_handler o.tokens o.bcrypt_generate o.admin_bootstrap_token name_ok input)
perform o (Operation.web_sign_in input) =
    forget (login_handler o.tokens o.uuid o.bcrypt_compare input)
perform o (Operation.web_refresh cookie) = forget (refresh o.tokens cookie)
perform o (Operation.web_logout cookie) = logout o.tokens cookie
perform o (Operation.tfa_poll id n) = forget (tfa_check o.tokens o.uuid id n)
perform o (Operation.new_password id old new long_enough) =
    change_password o.bcrypt_compare o.bcrypt_generate id old new long_enough
perform o (Operation.drop_telegram id code asks_id) = update_telegram id code asks_id
perform o (Operation.unlink_code id) = generate_unlink_code id
perform o (Operation.link_code id) = forget (generate_link_code id)
perform o (Operation.second_factor id enabled) = toggle_tfa id enabled
perform o (Operation.bot_link tg code) = handle_link tg code
perform o (Operation.bot_unlink tg) = forget (handle_unlink tg)
perform o (Operation.bot_reset tg) = forget (handle_reset_password o.bcrypt_generate tg)
perform o (Operation.bot_answer tg id approve) = handle_tfa_callback o.uuid tg id approve
perform o (Operation.admin_adjust id delta n) = adjust_user_yad id delta n
perform o (Operation.admin_ban id) = ban_user id
perform o (Operation.admin_unban id) = unban_user id
perform o (Operation.admin_risk id score) = set_risk_score id score
perform o (Operation.admin_check id) = forget (admin_check_payment o.gateway id)
perform o (Operation.admin_assign login plan) = forget (assign_subscription login plan)
perform o (Operation.admin_status id status) = set_subscription_status id status
perform o (Operation.admin_extend id days) = forget (extend_subscription id days)
perform o (Operation.open_ticket id v s text) = forget (create_a_ticket id v s text)
perform o (Operation.ticket_reply id v ticket text) = reply id v ticket text
perform o (Operation.admin_reply id v ticket text) = reply_to_ticket id v ticket text
perform o (Operation.admin_close v ticket) = close_ticket v ticket
perform o (Operation.disconnect id hwid) = disconnect_device o.hwids id hwid
perform o (Operation.admin_promo id r) = forget (create_promo_code id r)
perform o (Operation.admin_reset_limit id) = reset_payment_limit id
perform o (Operation.admin_item v price stock) = forget (create_shop_item v price stock)

-- From one world to another: an operation with any result, or a step of the environment, which may
-- change all but the database (time passes, Redis loses keys, jobs come back, services fail).
pub data Step (o : Outside) : World → World → Type 0 where
  operation : (op : Operation) (w : World) → Step o w (perform o op w).1
  environment : (w w' : World) → w'.db ≡ w.db → Step o w w'

pub data Reach (o : Outside) (w : World) : World → Type 0 where
  here : Reach o w w
  there : {v u : World} → Reach o w v → Step o v u → Reach o w u
