-- ===== src/System/Balance.antt =====
-- The ledger invariant of the whole service.
use testmellow.Prelude.{subst, sym}
use testmellow.World.Rows.{Db}
use testmellow.World.Exec.{World, Exec}
use testmellow.World.Keeps.{Keeps, Keeps-bind, Keeps-pure}
use testmellow.Ledger.{IsBalanced}
use testmellow.Economy.Balance.{
  credit_yad-IsBalanced, debit_yad-IsBalanced, redeem_promo-IsBalanced, buy_shop_item-IsBalanced,
  buy_subscription_with_yad-IsBalanced, buy_device_expansion-IsBalanced,
}
use testmellow.Trial.Balance.{activate_trial-IsBalanced}
use testmellow.Billing.Balance.{
  initiate_payment-IsBalanced, initiate_device_expansion_payment-IsBalanced, touch-IsBalanced,
  check_payment_status-IsBalanced, sweep_payments-IsBalanced, handle-IsBalanced,
}
use testmellow.Auth.Balance.{register-IsBalanced, login-IsBalanced}
use testmellow.Worker.Balance.{
  handle_payment_process-IsBalanced, handle_subscription_activate-IsBalanced,
  handle_device_expansion_activate-IsBalanced, handle_referral_reward-IsBalanced,
  handle_referral_payout-IsBalanced, payout_pending_rewards-IsBalanced, sweep_expired-IsBalanced,
}
use testmellow.System.{Outside, Operation, perform, forget, Step, Reach}
use testmellow.Http.Balance.{
  register_handler-IsBalanced, login_handler-IsBalanced, refresh-IsBalanced, logout-IsBalanced,
  tfa_check-IsBalanced, change_password-IsBalanced, update_telegram-IsBalanced,
  generate_unlink_code-IsBalanced, toggle_tfa-IsBalanced, generate_link_code-IsBalanced,
}
use testmellow.Admin.Balance.{
  adjust_user_yad-IsBalanced, ban_user-IsBalanced, unban_user-IsBalanced, set_risk_score-IsBalanced,
  check_payment-IsBalanced, assign_subscription-IsBalanced, set_subscription_status-IsBalanced,
  extend_subscription-IsBalanced, create_promo_code-IsBalanced, create_shop_item-IsBalanced,
  reset_payment_limit-IsBalanced,
}
use testmellow.Tickets.Balance.{
  create-IsBalanced, reply-IsBalanced, reply_to_ticket-IsBalanced, close_ticket-IsBalanced,
}
use testmellow.Devices.Balance.{disconnect_device-IsBalanced}
use testmellow.Bot.Balance.{
  handle_link-IsBalanced, handle_unlink-IsBalanced, handle_reset_password-IsBalanced,
  handle_tfa_callback-IsBalanced,
}

forget-Keeps : {A : Type 0} {Q : Db → Type 0} (m : Exec A) → Keeps Q m → Keeps Q (forget m)
forget-Keeps m k = Keeps-bind m _ k (λ _. Keeps-pure tt)

perform-IsBalanced : (o : Outside) (op : Operation) → Keeps IsBalanced (perform o op)
unfolding perform
perform-IsBalanced o (Operation.credit id x ty r) = credit_yad-IsBalanced id x ty r
perform-IsBalanced o (Operation.debit id x ty r) = debit_yad-IsBalanced id x ty r
perform-IsBalanced o (Operation.promo id code) = redeem_promo-IsBalanced id code
perform-IsBalanced o (Operation.shop id item n) =
    forget-Keeps _ (buy_shop_item-IsBalanced id item n)
perform-IsBalanced o (Operation.plan_for_yad id plan) =
    forget-Keeps _ (buy_subscription_with_yad-IsBalanced id plan)
perform-IsBalanced o (Operation.expansion_for_yad id qty) =
    forget-Keeps _ (buy_device_expansion-IsBalanced id qty)
perform-IsBalanced o (Operation.trial id) = forget-Keeps _ (activate_trial-IsBalanced id)
perform-IsBalanced o (Operation.checkout id plan url) =
    forget-Keeps _ (initiate_payment-IsBalanced o.gateway id plan url)
perform-IsBalanced o (Operation.expansion_checkout id qty) =
    forget-Keeps _ (initiate_device_expansion_payment-IsBalanced o.gateway id qty)
perform-IsBalanced o (Operation.touch_payment id pay) = forget-Keeps _ (touch-IsBalanced id pay)
perform-IsBalanced o (Operation.check_payment id pay) =
    forget-Keeps _ (check_payment_status-IsBalanced o.gateway id pay)
perform-IsBalanced o (Operation.webhook m s body) =
    handle-IsBalanced o.gateway o.gateway_config m s body
perform-IsBalanced o (Operation.sign_up input) =
    forget-Keeps _ (register-IsBalanced o.bcrypt_generate o.admin_bootstrap_token input)
perform-IsBalanced o (Operation.sign_in input) =
    forget-Keeps _ (login-IsBalanced o.bcrypt_compare input)
perform-IsBalanced o (Operation.payment_job tx id s) = handle_payment_process-IsBalanced tx id s
perform-IsBalanced o (Operation.subscription_job id pay plan x) =
    handle_subscription_activate-IsBalanced id pay plan x
perform-IsBalanced o (Operation.expansion_job id pay qty) =
    handle_device_expansion_activate-IsBalanced id pay qty
perform-IsBalanced o (Operation.reward_job pay id paid) =
    handle_referral_reward-IsBalanced pay id paid
perform-IsBalanced o (Operation.payout_job reward) = handle_referral_payout-IsBalanced reward
perform-IsBalanced o Operation.payment_sweep = sweep_payments-IsBalanced o.gateway
perform-IsBalanced o Operation.reward_sweep = payout_pending_rewards-IsBalanced
perform-IsBalanced o Operation.expiry_sweep = sweep_expired-IsBalanced
perform-IsBalanced o (Operation.web_sign_up name_ok i) =
    forget-Keeps _
      (register_handler-IsBalanced o.tokens o.bcrypt_generate o.admin_bootstrap_token name_ok i)
perform-IsBalanced o (Operation.web_sign_in i) =
    forget-Keeps _ (login_handler-IsBalanced o.tokens o.uuid o.bcrypt_compare i)
perform-IsBalanced o (Operation.web_refresh cookie) =
    forget-Keeps _ (refresh-IsBalanced o.tokens cookie)
perform-IsBalanced o (Operation.web_logout cookie) = logout-IsBalanced o.tokens cookie
perform-IsBalanced o (Operation.tfa_poll id n) =
    forget-Keeps _ (tfa_check-IsBalanced o.tokens o.uuid id n)
perform-IsBalanced o (Operation.new_password id old new long_enough) =
    change_password-IsBalanced o.bcrypt_compare o.bcrypt_generate id old new long_enough
perform-IsBalanced o (Operation.drop_telegram id code asks_id) =
    update_telegram-IsBalanced id code asks_id
perform-IsBalanced o (Operation.unlink_code id) = generate_unlink_code-IsBalanced id
perform-IsBalanced o (Operation.link_code id) = forget-Keeps _ (generate_link_code-IsBalanced id)
perform-IsBalanced o (Operation.second_factor id enabled) = toggle_tfa-IsBalanced id enabled
perform-IsBalanced o (Operation.bot_link tg code) = handle_link-IsBalanced tg code
perform-IsBalanced o (Operation.bot_unlink tg) = forget-Keeps _ (handle_unlink-IsBalanced tg)
perform-IsBalanced o (Operation.bot_reset tg) =
    forget-Keeps _ (handle_reset_password-IsBalanced o.bcrypt_generate tg)
perform-IsBalanced o (Operation.bot_answer tg id approve) =
    handle_tfa_callback-IsBalanced o.uuid tg id approve
perform-IsBalanced o (Operation.admin_adjust id delta n) = adjust_user_yad-IsBalanced id delta n
perform-IsBalanced o (Operation.admin_ban id) = ban_user-IsBalanced id
perform-IsBalanced o (Operation.admin_unban id) = unban_user-IsBalanced id
perform-IsBalanced o (Operation.admin_risk id score) = set_risk_score-IsBalanced id score
perform-IsBalanced o (Operation.admin_check id) =
    forget-Keeps _ (check_payment-IsBalanced o.gateway id)
perform-IsBalanced o (Operation.admin_assign login plan) =
    forget-Keeps _ (assign_subscription-IsBalanced login plan)
perform-IsBalanced o (Operation.admin_status id status) =
    set_subscription_status-IsBalanced id status
perform-IsBalanced o (Operation.admin_extend id days) =
    forget-Keeps _ (extend_subscription-IsBalanced id days)
perform-IsBalanced o (Operation.open_ticket id v s text) =
    forget-Keeps _ (create-IsBalanced id v s text)
perform-IsBalanced o (Operation.ticket_reply id v ticket text) = reply-IsBalanced id v ticket text
perform-IsBalanced o (Operation.admin_reply id v ticket text) =
    reply_to_ticket-IsBalanced id v ticket text
perform-IsBalanced o (Operation.admin_close v ticket) = close_ticket-IsBalanced v ticket
perform-IsBalanced o (Operation.disconnect id hwid) = disconnect_device-IsBalanced o.hwids id hwid
perform-IsBalanced o (Operation.admin_promo id r) =
    forget-Keeps _ (create_promo_code-IsBalanced id r)
perform-IsBalanced o (Operation.admin_reset_limit id) = reset_payment_limit-IsBalanced id
perform-IsBalanced o (Operation.admin_item v price stock) =
    forget-Keeps _ (create_shop_item-IsBalanced v price stock)

Step-IsBalanced : (o : Outside) (w w' : World) → Step o w w' → IsBalanced w.db → IsBalanced w'.db
Step-IsBalanced o _ _ (Step.operation op w) b = (perform-IsBalanced o op).at w b
Step-IsBalanced o _ _ (Step.environment w u same) b = subst IsBalanced (sym same) b

-- From a world whose ledger is balanced (every balance is the sum of the user's rows of
-- yad_transactions, and none is negative), every world that the operations of the service reach,
-- with any failures of any external call and any steps of the environment between them, has a
-- balanced ledger.
pub Reach-IsBalanced :
    (o : Outside) (w w' : World) → Reach o w w' → IsBalanced w.db → IsBalanced w'.db
Reach-IsBalanced o w w' Reach.here b = b
Reach-IsBalanced o w w' (Reach.there r s) b = Step-IsBalanced o _ _ s (Reach-IsBalanced o w _ r b)
