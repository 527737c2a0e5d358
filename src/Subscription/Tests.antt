-- ===== src/Subscription/Tests.antt =====
-- The theorems about subscriptions at concrete inputs.
use kraken_sdk.Common.{◌≡◌, refl, String, true, false, List, [], ◌∷◌, nat_key, lookup-nil}
use kraken_sdk.Subscription.{
  ticker, balances, SubscriptionImpl, Call, pauses, resumes, adds, removes, run,
}
use kraken_sdk.Subscription.Server.{served, wanted, served-run}
use kraken_sdk.Subscription.Lifecycle.{IsValid}
use kraken_sdk.Subscription.Client.{
  Client, IdsBelow, send_pending_subscriptions, anyone_wants, send_pending_restores,
}

abbrev on_ticker : SubscriptionImpl
on_ticker = record {
  id = 1;
  channel = ticker;
  symbols = "BTC/USD" ∷ [];
  depth = 10;
  active = true;
  paused = false;
  confirmed = false;
  whole_channel = false;
}

abbrev on_balances : SubscriptionImpl
on_balances = record on_ticker { channel = balances; symbols = []; whole_channel = true }

abbrev new_client : Client
new_client = record { authenticated = false; next_sub_id = 1; subscriptions = [] }

abbrev used_client : Client
used_client = record new_client { next_sub_id = 2; subscriptions = (1, on_ticker) ∷ [] }

abbrev some_calls : List Call
some_calls = adds ("ETH/USD" ∷ []) ∷ pauses ∷ removes ("BTC/USD" ∷ []) ∷ resumes ∷ []

served-run_example :
    served "ticker" "BTC/USD" true (run on_ticker some_calls).1
    ≡ wanted (run on_ticker some_calls).0 "BTC/USD"
served-run_example =
    served-run on_ticker some_calls "BTC/USD" (record { public_channel = refl; by_symbol = refl })

on_ticker-IsValid : IsValid on_ticker
on_ticker-IsValid = record { paused_active = λ e. refl; distinct = (refl, tt) }

new_client-IdsBelow : IdsBelow new_client
new_client-IdsBelow = λ i h. lookup-nil i

abbrev no_symbols : List String
no_symbols = []

send_pending_restores_example :
    served "ticker" "BTC/USD" false (send_pending_subscriptions used_client)
    ≡ anyone_wants "ticker" "BTC/USD" ((1, on_ticker) ∷ [])
send_pending_restores_example = send_pending_restores used_client "ticker" "BTC/USD" (refl, tt)
