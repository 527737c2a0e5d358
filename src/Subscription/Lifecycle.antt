-- ===== src/Subscription/Lifecycle.antt =====
-- The states of a subscription.
use kraken_sdk.Common.{◌≡◌, refl, String, true, false, List, [], ◌∷◌, string_key, arith}
use kraken_sdk.Subscription.{
  SubscriptionImpl, subscribe_fn, unsubscribe_fn, pause, resume, unsubscribe, add_symbols,
  remove_symbols, Call, pauses, resumes, unsubscribes, adds, removes, step, run,
}
use kraken_sdk.Subscription.Names.{Distinct, add_all-Distinct, remove_all-Distinct}

-- A paused subscription is active, and no symbol is listed twice.
pub record IsValid (s : SubscriptionImpl) : Type 0 where
  pub paused_active : s.paused ≡ true → s.active ≡ true
  pub distinct : Distinct s.symbols

step-IsValid : (s : SubscriptionImpl) (c : Call) → IsValid s → IsValid (step s c).0
unfolding step pause resume unsubscribe add_symbols remove_symbols
step-IsValid s pauses v = ground arith
step-IsValid s resumes v = ground arith
step-IsValid s unsubscribes v = ground arith
step-IsValid s (adds news) v = ground (arith, add_all-Distinct s.symbols news v.distinct)
step-IsValid s (removes gone) v = ground (arith, remove_all-Distinct s.symbols gone v.distinct)

-- A subscription made for distinct symbols has, after any calls, distinct symbols, and is active
-- whenever it is paused.
pub run-subscription-IsValid :
    (s : SubscriptionImpl) (cs : List Call) → IsValid s → IsValid (run s cs).0
unfolding run
run-subscription-IsValid s [] v = v
run-subscription-IsValid s (c ∷ cs) v =
    run-subscription-IsValid (step s c).0 cs (step-IsValid s c v)

step_inactive : (s : SubscriptionImpl) (c : Call) → s.active ≡ false → step s c ≡ (s, [])
unfolding step pause resume unsubscribe add_symbols remove_symbols
step_inactive s pauses h = ground arith
step_inactive s resumes h = ground arith
step_inactive s unsubscribes h = ground arith
step_inactive s (adds news) h = ground arith
step_inactive s (removes gone) h = ground arith

run_inactive : (s : SubscriptionImpl) (cs : List Call) → s.active ≡ false → run s cs ≡ (s, [])
unfolding run
run_inactive s [] h = refl
run_inactive s (c ∷ cs) h = rw (step_inactive s c h, run, run_inactive s cs h)

-- Once unsubscribed, a subscription stays as it is and sends nothing more, whatever is called on it.
pub unsubscribe-final :
    (s : SubscriptionImpl) (cs : List Call) → run (unsubscribe s).0 cs ≡ ((unsubscribe s).0, [])
unfolding unsubscribe
unsubscribe-final s cs = run_inactive (unsubscribe s).0 cs (ground arith)

-- Pausing an active subscription and resuming it later gives it back unchanged, having sent one
-- request to stop and one to go on, for the same channel and symbols.
pub pause-resume :
    (s : SubscriptionImpl)
    → s.active ≡ true
    → s.paused ≡ false
    → run s (pauses ∷ resumes ∷ [])
      ≡ (s, unsubscribe_fn s s.symbols ∷ subscribe_fn s s.symbols s.depth ∷ [])
unfolding run step pause resume subscribe_fn unsubscribe_fn
pause-resume s a p = ground arith

-- On a private channel `remove_symbols` of any symbols, none listed or not, asks the server to end
-- the whole channel, while the subscription stays active and is not paused.
pub remove_symbols_private :
    (s : SubscriptionImpl) (gone : List String)
    → s.active ≡ true
    → s.paused ≡ false
    → s.whole_channel ≡ true
    → ((remove_symbols s gone).1 ≡ (unsubscribe s).1)
      × ((remove_symbols s gone).0.active ≡ true)
      × ((remove_symbols s gone).0.paused ≡ false)
unfolding remove_symbols unsubscribe unsubscribe_fn
remove_symbols_private s gone a p w = ground arith
