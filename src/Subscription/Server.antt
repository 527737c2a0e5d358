-- ===== src/Subscription/Server.antt =====
-- The requests of a subscription as the server takes them, against the subscription's own state.
use kraken_sdk.Common.{
  ℕ, ◌≡◌, refl, sym, String, Bool, true, false, not, ◌&&◌, if◌then◌else◌, Option, none, some, List,
  [], ◌∷◌, ◌++◌, string_key, ◌==◌, contains, arith, beq_refl,
}
use kraken_sdk.Subscription.{
  Channel, channel_name, is_private, Method, subscribe_method, unsubscribe_method, Request,
  is_subscribe, unless_empty, build_subscription_message, SubscriptionImpl, subscribe_fn,
  unsubscribe_fn, pause, resume, unsubscribe, add_symbols, remove_symbols, Call, pauses, resumes,
  unsubscribes, adds, removes, step, run,
}
use kraken_sdk.Subscription.Names.{contains-add_all, contains-remove_all}

abbrev pub names_symbol : String → Option (List String) → Bool
names_symbol sym none = false
names_symbol sym (some syms) = contains sym syms

-- Whether the server sends the data of `sym` on a channel, after a request for that channel, if it
-- did so before as `on` says: a request changes that for the symbols that it lists.
unfoldable pub served_after : String → String → Bool → Request → Bool
served_after ch sym on r =
    if (r.channel == ch) && names_symbol sym r.symbols then is_subscribe r.method else on

unfoldable pub served : String → String → Bool → List Request → Bool
served ch sym on [] = on
served ch sym on (r ∷ rs) = served ch sym (served_after ch sym on r) rs

pub served-append :
    (ch sym : String) (on : Bool) (rs more : List Request)
    → served ch sym on (rs ++ more) ≡ served ch sym (served ch sym on rs) more
unfolding served
served-append ch sym on [] more = refl
served-append ch sym on (r ∷ rs) more = served-append ch sym (served_after ch sym on r) rs more

-- Whether the subscription wants the data of a symbol.
abbrev pub wanted : SubscriptionImpl → String → Bool
wanted s sym = s.active && (not s.paused && contains sym s.symbols)

names-unless_empty :
    (sym : String) (syms : List String) → names_symbol sym (unless_empty syms) ≡ contains sym syms
names-unless_empty sym [] = refl
names-unless_empty sym (s ∷ syms) = refl

pub served-build :
    (m : Method) (ch : Channel) (sym : String) (on : Bool) (syms : List String) (depth : ℕ)
    → is_private ch ≡ false
    → served_after (channel_name ch) sym on (build_subscription_message m ch syms depth)
      ≡ (if contains sym syms then is_subscribe m else on)
unfolding served_after build_subscription_message
served-build m ch sym on syms depth p =
    ground (arith, names-unless_empty sym syms, beq_refl (channel_name ch))

-- A subscription to a public channel, as `subscribe` and `subscribe_book` make them.
pub record IsPublic (s : SubscriptionImpl) : Type 0 where
  pub public_channel : is_private s.channel ≡ false
  pub by_symbol : s.whole_channel ≡ false

served-subscribe :
    (s : SubscriptionImpl) (sym : String) (on : Bool) (syms : List String)
    → IsPublic s
    → served_after (channel_name s.channel) sym on (subscribe_fn s syms s.depth)
      ≡ (if contains sym syms then true else on)
unfolding subscribe_fn
served-subscribe s sym on syms p = ground (
  arith,
  served-build subscribe_method s.channel sym on syms s.depth p.public_channel,
  p.by_symbol,
)

served-unsubscribe :
    (s : SubscriptionImpl) (sym : String) (on : Bool) (syms : List String)
    → IsPublic s
    → served_after (channel_name s.channel) sym on (unsubscribe_fn s syms)
      ≡ (if contains sym syms then false else on)
unfolding unsubscribe_fn
served-unsubscribe s sym on syms p =
    ground
      (arith, served-build unsubscribe_method s.channel sym on syms 0 p.public_channel, p.by_symbol)

step-IsPublic : (s : SubscriptionImpl) (c : Call) → IsPublic s → IsPublic (step s c).0
unfolding step pause resume unsubscribe add_symbols remove_symbols
step-IsPublic s pauses p = ground arith
step-IsPublic s resumes p = ground arith
step-IsPublic s unsubscribes p = ground arith
step-IsPublic s (adds news) p = ground arith
step-IsPublic s (removes gone) p = ground arith

step-channel : (s : SubscriptionImpl) (c : Call) → (step s c).0.channel ≡ s.channel
unfolding step pause resume unsubscribe add_symbols remove_symbols
step-channel s pauses = ground arith
step-channel s resumes = ground arith
step-channel s unsubscribes = ground arith
step-channel s (adds news) = ground arith
step-channel s (removes gone) = ground arith

served-step :
    (s : SubscriptionImpl) (c : Call) (sym : String)
    → IsPublic s
    → served (channel_name s.channel) sym (wanted s sym) (step s c).1 ≡ wanted (step s c).0 sym
unfolding step pause resume unsubscribe add_symbols remove_symbols served
served-step s pauses sym p = ground (arith, served-unsubscribe s sym (wanted s sym) s.symbols p)
served-step s resumes sym p = ground (arith, served-subscribe s sym (wanted s sym) s.symbols p)
served-step s unsubscribes sym p =
    ground (arith, served-unsubscribe s sym (wanted s sym) s.symbols p)
served-step s (adds news) sym p =
    ground
      (arith, served-subscribe s sym (wanted s sym) news p, contains-add_all sym s.symbols news)
served-step s (removes gone) sym p =
    ground (
      arith,
      served-unsubscribe s sym (wanted s sym) gone p,
      contains-remove_all sym s.symbols gone,
    )

-- Whatever calls are made on a subscription to a public channel: if the server served just what the
-- subscription wanted before, then after the requests that the calls send it serves just what the
-- subscription wants.
pub served-run :
    (s : SubscriptionImpl) (cs : List Call) (sym : String)
    → IsPublic s
    → served (channel_name s.channel) sym (wanted s sym) (run s cs).1 ≡ wanted (run s cs).0 sym
unfolding run served
served-run s [] sym p = refl
served-run s (c ∷ cs) sym p =
    let s' = (step s c).0 in
    let sent = (step s c).1 in
    let ih = served-run s' cs sym (step-IsPublic s c p) in
    ground (
      arith,
      served-append (channel_name s.channel) sym (wanted s sym) sent (run s' cs).1,
      served-step s c sym p,
      step-channel s c,
      ih,
    )
