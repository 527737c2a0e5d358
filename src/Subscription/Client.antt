-- ===== src/Subscription/Client.antt =====
-- The subscriptions of a client: `subscribe`, `subscribe_book`, the private channels, and
-- `send_pending_subscriptions` of src/client/subscriptions.cpp, which is also the loop that
-- `handle_reconnect` (src/client/reconnect.cpp) ends with.
--
-- The map of subscriptions is an association list; its order stands for the order in which the hash
-- map is walked. The counter of ids does not wrap.
use Prim.Native.String.{len}
use kraken_sdk.Common.{
  ℕ, suc, ◌≤◌, ◌≡◌, ◌≢◌, ◌⊎◌, inl, inr, refl, String, Bool, true, false, not, ◌&&◌, ◌||◌, ltb, leb,
  if◌then◌else◌, none, some, List, [], ◌∷◌, all_of, string_key, nat_key, ◌==◌, contains, lookup,
  insert, lookup-insert, lookup-insert_self, arith, All, Bool-cases, beq_refl, subst,
}
use kraken_sdk.Subscription.{
  Channel, book, own_trades, open_orders, balances, channel_name, is_private, Request,
  build_subscribe_message, build_subscription_message, subscribe_method, SubscriptionImpl,
  subscription_impl,
}
use kraken_sdk.Subscription.Server.{served, wanted, served_after, served-build}

pub record Client : Type 0 where
  pub authenticated : Bool
  pub next_sub_id : ℕ
  pub subscriptions : List (ℕ × SubscriptionImpl)

pub data Error : Type 0 where
  symbols_empty symbols_invalid not_authenticated : Error

-- A call fails, and then changes and sends nothing, or gives the client, the id and the request.
pub data Result : Type 0 where
  ok : Client → ℕ → Request → Result
  err : Error → Result

-- `symbols_valid`: no symbol is empty or longer than 256 bytes.
unfoldable pub symbols_valid : List String → Bool
symbols_valid syms = all_of (λ s. ltb 0 (len s) && leb (len s) 256) syms

abbrev pub is_empty : List String → Bool
is_empty [] = true
is_empty (s ∷ ss) = false

add_subscription : Client → SubscriptionImpl → Request → Result
add_subscription c s r =
    ok
      (record c {
        next_sub_id = suc c.next_sub_id;
        subscriptions = insert c.next_sub_id s c.subscriptions;
      })
      c.next_sub_id r

unfoldable pub subscribe : Client → Channel → List String → Result
unfolding add_subscription
subscribe c ch syms =
    if is_empty syms
    then err symbols_empty
    else if not (symbols_valid syms)
    then err symbols_invalid
    else add_subscription c (subscription_impl c.next_sub_id ch syms false)
        (build_subscribe_message ch syms 0)

unfoldable pub subscribe_book : Client → List String → ℕ → Result
unfolding add_subscription
subscribe_book c syms depth =
    if is_empty syms
    then err symbols_empty
    else if not (symbols_valid syms)
    then err symbols_invalid
    else add_subscription c
        (record (subscription_impl c.next_sub_id book syms false) { depth = depth })
        (build_subscribe_message book syms depth)

subscribe_private : Client → Channel → Result
unfolding add_subscription
subscribe_private c ch =
    if not c.authenticated
    then err not_authenticated
    else add_subscription c (subscription_impl c.next_sub_id ch [] true)
        (build_subscribe_message ch [] 0)

unfoldable pub subscribe_own_trades : Client → Result
unfolding subscribe_private
subscribe_own_trades c = subscribe_private c own_trades

unfoldable pub subscribe_open_orders : Client → Result
unfolding subscribe_private
subscribe_open_orders c = subscribe_private c open_orders

unfoldable pub subscribe_balances : Client → Result
unfolding subscribe_private
subscribe_balances c = subscribe_private c balances

-- The loop of `send_pending_subscriptions`.
unfoldable pub pending : List (ℕ × SubscriptionImpl) → List Request
pending [] = []
pending (entry ∷ subs) =
    let s = entry.1 in
    let rest = pending subs in
    if s.active && not s.paused
    then build_subscribe_message s.channel s.symbols s.depth ∷ rest
    else rest

unfoldable pub send_pending_subscriptions : Client → List Request
send_pending_subscriptions c = pending c.subscriptions

-- Every id in use lies below the counter.
abbrev pub IdsBelow : Client → Type 0
IdsBelow c = (i : ℕ) → c.next_sub_id ≤ i → lookup i c.subscriptions ≡ none

-- The outcome of any of the subscribe calls: an error, or one new subscription under an id that was
-- free, all others kept, with ids still below the counter and the new one active and not paused.
abbrev pub Subscribes : Client → Result → Type 0
Subscribes c (err e) = Unit
Subscribes c (ok c' id r) =
    (lookup id c.subscriptions ≡ none)
    × ((j : ℕ) → j ≢ id → lookup j c'.subscriptions ≡ lookup j c.subscriptions)
    × ((s : SubscriptionImpl) × (lookup id c'.subscriptions ≡ some s)
        × (s.id ≡ id)
        × (s.active ≡ true)
        × (s.paused ≡ false))
    × IdsBelow c'

add_subscription-Subscribes :
    (c : Client) (s : SubscriptionImpl) (r : Request)
    → IdsBelow c
    → s.id ≡ c.next_sub_id
    → s.active ≡ true
    → s.paused ≡ false
    → Subscribes c (add_subscription c s r)
unfolding add_subscription
add_subscription-Subscribes c s r below i a p =
    let id = c.next_sub_id in
    (
      below id (omega arith),
      (λ j ne. ground (arith, lookup-insert id j s c.subscriptions, nat_key.same_key_iff id j)),
      (s, lookup-insert_self id s c.subscriptions, i, a, p),
      λ j h.
          ground (arith, lookup-insert id j s c.subscriptions, nat_key.same_key_iff id j, below j),
    )

guarded-Subscribes :
    (c : Client) (b : Bool) (e : Error) (r : Result)
    → Subscribes c r
    → Subscribes c (if b then err e else r)
guarded-Subscribes c true e r h = tt
guarded-Subscribes c false e r h = h

-- Each subscribe call, if it does not fail, adds one subscription, active and not paused, under an id
-- that no other has, and keeps all others; a failure gives an error and no client.
pub subscribe-Subscribes :
    (c : Client) (ch : Channel) (syms : List String) (depth : ℕ)
    → IdsBelow c
    → Subscribes c (subscribe c ch syms)
      × Subscribes c (subscribe_book c syms depth)
      × Subscribes c (subscribe_own_trades c)
      × Subscribes c (subscribe_open_orders c)
      × Subscribes c (subscribe_balances c)
unfolding subscribe subscribe_book subscribe_own_trades subscribe_open_orders subscribe_balances
    subscription_impl
subscribe-Subscribes c ch syms depth below =
    let bad = not (symbols_valid syms) in
    let no_key = not c.authenticated in
    let sent = build_subscribe_message in
    (
      guarded-Subscribes c (is_empty syms) _ _ (
          guarded-Subscribes c bad _ _
            (add_subscription-Subscribes c _ (sent ch syms 0) below refl refl refl)),
      guarded-Subscribes c (is_empty syms) _ _ (
          guarded-Subscribes c bad _ _
            (add_subscription-Subscribes c _ (sent book syms depth) below refl refl refl)),
      guarded-Subscribes c no_key _ _
          (add_subscription-Subscribes c _ (sent own_trades [] 0) below refl refl refl),
      guarded-Subscribes c no_key _ _
          (add_subscription-Subscribes c _ (sent open_orders [] 0) below refl refl refl),
      guarded-Subscribes c no_key _ _
          (add_subscription-Subscribes c _ (sent balances [] 0) below refl refl refl),
    )

-- Whether some subscription for the channel wants the data of a symbol.
abbrev pub anyone_wants : String → String → List (ℕ × SubscriptionImpl) → Bool
anyone_wants ch sym [] = false
anyone_wants ch sym (entry ∷ subs) =
    ((channel_name entry.1.channel == ch) && wanted entry.1 sym) || anyone_wants ch sym subs

-- A request for one channel leaves the others.
served_other_channel :
    (s : SubscriptionImpl) (ch sym : String) (on : Bool)
    → (channel_name s.channel == ch) ≡ false
    → served_after ch sym on (build_subscribe_message s.channel s.symbols s.depth) ≡ on
unfolding served_after build_subscribe_message build_subscription_message
served_other_channel s ch sym on h = ground arith

served_pending_one :
    (s : SubscriptionImpl) (ch sym : String) (on : Bool)
    → is_private s.channel ≡ false
    → served_after ch sym on (build_subscribe_message s.channel s.symbols s.depth)
      ≡ (((channel_name s.channel == ch) && contains sym s.symbols) || on)
unfolding build_subscribe_message
served_pending_one s ch sym on p = elim (Bool-cases (channel_name s.channel == ch)) [
  | inl hit ↦
      let e = (string_key.same_key_iff (channel_name s.channel) ch).0 hit in
      subst
        (λ x.
          served_after x sym on (build_subscribe_message s.channel s.symbols s.depth)
          ≡ (((channel_name s.channel == x) && contains sym s.symbols) || on))
        e
        (ground (
          arith,
          served-build subscribe_method s.channel sym on s.symbols s.depth p,
          beq_refl (channel_name s.channel),
        ))
  | inr miss ↦ ground (arith, served_other_channel s ch sym on miss)
]

served-pending :
    (subs : List (ℕ × SubscriptionImpl)) (ch sym : String) (on : Bool)
    → All (λ entry. is_private entry.1.channel ≡ false) subs
    → served ch sym on (pending subs) ≡ (anyone_wants ch sym subs || on)
unfolding pending served
served-pending [] ch sym on h = refl
served-pending (entry ∷ subs) ch sym on h =
    let s = entry.1 in
    let first = build_subscribe_message s.channel s.symbols s.depth in
    ground (
      arith,
      served_pending_one s ch sym on h.0,
      served-pending subs ch sym on h.1,
      served-pending subs ch sym (served_after ch sym on first) h.1,
    )

-- To a server that serves nothing yet, as after a new connection, the pending subscriptions, all of
-- public channels, send just the requests after which it serves, on each channel, the symbols that
-- some active subscription that is not paused wants there, and no others.
pub send_pending_restores :
    (c : Client) (ch sym : String)
    → All (λ entry. is_private entry.1.channel ≡ false) c.subscriptions
    → served ch sym false (send_pending_subscriptions c) ≡ anyone_wants ch sym c.subscriptions
unfolding send_pending_subscriptions
send_pending_restores c ch sym h = ground (arith, served-pending c.subscriptions ch sym false h)

-- A subscription is refused only for an empty list of symbols, or for one with an empty symbol or
-- one of more than 256 bytes, and to the balances only when there is no key; the error says which.
pub subscribe-refused :
    (c : Client) (ch : Channel) (syms : List String) (e : Error)
    → (subscribe c ch syms ≡ err e
        → ((syms ≡ []) × (e ≡ symbols_empty))
          ⊎ ((symbols_valid syms ≡ false) × (e ≡ symbols_invalid)))
      × (subscribe_balances c ≡ err e → (c.authenticated ≡ false) × (e ≡ not_authenticated))
unfolding subscribe subscribe_balances
subscribe-refused c ch [] e = ground arith
subscribe-refused c ch (s ∷ syms) e = ground arith
