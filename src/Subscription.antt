-- ===== src/Subscription.antt =====
-- Subscriptions: class SubscriptionImpl of src/internal/client_impl.hpp with
-- src/client/subscription_impl.cpp, the subscribe calls of src/client/subscriptions.cpp, and the
-- request builder of src/parser.cpp.
--
-- A call returns the new state and the requests that it hands to the connection, oldest first: what
-- `safe_send_message` is given. A request is the content of the JSON text; the text is written by
-- rapidjson. Each method holds the mutex of its object, and is one step.
pub mod Names
pub mod Server
pub mod Lifecycle
pub mod Client
mod Tests
use Prim.Native.String.{len}
use kraken_sdk.Common.{
  ℕ, suc, ◌+◌, ◌≡◌, String, Bool, true, false, not, ◌&&◌, ◌||◌, ltb, leb, if◌then◌else◌, Option,
  none, some, List, [], ◌∷◌, ◌++◌, string_key, ◌==◌, contains, keep_if, all_of,
}

pub data Channel : Type 0 where
  ticker trade book ohlc own_trades open_orders balances : Channel

-- `to_string(Channel)`.
abbrev pub channel_name : Channel → String
channel_name ticker = "ticker"
channel_name trade = "trade"
channel_name book = "book"
channel_name ohlc = "ohlc"
channel_name own_trades = "ownTrades"
channel_name open_orders = "openOrders"
channel_name balances = "balances"

abbrev pub is_private : Channel → Bool
is_private own_trades = true
is_private open_orders = true
is_private balances = true
is_private _ = false

abbrev pub is_book : Channel → Bool
is_book book = true
is_book _ = false

pub data Method : Type 0 where
  subscribe_method unsubscribe_method : Method

-- The members of the JSON object; `symbols` is `none` where the key is not written, and so is `depth`.
pub record Request : Type 0 where
  pub method : Method
  pub channel : String
  pub symbols : Option (List String)
  pub depth : Option ℕ

abbrev pub is_subscribe : Method → Bool
is_subscribe subscribe_method = true
is_subscribe unsubscribe_method = false

abbrev pub unless_empty : List String → Option (List String)
unless_empty [] = none
unless_empty (s ∷ ss) = some (s ∷ ss)

-- A depth is an `int`; one that is not positive is not written, and so stands here as 0.
unfoldable pub build_subscription_message : Method → Channel → List String → ℕ → Request
build_subscription_message m ch syms depth = record {
  method = m;
  channel = channel_name ch;
  symbols = if is_private ch then none else unless_empty syms;
  depth = if is_subscribe m && (is_book ch && ltb 0 depth) then some depth else none;
}

unfoldable pub build_subscribe_message : Channel → List String → ℕ → Request
build_subscribe_message ch syms depth = build_subscription_message subscribe_method ch syms depth

unfoldable pub build_unsubscribe_message : Channel → List String → Request
build_unsubscribe_message ch syms = build_subscription_message unsubscribe_method ch syms 0

-- `whole_channel` says which pair of callbacks the object was built with: the ones that pass the
-- symbols on, or those of the private channels, which pass none.
pub record SubscriptionImpl : Type 0 where
  pub id : ℕ
  pub channel : Channel
  pub symbols : List String
  pub depth : ℕ
  pub active : Bool
  pub paused : Bool
  pub confirmed : Bool
  pub whole_channel : Bool

unfoldable pub subscription_impl : ℕ → Channel → List String → Bool → SubscriptionImpl
subscription_impl id ch syms whole = record {
  id = id;
  channel = ch;
  symbols = syms;
  depth = 10;
  active = true;
  paused = false;
  confirmed = false;
  whole_channel = whole;
}

-- The two callbacks.
unfoldable pub subscribe_fn : SubscriptionImpl → List String → ℕ → Request
unfolding build_subscribe_message
subscribe_fn s syms depth =
    if s.whole_channel
    then build_subscribe_message s.channel [] 0
    else build_subscribe_message s.channel syms depth

unfoldable pub unsubscribe_fn : SubscriptionImpl → List String → Request
unfolding build_unsubscribe_message
unsubscribe_fn s syms =
    if s.whole_channel
    then build_unsubscribe_message s.channel []
    else build_unsubscribe_message s.channel syms

unfoldable pub pause : SubscriptionImpl → SubscriptionImpl × List Request
pause s =
    if not s.active || s.paused
    then (s, [])
    else (record s { paused = true }, unsubscribe_fn s s.symbols ∷ [])

unfoldable pub resume : SubscriptionImpl → SubscriptionImpl × List Request
resume s =
    if not s.active || not s.paused
    then (s, [])
    else (record s { paused = false }, subscribe_fn s s.symbols s.depth ∷ [])

unfoldable pub unsubscribe : SubscriptionImpl → SubscriptionImpl × List Request
unsubscribe s =
    if not s.active
    then (s, [])
    else (record s { active = false; paused = false }, unsubscribe_fn s s.symbols ∷ [])

-- The loop of `add_symbols`: `push_back` of what is not there.
unfoldable pub add_all : List String → List String → List String
add_all syms [] = syms
add_all syms (new ∷ news) = add_all (if contains new syms then syms else syms ++ new ∷ []) news

unfoldable pub add_symbols : SubscriptionImpl → List String → SubscriptionImpl × List Request
add_symbols s news = if not s.active then (s, []) else (
  record s { symbols = add_all s.symbols news },
  if s.paused then [] else subscribe_fn s news s.depth ∷ [],
)

-- The loop of `remove_symbols`: erase-remove.
unfoldable pub remove_all : List String → List String → List String
remove_all syms [] = syms
remove_all syms (gone ∷ rest) = remove_all (keep_if (λ x. not (x == gone)) syms) rest

unfoldable pub remove_symbols : SubscriptionImpl → List String → SubscriptionImpl × List Request
remove_symbols s gone = if not s.active then (s, []) else (
  record s { symbols = remove_all s.symbols gone },
  if s.paused then [] else unsubscribe_fn s gone ∷ [],
)

-- The calls on a subscription.
pub data Call : Type 0 where
  pauses resumes unsubscribes : Call
  adds removes : List String → Call

unfoldable pub step : SubscriptionImpl → Call → SubscriptionImpl × List Request
step s pauses = pause s
step s resumes = resume s
step s unsubscribes = unsubscribe s
step s (adds news) = add_symbols s news
step s (removes gone) = remove_symbols s gone

unfoldable pub run : SubscriptionImpl → List Call → SubscriptionImpl × List Request
run s [] = (s, [])
run s (c ∷ cs) = let (s', sent) = step s c in let (s'', more) = run s' cs in (s'', sent ++ more)
