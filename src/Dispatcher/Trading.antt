-- ===== src/Dispatcher/Trading.antt =====
-- trading_state.go: per-consumer trading switches.
use meltica_gateway.Common.{
  Bool, true, ◌&&◌, not, ◌≡◌, [], or_else, arith, if◌then◌else◌, ◌==◌, ==_iff,
}
use meltica_gateway.Common.Text.{Text, to_lower, trim_space, text_beq, text_eq}
use meltica_gateway.Common.Map.{Map, get, put, get-put}

-- TradingState
pub record TradingState : Type 0 where
  pub flags : Map Text Bool

-- NewTradingState
unfoldable pub new_trading_state : TradingState
new_trading_state = record { flags = [] }

-- normalizeConsumerID
unfoldable pub normalize_consumer_id : Text → Text
normalize_consumer_id id = to_lower (trim_space id)

-- Set
unfoldable pub set : TradingState → Text → Bool → TradingState
set s consumer enabled =
    if text_beq (normalize_consumer_id consumer) []
    then s
    else record s { flags = put s.flags (normalize_consumer_id consumer) enabled }

-- Enabled: a consumer without a switch may trade.
unfoldable pub enabled : TradingState → Text → Bool
enabled s consumer =
    if text_beq (normalize_consumer_id consumer) []
    then true
    else or_else (get s.flags (normalize_consumer_id consumer)) true

-- Setting a consumer's switch is seen under every spelling of its id that differs in case and
-- surrounding spaces, and under no other id; a blank id sets nothing and may always trade.
pub enabled-set :
    (s : TradingState) (consumer other : Text) (b : Bool)
    → enabled (set s consumer b) other ≡ (
        if (normalize_consumer_id consumer == normalize_consumer_id other)
          && not (text_beq (normalize_consumer_id consumer) [])
        then b
        else enabled s other)
unfolding enabled set
enabled-set s consumer other b = ground (
  arith,
  get-put s.flags (normalize_consumer_id consumer) (normalize_consumer_id other) b,
  ==_iff (normalize_consumer_id consumer) (normalize_consumer_id other),
)
