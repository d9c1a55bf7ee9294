-- ===== src/Schema/Payload.antt =====
-- internal/domain/schema/event.go: the event types and the payloads of events.
use meltica_gateway.Common.{Bool}
use meltica_gateway.Common.Text.{Text, codes}
use meltica_gateway.Common.Map.{Map}
use meltica_gateway.Schema.Order.{Time, TradeSide, ExecReportPayload}
use meltica_gateway.Schema.Book.{BookSnapshotPayload}
use meltica_gateway.Schema.Instrument.{Instrument}

-- TradePayload
pub record TradePayload : Type 0 where
  pub trade_id : Text
  pub side : TradeSide
  pub price : Text
  pub quantity : Text
  pub timestamp : Time

-- TickerPayload
pub record TickerPayload : Type 0 where
  pub last_price : Text
  pub bid_price : Text
  pub ask_price : Text
  pub volume_24h : Text
  pub timestamp : Time

-- KlineSummaryPayload
pub record KlineSummaryPayload : Type 0 where
  pub open_price : Text
  pub close_price : Text
  pub high_price : Text
  pub low_price : Text
  pub volume : Text
  pub open_time : Time
  pub close_time : Time

-- BalanceUpdatePayload
pub record BalanceUpdatePayload : Type 0 where
  pub currency : Text
  pub total : Text
  pub available : Text
  pub timestamp : Time

-- RiskControlPayload; the status is a string type.
pub record RiskControlPayload : Type 0 where
  pub strategy_id : Text
  pub provider : Text
  pub symbol : Text
  pub status : Text
  pub reason : Text
  pub breach_type : Text
  pub metrics : Map Text Text
  pub kill_switch_engaged : Bool
  pub circuit_breaker_open : Bool
  pub timestamp : Time

-- The payload of an event: the types that the code stores there. `F` is the type of floats, and `A`
-- that of the payloads of extensions.
pub data Payload (F A : Type 0) : Type 0 where
  trade : TradePayload → Payload F A
  ticker : TickerPayload → Payload F A
  book_snapshot : BookSnapshotPayload → Payload F A
  exec_report : ExecReportPayload → Payload F A
  kline_summary : KlineSummaryPayload → Payload F A
  instrument_update : Instrument F → Payload F A
  balance_update : BalanceUpdatePayload → Payload F A
  risk_control : RiskControlPayload → Payload F A
  extension : A → Payload F A

-- The constants of EventType.
unfoldable pub event_type : {F A : Type 0} → Payload F A → Text
event_type (trade p) = codes "Trade"
event_type (ticker p) = codes "Ticker"
event_type (book_snapshot p) = codes "BookSnapshot"
event_type (exec_report p) = codes "ExecReport"
event_type (kline_summary p) = codes "KlineSummary"
event_type (instrument_update i) = codes "InstrumentUpdate"
event_type (balance_update p) = codes "BalanceUpdate"
event_type (risk_control p) = codes "RiskControl"
event_type (extension a) = codes "Extension"
