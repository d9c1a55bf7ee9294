-- ===== src/Core/Events.antt =====
-- base.go: the events that a lambda is given, and what they do to its market state, the risk manager,
-- the order store and the strategy. Each handler calls a method of the strategy at its end; the calls are
-- listed, and what the strategy does in them, as to submit an order, is left out: it is a call of
-- Core.Orders on the desk that the handler leaves.
mod Records
unfoldable pub use Records.*
use meltica_gateway.Common.{
  Bool, true, false, not, ◌&&◌, Option, none, some, List, [], ◌∷◌, ◌++◌, nat_eq, or_else,
  if◌then◌else◌,
}
use meltica_gateway.Common.Text.{Text, codes, text_beq, trim_space, to_upper}
use meltica_gateway.Common.Map.{Map}
use meltica_gateway.Schema.Order.{
  ExecReportPayload, ExecReportState, ack, partial, filled, cancelled, rejected, expired,
  other_state, Time,
}
use meltica_gateway.Schema.Book.{BookSnapshotPayload, PriceLevel}
use meltica_gateway.Schema.Instrument.{Instrument}
use meltica_gateway.Schema.Payload.{
  Payload, TradePayload, TickerPayload, KlineSummaryPayload, BalanceUpdatePayload,
  RiskControlPayload, trade, ticker, book_snapshot, exec_report, kline_summary, instrument_update,
  balance_update, risk_control, extension,
}
use meltica_gateway.Schema.Route.{Event}
use meltica_gateway.Publisher.Emit.{uint64_text, decimal_text}
use meltica_gateway.Risk.Types.{Outside, Manager}
use meltica_gateway.Risk.Fills.{handle_execution}
use meltica_gateway.Risk.Handlers.{observe_market_price}
use meltica_gateway.Core.Config.{
  BaseLambda, matches_provider, matches_symbol, matches_balance_currency, is_my_order,
}
use meltica_gateway.Core.Orders.{
  Desk, StoreCall, report, upsert_balance, OrderUpdate, Execution, BalanceSnapshot, unix, unix_ptr,
}

module _ {F A : Type 0} where
  -- The filters of handleEvent.
  unfoldable pub passes : Text → Event (Payload F A) → BaseLambda F → Bool
  passes typ evt l =
      matches_provider l evt
      && (if text_beq typ (codes "Extension")
          then true
          else if text_beq typ (codes "BalanceUpdate")
          then matches_balance_currency l evt.symbol
          else matches_symbol l evt)

module _ {o : Outside} where
  open o use {decimal, float}

  -- A price that the risk manager is told, if it is one.
  unfoldable pub observe : Manager o → Text → Option decimal.Num → Manager o
  observe m symbol none = m
  observe m symbol (some price) = observe_market_price m symbol price

  -- The middle of the best bid and ask.
  unfoldable pub mid_price : Around o → BookSnapshotPayload → Option decimal.Num
  mid_price x p = elim p.bids [
    | [] ↦ none
    | bid ∷ _ ↦ elim p.asks [
      | [] ↦ none
      | a ∷ _ ↦ elim (decimal.parse bid.price) [
        | none ↦ none
        | some b ↦ elim (decimal.parse a.price) [
          | none ↦ none
          | some c ↦ some (x.half (decimal.add b c))
        ]
      ]
    ]
  ]

  -- The best price of a side as a float, or the one before.
  unfoldable pub best_price : Around o → List PriceLevel → float.F → float.F
  best_price x [] old = old
  best_price x (level ∷ levels) old = (x.parse_float level.price).0

module _ {o : Outside} {A : Type 0} where
  open o use {decimal, float}

  -- handleTrade
  unfoldable pub handle_trade :
      Around o → Event (Payload float.F A) → TradePayload → Desk o → Handled o A
  handle_trade x evt p d =
      let (price, failed) = x.parse_float p.price in
      if failed then record { desk = d; told = [] } else record {
        desk = record d {
          base = record d.base { last_price = price };
          risk = observe d.risk evt.symbol (decimal.parse p.price);
        };
        told = on_trade p price ∷ [];
      }

  -- handleTicker
  unfoldable pub handle_ticker :
      Around o → Event (Payload float.F A) → TickerPayload → Desk o → Handled o A
  handle_ticker x evt p d = record {
    desk = record d {
      base = record d.base {
        last_price = (x.parse_float p.last_price).0;
        bid_price = (x.parse_float p.bid_price).0;
        ask_price = (x.parse_float p.ask_price).0;
      };
      risk = observe d.risk evt.symbol (decimal.parse p.last_price);
    };
    told = on_ticker p ∷ [];
  }

  -- handleBookSnapshot
  unfoldable pub handle_book_snapshot :
      Around o → Event (Payload float.F A) → BookSnapshotPayload → Desk o → Handled o A
  handle_book_snapshot x evt p d = record {
    desk = record d {
      base = record d.base {
        bid_price = best_price x p.bids d.base.bid_price;
        ask_price = best_price x p.asks d.base.ask_price;
      };
      risk = observe d.risk evt.symbol (mid_price x p);
    };
    told = on_book_snapshot p ∷ [];
  }

  -- handleExecReport. A lambda in its dry run stores nothing.
  unfoldable pub handle_exec_report :
      Around o → Event (Payload float.F A) → ExecReportPayload → Desk o → Handled o A
  handle_exec_report x evt p d =
      if not (is_my_order d.base.id p.client_order_id)
      then record { desk = d; told = [] }
      else record {
        desk = record d {
          risk = handle_execution d.risk x.now evt.symbol p;
          stored = if d.base.dry_run then d.stored else d.stored ++ exec_call evt p x.now ∷ [];
        };
        told = exec_callback p;
      }

  -- The switch of handleEvent, whose handlers ask for the payload of their type.
  unfoldable pub dispatch_event :
      Around o → Text → Event (Payload float.F A) → Payload float.F A → Desk o → Handled o A
  dispatch_event x typ evt (trade p) d =
      if text_beq typ (codes "Trade")
      then handle_trade x evt p d
      else record { desk = d; told = [] }
  dispatch_event x typ evt (ticker p) d =
      if text_beq typ (codes "Ticker")
      then handle_ticker x evt p d
      else record { desk = d; told = [] }
  dispatch_event x typ evt (book_snapshot p) d =
      if text_beq typ (codes "BookSnapshot")
      then handle_book_snapshot x evt p d
      else record { desk = d; told = [] }
  dispatch_event x typ evt (exec_report p) d =
      if text_beq typ (codes "ExecReport")
      then handle_exec_report x evt p d
      else record { desk = d; told = [] }
  dispatch_event x typ evt (kline_summary p) d = record {
    desk = d;
    told = if text_beq typ (codes "KlineSummary") then on_kline_summary p ∷ [] else [];
  }
  dispatch_event x typ evt (instrument_update p) d = record {
    desk = d;
    told = if text_beq typ (codes "InstrumentUpdate") then on_instrument_update p ∷ [] else [];
  }
  dispatch_event x typ evt (balance_update p) d =
      if text_beq typ (codes "BalanceUpdate")
      then record {
        desk = record d { stored = d.stored ++ upsert_balance (balance_row evt p x.now) ∷ [] };
        told = on_balance_update p ∷ [];
      }
      else record { desk = d; told = [] }
  dispatch_event x typ evt (risk_control p) d = record {
    desk = d;
    told =
        if text_beq typ (codes "RiskControl")
        then on_risk_control (fill_risk_control evt p) ∷ []
        else [];
  }
  dispatch_event x typ evt (extension p) d = record { desk = d; told = [] }

  -- handleEvent on an event that came by the subscription to a type. The event then goes back to the
  -- pool.
  unfoldable pub handle_event : Around o → Text → Event (Payload float.F A) → Desk o → Handled o A
  handle_event x typ evt d =
      if not (passes typ evt d.base)
      then record { desk = d; told = [] }
      else if text_beq typ (codes "Extension")
      then record {
        desk = d;
        told = if x.takes_extensions then on_extension_event evt.payload ∷ [] else [];
      }
      else elim evt.payload [
        | none ↦ record { desk = d; told = [] }
        | some p ↦ dispatch_event x typ evt p d
      ]

  -- The events of a lambda's subscriptions, in the order in which they are handled.
  unfoldable pub handle_all :
      Around o → List (Text × Event (Payload float.F A)) → Desk o → Handled o A
  handle_all x [] d = record { desk = d; told = [] }
  handle_all x ((typ, evt) ∷ events) d =
      let first = handle_event x typ evt d in
      let rest = handle_all x events first.desk in
      record { desk = rest.desk; told = first.told ++ rest.told }
