-- ===== src/Publisher/Report.antt =====
-- exec_report.go: execution reports from an adapter's state of an order, over any floats.
use meltica_gateway.Common.{◌&&◌, not, Option, [], if◌then◌else◌}
use meltica_gateway.Common.Text.{Text, codes, text_beq}
use meltica_gateway.Common.Int.{ℤ, is_positive, pos}
use meltica_gateway.Common.Float.{Float}
use meltica_gateway.Schema.Order.{Time, TradeSide, ExecReportState, ExecReportPayload}
use meltica_gateway.Schema.Instrument.{normalize_currency_code}

-- ExecReportSnapshot
pub record ExecReportSnapshot (F : Type 0) : Type 0 where
  pub client_order_id : Text
  pub exchange_order_id : Text
  pub state : ExecReportState
  pub side : TradeSide
  pub order_type : Text
  pub price : F
  pub quantity : F
  pub filled : F
  pub remaining : F
  pub avg_fill_price : F
  pub price_precision : ℤ
  pub quantity_precision : ℤ
  pub base_currency : Text
  pub commission_rate : F
  pub timestamp : Time
  pub reject_reason : Option Text

-- `print` is fmt.Sprintf of "%.*f".
module _ (float : Float) (print : ℤ → float.F → Text) where
  open float use {F, fzero, fmul, flt, is_nan, is_inf}

  -- formatWithPrecision
  unfoldable pub format_with_precision : F → ℤ → Text
  format_with_precision value precision =
      print (if is_positive precision then precision else pos 2) value

  -- The commission of BuildExecReportPayload.
  unfoldable pub commission_text : ExecReportSnapshot F → Text
  commission_text s =
      let commission = fmul s.filled s.commission_rate in
      if flt fzero s.commission_rate && not (text_beq s.base_currency []) && flt fzero s.filled
      then (if flt fzero commission && not (is_nan commission) && not (is_inf commission)
          then format_with_precision commission s.quantity_precision
          else [])
      else []

  -- BuildExecReportPayload
  unfoldable pub build_exec_report_payload : ExecReportSnapshot F → ExecReportPayload
  build_exec_report_payload s =
      let market = text_beq s.order_type (codes "Market") && flt fzero s.avg_fill_price in
      let price_value = if market then s.avg_fill_price else s.price in
      record {
        client_order_id = s.client_order_id;
        exchange_order_id = s.exchange_order_id;
        state = s.state;
        side = s.side;
        order_type = s.order_type;
        price = format_with_precision price_value s.price_precision;
        quantity = format_with_precision s.quantity s.quantity_precision;
        filled_quantity = format_with_precision s.filled s.quantity_precision;
        remaining_qty = format_with_precision s.remaining s.quantity_precision;
        avg_fill_price = format_with_precision s.avg_fill_price s.price_precision;
        commission_amount = commission_text s;
        commission_asset = normalize_currency_code s.base_currency;
        timestamp = s.timestamp;
        reject_reason = s.reject_reason;
      }
