-- ===== src/Schema/Book.antt =====
-- internal/domain/schema/event.go: order book payloads.
use meltica_gateway.Common.{ℕ, List}
use meltica_gateway.Common.Text.{Text}
use meltica_gateway.Schema.Order.{Time}

pub record PriceLevel : Type 0 where
  pub price : Text
  pub quantity : Text

pub record BookSnapshotPayload : Type 0 where
  pub bids : List PriceLevel
  pub asks : List PriceLevel
  pub checksum : Text
  pub last_update : Time
  pub first_update_id : ℕ
  pub final_update_id : ℕ
